-- ===== src/JsonBudget/Lexemes.antt =====
-- What the bytes of JSON input are, apart from the scanner of internal/jsonbudget: a quote, a byte
-- inside a string, a bracket, a separator, a blank or a byte of a bare token; and what is counted.
use Prim.Native.Nat.{max}
use regimux.Prelude.{ℕ, suc, ◌||◌, List, [], ◌∷◌, ◌==◌, if◌then◌else◌}

pub data Mode : Type 0 where
  outside inside escaping : Mode

pub data Lexeme : Type 0 where
  quote content opening closing separator blank token : Lexeme

unfoldable pub classify : ℕ → Lexeme
classify c =
    if c == b'"'
    then quote
    else if c == b'{' || c == b'['
    then opening
    else if c == b'}' || c == b']'
    then closing
    else if c == b',' || c == b':'
    then separator
    else if c == b' ' || c == 9 || c == 10 || c == 13
    then blank
    else token

unfoldable pub lexeme : Mode → ℕ → Lexeme
unfolding classify
lexeme outside c = classify c
lexeme inside c = if c == b'"' then quote else content
lexeme escaping c = content

unfoldable pub mode_after : Mode → ℕ → Mode
mode_after outside c = if c == b'"' then inside else outside
mode_after inside c = if c == b'"' then outside else if c == b'\\' then escaping else inside
mode_after escaping c = inside

unfoldable pub lex : Mode → List ℕ → List Lexeme
unfolding lexeme mode_after
lex m [] = []
lex m (c ∷ rest) = lexeme m c ∷ lex (mode_after m c) rest

abbrev pub count_markers : List Lexeme → ℕ
count_markers [] = 0
count_markers (opening ∷ l) = suc (count_markers l)
count_markers (closing ∷ l) = suc (count_markers l)
count_markers (separator ∷ l) = suc (count_markers l)
count_markers (_ ∷ l) = count_markers l

abbrev pub count_content : List Lexeme → ℕ
count_content [] = 0
count_content (content ∷ l) = suc (count_content l)
count_content (_ ∷ l) = count_content l

abbrev pub openings : List Lexeme → ℕ
openings [] = 0
openings (opening ∷ l) = suc (openings l)
openings (_ ∷ l) = openings l

abbrev pub closings : List Lexeme → ℕ
closings [] = 0
closings (closing ∷ l) = suc (closings l)
closings (_ ∷ l) = closings l

-- The longest run of token bytes, behind a run of the given length. A string does not break a run
-- from within; its quotes do.
abbrev pub longest_token : ℕ → List Lexeme → ℕ
longest_token run [] = run
longest_token run (token ∷ l) = longest_token (suc run) l
longest_token run (content ∷ l) = longest_token run l
longest_token run (_ ∷ l) = max run (longest_token 0 l)
