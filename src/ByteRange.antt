-- ===== src/ByteRange.antt =====
-- internal/store/object/range.go: the ranges of HTTP requests. `Text` has the parser and the printer
-- over the bytes of a header.
pub mod Examples
pub mod Text
pub mod Coverage
pub mod RoundTrip
use regimux.Prelude.{ℕ, ◌≡◌, Bool, true, false, not, ◌&&◌, ◌||◌, Option, none, some, if◌then◌else◌}
use regimux.Prelude.Int.{ℤ, pos, negsuc, ltb_ℤ, leb_ℤ, eqb_ℤ, min_ℤ, add64, sub64}

-- A suffix range has the start -1 and its length as the end; an open-ended range has the end -1.
pub record HttpRange : Type 0 where
  pub start : ℤ
  pub end : ℤ

pub data RangeError : Type 0 where
  unit_unsupported not_single missing_dash empty_range invalid_suffix invalid_start invalid_end
        end_before_start :
      RangeError
  negative_size empty_content start_beyond_size unsatisfiable invalid_range : RangeError

infixl 5 ◌>>=◌
pub data Parsed (A : Type 0) : Type 0 where
  ok : A → Parsed A
  err : RangeError → Parsed A

unfoldable pub ◌>>=◌ : {A B : Type 0} → Parsed A → (A → Parsed B) → Parsed B
◌>>=◌ (ok a) f = f a
◌>>=◌ (err e) f = err e

unfoldable pub is_suffix : HttpRange → Bool
is_suffix r = ltb_ℤ r.start (pos 0) && ltb_ℤ (pos 0) r.end

unfoldable pub is_open_ended : HttpRange → Bool
is_open_ended r = leb_ℤ (pos 0) r.start && ltb_ℤ r.end (pos 0)

unfoldable pub validate_content_size : ℤ → Option RangeError
validate_content_size size =
    if ltb_ℤ size (pos 0)
    then some negative_size
    else if eqb_ℤ size (pos 0)
    then some empty_content
    else none

unfoldable pub resolve_suffix : HttpRange → ℤ → HttpRange
resolve_suffix r size =
    let length = min_ℤ r.end size in record { start = sub64 size length; end = sub64 size (pos 1) }

unfoldable pub resolve_open_ended : HttpRange → ℤ → Parsed HttpRange
resolve_open_ended r size =
    if leb_ℤ size r.start
    then err start_beyond_size
    else ok (record { start = r.start; end = sub64 size (pos 1) })

unfoldable pub resolve_bounded : HttpRange → ℤ → Parsed HttpRange
resolve_bounded r size =
    if ltb_ℤ r.start (pos 0) || ltb_ℤ r.end r.start || leb_ℤ size r.start
    then err unsatisfiable
    else (let end = min_ℤ r.end (sub64 size (pos 1)) in ok (record { start = r.start; end = end }))

-- `first_of a b` is what `GetFirst` answers for a range set of collectionx to which only the
-- half-open range from `a` to `b` was added; `none` where `Add` refuses it.
module _ (first_of : ℤ → ℤ → Option (ℤ × ℤ)) where
  unfoldable pub resolve_interval : HttpRange → Parsed HttpRange
  resolve_interval r = elim (first_of r.start (add64 r.end (pos 1))) [
    | none ↦ err invalid_range
    | some (start, end) ↦
        if ltb_ℤ start (pos 0) || leb_ℤ end start
        then err invalid_range
        else ok (record { start = start; end = sub64 end (pos 1) })
  ]

  unfoldable pub resolve : HttpRange → ℤ → Parsed HttpRange
  resolve r size = elim (validate_content_size size) [
    | some e ↦ err e
    | none ↦
        if is_suffix r
        then resolve_interval (resolve_suffix r size)
        else if is_open_ended r
        then (resolve_open_ended r size >>= resolve_interval)
        else (resolve_bounded r size >>= resolve_interval)
  ]

unfoldable pub length : HttpRange → ℤ
length r =
    if ltb_ℤ r.start (pos 0) || ltb_ℤ r.end r.start
    then pos 0
    else add64 (sub64 r.end r.start) (pos 1)
