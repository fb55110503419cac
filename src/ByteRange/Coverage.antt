-- ===== src/ByteRange/Coverage.antt =====
-- What `Resolve` of internal/store/object/range.go covers.
use regimux.Prelude.{
  subst, sym, ◌∙◌, zero, min, leb, ℕ, suc, ◌+◌, ◌-◌, ◌≤◌, ◌<◌, ◌≡◌, refl, true, false, Option, some,
  arith, ltb,
}
use regimux.Prelude.Int.{ℤ, pos, negsuc, half_word, add64-pos, sub64-pos}
use regimux.ByteRange.{
  HttpRange, RangeError, start_beyond_size, unsatisfiable, Parsed, ok, err, resolve,
  resolve_interval, resolve_suffix, resolve_open_ended, resolve_bounded, is_suffix, is_open_ended,
  validate_content_size, length, ◌>>=◌,
}

-- The ranges that the parser gives.
pub data Requested : Type 0 where
  suffix : ℕ → Requested
  open_ended : ℕ → Requested
  bounded : ℕ → ℕ → Requested

abbrev pub range_of : Requested → HttpRange
range_of (suffix n) = record { start = negsuc 0; end = pos n }
range_of (open_ended a) = record { start = pos a; end = negsuc 0 }
range_of (bounded a b) = record { start = pos a; end = pos b }

-- The byte at an offset is asked for.
abbrev pub Asks : Requested → ℕ → ℕ → Type 0
Asks (suffix n) size i = size ≤ i + n
Asks (open_ended a) size i = a ≤ i
Asks (bounded a b) size i = (a ≤ i) × (i ≤ b)

abbrev pub IsRequest : Requested → Type 0
IsRequest (suffix n) = (0 < n) × (n < half_word)
IsRequest (open_ended a) = a < half_word
IsRequest (bounded a b) = (a ≤ b) × (b < half_word)

-- The answer covers exactly the bytes of the content that are asked for, and its length counts them.
abbrev pub Covers : Requested → ℕ → Parsed HttpRange → Type 0
Covers q size (err e) = (i : ℕ) → i < size → ¬ Asks q size i
Covers q size (ok r) =
    (a : ℕ) × (b : ℕ) × (r ≡ record { start = pos a; end = pos b })
    × (a ≤ b)
    × (b < size)
    × (length r ≡ pos (b - a + 1))
    × ((i : ℕ)
        → (a ≤ i → i ≤ b → (i < size) × Asks q size i)
          × (i < size → Asks q size i → (a ≤ i) × (i ≤ b)))

module _ (first_of : ℤ → ℤ → Option (ℤ × ℤ))
    (first_of_added : (a b : ℕ) → a < b → first_of (pos a) (pos b) ≡ some (pos a, pos b)) where
  resolve_interval_lem :
      (a b : ℕ)
      → a ≤ b
      → b + 1 < half_word
      → resolve_interval first_of (record { start = pos a; end = pos b })
        ≡ ok (record { start = pos a; end = pos b })
  unfolding resolve_interval
  resolve_interval_lem a b h k = ground (
    arith,
    add64-pos b 1 k,
    first_of_added a (b + 1) (omega arith),
    sub64-pos (b + 1) 1 (omega arith) k,
  )

  length_lem :
      (a b : ℕ)
      → a ≤ b
      → b + 1 < half_word
      → length (record { start = pos a; end = pos b }) ≡ pos (b - a + 1)
  unfolding length
  length_lem a b h k =
      ground (arith, sub64-pos b a h (omega arith), add64-pos (b - a) 1 (omega arith))

  covers :
      (q : Requested) (size a b : ℕ) (r : Parsed HttpRange)
      → size < half_word
      → a ≤ b
      → b < size
      → r ≡ resolve_interval first_of (record { start = pos a; end = pos b })
      → ((i : ℕ) → (a ≤ i → i ≤ b → Asks q size i) × (i < size → Asks q size i → (a ≤ i) × (i ≤ b)))
      → Covers q size r
  covers q size a b r s h k e f =
      subst (Covers q size) (sym (e ∙ resolve_interval_lem a b h (omega arith))) (
        a,
        b,
        refl,
        h,
        k,
        length_lem a b h (omega arith),
        λ i. ((λ l m. (omega arith, (f i).0 l m)), (f i).1),
      )

  abbrev answer : Requested → ℕ → Parsed HttpRange
  answer q size = resolve first_of (range_of q) (pos size)

  abbrev Answer : Requested → ℕ → Type 0
  Answer q size = Covers q size (answer q size)

  beyond :
      (q : Requested) (size : ℕ) (e : RangeError)
      → answer q size ≡ err e
      → ((i : ℕ) → i < size → ¬ Asks q size i)
      → Answer q size
  beyond q size e h k = subst (Covers q size) (sym h) k

  -- Over a range set that answers the one range added to it, for every range that the parser
  -- can give and every content of an int64's size: where `Resolve` answers a range, it lies
  -- within the content and covers exactly the bytes asked for, and `Length` counts them; where
  -- it fails, the content has no byte that is asked for.
  pub resolve-Covers :
      (q : Requested) (size : ℕ)
      → IsRequest q
      → size < half_word
      → Covers q size (resolve first_of (range_of q) (pos size))
  unfolding resolve is_suffix is_open_ended validate_content_size resolve_suffix resolve_open_ended
      resolve_bounded ◌>>=◌
  resolve-Covers q zero h s = λ i k. elim k [ ]
  resolve-Covers (suffix n) (suc m) (h, k) s =
      elim (ltb (suc m) n) as (λ t. ltb (suc m) n ≡ t → Answer (suffix n) (suc m)) [
        | true ↦ λ e.
            covers (suffix n) (suc m) 0 m (answer (suffix n) (suc m)) s (omega arith) (omega arith)
              (ground (
                arith,
                sub64-pos (suc m) (suc m) (omega arith) s,
                sub64-pos (suc m) 1 (omega arith) s,
              ))
              (λ i. ((λ a b. ground arith), λ a b. (omega arith, omega arith)))
        | false ↦ λ e.
            covers (suffix n) (suc m) (suc m - n) m (answer (suffix n) (suc m)) s (omega arith)
              (omega arith)
              (ground
                (arith, sub64-pos (suc m) n (ground arith) s, sub64-pos (suc m) 1 (omega arith) s))
              (λ i. ((λ a b. ground arith), λ a b. (omega arith, omega arith)))
      ]
        refl
  resolve-Covers (open_ended a) (suc m) h s =
      elim (leb (suc m) a) as (λ t. leb (suc m) a ≡ t → Answer (open_ended a) (suc m)) [
        | true ↦ λ e.
            beyond (open_ended a) (suc m) start_beyond_size (ground arith) (λ i k. ground arith)
        | false ↦ λ e.
            covers (open_ended a) (suc m) a m (answer (open_ended a) (suc m)) s (ground arith)
              (omega arith) (ground (arith, sub64-pos (suc m) 1 (omega arith) s))
              (λ i. ((λ a b. a), λ k l. (l, omega arith)))
      ]
        refl
  resolve-Covers (bounded a b) (suc m) (h, k) s =
      elim (leb (suc m) a) as (λ t. leb (suc m) a ≡ t → Answer (bounded a b) (suc m)) [
        | true ↦
            λ e. beyond (bounded a b) (suc m) unsatisfiable (ground arith) (λ i k. ground arith)
        | false ↦ λ e.
            covers (bounded a b) (suc m) a (min b m) (answer (bounded a b) (suc m)) s (ground arith)
              (omega arith) (ground (arith, sub64-pos (suc m) 1 (omega arith) s))
              (λ i. ((λ l m. (l, omega arith)), λ k (l, m). (l, omega arith)))
      ]
        refl
