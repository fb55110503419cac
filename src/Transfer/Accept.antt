-- ===== src/Transfer/Accept.antt =====
-- Which partial responses internal/transfer/range.go accepts.
use regimux.Prelude.{ℕ, ◌≤◌, ◌<◌, ◌≡◌, refl, ◌↔◌, true, false, Option, none, some, arith}
use regimux.Prelude.Int.{ℤ, pos, half_word}
use regimux.ByteRange.{HttpRange, Parsed, ok, err, resolve, is_suffix, is_open_ended}
use regimux.ByteRange.Coverage.{
  Requested, suffix, open_ended, bounded, range_of, Asks, IsRequest, Covers, resolve-Covers,
}
use regimux.Transfer.{validate_requested_partial_range}

-- The interval from `a` to `b` holds only bytes that are asked for.
abbrev pub AllAsked : Requested → ℕ → ℕ → ℕ → Type 0
AllAsked q size a b = (i : ℕ) → a ≤ i → i ≤ b → Asks q size i

abbrev interval : ℕ → ℕ → HttpRange
interval a b = record { start = pos a; end = pos b }

module _ (first_of : ℤ → ℤ → Option (ℤ × ℤ))
    (first_of_added : (a b : ℕ) → a < b → first_of (pos a) (pos b) ≡ some (pos a, pos b)) where
  accept_known :
      (q : Requested) (size a b : ℕ)
      → a ≤ b
      → b < size
      → (r : Parsed HttpRange) → resolve first_of (range_of q) (pos size) ≡ r
      → Covers q size r
      → (validate_requested_partial_range first_of (range_of q) (interval a b) (some size) ≡ true)
        ↔ AllAsked q size a b
  unfolding validate_requested_partial_range
  accept_known q size a b h k (err e) f c =
      ((λ x. ground arith), λ all. elim (c a (omega arith) (all a (omega arith) h)) [ ])
  accept_known q size a b h k (ok r) f (lo, hi, e, lh, hs, len, cov) = (
    (λ x i l m. ((cov i).0 (ground arith) (ground arith)).1),
    λ all.
        let low = (cov a).1 (omega arith) (all a (omega arith) h) in
        let high = (cov b).1 k (all b h (omega arith)) in ground (arith, low, high),
  )

  -- Over a range set that answers the one range added to it, for every range that the parser
  -- can give and an interval within a content whose known size is an int64: the interval is
  -- accepted exactly if all its bytes are asked for.
  pub validate_known_iff :
      (q : Requested) (size a b : ℕ)
      → IsRequest q
      → size < half_word
      → a ≤ b
      → b < size
      → (validate_requested_partial_range first_of (range_of q) (interval a b) (some size) ≡ true)
        ↔ AllAsked q size a b
  validate_known_iff q size a b h s l k =
      accept_known q size a b l k (resolve first_of (range_of q) (pos size)) refl
        (resolve-Covers first_of first_of_added q size h s)

  -- For every range that the parser can give, where the size is unknown: a suffix is refused,
  -- and another range is accepted exactly if all bytes of the interval are asked for, whatever
  -- the size is.
  pub validate_unknown_iff :
      (q : Requested) (a b : ℕ)
      → a ≤ b
      → IsRequest q
      → (validate_requested_partial_range first_of (range_of q) (interval a b) none ≡ true)
        ↔ ((is_suffix (range_of q) ≡ false) × ((size : ℕ) → AllAsked q size a b))
  unfolding validate_requested_partial_range is_suffix is_open_ended
  validate_unknown_iff (suffix n) a b h r = ground arith
  validate_unknown_iff (open_ended x) a b h r = (
    (λ e. (ground arith, λ size i l m. ground arith)),
    λ (e, f). let low = f 0 a (omega arith) h in ground arith,
  )
  validate_unknown_iff (bounded x y) a b h r = (
    (λ e. (ground arith, λ size i l m. ground arith)),
    λ (e, f). let low = f 0 a (omega arith) h in let high = f 0 b h (omega arith) in ground arith,
  )
