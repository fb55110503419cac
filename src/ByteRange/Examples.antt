-- ===== src/ByteRange/Examples.antt =====
-- The ranges of internal/store/object/range.go at concrete headers and sizes.
use regimux.Prelude.{◌≡◌, refl, Option, some, arith}
use regimux.Prelude.Int.{ℤ, pos}
use regimux.ByteRange.{ok, resolve}
use regimux.ByteRange.Text.{parse_range, string}
use regimux.ByteRange.Coverage.{suffix, bounded, range_of, Covers, resolve-Covers}
use regimux.ByteRange.RoundTrip.{parse_range-string}

-- A range set with one added range answers it.
abbrev one_added : ℤ → ℤ → Option (ℤ × ℤ)
one_added a b = some (a, b)

-- The last 500 bytes of 1200.
resolve-Covers_example :
    Covers (suffix 500) 1200 (resolve one_added (range_of (suffix 500)) (pos 1200))
resolve-Covers_example =
    resolve-Covers one_added (λ a b h. refl) (suffix 500) 1200 (omega arith, omega arith)
      (omega arith)

-- "bytes=0-1023".
parse_range-string_example :
    parse_range (string (range_of (bounded 0 1023))) ≡ ok (some (range_of (bounded 0 1023)))
parse_range-string_example = parse_range-string (bounded 0 1023) (omega arith, omega arith)
