-- ===== src/CacheGc/Graph/Member.antt =====
-- Membership in sets of digests.
use text.Mathlib.Text.{◌==◌}
use text.Mathlib.TextEquality.{eq_iff}
use regimux.Prelude.{◌≡◌, refl, false, ◌||◌, List, [], ◌∷◌, ◌++◌, String, arith}
use regimux.CacheGc.Records.{contains, insert}

pub contains-append :
    (d : String) (xs ys : List String) → contains d (xs ++ ys) ≡ (contains d xs || contains d ys)
unfolding contains
contains-append d [] ys = refl
contains-append d (x ∷ xs) ys = ground (arith, contains-append d xs ys)

pub contains-cons :
    (d x : String) (xs : List String) → contains d (x ∷ xs) ≡ (x == d || contains d xs)
unfolding contains
contains-cons d x xs = refl

pub contains-nil : (d : String) → contains d [] ≡ false
unfolding contains
contains-nil d = refl

pub contains-insert :
    (d x : String) (xs : List String) → contains d (insert x xs) ≡ (x == d || contains d xs)
unfolding insert
contains-insert d x xs = ground (arith, eq_iff x d, contains-cons d x xs)
