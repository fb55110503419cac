-- ===== src/CacheGc/Classify/Recent.antt =====
-- When a row counts as recent, and when a blob is eligible, in terms of its times.

use Prim.Native.Nat.{max}
use regimux.Prelude.{
  ℕ, zero, suc, if◌then◌else◌, ◌<◌, ◌≡◌, refl, ◌≢◌, ◌↔◌, ◌⊎◌, true, false, List, [], ◌∷◌, some,
  arith, String,
}
use regimux.CacheGc.Records.{BlobRecord, contains, is_zero, after}
use regimux.CacheGc.Classify.{latest_of, is_recent, classify, reason_eligible}

-- Every set time is before the cutoff, and one time is set.
abbrev pub AllBefore : ℕ → List ℕ → Type 0
AllBefore cutoff [] = Unit {0}
AllBefore cutoff (t ∷ ts) = ((t ≡ 0) ⊎ (t < cutoff)) × AllBefore cutoff ts

abbrev pub AnySet : List ℕ → Type 0
AnySet [] = ⊥
AnySet (t ∷ ts) = (t ≢ 0) ⊎ AnySet ts

-- The latest time found, started from `m`.
latest : ℕ → List ℕ → ℕ
latest m [] = m
latest m (t ∷ ts) = latest (max m t) ts

latest_of-some : (m : ℕ) (ts : List ℕ) → latest_of (some m) ts ≡ some (latest m ts)
unfolding latest_of latest
latest_of-some m [] = refl
latest_of-some m (t ∷ ts) =
    let e : (if is_zero t then m else if after t m then t else m) ≡ max m t = ground arith in
    rw e (latest_of-some (max m t) ts)

latest_iff :
    (cutoff m : ℕ) (ts : List ℕ) → (latest m ts < cutoff) ↔ ((m < cutoff) × AllBefore cutoff ts)
unfolding latest
latest_iff cutoff m [] = (λ h. (h, tt), λ h. h.0)
latest_iff cutoff m (t ∷ ts) = ground (arith, latest_iff cutoff (max m t) ts)

-- A row counts as not recent exactly if one of its times is set and every set time is before the cutoff.
pub is_recent_iff :
    (cutoff : ℕ) (ts : List ℕ) → (is_recent cutoff ts ≡ false) ↔ (AnySet ts × AllBefore cutoff ts)
unfolding is_recent
is_recent_iff cutoff [] = ground arith
is_recent_iff cutoff (zero ∷ ts) = ground (arith, is_recent_iff cutoff ts)
is_recent_iff cutoff (suc t ∷ ts) =
    ground (arith, latest_of-some (suc t) ts, latest_iff cutoff (suc t) ts)

-- A blob is eligible exactly if live metadata does not protect it and, with pruning, one of its three
-- times is set and every set one is before the cutoff; without pruning, if its last access is set
-- and before the cutoff.
pub classify_eligible_iff :
    (b : BlobRecord) (cutoff : ℕ) (protected : List String)
    → ((classify b cutoff protected true ≡ reason_eligible) ↔ (
        (contains b.digest protected ≡ false)
        × AnySet (b.last_access_at ∷ b.updated_at ∷ b.created_at ∷ [])
        × AllBefore cutoff (b.last_access_at ∷ b.updated_at ∷ b.created_at ∷ [])))
      × ((classify b cutoff protected false ≡ reason_eligible) ↔ (
          (contains b.digest protected ≡ false)
          × (b.last_access_at ≢ 0)
          × (b.last_access_at < cutoff)))
unfolding classify
classify_eligible_iff b cutoff protected =
    let times = b.last_access_at ∷ b.updated_at ∷ b.created_at ∷ [] in
    ground (arith, is_recent_iff cutoff times)
