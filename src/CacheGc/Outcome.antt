-- ===== src/CacheGc/Outcome.antt =====
-- What a step of internal/cachegc returns: a value, or the reason why the pass ends.
use regimux.Prelude.{◌≡◌, refl, ◌⊎◌, inl, inr}

pub data Error : Type 0 where
  cancelled store_failed object_failed graph_limit manifest_unreadable manifest_unparsable : Error
  json_limit json_invalid invalid_options metadata_changed : Error

pub data Result {ℓ} (V : Type ℓ) : Type ℓ where
  err : Error → Result V
  ok : V → Result V

infixl 5 ◌>>=◌
abbrev pub ◌>>=◌ {ℓ ℓ'} : {V : Type ℓ} {W : Type ℓ'} → Result V → (V → Result W) → Result W
err reason >>= next = err reason
ok v >>= next = next v

-- The parts of a chain that returned.
pub >>=-eq-ok {ℓ ℓ'} :
    {V : Type ℓ} {W : Type ℓ'} (step : Result V) (next : V → Result W) {w : W}
    → (step >>= next) ≡ ok w
    → (v : V) × (step ≡ ok v) × (next v ≡ ok w)
>>=-eq-ok (err reason) next p = cc
>>=-eq-ok (ok v) next p = (v, refl, p)

pub Result-cases {ℓ} :
    {V : Type ℓ} (r : Result V) → ((v : V) × (r ≡ ok v)) ⊎ ((reason : Error) × (r ≡ err reason))
Result-cases (err reason) = inr (reason, refl)
Result-cases (ok v) = inl (v, refl)
