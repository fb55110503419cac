-- ===== src/CacheGc/Triple/Yields.antt =====
-- Postconditions on the answer of a step of internal/cachegc alone.
use regimux.Prelude.{◌≡◌, Bool, true, false, List, if◌then◌else◌}
use regimux.CacheGc.Outcome.{Result, ok, err}
use regimux.CacheGc.World.{Action, World, Gc, pure, ◌>>=◌}
use regimux.CacheGc.Triple.{Ends, Triple, Triple-pure, Triple-if, Triple-bind}

abbrev pub Anything : List Action → Type 0
Anything t = Unit {0}

abbrev pub Yields : {A : Type 0} → Gc A → (A → Type 0) → Type 0
Yields m Q = Triple Anything Anything m (λ a _. Q a)

pub pure-Yields : {A : Type 0} (Q : A → Type 0) (a : A) → Q a → Yields (pure a) Q
pure-Yields Q a q = Triple-pure Anything Anything (λ x _. Q x) a (λ t p. q)

pub any-Yields : {A : Type 0} (m : Gc A) → Yields m (λ _. Unit {0})
any-Yields {A = A} m = record { at = λ w p. go (m w).0 (m w).1 }
  where
    go : (r : Result A) (v : World) → Ends (λ _ t. Anything t) Anything r v
    go (ok a) v = tt
    go (err e) v = tt

pub bind-Yields :
    {A B : Type 0} (Q : A → Type 0) (Q' : B → Type 0) (m : Gc A) (f : A → Gc B)
    → Yields m Q
    → ((a : A) → Q a → Yields (f a) Q')
    → Yields (m >>= f) Q'
bind-Yields Q Q' m f h k =
    Triple-bind Anything Anything (λ a _. Q a) (λ b _. Q' b) m f h
      λ a. record { at = λ w q. (k a q).at w tt }

pub step-Yields :
    {A B : Type 0} (Q' : B → Type 0) (m : Gc A) (f : A → Gc B)
    → ((a : A) → Yields (f a) Q')
    → Yields (m >>= f) Q'
step-Yields Q' m f k = bind-Yields (λ _. Unit {0}) Q' m f (any-Yields m) (λ a _. k a)

pub if-Yields :
    {A : Type 0} (Q : A → Type 0) (b : Bool) (m n : Gc A)
    → (b ≡ true → Yields m Q)
    → (b ≡ false → Yields n Q)
    → Yields (if b then m else n) Q
if-Yields Q b m n h k = Triple-if Anything Anything (λ a _. Q a) b m n h k
