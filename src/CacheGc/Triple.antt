-- ===== src/CacheGc/Triple.antt =====
-- Pre- and postconditions on the trace of a cleanup step, whatever the other writers and the failures
-- are: `Q` of the answer where the step returns, and `R` where it fails.
pub mod Yields
use regimux.Prelude.{ℕ, ◌≡◌, refl, Bool, true, false, List, [], ◌∷◌, if◌then◌else◌}
use regimux.CacheGc.Outcome.{Error, Result, ok, err, store_failed}
use regimux.CacheGc.World.{
  Shared, Action, World, Event, conclude, Timing, on_time, early, late, begin, Gc, pure, raise,
  lift, operation, continue, ◌>>=◌,
}

abbrev pub Ends {ℓ} :
    {A : Type 0} → (A → List Action → Type ℓ) → (List Action → Type ℓ) → Result A → World → Type ℓ
Ends Q R (ok a) w = Q a w.trace
Ends Q R (err e) w = R w.trace

pub record Triple {ℓ} {A : Type 0} (R P : List Action → Type ℓ) (m : Gc A)
    (Q : A → List Action → Type ℓ) : Type ℓ where
  pub at : (w : World) → P w.trace → Ends Q R (m w).0 (m w).1

module _ {ℓ} {A : Type 0} (R : List Action → Type ℓ) where
  pub Triple-pure :
      (P : List Action → Type ℓ) (Q : A → List Action → Type ℓ) (a : A)
      → ((t : List Action) → P t → Q a t)
      → Triple R P (pure a) Q
  unfolding pure
  Triple-pure P Q a h = record { at = λ w p. h w.trace p }

  pub Triple-raise :
      (P : List Action → Type ℓ) (Q : A → List Action → Type ℓ) (e : Error)
      → ((t : List Action) → P t → R t)
      → Triple R P (raise e) Q
  unfolding raise
  Triple-raise P Q e h = record { at = λ w p. h w.trace p }

  pub Triple-lift :
      (P : List Action → Type ℓ) (Q : A → List Action → Type ℓ) (r : Result A)
      → ((t : List Action) → P t → R t)
      → ((a : A) (t : List Action) → r ≡ ok a → P t → Q a t)
      → Triple R P (lift r) Q
  unfolding lift
  Triple-lift P Q (ok a) h k = record { at = λ w p. k a w.trace refl p }
  Triple-lift P Q (err e) h k = record { at = λ w p. h w.trace p }

  Ends-conclude :
      (Q : A → List Action → Type ℓ) (timing : Timing) (a : A) (s s' : Shared) (es : List Event)
      (old noted : List Action)
      → R old
      → Q a noted × R noted
      → let r = conclude timing a s s' es old noted in Ends Q R r.0 r.1
  unfolding conclude
  Ends-conclude Q on_time a s s' es old noted before after = after.0
  Ends-conclude Q early a s s' es old noted before after = before
  Ends-conclude Q late a s s' es old noted before after = after.1

  -- The answer is that of the stores at some moment.
  pub Triple-operation :
      (P : List Action → Type ℓ) (Q : A → List Action → Type ℓ) (f : Shared → A × Shared)
      (note : A → List Action → List Action)
      → ((t : List Action) → P t → R t)
      → ((s : Shared) (t : List Action) → P t → Q (f s).0 (note (f s).0 t) × R (note (f s).0 t))
      → Triple R P (operation f note) Q
  unfolding operation
  Triple-operation P Q f note before after = record {
    at = λ w p.
        Ends-conclude Q (begin w.events w.shared).0 _ _ _ _ _ _ (before w.trace p)
          (after (begin w.events w.shared).1 w.trace p);
  }

  pub Triple-if :
      (P : List Action → Type ℓ) (Q : A → List Action → Type ℓ) (b : Bool) (m n : Gc A)
      → (b ≡ true → Triple R P m Q)
      → (b ≡ false → Triple R P n Q)
      → Triple R P (if b then m else n) Q
  Triple-if P Q true m n h k = h refl
  Triple-if P Q false m n h k = k refl

  -- A fact about values stands outside the trace.
  pub Triple-fact :
      (F : Type ℓ) (P : List Action → Type ℓ) (Q : A → List Action → Type ℓ) (m : Gc A)
      → (F → Triple R P m Q)
      → Triple R (λ t. F × P t) m Q
  Triple-fact F P Q m h = record { at = λ w p. (h p.0).at w p.1 }

  pub Triple-weaken :
      (P P' : List Action → Type ℓ) (Q Q' : A → List Action → Type ℓ) (m : Gc A)
      → ((t : List Action) → P' t → P t)
      → ((a : A) (t : List Action) → Q a t → Q' a t)
      → Triple R P m Q
      → Triple R P' m Q'
  Triple-weaken P P' Q Q' m pre post h = record {
    at = λ w p. go (m w).0 (m w).1 (h.at w (pre w.trace p));
  }
    where
      go : (r : Result A) (w : World) → Ends Q R r w → Ends Q' R r w
      go (ok a) w q = post a w.trace q
      go (err e) w r = r

module _ {ℓ} {A B : Type 0} (R : List Action → Type ℓ) where
  pub Triple-bind :
      (P : List Action → Type ℓ) (Q : A → List Action → Type ℓ) (Q' : B → List Action → Type ℓ)
      (m : Gc A) (f : A → Gc B)
      → Triple R P m Q
      → ((a : A) → Triple R (Q a) (f a) Q')
      → Triple R P (m >>= f) Q'
  unfolding ◌>>=◌
  Triple-bind P Q Q' m f h k = record { at = λ w p. go (m w).0 (m w).1 (h.at w p) }
    where
      go :
          (r : Result A) (w : World)
          → Ends Q R r w
          → Ends Q' R (continue r f w).0 (continue r f w).1
      go (ok a) w q = (k a).at w q
      go (err e) w r = r
