-- ===== src/Coalescer.antt =====
-- internal/coalescer/tracker.go: fills of a key that run once for all who ask. The concurrent map of
-- collectionx is an interface, each of whose methods is one step; a fill is a number, and the heap
-- says which fills are done and with what error. Nil trackers and nil fills are left out.
pub mod Leaders
pub mod Examples
use text.Mathlib.Text.{◌==◌}
use regimux.Prelude.{
  ℕ, suc, ◌+◌, ◌≡◌, Bool, true, false, not, ◌&&◌, List, [], ◌∷◌, Option, none, some, String,
  ◌==◌ as nat_eq, if◌then◌else◌,
}

-- The methods that are used: what `GetOrStore` answers and whether it was loaded, `Get`, and the map
-- behind `LoadAndDelete`.
pub record ConcurrentMap : Type 1 where
  pub Map : Type 0
  pub empty : Map
  pub get : String → Map → Option ℕ
  pub get_or_store : String → ℕ → Map → (ℕ × Bool) × Map
  pub load_and_delete : String → Map → Map

-- An error of a fill; 0 is nil.
abbrev pub FillError : Type 0
FillError = ℕ

module _ (c : ConcurrentMap) where
  -- `outcome` is none while the channel of a fill is open.
  pub record Tracker : Type 0 where
    pub fills : c.Map
    pub outcome : ℕ → Option FillError
    pub next : ℕ

  unfoldable pub new_tracker : Tracker
  new_tracker = record { fills = c.empty; outcome = λ f. none; next = 0 }

  -- The fill, none for the empty key, and whether the caller leads it.
  unfoldable pub begin : String → Tracker → (Option ℕ × Bool) × Tracker
  begin key t =
      if key == ""
      then ((none, true), t)
      else (let ((actual, loaded), fills) = c.get_or_store key t.next t.fills in
          ((some actual, not loaded), record t { fills = fills; next = t.next + 1 }))

  unfoldable pub current : String → Tracker → Option ℕ
  current key t = if key == "" then none else c.get key t.fills

  unfoldable pub finish : String → ℕ → FillError → Tracker → Tracker
  finish key fill error t = record t {
    fills = c.load_and_delete key t.fills;
    outcome = λ f. if nat_eq f fill then some error else t.outcome f;
  }

  -- `Wait` of a caller whose context goes on: `none` while it blocks.
  unfoldable pub wait : ℕ → Tracker → Option FillError
  wait fill t = t.outcome fill
