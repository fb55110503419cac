-- ===== src/Coalescer/Examples.antt =====
-- Two callers of internal/coalescer/tracker.go over a map that is a function.
use text.Mathlib.Text.{◌==◌}
use text.Mathlib.TextEquality.{eq_iff}
use regimux.Prelude.{
  ℕ, ◌≡◌, ◌≢◌, refl, ◌⊎◌, inl, Bool, true, false, Option, none, some, String, arith, if◌then◌else◌,
}
use regimux.Coalescer.{ConcurrentMap, FillError, Tracker, new_tracker, begin, finish, wait}
use regimux.Coalescer.Leaders.{IsMap, Leads, start, leads, Reachable-leads, Reachable-follows}

abbrev store : Option ℕ → String → ℕ → (String → Option ℕ) → (ℕ × Bool) × (String → Option ℕ)
store (some w) k v m = ((w, true), m)
store none k v m = ((v, false), λ j. if j == k then some v else m j)

abbrev map : ConcurrentMap
map = record {
  Map = String → Option ℕ;
  empty = λ k. none;
  get = λ k m. m k;
  get_or_store = λ k v m. store (m k) k v m;
  load_and_delete = λ k m j. if j == k then none else m j;
}

map-IsMap : IsMap map
map-IsMap = record {
  get-empty = λ k. refl;
  get_or_store-old = λ k v w m e. rw e refl;
  get_or_store-new = λ k v m e. rw e refl;
  get-kept = λ k j v w m e. rw e refl;
  get-stored = λ k v m e. stored k v m e;
  get-other = λ k j v m n. other k j v (m k) m n;
  get-deleted = λ k m. ground (arith, eq_iff k k);
  get-remaining = λ k j m n. ground (arith, eq_iff j k);
}
  where
    stored :
        (k : String) (v : ℕ) (m : String → Option ℕ) → m k ≡ none → (store (m k) k v m).1 k ≡ some v
    stored k v m e = rw e (ground (arith, eq_iff k k))

    other :
        (k j : String) (v : ℕ) (o : Option ℕ) (m : String → Option ℕ)
        → j ≢ k
        → (store o k v m).1 j ≡ m j
    other k j v (some w) m n = refl
    other k j v none m n = ground (arith, eq_iff j k)

abbrev busy : Tracker map
busy = (begin map "k" (new_tracker map)).1

abbrev led : Leads
led j f = ((j ≡ "k") × (f ≡ (new_tracker map).next)) ⊎ ⊥

abbrev key : String
key = "k"

abbrev no_key : String
no_key = ""

some_key : key ≢ no_key
some_key = λ p. ground (arith, eq_iff key no_key)

began : (begin map "k" (new_tracker map)).0 ≡ (some (new_tracker map).next, true)
unfolding begin new_tracker
began = refl

joined : (begin map "k" busy).0 ≡ (some 0, false)
unfolding begin new_tracker
joined = refl

zero_next : 0 ≡ (new_tracker map).next
unfolding new_tracker
zero_next = refl

Reachable-leads_example :
    ((g : ℕ) → led "k" g → 0 ≡ g)
    × (wait map 0 busy ≡ none)
    × ((e : FillError)
        → (wait map 0 (finish map "k" 0 e busy) ≡ some e)
          × ((begin map "k" (finish map "k" 0 e busy)).0 ≡ (some busy.next, true)))
Reachable-leads_example =
    Reachable-leads map map-IsMap busy led "k" 0 (leads "k" start some_key began)
      (inl (refl, zero_next)) some_key

Reachable-follows_example : led "k" 0
Reachable-follows_example =
    Reachable-follows map map-IsMap busy led "k" 0 (leads "k" start some_key began) some_key joined
