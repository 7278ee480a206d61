-- ===== src/Cronx/Wall/Sets.antt =====
-- sort.SearchInts finds the least member that is not less; nothing is between.
use paceq.Base.{
  ℕ, ◌≤◌, ◌<◌, ◌≡◌, refl, sym, true, false, List, [], ◌∷◌, none, some, inl, inr, arith,
}
use paceq.Base.Tests.{ltb, leb, Bool-cases}
use paceq.Base.Lists.{get_elem?}
use paceq.Cronx.Wall.{search_ints, contains_int}

abbrev pub In : List ℕ → ℕ → Type 0
In set v = contains_int set v ≡ true

-- `v` is the least member from `x` on.
pub record IsLeastFrom (set : List ℕ) (x v : ℕ) : Type 0 where
  pub bound : x ≤ v
  pub member : In set v
  pub least : (u : ℕ) → x ≤ u → In set u → v ≤ u

contains_nil : (u : ℕ) → contains_int [] u ≡ false
unfolding contains_int
contains_nil u = refl

contains_here : (set : List ℕ) (a : ℕ) → contains_int (a ∷ set) a ≡ true
unfolding contains_int search_ints
contains_here set a = ground arith

contains_head : (set : List ℕ) (a u : ℕ) → contains_int (a ∷ set) u ≡ true → a ≤ u
unfolding contains_int search_ints
contains_head set a u h = ground arith

contains_tail : (set : List ℕ) (a u : ℕ) → a < u → contains_int (a ∷ set) u ≡ contains_int set u
unfolding contains_int search_ints
contains_tail set a u h = ground arith

pub search_least :
    (set : List ℕ) (x v : ℕ) → get_elem? set (search_ints set x) ≡ some v → IsLeastFrom set x v
unfolding search_ints
search_least [] x v h = absurd (cc)
search_least (a ∷ set) x v h = elim (Bool-cases (leb x a)) [
  | inl le ↦
      let same : a ≡ v = ground arith in
      record {
        bound = ground arith;
        member = rw (sym same) (contains_here set a);
        least = λ u _ m. rw (sym same) (contains_head set a u m);
      }
  | inr gt ↦
      let rest = search_least set x v (ground arith) in
      let bound = rest.bound in
      record {
        bound = bound;
        member = rw (contains_tail set a v (ground arith)) rest.member;
        least = λ u le m. rest.least u le (rw (contains_tail set a u (ground arith)) at m);
      }
]

pub search_none :
    (set : List ℕ) (x u : ℕ)
    → get_elem? set (search_ints set x) ≡ none
    → x ≤ u
    → contains_int set u ≡ false
unfolding search_ints
search_none [] x u h le = contains_nil u
search_none (a ∷ set) x u h le =
    let behind : ltb a u ≡ true = ground arith in
    rw (contains_tail set a u (ground arith)) (search_none set x u (ground arith) le)

-- The first number of a set that lists its least number first, as a sorted one does.
pub first_least :
    (set : List ℕ) (v : ℕ) → get_elem? set 0 ≡ some v → In set v × ((u : ℕ) → In set u → v ≤ u)
first_least [] v h = absurd (cc)
first_least (a ∷ set) v h =
    let same : a ≡ v = ground arith in
    (rw (sym same) (contains_here set a), λ u m. rw (sym same) (contains_head set a u m))
