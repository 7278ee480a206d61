-- ===== src/Store/Closure/Reachable.antt =====
-- The closure holds exactly the steps that need the root, however many edges lie between.
use mathlib.Core.List.{Memᴰ}
use paceq.Base.{
  ℕ, zero, suc, ◌≤◌, ◌<◌, String, true, false, not, ◌&&◌, List, [], ◌∷◌, none, some, ◌≡◌, refl, inl,
  inr, ◌↔◌, arith, eq_iff, str_eq,
}
use paceq.Base.Tests.{Bool-cases, Option-cases}
use paceq.Base.Lists.{count_if, length}
use paceq.Store.Rows.{Dep}
use paceq.Store.Closure.{contains, direct_dependants, leads_out, new_dependant, grow, closure}

-- The step `name` needs `root`, by a chain of frozen edges of the run.
pub data Needs (run_id root : String) (deps : List Dep) : String → Type 0 where
  directly :
      {name : String} (d : Dep)
      → Memᴰ d deps
      → d.run_id ≡ run_id
      → d.depends_on ≡ root
      → d.step_name ≡ name
      → Needs run_id root deps name
  through :
      {via name : String} (d : Dep)
      → Needs run_id root deps via
      → Memᴰ d deps
      → d.run_id ≡ run_id
      → d.depends_on ≡ via
      → d.step_name ≡ name
      → Needs run_id root deps name

-- Every name of the list needs the root.
abbrev AllNeed : String → String → List Dep → List String → Type 0
AllNeed run_id root deps names = (n : String) → contains names n ≡ true → Needs run_id root deps n

direct-AllNeed :
    (run_id root : String) (all deps : List Dep)
    → ((d : Dep) → Memᴰ d deps → Memᴰ d all)
    → AllNeed run_id root all (direct_dependants run_id root deps)
unfolding direct_dependants
direct-AllNeed run_id root all [] sub n h = absurd (cc)
direct-AllNeed run_id root all (d ∷ rest) sub n h =
    let rest_sub = λ (x : Dep) (m : Memᴰ x rest). sub x (Memᴰ.tail m) in
    elim (Bool-cases (str_eq d.run_id run_id && str_eq d.depends_on root)) [
      | inl t ↦ elim (Bool-cases (str_eq d.step_name n)) [
        | inl e ↦
            directly d (sub d (Memᴰ.head refl)) (ground (arith, eq_iff d.run_id run_id))
              (ground (arith, eq_iff d.depends_on root)) ((eq_iff d.step_name n).0 e)
        | inr e ↦ direct-AllNeed run_id root all rest rest_sub n (ground arith)
      ]
      | inr f ↦ direct-AllNeed run_id root all rest rest_sub n (ground arith)
    ]

-- A dependant that the query finds needs the root, if all of the closure does.
new_dependant-Needs :
    (run_id root : String) (all deps : List Dep) (names : List String)
    → ((d : Dep) → Memᴰ d deps → Memᴰ d all)
    → AllNeed run_id root all names
    → {n : String} → new_dependant run_id names deps ≡ some n
    → Needs run_id root all n
unfolding new_dependant
new_dependant-Needs run_id root all [] names sub a e = absurd (cc)
new_dependant-Needs run_id root all (d ∷ rest) names sub a {n} e =
    elim (Bool-cases (leads_out run_id names d)) [
      | inl out ↦
          through d (a d.depends_on (ground arith)) (sub d (Memᴰ.head refl))
            (ground (arith, eq_iff d.run_id run_id)) refl (ground arith)
      | inr stays ↦
          new_dependant-Needs run_id root all rest names (λ x m. sub x (Memᴰ.tail m)) a
            (ground arith)
    ]

AllNeed-cons :
    (run_id root : String) (deps : List Dep) (names : List String) (name : String)
    → Needs run_id root deps name
    → AllNeed run_id root deps names
    → AllNeed run_id root deps (name ∷ names)
AllNeed-cons run_id root deps names name h a n c = elim (Bool-cases (str_eq name n)) [
  | inl e ↦ rw (← (eq_iff name n).0 e) h
  | inr e ↦ a n (ground arith)
]

grow-AllNeed :
    (fuel : ℕ) (run_id root : String) (deps : List Dep) (names : List String)
    → AllNeed run_id root deps names
    → AllNeed run_id root deps (grow fuel run_id deps names)
unfolding grow
grow-AllNeed zero run_id root deps names a = a
grow-AllNeed (suc fuel) run_id root deps names a =
    elim (Option-cases (new_dependant run_id names deps)) [
      | inl e ↦ rw (e, grow) a
      | inr (n, e) ↦
          rw (e, grow)
            (grow-AllNeed fuel run_id root deps (n ∷ names) (
              AllNeed-cons run_id root deps names n
                (new_dependant-Needs run_id root deps deps names (λ d m. m) a e) a))
    ]

-- The edges whose step the list does not have.
missing : List String → List Dep → ℕ
missing names = count_if (λ d. not (contains names d.step_name))

missing_mono :
    (name : String) (names : List String) (deps : List Dep)
    → missing (name ∷ names) deps ≤ missing names deps
unfolding missing
missing_mono name names [] = omega arith
missing_mono name names (d ∷ rest) = ground (arith, missing_mono name names rest)

-- A round leaves fewer of them.
missing-new_dependant :
    (run_id : String) (names : List String) (deps : List Dep) {n : String}
    → new_dependant run_id names deps ≡ some n
    → missing (n ∷ names) deps < missing names deps
unfolding missing new_dependant
missing-new_dependant run_id names [] e = absurd (cc)
missing-new_dependant run_id names (d ∷ rest) {n} e = ground (
  arith,
  missing-new_dependant run_id names rest {n = n},
  missing_mono n names rest,
  eq_iff d.step_name n,
)

missing-le-length : (names : List String) (deps : List Dep) → missing names deps ≤ length deps
unfolding missing
missing-le-length names [] = omega arith
missing-le-length names (d ∷ rest) = ground (arith, missing-le-length names rest)

-- No edge leads out of the list.
Closed : String → List Dep → List String → Type 0
Closed run_id deps names = (d : Dep) → Memᴰ d deps → leads_out run_id names d ≡ false

new_dependant-Closed :
    (run_id : String) (names : List String) (deps : List Dep)
    → new_dependant run_id names deps ≡ none
    → Closed run_id deps names
unfolding new_dependant Closed
new_dependant-Closed run_id names [] e d m = elim m [ ]
new_dependant-Closed run_id names (x ∷ rest) e d (Memᴰ.head p) = rw p (ground arith)
new_dependant-Closed run_id names (x ∷ rest) e d (Memᴰ.tail m) =
    unfold Closed in new_dependant-Closed run_id names rest (ground arith) d m

grow-Closed :
    (fuel : ℕ) (run_id : String) (deps : List Dep) (names : List String)
    → missing names deps ≤ fuel
    → Closed run_id deps (grow fuel run_id deps names)
unfolding grow
grow-Closed zero run_id deps names h = elim (Option-cases (new_dependant run_id names deps)) [
  | inl e ↦ new_dependant-Closed run_id names deps e
  | inr (n, e) ↦ absurd (omega (arith, missing-new_dependant run_id names deps e))
]
grow-Closed (suc fuel) run_id deps names h = elim (Option-cases (new_dependant run_id names deps)) [
  | inl e ↦ rw (e, grow) (new_dependant-Closed run_id names deps e)
  | inr (n, e) ↦
      rw (e, grow)
        (grow-Closed fuel run_id deps (n ∷ names)
          (omega (arith, missing-new_dependant run_id names deps e)))
]

grow-keeps :
    (fuel : ℕ) (run_id : String) (deps : List Dep) (names : List String) (n : String)
    → contains names n ≡ true
    → contains (grow fuel run_id deps names) n ≡ true
unfolding grow
grow-keeps zero run_id deps names n h = h
grow-keeps (suc fuel) run_id deps names n h =
    elim (Option-cases (new_dependant run_id names deps)) [
      | inl e ↦ rw (e, grow) h
      | inr (m, e) ↦ rw (e, grow) (grow-keeps fuel run_id deps (m ∷ names) n (ground arith))
    ]

direct_dependants-contains :
    (run_id root : String) (deps : List Dep) (d : Dep)
    → Memᴰ d deps
    → d.run_id ≡ run_id
    → d.depends_on ≡ root
    → contains (direct_dependants run_id root deps) d.step_name ≡ true
unfolding direct_dependants
direct_dependants-contains run_id root [] d m p q = elim m [ ]
direct_dependants-contains run_id root (x ∷ rest) d (Memᴰ.head e) p q = rw e (
    ground
      (arith, eq_iff x.run_id run_id, eq_iff x.depends_on root, eq_iff x.step_name x.step_name, e))
direct_dependants-contains run_id root (x ∷ rest) d (Memᴰ.tail m) p q =
    ground (arith, direct_dependants-contains run_id root rest d m p q)

Needs-contains :
    (run_id root : String) (deps : List Dep) (names : List String) {n : String}
    → Closed run_id deps names
    → ((d : Dep)
        → Memᴰ d deps
        → d.run_id ≡ run_id
        → d.depends_on ≡ root
        → contains names d.step_name ≡ true)
    → Needs run_id root deps n
    → contains names n ≡ true
unfolding Closed
Needs-contains run_id root deps names c f (directly d m p q e) = rw (← e) (f d m p q)
Needs-contains run_id root deps names c f (through {via = v} d h m p q e) =
    let before = Needs-contains run_id root deps names c f h in
    rw (← e) (ground (arith, c d m, before, eq_iff d.run_id run_id, rw (← q) at before))

-- The closure of a step has exactly the names that need it, directly or through other steps.
pub closure-Needs :
    (run_id root : String) (deps : List Dep) (n : String)
    → (contains (closure run_id root deps) n ≡ true) ↔ Needs run_id root deps n
unfolding closure
closure-Needs run_id root deps n = (
  grow-AllNeed (length deps) run_id root deps (direct_dependants run_id root deps)
      (direct-AllNeed run_id root deps deps (λ d m. m)) n,
  Needs-contains run_id root deps
      (grow (length deps) run_id deps (direct_dependants run_id root deps))
      (grow-Closed (length deps) run_id deps (direct_dependants run_id root deps)
        (missing-le-length (direct_dependants run_id root deps) deps))
      (λ d m p q.
        grow-keeps (length deps) run_id deps (direct_dependants run_id root deps) d.step_name
          (direct_dependants-contains run_id root deps d m p q)),
)
