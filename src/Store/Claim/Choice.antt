-- ===== src/Store/Claim/Choice.antt =====
-- What the claim chooses, when it chooses nothing, and what it leaves in the tables.
use mathlib.Core.List.{Memᴰ}
use paceq.Base.{
  Bool, true, false, List, [], ◌∷◌, Option, none, some, ◌≡◌, refl, ap, inl, inr, arith,
}
use paceq.Base.Tests.{if◌then◌else◌, Bool-cases}
use paceq.Base.Lists.{any, select}
use paceq.Base.Int.{◌≤ℤ◌}
use paceq.Store.Rows.{StepRow}
use paceq.Store.Claim.{sorts_before, first_row}

pub any-false :
    {A : Type 0} (p : A → Bool) (xs : List A) {x : A} → any p xs ≡ false → Memᴰ x xs → p x ≡ false
any-false p [] h m = elim m [ ]
any-false p (y ∷ ys) h (Memᴰ.head e) = rw e (ground arith)
any-false p (y ∷ ys) h (Memᴰ.tail m) = any-false p ys (ground arith) m

pub any-false_of :
    {A : Type 0} (p : A → Bool) (xs : List A)
    → ((x : A) → Memᴰ x xs → p x ≡ false)
    → any p xs ≡ false
any-false_of p [] h = refl
any-false_of p (x ∷ xs) h =
    let here : p x ≡ false = h x (Memᴰ.head refl) in
    let there : any p xs ≡ false = any-false_of p xs (λ y m. h y (Memᴰ.tail m)) in ground arith

-- A row of the list that passes the test, and has the least index of those.
pub record Least (p : StepRow → Bool) (xs : List StepRow) (s : StepRow) : Type 0 where
  pub member : Memᴰ s xs
  pub passes : p s ≡ true
  pub least : (t : StepRow) → Memᴰ t xs → p t ≡ true → s.idx ≤ℤ t.idx

-- A list of which no row passes the test.
abbrev pub NoneOf : (StepRow → Bool) → List StepRow → Type 0
NoneOf p xs = (t : StepRow) → Memᴰ t xs → p t ≡ false

NoneOf-cons :
    (p : StepRow → Bool) (x : StepRow) (xs : List StepRow)
    → p x ≡ false
    → NoneOf p xs
    → NoneOf p (x ∷ xs)
NoneOf-cons p x xs h n t (Memᴰ.head e) = rw e h
NoneOf-cons p x xs h n t (Memᴰ.tail m) = n t m

Least-skip :
    (p : StepRow → Bool) (x : StepRow) (xs : List StepRow) (s : StepRow)
    → p x ≡ false
    → Least p xs s
    → Least p (x ∷ xs) s
Least-skip p x xs s h l = record { member = Memᴰ.tail l.member; passes = l.passes; least = least }
  where
    least : (t : StepRow) → Memᴰ t (x ∷ xs) → p t ≡ true → s.idx ≤ℤ t.idx
    least t (Memᴰ.head e) q = absurd (cc (ap p e))
    least t (Memᴰ.tail m) q = l.least t m q

Least-only :
    (p : StepRow → Bool) (x : StepRow) (xs : List StepRow)
    → p x ≡ true
    → NoneOf p xs
    → Least p (x ∷ xs) x
Least-only p x xs h n = record { member = Memᴰ.head refl; passes = h; least = least }
  where
    least : (t : StepRow) → Memᴰ t (x ∷ xs) → p t ≡ true → x.idx ≤ℤ t.idx
    least t (Memᴰ.head e) q = rw e (omega arith)
    least t (Memᴰ.tail m) q = absurd (cc (n t m))

sorts_before-le : (a b : StepRow) → sorts_before a b ≡ true → a.idx ≤ℤ b.idx
unfolding sorts_before
sorts_before-le a b h = ground arith

not-sorts_before-le : (a b : StepRow) → sorts_before a b ≡ false → b.idx ≤ℤ a.idx
unfolding sorts_before
not-sorts_before-le a b h = ground arith

Least-lower :
    (p : StepRow → Bool) (x : StepRow) (xs : List StepRow) (s : StepRow)
    → p x ≡ true
    → Least p xs s
    → Least p (x ∷ xs) (if sorts_before s x then s else x)
Least-lower p x xs s h l = elim (Bool-cases (sorts_before s x)) [
  | inl e ↦ rw e (record { member = Memᴰ.tail l.member; passes = l.passes; least = below e })
  | inr e ↦ rw e (record { member = Memᴰ.head refl; passes = h; least = above e })
]
  where
    below : sorts_before s x ≡ true → (t : StepRow) → Memᴰ t (x ∷ xs) → p t ≡ true → s.idx ≤ℤ t.idx
    below e t (Memᴰ.head f) q = rw f (sorts_before-le s x e)
    below e t (Memᴰ.tail m) q = l.least t m q

    above : sorts_before s x ≡ false → (t : StepRow) → Memᴰ t (x ∷ xs) → p t ≡ true → x.idx ≤ℤ t.idx
    above e t (Memᴰ.head f) q = rw f (omega arith)
    above e t (Memᴰ.tail m) q = omega (arith, not-sorts_before-le s x e, l.least t m q)

-- What `ORDER BY idx LIMIT 1` over the rows that pass a test answers.
abbrev pub Chosen : (StepRow → Bool) → List StepRow → Option StepRow → Type 0
Chosen p xs none = NoneOf p xs
Chosen p xs (some s) = Least p xs s

pub first_row-Chosen :
    (p : StepRow → Bool) (xs : List StepRow) → Chosen p xs (first_row (select p xs))
unfolding first_row
first_row-Chosen p [] = λ t m. elim m [ ]
first_row-Chosen p (x ∷ xs) = go (p x) refl (first_row (select p xs)) refl (first_row-Chosen p xs)
  where
    go :
        (b : Bool)
        → p x ≡ b
        → (o : Option StepRow) → first_row (select p xs) ≡ o
        → Chosen p xs (first_row (select p xs))
        → Chosen p (x ∷ xs) (first_row (select p (x ∷ xs)))
    go true h none e ih = rw (h, e) (Least-only p x xs h (rw e at ih))
    go true h (some s) e ih = rw (h, e) (Least-lower p x xs s h (rw e at ih))
    go false h none e ih = rw (h, e) (NoneOf-cons p x xs h (rw e at ih))
    go false h (some s) e ih = rw (h, e) (Least-skip p x xs s h (rw e at ih))
