-- ===== src/Retry/Backoff.antt =====
-- What a delay is, and the bounds it keeps.
use paceq.Base.{ℕ, zero, suc, ◌-◌, ◌*◌, ◌^◌, ◌≤◌, ◌<◌, some, ◌≡◌, refl, true, arith, inl, inr}
use paceq.Base.Tests.{if◌then◌else◌, leb, Bool-cases, le→leb}
use paceq.Base.Int.{ℤ, pos, negsuc, ◌+ℤ◌, ◌*ℤ◌, ◌≤ℤ◌, ◌<ℤ◌, ltb_ℤ, wrap64}
use paceq.Retry.{
  exponential, Jitter, jitter_full, jitter_none, Policy, rounds, grow_delay, base_delay, capped,
  jittered, delay,
}

-- `m` and `n`, the smaller one.
abbrev pub min : ℕ → ℕ → ℕ
min m n = if leb m n then m else n

-- A double that overflows is below what it doubles.
double_wraps :
    (b : ℕ) → b < 2 ^ 63 → 2 ^ 63 ≤ b * 2 → ltb_ℤ (wrap64 (pos b *ℤ pos 2)) (pos b) ≡ true
unfolding wrap64 ◌*ℤ◌
double_wraps b hb h = ground arith

double_exact : (b : ℕ) → b * 2 < 2 ^ 63 → wrap64 (pos b *ℤ pos 2) ≡ pos (b * 2)
unfolding wrap64 ◌*ℤ◌
double_exact b h = ground arith

-- One round of the loop, in exact numbers.
grow_delay-round :
    (n b m : ℕ)
    → b < 2 ^ 63
    → m < 2 ^ 63
    → grow_delay (suc n) (pos m) (pos b)
      ≡ (if leb m (b * 2) then pos m else grow_delay n (pos m) (pos (b * 2)))
unfolding grow_delay
grow_delay-round n b m hb hm = elim (Bool-cases (leb (2 ^ 63) (b * 2))) [
  | inl h ↦ rw (double_wraps b hb (ground arith), le→leb m (b * 2) (ground arith)) refl
  | inr h ↦ rw (double_exact b (ground arith)) (ground arith)
]

mul_pow_suc : (c n : ℕ) → c * 2 ^ suc n ≡ c * 2 * 2 ^ n
mul_pow_suc c n = grind arith

le_mul_pow : (c n : ℕ) → c ≤ c * 2 ^ n
le_mul_pow c zero = omega arith
le_mul_pow c (suc n) = omega (arith, le_mul_pow c n, mul_pow_suc c n)

-- An uncapped delay grows by doubling, exactly, and stops at the cap.
grow_delay-min :
    (n b m : ℕ)
    → b < 2 ^ 63
    → m < 2 ^ 63
    → 0 < m
    → capped (pos m) (grow_delay n (pos m) (pos b)) ≡ pos (min (b * 2 ^ n) m)
unfolding grow_delay capped
grow_delay-min zero b m hb hm h = ground arith
grow_delay-min (suc n) b m hb hm h = elim (Bool-cases (leb m (b * 2))) [
  | inl c ↦
      rw (grow_delay-round n b m hb hm, c) (ground (arith, le_mul_pow (b * 2) n, mul_pow_suc b n))
  | inr c ↦
      rw (grow_delay-round n b m hb hm, c, mul_pow_suc b n)
        (grow_delay-min n (b * 2) m (ground arith) hm h)
]

capped_bounds : (m b : ℤ) → pos 0 <ℤ m → (pos 0 ≤ℤ capped m b) × (capped m b ≤ℤ m)
unfolding capped
capped_bounds m b h = ground arith

-- What the documentation of `Int64N` says: a draw in the half-open interval from zero.
abbrev pub Draws : (ℤ → ℤ) → Type 0
Draws draw = (n : ℤ) → pos 0 <ℤ n → (pos 0 ≤ℤ draw n) × (draw n <ℤ n)

jittered_within :
    (draw : ℤ → ℤ) (b : ℕ)
    → suc b < 2 ^ 63
    → Draws draw
    → (d : ℤ) × (jittered draw (pos b) ≡ some d) × (pos 0 ≤ℤ d) × (d ≤ℤ pos b)
unfolding jittered wrap64 ◌+ℤ◌
jittered_within draw b h f =
    let (low, high) = f (pos (suc b)) (omega arith) in
    (draw (pos (suc b)), ground arith, low, omega (arith, high))

-- Without jitter, an exponential delay is the initial delay doubled for each attempt after the
-- first, exactly, or the cap where that is smaller: no attempt number overflows.
pub delay_exact :
    (p : Policy) (b m n : ℕ) (draw : ℤ → ℤ)
    → p.backoff ≡ exponential
    → p.jitter ≡ jitter_none
    → p.initial ≡ pos b
    → p.max_delay ≡ pos m
    → b < 2 ^ 63
    → m < 2 ^ 63
    → 0 < m
    → delay p (pos (suc n)) draw ≡ some (pos (min (b * 2 ^ n) m))
unfolding delay base_delay rounds
delay_exact p b m n draw hk hj hi hc hb hm h =
    rw (hk, hj, hi, hc, grow_delay-min n b m hb hm h) refl

-- Under a positive cap that is not the largest Duration, whatever the policy, the attempt and the
-- draw, there is a delay, and it is neither negative nor above the cap.
pub delay_within :
    (p : Policy) (attempt : ℤ) (draw : ℤ → ℤ)
    → pos 0 <ℤ p.max_delay
    → p.max_delay <ℤ pos (2 ^ 63 - 1)
    → Draws draw
    → (d : ℤ) × (delay p attempt draw ≡ some d) × (pos 0 ≤ℤ d) × (d ≤ℤ p.max_delay)
unfolding delay
delay_within p attempt draw h fits f =
    go p.jitter (capped p.max_delay (base_delay p attempt))
      (capped_bounds p.max_delay (base_delay p attempt) h)
  where
    go :
        (j : Jitter) (base : ℤ)
        → (pos 0 ≤ℤ base) × (base ≤ℤ p.max_delay)
        → (d : ℤ) × ((elim j [ jitter_none ↦ some base | jitter_full ↦ jittered draw base ])
            ≡ some d)
          × (pos 0 ≤ℤ d)
          × (d ≤ℤ p.max_delay)
    go jitter_none base (low, high) = (base, refl, low, high)
    go jitter_full (pos b) (low, high) =
        let (d, e, dl, dh) = jittered_within draw b (omega (arith, high, fits)) f in
        (d, e, dl, omega (arith, dh, high))
    go jitter_full (negsuc b) (low, high) = absurd (omega (arith, low))
