-- ===== src/Model/Apply/Histories.antt =====
-- What holds of every history that the run machine replays.
use paceq.Base.{◌+◌, ◌≤◌, List, [], ◌∷◌, ◌++◌, none, some, ◌≡◌, refl, arith}
use paceq.Base.{inl, inr, ap, ◌∙◌}
use paceq.Base.Tests.{Option-cases}
use paceq.Base.Lists.{length, count_if-append}
use paceq.Model.RunState.{RunState}
use paceq.Model.Effect.{Effect, EffectKind, same, count_kind, emit_event, bump_epoch, take_lease}
use paceq.Model.Refusal.{Refusal}
use paceq.Model.RunMachine.{next_run_state}
use paceq.Model.RunMachine.Transitions.{
  Allows, next_run_state-Allows, run_one_event_each, running_takes_lease,
}
use paceq.Model.Apply.{Input, apply_run_from, apply_run}

-- A run that the life of a run leads to by accepted inputs.
pub data Reach : RunState → List Input → RunState → Type 0 where
  here : {s : RunState} → Reach s [] s
  next :
      {s t u : RunState} (i : Input) {rest : List Input}
      → Allows i.guards s i.event t
      → Reach t rest u
      → Reach s (i ∷ rest) u

-- One round of the loop, when the input is accepted.
apply_run_from-accept :
    (cur : RunState) (all : List Effect) (i : Input) (rest : List Input)
    → (next_run_state cur i.event i.guards).2 ≡ none
    → apply_run_from cur all (i ∷ rest)
      ≡ apply_run_from
          (next_run_state cur i.event i.guards).0
          (all ++ (next_run_state cur i.event i.guards).1)
          rest
unfolding apply_run_from
apply_run_from-accept cur all i rest e = rw (e, apply_run_from)

apply_run_from-refuse :
    (cur : RunState) (all : List Effect) (i : Input) (rest : List Input) {r : Refusal}
    → (next_run_state cur i.event i.guards).2 ≡ some r
    → apply_run_from cur all (i ∷ rest) ≡ (cur, all, some r)
unfolding apply_run_from
apply_run_from-refuse cur all i rest e = rw (e, apply_run_from)

-- A replay that comes to its end accepted its first input, and came to its end after it.
replay_head :
    (cur : RunState) (all : List Effect) (i : Input) (rest : List Input)
    → (apply_run_from cur all (i ∷ rest)).2 ≡ none
    → (next_run_state cur i.event i.guards).2 ≡ none
unfolding apply_run_from
replay_head cur all i rest h = ground arith

replay_tail :
    (cur : RunState) (all : List Effect) (i : Input) (rest : List Input)
    → (apply_run_from cur all (i ∷ rest)).2 ≡ none
    → (apply_run_from
        (next_run_state cur i.event i.guards).0
        (all ++ (next_run_state cur i.event i.guards).1)
        rest).2
      ≡ none
replay_tail cur all i rest h =
    rw (apply_run_from-accept cur all i rest (replay_head cur all i rest h)) at h

apply_run_from-Reach :
    (cur : RunState) (all : List Effect) (inputs : List Input)
    → (apply_run_from cur all inputs).2 ≡ none
    → Reach cur inputs (apply_run_from cur all inputs).0
apply_run_from-Reach cur all [] h = unfold apply_run_from in here
apply_run_from-Reach cur all (i ∷ rest) h =
    let e = replay_head cur all i rest h in
    rw (apply_run_from-accept cur all i rest e) (
      next i ((next_run_state-Allows cur i.event i.guards _).0 (e, refl)) (
        apply_run_from-Reach (next_run_state cur i.event i.guards).0
          (all ++ (next_run_state cur i.event i.guards).1) rest (replay_tail cur all i rest h)))

-- A history that is replayed to its end is a path of legal moves to the state that is returned.
pub apply_run-Reach :
    (cur : RunState) (inputs : List Input)
    → (apply_run cur inputs).2 ≡ none
    → Reach cur inputs (apply_run cur inputs).0
unfolding apply_run
apply_run-Reach cur inputs h = apply_run_from-Reach cur [] inputs h

count_kind-append :
    (k : EffectKind) (xs ys : List Effect)
    → count_kind k (xs ++ ys) ≡ count_kind k xs + count_kind k ys
count_kind-append k xs ys = count_if-append (λ e. same e.kind k) xs ys

emits-apply_run_from :
    (cur : RunState) (all : List Effect) (inputs : List Input)
    → (apply_run_from cur all inputs).2 ≡ none
    → count_kind emit_event (apply_run_from cur all inputs).1
      ≡ count_kind emit_event all + length inputs
emits-apply_run_from cur all [] h = unfold apply_run_from in omega arith
emits-apply_run_from cur all (i ∷ rest) h =
    let e = replay_head cur all i rest h in
    rw (apply_run_from-accept cur all i rest e) (
      ground (
        arith,
        emits-apply_run_from (next_run_state cur i.event i.guards).0
            (all ++ (next_run_state cur i.event i.guards).1) rest (replay_tail cur all i rest h),
        count_kind-append emit_event all (next_run_state cur i.event i.guards).1,
        run_one_event_each cur i.event i.guards,
      ))

-- A replayed history has one run_events row for each of its inputs (G10).
pub apply_run_one_event_each :
    (cur : RunState) (inputs : List Input)
    → (apply_run cur inputs).2 ≡ none
    → count_kind emit_event (apply_run cur inputs).1 ≡ length inputs
unfolding apply_run
apply_run_one_event_each cur inputs h = omega (arith, emits-apply_run_from cur [] inputs h)

leases-apply_run_from :
    (cur : RunState) (all : List Effect) (inputs : List Input)
    → (apply_run_from cur all inputs).2 ≡ none
    → count_kind take_lease all ≤ count_kind bump_epoch all
    → count_kind take_lease (apply_run_from cur all inputs).1
      ≤ count_kind bump_epoch (apply_run_from cur all inputs).1
leases-apply_run_from cur all [] h b = unfold apply_run_from in b
leases-apply_run_from cur all (i ∷ rest) h b =
    let e = replay_head cur all i rest h in
    let fx = (next_run_state cur i.event i.guards).1 in
    rw (apply_run_from-accept cur all i rest e) (
      leases-apply_run_from (next_run_state cur i.event i.guards).0 (all ++ fx) rest
        (replay_tail cur all i rest h)
        (omega (
          arith,
          count_kind-append take_lease all fx,
          count_kind-append bump_epoch all fx,
          (running_takes_lease cur i.event i.guards e).1,
          b,
        )))

-- A replayed history takes the lease at most as often as it raises the run's fencing epoch.
pub apply_run_epochs :
    (cur : RunState) (inputs : List Input)
    → (apply_run cur inputs).2 ≡ none
    → count_kind take_lease (apply_run cur inputs).1
      ≤ count_kind bump_epoch (apply_run cur inputs).1
unfolding apply_run
apply_run_epochs cur inputs h = leases-apply_run_from cur [] inputs h (omega arith)

-- Where a replay stopped: what was accepted before, the input that was refused, and what was not
-- looked at.
pub record Stopped (cur : RunState) (inputs : List Input) (at : RunState) (e : Refusal)
    : Type 0 where
  pub before : List Input
  pub refused : Input
  pub after : List Input
  pub split : inputs ≡ before ++ refused ∷ after
  pub reached : Reach cur before at
  pub refusal : (next_run_state at refused.event refused.guards).2 ≡ some e

refusal-apply_run_from :
    (cur : RunState) (all : List Effect) (inputs : List Input) (e : Refusal)
    → (apply_run_from cur all inputs).2 ≡ some e
    → Stopped cur inputs (apply_run_from cur all inputs).0 e
refusal-apply_run_from cur all [] e h = absurd (unfold apply_run_from in cc)
refusal-apply_run_from cur all (i ∷ rest) e h =
    elim (Option-cases (next_run_state cur i.event i.guards).2) [
      | inl a ↦
          let step = apply_run_from-accept cur all i rest a in
          let s =
            refusal-apply_run_from (next_run_state cur i.event i.guards).0
              (all ++ (next_run_state cur i.event i.guards).1) rest e (rw step at h) in
          rw step (record {
            before = i ∷ s.before;
            refused = s.refused;
            after = s.after;
            split = ap (◌∷◌ i) s.split;
            reached = next i ((next_run_state-Allows cur i.event i.guards _).0 (a, refl)) s.reached;
            refusal = s.refusal;
          })
      | inr (r, b) ↦
          let stop = apply_run_from-refuse cur all i rest b in
          rw stop (record {
            before = [];
            refused = i;
            after = rest;
            split = refl;
            reached = here;
            refusal = b ∙ (rw stop at h);
          })
    ]

-- A replay that is refused stopped at its first refused input, in the state that the accepted
-- inputs before it lead to.
pub apply_run-Stopped :
    (cur : RunState) (inputs : List Input) {e : Refusal}
    → (apply_run cur inputs).2 ≡ some e
    → Stopped cur inputs (apply_run cur inputs).0 e
unfolding apply_run
apply_run-Stopped cur inputs {e} h = refusal-apply_run_from cur [] inputs e h
