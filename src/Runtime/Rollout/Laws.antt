-- ===== src/Runtime/Rollout/Laws.antt =====
-- rollout: the steps it records, and how what it says of the end follows from what happened.
use shinken.Prelude.{
  ℕ, zero, suc, ◌+◌, ◌≤◌, ◌<◌, string_eq, String, ◌≡◌, refl, subst, ◌<>◌, Option, none, some, List,
  [], ◌∷◌, ◌++◌, arith, length, All, inl, inr, ◌⊎◌, All-append, length-append, if◌then◌else◌, ◌==◌,
}
use shinken.Prelude.Dict
use shinken.Prelude.Dict.{Dict}
use shinken.Errors.{Exc, is_infra_death}
use shinken.Runtime.Trajectory.{Trajectory}
use shinken.Runtime.Rollout.{
  Harness, RolloutStep, Turn, next, ends, fails, take_turn, after_turn, loop, rollout, final_reason,
  final_metadata, abort_reason, Outcome,
}
use shinken.Runtime.Rollout.Passes.{
  Numbered, Acts, Numbered-append, Raises, Stops, Passes, take_turn-Passes,
}

module _ {S O A : Type 0} (h : Harness S O A) where
  -- What holds when the loop is left: by exhaustion every step acted and no round is missing, by a
  -- sentinel or an exception the record says which.
  abbrev Ends : ℕ → Outcome h → Type 0
  Ends n o =
      ((o.failure ≡ none) × (o.terminal ≡ "max_steps") × (length o.steps ≡ n) × All Acts o.steps)
      ⊎ ((o.failure ≡ none)
          × (before : List (RolloutStep O A)) × (s : RolloutStep O A) × (o.steps ≡ before ++ s ∷ [])
          × Stops h o.terminal s)
      ⊎ ((e : Exc) × Raises h e × (o.failure ≡ some e) × (o.terminal ≡ "aborted"))

  abbrev Left : ℕ → Outcome h → Type 0
  Left n o = Numbered 0 o.steps × (length o.steps ≤ n) × Ends n o

  append-Left :
      (steps : List (RolloutStep O A)) (s : RolloutStep O A) (m : ℕ) (t : String) (e : Option Exc)
      (w : S)
      → Numbered 0 steps
      → s.index ≡ length steps
      → length steps < m
      → let o : Outcome h = record {
        steps = steps ++ s ∷ [];
        terminal = t;
        failure = e;
        state = w;
      } in
        Ends m o → Left m o
  append-Left steps s m t e w numbered at l how = (
    Numbered-append 0 steps s numbered (omega (arith, at)),
    omega (arith, l, length-append steps (s ∷ [])),
    how,
  )

  after_turn-Left :
      (turn : Turn) (m i : ℕ) (rest : Outcome h) (steps steps' : List (RolloutStep O A)) (w : S)
      → Numbered 0 steps
      → length steps ≡ i
      → i < m
      → Passes h i steps turn steps'
      → (turn ≡ next → Left m rest)
      → Left m (after_turn h turn rest steps' w)
  unfolding after_turn
  after_turn-Left next m i rest steps steps' w numbered l lt how left = left refl
  after_turn-Left (ends t) m i rest steps steps' w numbered l lt (s, e, at, why) left = rw e (
      append-Left steps s m t none w numbered (omega (arith, at, l)) (omega arith)
        (inr (inl (refl, steps, s, refl, why))))
  after_turn-Left (fails f) m i rest steps steps' w numbered l lt (inl e, bad) left =
      rw e (numbered, omega arith, inr (inr (f, bad, refl, refl)))
  after_turn-Left (fails f) m i rest steps steps' w numbered l lt (inr (s, e, at), bad) left =
      rw e (
        append-Left steps s m "aborted" (some f) w numbered (omega (arith, at, l)) (omega arith)
          (inr (inr (f, bad, refl, refl))))

  next-Grows :
      (turn : Turn) (i : ℕ) (steps steps' : List (RolloutStep O A))
      → Numbered 0 steps
      → length steps ≡ i
      → All Acts steps
      → Passes h i steps turn steps'
      → turn ≡ next
      → Numbered 0 steps' × (length steps' ≡ suc i) × All Acts steps'
  next-Grows next i steps steps' numbered l acts (s, e, at, acted) n = rw e (
    Numbered-append 0 steps s numbered (omega (arith, at, l)),
    omega (arith, l, length-append steps (s ∷ [])),
    All-append Acts steps (s ∷ []) acts (acted, tt),
  )
  next-Grows (ends t) i steps steps' numbered l acts how n = ground (arith, n)
  next-Grows (fails f) i steps steps' numbered l acts how n = ground (arith, n)

  loop-Left :
      (n i : ℕ) (steps : List (RolloutStep O A)) (w : S)
      → Numbered 0 steps
      → length steps ≡ i
      → All Acts steps
      → Left (n + i) (loop h n i steps w)
  unfolding loop
  loop-Left zero i steps w numbered l acts =
      (numbered, omega (arith, l), inl (refl, refl, omega (arith, l), acts))
  loop-Left (suc n) i steps w numbered l acts =
      let p = take_turn h i steps w in
      let passes = take_turn-Passes h i steps w in
      after_turn-Left p.0 (suc n + i) i (loop h n (suc i) p.1 p.2) steps p.1 p.2 numbered l
        (omega arith) passes
        (λ go_on.
          let (g, gl, ga) = next-Grows p.0 i steps p.1 numbered l acts passes go_on in
          subst (λ m. Left m (loop h n (suc i) p.1 p.2)) (omega arith)
            (loop-Left n (suc i) p.1 p.2 g gl ga))

-- The exit reason that goes with a sentinel.
abbrev pub reason_of : String → String
reason_of t = if t == "stuck" then "agent_error" else "task_complete"

module _ {S O A : Type 0} (h : Harness S O A) where
  -- What the record `t` of a rollout says of its end.
  abbrev pub EndsAs : ℕ → Dict String String → Trajectory O A Unit → Type 0
  EndsAs max_steps metadata t =
      ((t.terminal ≡ some "max_steps")
        × (t.exit_reason ≡ some "max_steps")
        × (t.metadata ≡ metadata)
        × (length t.steps ≡ max_steps)
        × All Acts t.steps)
      ⊎ ((sentinel : String) × (before : List (RolloutStep O A)) × (last : RolloutStep O A)
          × (t.terminal ≡ some sentinel)
          × (t.exit_reason ≡ some (reason_of sentinel))
          × (t.metadata ≡ metadata)
          × (t.steps ≡ before ++ last ∷ [])
          × Stops h sentinel last)
      ⊎ ((e : Exc) × (reason : String) × Raises h e
          × (reason ≡ (if is_infra_death e then "sandbox_died" else "agent_error"))
          × (t.terminal ≡ some "aborted")
          × (t.exit_reason ≡ some reason)
          × (Dict.lookup "error" t.metadata ≡ some (reason <> ": " <> e.message)))

  reason-Stops :
      (t : String) (s : RolloutStep O A) → Stops h t s → final_reason none t ≡ some (reason_of t)
  unfolding final_reason Dict.lookup
  reason-Stops t s (inl (e, c)) = rw e refl
  reason-Stops t s (inr (inl why)) = rw why.0 refl
  reason-Stops t s (inr (inr why)) = rw why.0 refl

  outcome-EndsAs :
      (max_steps : ℕ) (metadata : Dict String String) (o : Outcome h)
      → Ends h max_steps o
      → EndsAs max_steps metadata (record {
        steps = o.steps;
        terminal = some o.terminal;
        exit_reason = final_reason o.failure o.terminal;
        metadata = final_metadata o.failure metadata;
      })
  unfolding final_reason final_metadata abort_reason
  outcome-EndsAs n metadata o (inl (f, t, l, acts)) = rw (f, t) (inl (refl, refl, refl, l, acts))
  outcome-EndsAs n metadata o (inr (inl (f, before, s, e, why))) =
      rw f (inr (inl (o.terminal, before, s, refl, reason-Stops o.terminal s why, refl, e, why)))
  outcome-EndsAs n metadata o (inr (inr (e, bad, f, t))) =
      rw (f, t)
        (inr (
          inr (
            e,
            abort_reason e,
            bad,
            refl,
            refl,
            refl,
            Dict.lookup-insert_self "error" (abort_reason e <> ": " <> e.message) metadata,
          )))

  -- The steps of a rollout are numbered from 0 on without a gap, and there are at most `max_steps`.
  pub rollout-Numbered :
      (max_steps : ℕ) (metadata : Dict String String) (w : S)
      → let steps = (rollout h max_steps metadata w).0.steps in
        Numbered 0 steps × (length steps ≤ max_steps)
  unfolding rollout
  rollout-Numbered max_steps metadata w =
      let (numbered, l, _) = loop-Left h max_steps 0 [] w tt refl tt in (numbered, omega (arith, l))

  -- A rollout ends in one of three ways. After "max_steps" no round is missing and every step acted. With
  -- the last step recorded it is "done" where the agent's decision on that step's observation said
  -- so, "stopped" where the decision had actions and was not done and the caller's `stop` answered
  -- yes, and "stuck" where it had none; the first two are completed tasks, the last the agent's error. Else
  -- it was "aborted" by an exception that one of the calls of the loop raised, which is the sandbox's
  -- death if it is a SandboxDied or a lost connection and the agent's error if not; the metadata tell
  -- its text, and in all other cases they are the caller's.
  pub rollout-EndsAs :
      (max_steps : ℕ) (metadata : Dict String String) (w : S)
      → EndsAs max_steps metadata (rollout h max_steps metadata w).0
  unfolding rollout
  rollout-EndsAs max_steps metadata w =
      let (_, _, how) = loop-Left h max_steps 0 [] w tt refl tt in
      outcome-EndsAs max_steps metadata (loop h max_steps 0 [] w)
        (subst (λ n. Ends h n (loop h max_steps 0 [] w)) (omega arith) how)
