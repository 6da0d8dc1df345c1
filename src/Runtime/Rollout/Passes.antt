-- ===== src/Runtime/Rollout/Passes.antt =====
-- One pass of rollout's loop: the step that it records, and why the loop goes on, ends or fails.
use shinken.Prelude.{
  ℕ, suc, ◌+◌, string_eq, String, ◌≡◌, ◌≢◌, refl, Bool, true, false, Option, none, some, List, [],
  ◌∷◌, ◌++◌, Result, ok, raised, arith, length, inl, inr, ◌⊎◌,
}
use shinken.Errors.{Exc}
use shinken.Runtime.Rollout.{
  Harness, RolloutStep, Turn, next, ends, fails, take_turn, judge, stopped_by, told, sent, decided,
  observed, step_of, send, notify, asked_to_stop, Decision,
}

module _ {O A : Type 0} where
  -- The steps are numbered from `i` on.
  abbrev pub Numbered : ℕ → List (RolloutStep O A) → Type 0
  Numbered i [] = Unit
  Numbered i (s ∷ steps) = (s.index ≡ i) × Numbered (suc i) steps

  abbrev pub Acts : RolloutStep O A → Type 0
  Acts s = s.actions ≢ []

  pub Numbered-append :
      (i : ℕ) (steps : List (RolloutStep O A)) (s : RolloutStep O A)
      → Numbered i steps
      → s.index ≡ i + length steps
      → Numbered i (steps ++ s ∷ [])
  Numbered-append i [] s h e = (omega (arith, e), tt)
  Numbered-append i (x ∷ steps) s h e =
      (h.0, Numbered-append (suc i) steps s h.1 (omega (arith, e)))

module _ {S O A : Type 0} (h : Harness S O A) where
  -- The agent decided on the step's actions when it saw the step's observation, and said whether it is
  -- done.
  abbrev pub Chose : RolloutStep O A → Bool → Type 0
  Chose s done =
      (w : S) × (d : Decision A) × ((h.decide s.observation w).0 ≡ ok d)
      × (d.actions ≡ s.actions)
      × (d.done ≡ done)

  -- The caller's `stop` answered that the rollout is over.
  abbrev pub AskedToStop : Type 0
  AskedToStop =
      (hook : List (RolloutStep O A) → S → Result Exc Bool × S) × (h.stop ≡ some hook)
      × (steps : List (RolloutStep O A)) × (w : S) × ((hook steps w).0 ≡ ok true)

  -- One of the calls that the loop makes raised `e`.
  abbrev pub Raises : Exc → Type 0
  Raises e =
      ((w : S) × ((h.observe w).0 ≡ raised e))
      ⊎ ((obs : O) × (w : S) × ((h.decide obs w).0 ≡ raised e))
      ⊎ ((actions : List A) × (w : S) × ((h.act_batch actions w).0 ≡ raised e))
      ⊎ ((hook : RolloutStep O A → S → Result Exc Unit × S) × (h.on_step ≡ some hook)
          × (step : RolloutStep O A) × (w : S) × ((hook step w).0 ≡ raised e))
      ⊎ ((hook : List (RolloutStep O A) → S → Result Exc Bool × S) × (h.stop ≡ some hook)
          × (steps : List (RolloutStep O A)) × (w : S) × ((hook steps w).0 ≡ raised e))

  -- Why the sentinel `t` ends a rollout with the step `s`.
  abbrev pub Stops : String → RolloutStep O A → Type 0
  Stops t s =
      ((t ≡ "done") × Chose s true)
      ⊎ ((t ≡ "stopped") × Chose s false × Acts s × AskedToStop)
      ⊎ ((t ≡ "stuck") × Chose s false × (s.actions ≡ []))

  -- How a pass leaves the loop: it went on with a step that acted, it ended on a sentinel with a
  -- step, or it failed before or after the step was recorded.
  abbrev pub Passes : ℕ → List (RolloutStep O A) → Turn → List (RolloutStep O A) → Type 0
  Passes i steps next steps' =
      (s : RolloutStep O A) × (steps' ≡ steps ++ s ∷ []) × (s.index ≡ i) × Acts s
  Passes i steps (ends t) steps' =
      (s : RolloutStep O A) × (steps' ≡ steps ++ s ∷ []) × (s.index ≡ i) × Stops t s
  Passes i steps (fails e) steps' =
      ((steps' ≡ steps) ⊎ ((s : RolloutStep O A) × (steps' ≡ steps ++ s ∷ []) × (s.index ≡ i)))
      × Raises e

  asked-raised :
      (steps : List (RolloutStep O A)) (w : S) (e : Exc)
      → (asked_to_stop h steps w).0 ≡ raised e
      → Raises e
  unfolding asked_to_stop
  asked-raised steps w e r = go h.stop refl r
    where
      go :
          (o : Option (List (RolloutStep O A) → S → Result Exc Bool × S))
          → h.stop ≡ o
          → (elim o as (λ _. Result Exc Bool × S) [
            | none ↦ (ok false, w)
            | some hook ↦ hook steps w
          ]).0
            ≡ raised e
          → Raises e
      go none at r = absurd (ground (arith, r))
      go (some hook) at r = inr (inr (inr (inr (hook, at, steps, w, r))))

  asked-stops :
      (steps : List (RolloutStep O A)) (w : S) → (asked_to_stop h steps w).0 ≡ ok true → AskedToStop
  unfolding asked_to_stop
  asked-stops steps w r = go h.stop refl r
    where
      go :
          (o : Option (List (RolloutStep O A) → S → Result Exc Bool × S))
          → h.stop ≡ o
          → (elim o as (λ _. Result Exc Bool × S) [
            | none ↦ (ok false, w)
            | some hook ↦ hook steps w
          ]).0
            ≡ ok true
          → AskedToStop
      go none at r = absurd (ground (arith, r))
      go (some hook) at r = (hook, at, steps, w, r)

  notify-raised :
      (step : RolloutStep O A) (w : S) (e : Exc) → (notify h step w).0 ≡ raised e → Raises e
  unfolding notify
  notify-raised step w e r = go h.on_step refl r
    where
      go :
          (o : Option (RolloutStep O A → S → Result Exc Unit × S))
          → h.on_step ≡ o
          → (elim o as (λ _. Result Exc Unit × S) [ none ↦ (ok tt, w) | some hook ↦ hook step w ]).0
            ≡ raised e
          → Raises e
      go none at r = absurd (ground (arith, r))
      go (some hook) at r = inr (inr (inr (inl (hook, at, step, w, r))))

  send-raised : (actions : List A) (w : S) (e : Exc) → (send h actions w).0 ≡ raised e → Raises e
  unfolding send
  send-raised [] w e r = absurd (ground (arith, r))
  send-raised (a ∷ actions) w e r = inr (inr (inl (a ∷ actions, w, r)))

  stopped_by-Passes :
      (answer : Result Exc Bool) (i : ℕ) (steps : List (RolloutStep O A)) (step : RolloutStep O A)
      → step.index ≡ i
      → Acts step
      → Chose step false
      → (answer ≡ ok true → AskedToStop)
      → ((e : Exc) → answer ≡ raised e → Raises e)
      → (w : S) → let p = stopped_by h answer (steps ++ step ∷ []) w in Passes i steps p.0 p.1
  unfolding stopped_by
  stopped_by-Passes (ok true) i steps step e acts c stops bad w =
      (step, refl, e, inr (inl (refl, c, acts, stops refl)))
  stopped_by-Passes (ok false) i steps step e acts c stops bad w = (step, refl, e, acts)
  stopped_by-Passes (raised f) i steps step e acts c stops bad w = (inr (step, refl, e), bad f refl)

  judge-Passes :
      (i : ℕ) (steps : List (RolloutStep O A)) (step : RolloutStep O A)
      → step.index ≡ i
      → (done : Bool) (actions : List A) → step.actions ≡ actions
      → Chose step done
      → (w : S) → let p = judge h done actions (steps ++ step ∷ []) w in Passes i steps p.0 p.1
  unfolding judge
  judge-Passes i steps step e true actions a c w = (step, refl, e, inl (refl, c))
  judge-Passes i steps step e false [] a c w = (step, refl, e, inr (inr (refl, c, a)))
  judge-Passes i steps step e false (x ∷ actions) a c w =
      let steps' = steps ++ step ∷ [] in
      stopped_by-Passes (asked_to_stop h steps' w).0 i steps step e
        (λ empty. ground (arith, a, empty)) c (asked-stops steps' w) (asked-raised steps' w)
        (asked_to_stop h steps' w).1

  told-Passes :
      (heard : Result Exc Unit) (i : ℕ) (obs : O) (d : Decision A) (steps : List (RolloutStep O A))
      (w : S)
      → Chose (step_of h i obs d) d.done
      → ((e : Exc) → heard ≡ raised e → Raises e)
      → let p = told h heard d (steps ++ step_of h i obs d ∷ []) w in Passes i steps p.0 p.1
  unfolding told
  told-Passes (raised f) i obs d steps w c bad = (inr (step_of h i obs d, refl, refl), bad f refl)
  told-Passes (ok _) i obs d steps w c bad =
      judge-Passes i steps (step_of h i obs d) refl d.done d.actions refl c w

  sent-Passes :
      (done : Result Exc Unit) (i : ℕ) (obs : O) (d : Decision A) (steps : List (RolloutStep O A))
      (w : S)
      → Chose (step_of h i obs d) d.done
      → ((e : Exc) → done ≡ raised e → Raises e)
      → let p = sent h done i obs d steps w in Passes i steps p.0 p.1
  unfolding sent
  sent-Passes (raised f) i obs d steps w c bad = (inl refl, bad f refl)
  sent-Passes (ok _) i obs d steps w c bad =
      let step = step_of h i obs d in
      let answer = notify h step w in
      told-Passes answer.0 i obs d steps answer.1 c (notify-raised step w)

  decided-Passes :
      (decision : Result Exc (Decision A)) (i : ℕ) (obs : O) (steps : List (RolloutStep O A))
      (w0 w : S)
      → (h.decide obs w0).0 ≡ decision
      → let p = decided h decision i obs steps w in Passes i steps p.0 p.1
  unfolding decided
  decided-Passes (raised f) i obs steps w0 w e = (inl refl, inr (inl (obs, w0, e)))
  decided-Passes (ok d) i obs steps w0 w e =
      let answer = send h d.actions w in
      sent-Passes answer.0 i obs d steps answer.1 (w0, d, e, refl, refl) (send-raised d.actions w)

  observed-Passes :
      (seen : Result Exc O) (i : ℕ) (steps : List (RolloutStep O A)) (w0 w : S)
      → (h.observe w0).0 ≡ seen
      → let p = observed h seen i steps w in Passes i steps p.0 p.1
  unfolding observed
  observed-Passes (raised f) i steps w0 w e = (inl refl, inl (w0, e))
  observed-Passes (ok obs) i steps w0 w e =
      let answer = h.decide obs w in decided-Passes answer.0 i obs steps w answer.1 refl

  pub take_turn-Passes :
      (i : ℕ) (steps : List (RolloutStep O A)) (w : S)
      → let p = take_turn h i steps w in Passes i steps p.0 p.1
  unfolding take_turn
  take_turn-Passes i steps w =
      let answer = h.observe w in observed-Passes answer.0 i steps w answer.1 refl
