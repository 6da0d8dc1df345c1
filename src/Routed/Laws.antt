-- ===== src/Routed/Laws.antt =====
-- RoutedSession.act_batch: where a batch stops, and the log that it leaves.
use shinken.Prelude.{
  ℕ, zero, suc, String, ◌≡◌, ◌⊎◌, inl, inr, refl, Bool, true, false, Option, List, [], ◌∷◌, ◌++◌,
  append-nil, append_assoc, sym, ◌∙◌, ap, Result, ok, raised, length,
}
use shinken.Errors.{Exc}
use shinken.Routed.{
  RoutedAction, RoutedEvent, Entry, RoutedSession, event_of, entry_of, dispatch, joined, Batch,
  pass, run_actions, routed_batch, route,
}

module _ {A R W : Type 0} (act : String → Option String → A → W → Result Exc R × W)
    (reply_ok : R → Bool) (describe : Exc → String) where
  -- One event for each entry, in order.
  pub log : ℕ → Option String → List (Entry R) → List RoutedEvent
  log i batch_id [] = []
  log i batch_id (e ∷ entries) =
      event_of act reply_ok describe i batch_id e ∷ log (suc i) batch_id entries

  pass-log :
      (i : ℕ) (batch_id : Option String) (a : RoutedAction A) (s : RoutedSession) (w : W)
      → let (e, s', _) = pass act reply_ok describe i batch_id a s w in
        (s'.events ≡ s.events ++ event_of act reply_ok describe i batch_id e ∷ [])
        × (s'.active ≡ e.source)
        × (e.source ≡ route a s)
  unfolding pass event_of entry_of
  pass-log i batch_id a s w = entry-log (dispatch act reply_ok describe (route a s) a s w).0
    where
      entry-log :
          (answer : Result Exc R)
          → let e = entry_of act reply_ok describe (route a s) a.verb answer in
            (s.events ++ event_of act reply_ok describe i batch_id e ∷ []
              ≡ s.events ++ event_of act reply_ok describe i batch_id e ∷ [])
            × (route a s ≡ e.source)
            × (e.source ≡ route a s)
      entry-log (ok r) = (refl, refl, refl)
      entry-log (raised exc) = (refl, refl, refl)

  joined-log :
      (b : Bool) (i : ℕ) (batch_id : Option String) (e : Entry R)
      (rest : Batch act reply_ok describe) (s s1 : RoutedSession) (w1 : W)
      → s1.events ≡ s.events ++ event_of act reply_ok describe i batch_id e ∷ []
      → rest.2.events ≡ s1.events ++ log (suc i) batch_id rest.0
      → let (entries, _, s', _) = joined act reply_ok describe b e rest s1 w1 in
        s'.events ≡ s.events ++ log i batch_id entries
  unfolding joined log
  joined-log true i batch_id e (rest, c, s2, w2) s s1 w1 h hs =
      hs
      ∙ ap (λ events. events ++ log (suc i) batch_id rest) h
      ∙ append_assoc s.events (event_of act reply_ok describe i batch_id e ∷ [])
          (log (suc i) batch_id rest)
  joined-log false i batch_id e rest s s1 w1 h hs = h

  run_actions-log :
      (i : ℕ) (batch_id : Option String) (actions : List (RoutedAction A)) (s : RoutedSession)
      (w : W)
      → let (entries, _, s', _) = run_actions act reply_ok describe i batch_id actions s w in
        s'.events ≡ s.events ++ log i batch_id entries
  unfolding run_actions log
  run_actions-log i batch_id [] s w = sym (append-nil s.events)
  run_actions-log i batch_id (a ∷ actions) s w =
      let (e, s1, w1) = pass act reply_ok describe i batch_id a s w in
      let rest = run_actions act reply_ok describe (suc i) batch_id actions s1 w1 in
      let (logged, _, _) = pass-log i batch_id a s w in
      joined-log e.is_ok i batch_id e rest s s1 w1 logged
        (run_actions-log (suc i) batch_id actions s1 w1)

  -- The log of a session grows by one event for each entry of the batch's result, in order, with the
  -- index of its action, its surface, its verb, its outcome and the batch's id.
  pub routed_batch-log :
      (actions : List (RoutedAction A)) (batch_id : Option String) (s : RoutedSession) (w : W)
      → let (report, s', _) = routed_batch act reply_ok describe actions batch_id s w in
        s'.events ≡ s.events ++ log 0 batch_id report.results
  unfolding routed_batch
  routed_batch-log actions batch_id s w = run_actions-log 0 batch_id actions s w

  -- How `n` actions come out: all of them succeeded, or the last entry is the first failure.
  abbrev pub Ended : ℕ → Bool → List (Entry R) → Type 0
  Ended n completed [] = (completed ≡ true) × (n ≡ 0)
  Ended zero completed (e ∷ entries) = ⊥
  Ended (suc n) completed (e ∷ entries) =
      ((e.is_ok ≡ true) × Ended n completed entries)
      ⊎ ((e.is_ok ≡ false) × (completed ≡ false) × (entries ≡ []))

  joined-Ended :
      (b : Bool) (n : ℕ) (e : Entry R) (rest : Batch act reply_ok describe) (s1 : RoutedSession)
      (w1 : W)
      → e.is_ok ≡ b
      → Ended n rest.1 rest.0
      → let (entries, completed, _, _) = joined act reply_ok describe b e rest s1 w1 in
        Ended (suc n) completed entries
  unfolding joined
  joined-Ended true n e (rest, c, s2, w2) s1 w1 h hs = inl (h, hs)
  joined-Ended false n e rest s1 w1 h hs = inr (h, refl, refl)

  run_actions-Ended :
      (i : ℕ) (batch_id : Option String) (actions : List (RoutedAction A)) (s : RoutedSession)
      (w : W)
      → let (entries, completed, _, _) = run_actions act reply_ok describe i batch_id actions s w in
        Ended (length actions) completed entries
  unfolding run_actions
  run_actions-Ended i batch_id [] s w = (refl, refl)
  run_actions-Ended i batch_id (a ∷ actions) s w =
      let (e, s1, w1) = pass act reply_ok describe i batch_id a s w in
      joined-Ended e.is_ok (length actions) e
        (run_actions act reply_ok describe (suc i) batch_id actions s1 w1) s1 w1 refl
        (run_actions-Ended (suc i) batch_id actions s1 w1)

  -- A routed batch is completed exactly when it has a successful entry for every action. Else it has
  -- successful entries up to the first failure, which is the last entry.
  pub routed_batch-Ended :
      (actions : List (RoutedAction A)) (batch_id : Option String) (s : RoutedSession) (w : W)
      → let report = (routed_batch act reply_ok describe actions batch_id s w).0 in
        Ended (length actions) report.completed report.results
  unfolding routed_batch
  routed_batch-Ended actions batch_id s w = run_actions-Ended 0 batch_id actions s w
