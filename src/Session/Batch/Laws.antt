-- ===== src/Session/Batch/Laws.antt =====
-- act_batch: one row for each action, what ran, and what a stopped batch leaves out.
use shinken.Prelude.{
  All, ℕ, suc, ◌+◌, String, ◌≡◌, ◌≢◌, ◌⊎◌, inl, inr, refl, sym, ◌∙◌, true, false, Bool, Option,
  none, some, List, [], ◌∷◌, Result, Result-cases, arith, Bool-cases, take,
}
use shinken.Errors.{Exc, Status, ok_status, skipped_status, died_status, classify_exception}
use shinken.Errors.Laws.{classify_failure}
use shinken.Session.Batch.{
  Action, Reply, Row, is_fatal, ok_row, failed_row, skip, attempt, loop, extend, report, act_batch,
  id_or,
}

module _ {A R : Type 0} where
  -- Row by row: the index and the verb of the action that it reports.
  abbrev pub Reports : ℕ → List (Action A) → List (Row R) → Type 0
  Reports i [] [] = Unit
  Reports i [] (r ∷ rows) = ⊥
  Reports i (a ∷ actions) [] = ⊥
  Reports i (a ∷ actions) (r ∷ rows) =
      (r.index ≡ i) × (r.verb ≡ a.verb) × Reports (suc i) actions rows

-- From row `i` on the rows succeed up to row `k`, which failed with `status`; all rows behind it
-- say that their action was skipped.
abbrev pub StopsAt : {R : Type 0} → ℕ → ℕ → Status → List (Row R) → Type 0
StopsAt i k _ [] = ⊥
StopsAt i k status (r ∷ rows) =
    ((i ≡ k) × (r.is_ok ≡ false) × (r.status ≡ status) × All (λ s. s.status ≡ skipped_status) rows)
    ⊎ ((r.is_ok ≡ true) × (r.status ≡ ok_status) × StopsAt (suc i) k status rows)

module _ {A : Type 0} (R : Type 0) where
  skip-Reports : (i : ℕ) (actions : List (Action A)) → Reports i actions (skip {R = R} i actions)
  unfolding skip
  skip-Reports i [] = tt
  skip-Reports i (a ∷ actions) = (refl, refl, skip-Reports (suc i) actions)

  skip-All :
      (i : ℕ) (actions : List (Action A))
      → All (λ s. s.status ≡ skipped_status) (skip {R = R} i actions)
  unfolding skip failed_row
  skip-All i [] = tt
  skip-All i (a ∷ actions) = (refl, skip-All (suc i) actions)

is_fatal_stop : (status : Status) → is_fatal true status ≡ true
unfolding is_fatal
is_fatal_stop died_status = refl
is_fatal_stop _ = refl

is_fatal_died : (s : Status) → is_fatal false s ≡ true → s ≡ died_status
unfolding is_fatal
is_fatal_died s h = ground arith

module _ {A R W : Type 0} (act : String → A → W → Result Exc (Reply R) × W) where
  -- The state after the actions' calls, in order.
  pub run_all : List (Action A) → W → W
  run_all [] w = w
  run_all (a ∷ actions) w = run_all actions (attempt act a w).1

  loop-Reports :
      (stop : Bool) (i : ℕ) (actions : List (Action A)) (w : W)
      → Reports i actions (loop act stop i actions w).0.rows
  unfolding loop extend ok_row failed_row
  loop-Reports stop i [] w = tt
  loop-Reports stop i (a ∷ actions) w = elim (Result-cases (attempt act a w).0) [
    | inl (reply, e) ↦
        rw (e, loop) (refl, refl, loop-Reports stop (suc i) actions (attempt act a w).1)
    | inr (exc, e) ↦ elim (Bool-cases (is_fatal stop (classify_exception exc))) [
      | inl fatal ↦ rw (e, loop) (rw (fatal, loop) (refl, refl, skip-Reports R (suc i) actions))
      | inr goes_on ↦
          rw (e, loop)
            (rw (goes_on, loop) (refl, refl, loop-Reports stop (suc i) actions (attempt act a w).1))
    ]
  ]

  -- The calls that were made: all of them, or those up to the one that stopped the batch.
  abbrev pub HasRun : ℕ → List (Action A) → W → Option (ℕ × Status) → W → Type 0
  HasRun i actions w none last = last ≡ run_all actions w
  HasRun i actions w (some (k, _)) last =
      (n : ℕ) × (k ≡ i + n) × (last ≡ run_all (take (suc n) actions) w)

  HasRun-cons :
      (i : ℕ) (a : Action A) (actions : List (Action A)) (w last : W) (s : Option (ℕ × Status))
      → HasRun (suc i) actions (attempt act a w).1 s last
      → HasRun i (a ∷ actions) w s last
  unfolding run_all
  HasRun-cons i a actions w last none h = h
  HasRun-cons i a actions w last (some (k, _)) (n, at, ran) = (suc n, omega (arith, at), ran)

  loop-HasRun :
      (stop : Bool) (i : ℕ) (actions : List (Action A)) (w : W)
      → let (t, last) = loop act stop i actions w in HasRun i actions w t.stopped last
  unfolding loop extend run_all
  loop-HasRun stop i [] w = refl
  loop-HasRun stop i (a ∷ actions) w =
      let w' = (attempt act a w).1 in
      let (t, last) = loop act stop (suc i) actions w' in
      let rest = HasRun-cons i a actions w last t.stopped (loop-HasRun stop (suc i) actions w') in
      elim (Result-cases (attempt act a w).0) [
        | inl (reply, e) ↦ rw (e, loop) rest
        | inr (exc, e) ↦ elim (Bool-cases (is_fatal stop (classify_exception exc))) [
          | inl fatal ↦ rw (e, loop) (rw (fatal, loop) (0, omega arith, refl))
          | inr goes_on ↦ rw (e, loop) (rw (goes_on, loop) rest)
        ]
      ]

  -- In stop mode: either every row is a success, or the rows stop at the first failure.
  abbrev Stops : ℕ → Option (ℕ × Status) → List (Row R) → Type 0
  Stops i none rows = All (λ r. (r.is_ok ≡ true) × (r.status ≡ ok_status)) rows
  Stops i (some (k, status)) rows = StopsAt i k status rows × (status ≢ ok_status)

  Stops-cons :
      (i : ℕ) (a : Action A) (reply : Reply R) (s : Option (ℕ × Status)) (rows : List (Row R))
      → Stops (suc i) s rows
      → Stops i s (ok_row i a reply ∷ rows)
  unfolding ok_row
  Stops-cons i a reply none rows h = ((refl, refl), h)
  Stops-cons i a reply (some (k, _)) rows h = (inr (refl, refl, h.0), h.1)

  loop-Stops :
      (i : ℕ) (actions : List (Action A)) (w : W)
      → let t = (loop act true i actions w).0 in Stops i t.stopped t.rows
  unfolding loop extend
  loop-Stops i [] w = tt
  loop-Stops i (a ∷ actions) w =
      let t = (loop act true (suc i) actions (attempt act a w).1).0 in
      elim (Result-cases (attempt act a w).0) [
        | inl (reply, e) ↦
            rw (e, loop)
              (Stops-cons i a reply t.stopped t.rows
                (loop-Stops (suc i) actions (attempt act a w).1))
        | inr (exc, e) ↦
            let fatal = is_fatal_stop (classify_exception exc) in
            rw (e, loop)
              (rw (fatal, loop)
                (
                  inl (
                    refl,
                    unfold failed_row in refl,
                    unfold failed_row in refl,
                    skip-All R (suc i) actions,
                  ),
                  (classify_failure exc).0,
                ))
      ]

  report-Reports :
      (batch_id : String) (actions : List (Action A)) (s : Option (ℕ × Status))
      (rows : List (Row R))
      → Reports 0 actions rows
      → Reports 0 actions (report batch_id s rows).results
  unfolding report
  report-Reports batch_id actions none rows h = h
  report-Reports batch_id actions (some (k, _)) rows h = h

  report-died :
      (batch_id : String) (s : Option (ℕ × Status)) (rows : List (Row R)) (k : ℕ)
      → ((j : ℕ) (status : Status) → s ≡ some (j, status) → status ≡ died_status)
      → (report batch_id s rows).stopped_at ≡ some k
      → (report batch_id s rows).failure_kind ≡ some died_status
  unfolding report
  report-died batch_id none rows k died h = cc
  report-died batch_id (some (j, status)) rows k died h = cc (died j status refl)

  report-calls :
      (batch_id : String) (actions : List (Action A)) (w last : W) (s : Option (ℕ × Status))
      (rows : List (Row R))
      → HasRun 0 actions w s last
      → last
        ≡ run_all
            (elim (report batch_id s rows).stopped_at [
              | none ↦ actions
              | some k ↦ take (suc k) actions
            ])
            w
  unfolding report
  report-calls batch_id actions w last none rows h = h
  report-calls batch_id actions w last (some (k, _)) rows (n, at, ran) =
      let same : k ≡ n = omega (arith, at) in rw same ran

  report-Stops :
      (batch_id : String) (s : Option (ℕ × Status)) (rows : List (Row R))
      → Stops 0 s rows
      → let result = report batch_id s rows in
        ((result.completed ≡ true)
          × All (λ r. (r.is_ok ≡ true) × (r.status ≡ ok_status)) result.results)
        ⊎ ((result.completed ≡ false)
            × ((k : ℕ) × (status : Status) × (result.stopped_at ≡ some k)
                × (result.failure_kind ≡ some status)
                × (status ≢ ok_status)
                × StopsAt 0 k status result.results))
  unfolding report
  report-Stops batch_id none rows h = inl (refl, h)
  report-Stops batch_id (some (k, status)) rows h = inr (refl, (k, status, refl, refl, h.1, h.0))

  -- In continue mode the loop stops for a dead sandbox only.
  loop-died :
      (i : ℕ) (actions : List (Action A)) (w : W) (k : ℕ) (status : Status)
      → (loop act false i actions w).0.stopped ≡ some (k, status)
      → status ≡ died_status
  unfolding loop extend
  loop-died i [] w k _ h = cc
  loop-died i (a ∷ actions) w k status h = elim (Result-cases (attempt act a w).0) [
    | inl (reply, e) ↦ loop-died (suc i) actions (attempt act a w).1 k status (rw (e, loop) at h)
    | inr (exc, e) ↦ elim (Bool-cases (is_fatal false (classify_exception exc))) [
      | inl fatal ↦
          let stopped = rw (fatal, loop) at (rw (e, loop) at h) in
          sym (cc stopped) ∙ is_fatal_died (classify_exception exc) fatal
      | inr goes_on ↦
          loop-died (suc i) actions (attempt act a w).1 k status
            (rw (goes_on, loop) at (rw (e, loop) at h))
    ]
  ]

  module _ (batch_id : Option String) (fresh : String) (actions : List (Action A)) (w : W) where
    -- Whether it stops or not, a batch reports every action: row after row its index and its verb.
    pub act_batch-Reports :
        (stop : Bool) → Reports 0 actions (act_batch act stop batch_id fresh actions w).0.results
    unfolding act_batch
    act_batch-Reports stop =
        let t = (loop act stop 0 actions w).0 in
        report-Reports (id_or batch_id fresh) actions t.stopped t.rows
          (loop-Reports stop 0 actions w)

    -- A batch that reports no stop has made the calls of all its actions, in order. One that
    -- stopped at index k has made those of the actions up to k, k included, and no other.
    pub act_batch-calls :
        (stop : Bool)
        → let (result, last) = act_batch act stop batch_id fresh actions w in
          last
          ≡ run_all (elim result.stopped_at [ none ↦ actions | some k ↦ take (suc k) actions ]) w
    unfolding act_batch report
    act_batch-calls stop =
        let (t, last) = loop act stop 0 actions w in
        report-calls (id_or batch_id fresh) actions w last t.stopped t.rows
          (loop-HasRun stop 0 actions w)

    -- In stop mode a completed batch has only successes. One that is not completed has successes up
    -- to the index `stopped_at`, there a failure whose status is `failure_kind` and is not a
    -- success, and behind it only rows that say that their action was skipped.
    pub act_batch-stops :
        let result = (act_batch act true batch_id fresh actions w).0 in
        ((result.completed ≡ true)
          × All (λ r. (r.is_ok ≡ true) × (r.status ≡ ok_status)) result.results)
        ⊎ ((result.completed ≡ false)
            × ((k : ℕ) × (status : Status) × (result.stopped_at ≡ some k)
                × (result.failure_kind ≡ some status)
                × (status ≢ ok_status)
                × StopsAt 0 k status result.results))
    unfolding act_batch
    act_batch-stops =
        let t = (loop act true 0 actions w).0 in
        report-Stops (id_or batch_id fresh) t.stopped t.rows (loop-Stops 0 actions w)

    -- In continue mode only a dead sandbox stops a batch.
    pub act_batch_continues :
        (k : ℕ)
        → (act_batch act false batch_id fresh actions w).0.stopped_at ≡ some k
        → (act_batch act false batch_id fresh actions w).0.failure_kind ≡ some died_status
    unfolding act_batch report
    act_batch_continues k h =
        let t = (loop act false 0 actions w).0 in
        report-died (id_or batch_id fresh) t.stopped t.rows k
          (λ j status e. loop-died 0 actions w j status e) h
