-- ===== src/Eval/Forked.antt =====
-- run_eval_forked of eval.py: replicas that are resumed from one golden checkpoint, and the
-- confirmation of a death by the provider. The provider is a record of calls on the same state; `H`
-- is its handle of a sandbox and `C` a checkpoint. Making the output directory is a call as well.
pub mod Laws
mod Tests
use shinken.Prelude.{
  string_eq, ℕ, zero, suc, String, ◌==◌, Bool, true, false, Option, none, some, List, [], ◌∷◌,
  Result, ok, raised, if◌then◌else◌, ◌<>◌, ◌||◌,
}
use shinken.Errors.{
  Exc, value_error, is_sandbox_died, is_timeout, is_connection_loss, connection_error,
}
use shinken.Eval.Replica.{
  Task, RunResult, EvalSummary, failed_run, run_result, score, set_up, summarize,
}

-- Calls of `destroy` and `delete_snapshot` are made with every exception suppressed.
pub record Provider (H C E W : Type 0) : Type 0 where
  pub create : W → Result Exc H × W
  pub connect : H → W → Result Exc E × W
  pub checkpoint : H → W → Result Exc C × W
  pub resume : C → W → Result Exc H × W
  pub check_alive : Option (H → W → Result Exc Unit × W)
  pub destroy : H → W → W
  pub delete_snapshot : Option (C → W → W)

module _ (str : ℕ → String) (show_names : List String → String) (show_bool : Bool → String)
    {H C E W : Type 0} (provider : Provider H C E W) (task : Task E W) where
  -- What the answer of `check_alive` makes of the exception.
  confirmed : Exc → Result Exc Unit → Exc
  confirmed exc (ok _) = exc
  confirmed exc (raised died) = if is_sandbox_died died.class then died else exc

  probe : Exc → H → W → Exc × W
  unfolding confirmed
  probe exc handle w = elim provider.check_alive [
    | none ↦ (exc, w)
    | some check ↦ let (answer, w') = check handle w in (confirmed exc answer, w')
  ]

  confirm_death : Option H → Exc → W → Exc × W
  unfolding probe
  confirm_death none exc w = (exc, w)
  confirm_death (some handle) exc w =
      let probed = probe exc handle w in
      if is_sandbox_died exc.class
      then (exc, w)
      else if is_connection_loss exc || is_timeout exc.class
      then probed
      else (exc, w)

  -- `rr.error or "connection lost"`
  lost_text : Option String → String
  lost_text none = "connection lost"
  lost_text (some e) = if e == "" then "connection lost" else e

  refined : RunResult → Exc → RunResult
  unfolding lost_text run_result
  refined rr exc =
      if is_sandbox_died exc.class
      then run_result rr.run false rr.steps rr.receipt
          (some
            ("sandbox_died: " <> (exc.message <> (" (during: " <> (lost_text rr.error <> ")")))))
          "sandbox_died" none
      else rr

  refine_with_provider : RunResult → H → W → RunResult × W
  unfolding refined confirm_death lost_text
  refine_with_provider rr handle w =
      let lost : Exc = record { class = connection_error; message = lost_text rr.error } in
      let (exc, w') = confirm_death (some handle) lost w in (refined rr exc, w')

  -- `if rr.kind == "sandbox_died"`
  recheck : RunResult → H → W → RunResult × W
  unfolding refine_with_provider
  recheck rr handle w =
      let refinement = refine_with_provider rr handle w in
      if rr.kind == "sandbox_died" then refinement else (rr, w)

  -- A replica that could not be resumed or connected.
  lost_replica : ℕ → Option H → Exc → W → RunResult × W
  unfolding confirm_death failed_run
  lost_replica i handle exc w =
      let (exc', w') = confirm_death handle exc w in (failed_run i exc', w')

  replica_connected : ℕ → H → Result Exc E → W → RunResult × W
  unfolding lost_replica recheck
  replica_connected i handle (raised exc) w = lost_replica i (some handle) exc w
  replica_connected i handle (ok env) w =
      let (rr, w1) = score str show_names show_bool task i env w in
      let (rr', w2) = recheck rr handle w1 in (rr', task.close env w2)

  replica_resumed : ℕ → Result Exc H → W → RunResult × W
  unfolding lost_replica replica_connected
  replica_resumed i (raised exc) w = lost_replica i none exc w
  replica_resumed i (ok handle) w =
      let (env, w1) = provider.connect handle w in
      let (rr, w2) = replica_connected i handle env w1 in (rr, provider.destroy handle w2)

  forked_replicas : ℕ → ℕ → C → W → List RunResult × W
  unfolding replica_resumed
  forked_replicas zero i ckpt w = ([], w)
  forked_replicas (suc n) i ckpt w =
      let (handle, w0) = provider.resume ckpt w in
      let (rr, w1) = replica_resumed i handle w0 in
      let (rest, w2) = forked_replicas n (suc i) ckpt w1 in (rr ∷ rest, w2)

  golden_prepared : H → Result Exc Unit → W → Result Exc C × W
  golden_prepared base (raised exc) w = (raised exc, w)
  golden_prepared base (ok _) w = provider.checkpoint base w

  golden_connected : H → Result Exc E → W → Result Exc C × W
  unfolding golden_prepared set_up
  golden_connected base (raised exc) w = (raised exc, w)
  golden_connected base (ok env) w =
      let (ready, w1) = set_up str show_names show_bool task env w in
      let (ckpt, w2) = golden_prepared base ready w1 in (ckpt, task.close env w2)

  -- The golden state: connect, set up and checkpoint the base, once.
  golden : H → W → Result Exc C × W
  unfolding golden_connected
  golden base w = let (env, w') = provider.connect base w in golden_connected base env w'

  all_failed : ℕ → ℕ → Exc → List RunResult
  unfolding failed_run
  all_failed zero i exc = []
  all_failed (suc n) i exc = failed_run i exc ∷ all_failed n (suc i) exc

  forked_results : ℕ → H → Result Exc C → W → List RunResult × W
  unfolding all_failed forked_replicas confirm_death
  forked_results n base (raised exc) w =
      let (exc', w') = confirm_death (some base) exc w in (all_failed n 0 exc', w')
  forked_results n base (ok ckpt) w = forked_replicas n 0 ckpt w

  -- The `finally` clause: the snapshot's image is reclaimed.
  reclaim : Result Exc C → W → W
  reclaim (raised exc) w = w
  reclaim (ok ckpt) w = elim provider.delete_snapshot [ none ↦ w | some delete ↦ delete ckpt w ]

  created : ℕ → Result Exc H → W → Result Exc EvalSummary × W
  unfolding golden forked_results reclaim
  created n (raised exc) w = (raised exc, w)
  created n (ok base) w =
      let (ckpt, w1) = golden base w in
      let (results, w2) = forked_results n base ckpt w1 in
      (ok (summarize n results), reclaim ckpt (provider.destroy base w2))

  -- The output directory is there: the base is created.
  prepared : ℕ → Result Exc Unit → W → Result Exc EvalSummary × W
  unfolding created
  prepared n (raised exc) w = (raised exc, w)
  prepared n (ok _) w = let (base, w') = provider.create w in created n base w'

module _ (str : ℕ → String) (show_names : List String → String) (show_bool : Bool → String)
    {H C E W : Type 0} (provider : Provider H C E W) (make_out_dir : W → Result Exc Unit × W) where
  -- A task that lacks its run or its verify is `none`.
  unfoldable pub run_eval_forked : String → Option (Task E W) → ℕ → W → Result Exc EvalSummary × W
  unfolding prepared
  run_eval_forked name none n w = (
    raised (record {
      class = value_error;
      message = "task " <> (name <> " needs both run and verify for run_eval_forked()");
    }),
    w,
  )
  run_eval_forked name (some task) n w =
      let (made, w') = make_out_dir w in prepared str show_names show_bool provider task n made w'
