-- ===== src/Runtime/Rollout/Tests.antt =====
-- rollout of an agent that clicks twice and is done, and of one whose second call loses the sandbox.
use shinken.Prelude.{
  ℕ, suc, nat_eq, ◌==◌, ◌≡◌, ◌≤◌, refl, Bool, true, false, Option, none, some, List, [], ◌∷◌,
  Result, ok, raised, length, leb, if◌then◌else◌,
}
use shinken.Errors.{Exc, sandbox_died}
use shinken.Runtime.Rollout.{Harness, rollout}
use shinken.Runtime.Rollout.Passes.{Numbered}
use shinken.Runtime.Rollout.Laws.{EndsAs, rollout-Numbered, rollout-EndsAs}

abbrev harness : ℕ → Harness ℕ ℕ ℕ
harness dies_at = record {
  observe = λ n. (ok n, n);
  decide = λ obs n.
      (ok (record { actions = if leb 2 n then [] else n ∷ []; note = none; done = leb 2 n }), n);
  act_batch = λ actions n. (
    if n == dies_at then raised (record { class = sandbox_died; message = "gone" }) else ok tt,
    suc n,
  );
  on_step = none;
  stop = none;
}

runs_to_done :
    (length (rollout (harness 5) 9 [] 0).0.steps ≡ 3)
    × ((rollout (harness 5) 9 [] 0).0.terminal ≡ some "done")
    × ((rollout (harness 5) 2 [] 0).0.exit_reason ≡ some "max_steps")
    × ((rollout (harness 1) 9 [] 0).0.exit_reason ≡ some "sandbox_died")
    × ((rollout (harness 1) 9 [] 0).0.metadata ≡ ("error", "sandbox_died: gone") ∷ [])
unfolding rollout shinken.Errors.is_infra_death shinken.Prelude.Dict.insert
runs_to_done = (refl, refl, refl, refl, refl)

rollout-Numbered_example :
    let steps = (rollout (harness 5) 9 [] 0).0.steps in Numbered 0 steps × (length steps ≤ 9)
rollout-Numbered_example = rollout-Numbered (harness 5) 9 [] 0

rollout-EndsAs_example : EndsAs (harness 1) 9 [] (rollout (harness 1) 9 [] 0).0
rollout-EndsAs_example = rollout-EndsAs (harness 1) 9 [] 0
