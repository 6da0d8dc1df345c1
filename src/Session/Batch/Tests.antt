-- ===== src/Session/Batch/Tests.antt =====
-- act_batch over a small session: a call fails if its body is 9, and the state counts the calls.
use shinken.Prelude.{
  ℕ, suc, String, nat_eq, string_eq, ◌==◌, ◌≡◌, ◌≢◌, ◌⊎◌, refl, true, false, none, some, [], ◌∷◌,
  List, Result, ok, raised, All, take, if◌then◌else◌,
}
use shinken.Errors.{Exc, sandbox_died, value_error, Status, ok_status, error_status}
use shinken.Session.Batch.{Action, Reply, act_batch}
use shinken.Session.Batch.Laws.{
  Reports, StopsAt, run_all, act_batch-Reports, act_batch-calls, act_batch-stops,
}

act : String → ℕ → ℕ → Result Exc (Reply ℕ) × ℕ
act verb body n =
    if body == 9
    then (raised (record { class = value_error; message = "bad" }), suc n)
    else if body == 8
    then (raised (record { class = sandbox_died; message = "gone" }), suc n)
    else (ok (record { call_id = some "c1"; cause = none; rest = body }), suc n)

abbrev click : ℕ → Action ℕ
click n = record { verb = some "click"; body = n }

abbrev three : List (Action ℕ)
three = click 1 ∷ click 9 ∷ click 2 ∷ []

abbrev fatal : List (Action ℕ)
fatal = click 9 ∷ click 8 ∷ click 2 ∷ []

-- In stop mode two calls are made, and the third action is skipped.
three-calls :
    ((act_batch act true none "b" three 0).1 ≡ 2)
    × ((act_batch act true none "b" three 0).0.failure_kind ≡ some error_status)
    × ((act_batch act true none "b" three 0).0.stopped_at ≡ some 1)
    × ((act_batch act false none "b" three 0).1 ≡ 3)
    × ((act_batch act false none "b" three 0).0.completed ≡ true)
    × ((act_batch act false none "b" fatal 0).0.stopped_at ≡ some 1)
unfolding act_batch act
three-calls = (refl, refl, refl, refl, refl, refl)

act_batch-Reports_example : Reports 0 three (act_batch act true none "b" three 0).0.results
act_batch-Reports_example = act_batch-Reports act none "b" three 0 true

act_batch-calls_example : (act_batch act true none "b" three 0).1 ≡ run_all act (take 2 three) 0
unfolding act_batch act
act_batch-calls_example = act_batch-calls act none "b" three 0 true

act_batch-stops_example :
    let result = (act_batch act true none "b" three 0).0 in
    ((result.completed ≡ true)
      × All (λ r. (r.is_ok ≡ true) × (r.status ≡ ok_status)) result.results)
    ⊎ ((result.completed ≡ false)
        × ((k : ℕ) × (status : Status) × (result.stopped_at ≡ some k)
            × (result.failure_kind ≡ some status)
            × (status ≢ ok_status)
            × StopsAt 0 k status result.results))
act_batch-stops_example = act_batch-stops act none "b" three 0
