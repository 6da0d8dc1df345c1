-- ===== src/Gym/Tests.antt =====
-- An environment whose world counts the observations that were made and the sandboxes that are out.
use shinken.Prelude.{
  ℕ, ◌+◌, ◌-◌, ◌≡◌, refl, String, Bool, true, false, Option, none, some, ap, subst, List, [], ◌∷◌,
  ok, length, arith,
}
use shinken.Gym.Make.{Calls, Config, auto}
use shinken.Gym.Env.{many, text}
use shinken.Gym.Steps.{run, close, new_env, Op, reset_op, step_op}
use shinken.Gym.Episodes.{IsSound}
use shinken.Gym.Replicas.{Counts, held_count}
use shinken.Gym.Laws.{run-IsSound}
use shinken.Gym.Returns.{run-live}

-- An action is its verb, and an observation its number.
abbrev calls : Calls ℕ ℕ ℕ ℕ String Bool Bool (ℕ × ℕ)
calls = record {
  create = λ w. (ok 1, (w.0, w.1 + 1));
  connect = λ h w. (ok 2, w);
  checkpoint = some (λ h w. (ok 3, w));
  resume = λ c w. (ok 4, (w.0, w.1 + 1));
  destroy = λ h w. (w.0, w.1 - 1);
  delete_snapshot = none;
  close = λ e w. w;
  capabilities = some (true, true);
  setup = none;
  act_and_observe =
      λ e actions w. (ok (record { rows = []; failure_kind = none }, some w.0), (w.0 + 1, w.1));
  act_batch = λ e actions w. (ok (record { rows = []; failure_kind = none }), w);
  observe = λ e w. (ok w.0, (w.0 + 1, w.1));
  verify = some (λ e w. (ok true, w));
  reward_from = λ v. ok v;
  parse_actions = λ s. ok (s ∷ []);
  verb = λ a. a;
  fresh_id = λ w. ("e", w);
}

abbrev cfg : Config
cfg = record { strategy = auto; structured = false; max_steps = some 5 }

abbrev ops : List (Op ℕ String)
ops =
    reset_op
    ∷ step_op (text "click")
    ∷ step_op (many ("type" ∷ "done" ∷ []))
    ∷ step_op (text "click")
    ∷ reset_op
    ∷ []

-- The first episode ends with its second step; the third is refused, and a new episode begins.
two_steps :
    (length (run calls cfg ops (new_env calls cfg (0, 7))).episodes ≡ 1)
    × (((run calls cfg ops (new_env calls cfg (0, 7))).current ≡ some 3)
        × ((run calls cfg ops (new_env calls cfg (0, 7))).base.golden ≡ some 3))
unfolding run new_env
two_steps = (refl, (refl, refl))

run-IsSound_example : IsSound cfg.max_steps (run calls cfg ops (new_env calls cfg (0, 7)))
run-IsSound_example = run-IsSound calls cfg ops (0, 7)

abbrev out : ℕ × ℕ → ℕ
out w = w.1

unwrap : {X : Type 0} (x y : X) → some x ≡ some y → x ≡ y
unwrap {X} x y e = ap (λ (o : Option X). elim o as (λ p. X) [ none ↦ x | some z ↦ z ]) e

counts : Counts calls out
counts = record {
  create = λ w. refl;
  resume = λ c w. refl;
  destroy = λ h w. refl;
  connect = λ h w. refl;
  checkpoint = λ f e h w. subst (λ g. out (g h w).1 ≡ out w) (unwrap _ f e) refl;
  setup = λ f e s w. absurd (ground arith);
  verify = λ f e s w. subst (λ g. out (g s w).1 ≡ out w) (unwrap _ f e) refl;
  delete_snapshot = λ f e c w. absurd (ground arith);
  close = λ e w. refl;
  act_and_observe = λ e actions w. refl;
  act_batch = λ e actions w. refl;
  observe = λ e w. refl;
  fresh_id = λ w. refl;
}

run-live_example :
    (out (run calls cfg ops (new_env calls cfg (0, 7))).base.world
      ≡ 7 + held_count (run calls cfg ops (new_env calls cfg (0, 7))).handle)
    × (out (close calls cfg (run calls cfg ops (new_env calls cfg (0, 7)))).base.world ≡ 7)
run-live_example = run-live calls cfg out counts ops (0, 7)
