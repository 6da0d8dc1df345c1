-- ===== src/Gym/Replicas.antt =====
-- Replicas: an environment gives back every sandbox that it obtained but the current one.
use shinken.Prelude.{
  ℕ, ◌+◌, ◌-◌, ◌≡◌, refl, ap, ◌∙◌, Bool, true, false, Option, none, some, List, arith, Result, ok,
  raised,
}
use shinken.Errors.{Exc}
use shinken.Gym.Make.{
  Base, Calls, Config, Strategy, auto, fork, recreate, make, resolved, is_unsupported, run_setup,
  degrade, probed, ended as make_ended, set_up, connected as base_connected, created, build_golden,
  without_fork, choose, require_lifecycle, resolve, unresolved, conflicts,
}
use shinken.Gym.Verdicts.{if-both}

abbrev pub made_count : {X : Type 0} → Result Exc X → ℕ
made_count (ok x) = 1
made_count (raised e) = 0

abbrev pub held_count : {X : Type 0} → Option X → ℕ
held_count none = 0
held_count (some x) = 1

-- `live` counts the sandboxes that a provider has given out and was not yet asked to destroy.
pub record Counts {H C E O A V N W : Type 0} (calls : Calls H C E O A V N W) (live : W → ℕ)
    : Type 0 where
  pub create : (w : W) → live (calls.create w).1 ≡ live w + made_count (calls.create w).0
  pub resume :
      (c : Option C) (w : W) → live (calls.resume c w).1 ≡ live w + made_count (calls.resume c w).0
  pub destroy : (h : H) (w : W) → live (calls.destroy h w) ≡ live w - 1
  pub connect : (h : H) (w : W) → live (calls.connect h w).1 ≡ live w
  pub checkpoint :
      (f : H → W → Result Exc C × W)
      → calls.checkpoint ≡ some f
      → (h : H) (w : W) → live (f h w).1 ≡ live w
  pub setup :
      (f : E → W → Result Exc Unit × W)
      → calls.setup ≡ some f
      → (e : E) (w : W) → live (f e w).1 ≡ live w
  pub verify :
      (f : E → W → Result Exc V × W)
      → calls.verify ≡ some f
      → (e : E) (w : W) → live (f e w).1 ≡ live w
  pub delete_snapshot :
      (f : C → W → W) → calls.delete_snapshot ≡ some f → (c : C) (w : W) → live (f c w) ≡ live w
  pub close : (e : E) (w : W) → live (calls.close e w) ≡ live w
  pub act_and_observe :
      (e : E) (actions : List A) (w : W) → live (calls.act_and_observe e actions w).1 ≡ live w
  pub act_batch : (e : E) (actions : List A) (w : W) → live (calls.act_batch e actions w).1 ≡ live w
  pub observe : (e : E) (w : W) → live (calls.observe e w).1 ≡ live w
  pub fresh_id : (w : W) → live (calls.fresh_id w).1 ≡ live w

module _ {H C E O A V N W : Type 0} (calls : Calls H C E O A V N W) (cfg : Config) (live : W → ℕ)
    (counts : Counts calls live) where
  pub run_setup-live : (sess : E) (w : W) → live (run_setup calls cfg sess w).1 ≡ live w
  unfolding run_setup
  run_setup-live sess w = by_setup calls.setup refl
    where
      by_setup :
          (f : Option (E → W → Result Exc Unit × W))
          → calls.setup ≡ f
          → live
              (elim f as (λ x. Result Exc Unit × W) [
                | none ↦ (ok tt, w)
                | some setup ↦ setup sess w
              ]).1
            ≡ live w
      by_setup none e = refl
      by_setup (some f) e = counts.setup f e sess w

  probed-world :
      (s : Strategy) (r : Result Exc C) (b : Base C W) → (probed calls cfg s r b).1.world ≡ b.world
  unfolding probed degrade
  probed-world s (ok c) b = refl
  probed-world fork (raised e) b = refl
  probed-world auto (raised e) b =
      if-both (λ (x : Result Exc Unit × Base C W). x.1.world ≡ b.world) (is_unsupported e.class)
        (degrade calls cfg b) (raised e, b) refl refl
  probed-world recreate (raised e) b =
      if-both (λ (x : Result Exc Unit × Base C W). x.1.world ≡ b.world) (is_unsupported e.class)
        (degrade calls cfg b) (raised e, b) refl refl

  make_ended-live :
      (sess : E) (h : H) (x : Result Exc Unit × Base C W)
      → live (make_ended calls cfg sess h x).1.world ≡ live x.1.world - 1
  unfolding make_ended
  make_ended-live sess h (r, b) =
      counts.destroy h (calls.close sess b.world) ∙ ap (λ n. n - 1) (counts.close sess b.world)

  set_up-live :
      (f : H → W → Result Exc C × W) (sess : E) (h : H) (r : Result Exc Unit) (b : Base C W)
      → calls.checkpoint ≡ some f
      → live (set_up calls cfg f sess h r b).1.world ≡ live b.world - 1
  unfolding set_up
  set_up-live f sess h (raised e) b c = make_ended-live sess h (raised e, b)
  set_up-live f sess h (ok _) b c =
      make_ended-live sess h
        (probed calls cfg cfg.strategy (f h b.world).0 (record b { world = (f h b.world).1 }))
      ∙ ap (λ n. n - 1)
          (ap live
              (probed-world cfg.strategy (f h b.world).0 (record b { world = (f h b.world).1 }))
            ∙ counts.checkpoint f c h b.world)

  base_connected-live :
      (f : H → W → Result Exc C × W) (h : H) (r : Result Exc E) (b : Base C W)
      → calls.checkpoint ≡ some f
      → live (base_connected calls cfg f h r b).1.world ≡ live b.world - 1
  unfolding base_connected
  base_connected-live f h (raised e) b c = counts.destroy h b.world
  base_connected-live f h (ok sess) b c =
      let (r, w) = run_setup calls cfg sess b.world in
      set_up-live f sess h r (record b { world = w }) c
      ∙ ap (λ n. n - 1) (run_setup-live sess b.world)

  created-live :
      (f : H → W → Result Exc C × W) (r : Result Exc H) (b : Base C W)
      → calls.checkpoint ≡ some f
      → live (created calls cfg f r b).1.world ≡ live b.world - made_count r
  unfolding created
  created-live f (raised e) b c = omega arith
  created-live f (ok h) b c =
      let (r, w) = calls.connect h b.world in
      base_connected-live f h r (record b { world = w }) c
      ∙ ap (λ n. n - 1) (counts.connect h b.world)

  build_golden-live :
      (f : H → W → Result Exc C × W) (b : Base C W)
      → calls.checkpoint ≡ some f
      → live (build_golden calls cfg f b).1.world ≡ live b.world
  unfolding build_golden
  build_golden-live f b c =
      let (r, w) = calls.create b.world in
      created-live f r (record b { world = w }) c ∙ omega (arith, counts.create b.world)

  without_fork-world :
      (s : Strategy) (caps : Option (Bool × Bool)) (b : Base C W)
      → (without_fork calls cfg s caps b).1.world ≡ b.world
  unfolding without_fork degrade
  without_fork-world fork caps b = refl
  without_fork-world auto none b = refl
  without_fork-world auto (some (forks, true)) b = refl
  without_fork-world auto (some (forks, false)) b = refl
  without_fork-world recreate none b = refl
  without_fork-world recreate (some (forks, true)) b = refl
  without_fork-world recreate (some (forks, false)) b = refl

  choose-live :
      (caps : Option (Bool × Bool)) (f : Option (H → W → Result Exc C × W)) (b : Base C W)
      → calls.checkpoint ≡ f
      → live (choose calls cfg caps f b).1.world ≡ live b.world
  unfolding choose
  choose-live (some (false, lifecycle)) f b c =
      ap live (without_fork-world cfg.strategy (some (false, lifecycle)) b)
  choose-live (some (true, lifecycle)) none b c =
      ap live (without_fork-world cfg.strategy (some (true, lifecycle)) b)
  choose-live none none b c = ap live (without_fork-world cfg.strategy none b)
  choose-live (some (true, lifecycle)) (some f) b c = build_golden-live f b c
  choose-live none (some f) b c = build_golden-live f b c

  require_lifecycle-world :
      (caps : Option (Bool × Bool)) (b : Base C W)
      → (require_lifecycle calls cfg caps b).1.world ≡ b.world
  unfolding require_lifecycle degrade
  require_lifecycle-world none b = refl
  require_lifecycle-world (some (forks, true)) b = refl
  require_lifecycle-world (some (forks, false)) b = refl

  resolve-live : (s : Strategy) (b : Base C W) → live (resolve calls cfg s b).1.world ≡ live b.world
  unfolding resolve
  resolve-live recreate b = ap live (require_lifecycle-world calls.capabilities b)
  resolve-live auto b = choose-live calls.capabilities calls.checkpoint b refl
  resolve-live fork b = choose-live calls.capabilities calls.checkpoint b refl

  unresolved-live :
      (s : Option Strategy) (b : Base C W) → live (unresolved calls cfg s b).1.world ≡ live b.world
  unfolding unresolved
  unresolved-live (some s) b = refl
  unresolved-live none b = resolve-live cfg.strategy b

  -- The base of a golden checkpoint is given back, whatever raises while it is built.
  pub make-live : (b : Base C W) → live (make calls cfg b).1.world ≡ live b.world
  unfolding make
  make-live b =
      if-both (λ (x : Result Exc Unit × Base C W). live x.1.world ≡ live b.world)
        (conflicts calls cfg cfg.strategy b.golden) _ (unresolved calls cfg (resolved b) b) refl
        (unresolved-live (resolved b) b)
