-- ===== src/Gym/Verdicts.antt =====
-- Verdicts: a verifier changes the world and the last receipt only, and the end of an episode records
-- it.
use shinken.Prelude.{
  ℕ, ◌≡◌, inl, inr, String, ◌<>◌, Bool, true, false, Option, none, some, Result, ok, raised,
  if◌then◌else◌,
}
use shinken.Errors.{Exc, is_infra_death}
use shinken.Gym.Make.{Calls, Config}
use shinken.Gym.Env.{Env, finalize, aborted, with_world}
use shinken.Gym.Steps.{evaluate, judged, verified, evaluate_with, scored, evaluate_for_done, ended}
use shinken.Gym.Episodes.{IsSound, IsRecordable, IsFinal, IsFinal-IsSound, finalize_open}

pub if-both :
    {X : Type 0} (P : X → Type 0) (b : Bool) (x y : X) → P x → P y → P (if b then x else y)
if-both P true x y hx hy = hx
if-both P false x y hx hy = hy

module _ {H C E O A V N W : Type 0} (calls : Calls H C E O A V N W) (cfg : Config) where
  abbrev G : Type 0
  G = Env H C E O A V N W

  -- An open episode that may be recorded, also where no turn is left.
  pub record IsTurned (env : G) : Type 0 where
    pub recordable : IsRecordable cfg.max_steps env
    pub opened : env.is_open ≡ true

  pub IsTurned-IsFinal :
      (terminal : Option String) (reward : Option N) (reason error : Option String) (env : G)
      → IsTurned env
      → IsFinal cfg.max_steps (finalize terminal reward reason error env)
  IsTurned-IsFinal terminal reward reason error env t =
      finalize_open cfg.max_steps terminal reward reason error env t.recordable t.opened

  -- A verifier's run changes the world and the last receipt only.
  judged-keeps :
      (P : G → Type 0) (r : Result Exc V) (env : G)
      → ((v : Option V) → P (record env { last_receipt = v }))
      → P (judged calls cfg r env).1
  unfolding judged
  judged-keeps P (raised e) env h = h env.last_receipt
  judged-keeps P (ok v) env h = h (some v)

  verified-keeps :
      (P : G → Type 0) (verify : E → W → Result Exc V × W) (sess : Option E) (env : G)
      → ((w : W) (v : Option V) → P (record (with_world calls cfg w env) { last_receipt = v }))
      → P (verified calls cfg verify sess env).1
  unfolding verified with_world
  verified-keeps P verify none env h = h env.base.world env.last_receipt
  verified-keeps P verify (some sess) env h =
      let (r, w) = verify sess env.base.world in
      judged-keeps P r (with_world calls cfg w env) (λ v. h w v)

  evaluate_with-keeps :
      (P : G → Type 0) (verify : Option (E → W → Result Exc V × W)) (env : G)
      → ((w : W) (v : Option V) → P (record (with_world calls cfg w env) { last_receipt = v }))
      → P (evaluate_with calls cfg verify env).1
  unfolding evaluate_with with_world
  evaluate_with-keeps P none env h = h env.base.world env.last_receipt
  evaluate_with-keeps P (some verify) env h = verified-keeps P verify env.session env h

  pub evaluate-IsSound :
      (env : G) → IsSound cfg.max_steps env → IsSound cfg.max_steps (evaluate calls cfg env).1
  unfolding evaluate with_world
  evaluate-IsSound env s = evaluate_with-keeps (IsSound cfg.max_steps) calls.verify env (λ w v.
      record {
        recorded = s.recorded;
        phase = elim s.phase [
          | inl c ↦ inl (record { closed = c.closed; no_steps = c.no_steps; idle = c.idle })
          | inr o ↦ inr (record {
            opened = o.opened;
            going = o.going;
            sess = o.sess;
            live = o.live;
            now = o.now;
            seen = o.seen;
            numbered = o.numbered;
            chain = o.chain;
            room = o.room;
          })
        ];
      })

  evaluate-IsTurned : (env : G) → IsTurned env → IsTurned (evaluate calls cfg env).1
  unfolding evaluate with_world
  evaluate-IsTurned env t =
      let r = t.recordable in
      evaluate_with-keeps IsTurned calls.verify env (λ w v. record {
        recordable = record {
          recorded = r.recorded;
          numbered = r.numbered;
          last = r.last;
          chain = r.chain;
          within = r.within;
        };
        opened = t.opened;
      })

  -- The verdict at the end of an episode: where it raises the episode is recorded, else still open.
  pub AfterVerdict : Result Exc (Option N × Option String) × G → Type 0
  AfterVerdict (raised e, env) = IsSound cfg.max_steps env
  AfterVerdict (ok v, env) = IsTurned env

  scored-AfterVerdict :
      (r : Result Exc N) (env : G) → IsTurned env → AfterVerdict (scored calls cfg (r, env))
  unfolding scored AfterVerdict aborted
  scored-AfterVerdict (ok reward) env t = t
  scored-AfterVerdict (raised e) env t =
      let died = "sandbox_died: " <> e.message in
      let f = IsTurned-IsFinal (some "aborted") none (some "sandbox_died") (some died) env t in
      if-both AfterVerdict (is_infra_death e) (raised e, aborted "sandbox_died" died env)
        (ok (none, some ("scorer_error: " <> e.message)), env)
        (IsFinal-IsSound cfg.max_steps (aborted "sandbox_died" died env) f) t

  pub evaluate_for_done-AfterVerdict :
      (env : G) → IsTurned env → AfterVerdict (evaluate_for_done calls cfg env)
  unfolding evaluate_for_done
  evaluate_for_done-AfterVerdict env t = by_verifier calls.verify
    where
      by_verifier :
          (verify : Option (E → W → Result Exc V × W))
          → AfterVerdict (elim verify [
            | none ↦ (ok (none, none), env)
            | some verify ↦ scored calls cfg (evaluate calls cfg env)
          ])
      by_verifier none = unfold AfterVerdict in t
      by_verifier (some verify) =
          scored-AfterVerdict (evaluate calls cfg env).0 (evaluate calls cfg env).1
            (evaluate-IsTurned env t)

  pub ended-IsSound :
      (obs : O) (index : ℕ) (terminal : Option String)
      (v : Result Exc (Option N × Option String) × G)
      → AfterVerdict v
      → IsSound cfg.max_steps (ended calls cfg obs index terminal v).1
  unfolding ended AfterVerdict
  ended-IsSound obs index terminal (raised e, env) h = h
  ended-IsSound obs index terminal (ok (reward, failure), env) h =
      let reason = elim failure as (λ x. Option String) [
        | none ↦ none
        | some f ↦ some "scorer_error"
      ] in
      IsFinal-IsSound cfg.max_steps (finalize terminal reward reason failure env)
        (IsTurned-IsFinal terminal reward reason failure env h)
