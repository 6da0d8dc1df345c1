-- ===== src/Gym/Episodes.antt =====
-- What an environment keeps: the transitions of the open episode form a chain that ends in the current
-- observation, and so do those of every recorded episode.
use shinken.Prelude.{
  ℕ, suc, ◌+◌, ◌≤◌, ◌<◌, max, ◌≡◌, ◌≢◌, ◌⊎◌, inl, inr, refl, sym, ap, ◌∙◌, subst, String, true,
  false, not, ◌&&◌, Option, none, some, List, [], ◌∷◌, ◌++◌, length, arith, Bool-cases, if_true,
  if_false,
}
use shinken.Gym.Env.{GymStep, Episode, Env, finalize, episode_of, is_nil, is_none}

-- The turns that an episode may have: `max_steps`, but one at least.
abbrev pub IsWithin : Option ℕ → ℕ → Type 0
IsWithin none n = Unit
IsWithin (some m) n = n ≤ max m 1

-- An episode that goes on has a turn left.
abbrev pub HasRoom : Option ℕ → ℕ → Type 0
HasRoom none n = Unit
HasRoom (some m) n = n < max m 1

module _ {O A : Type 0} where
  -- Each step's next observation is the following step's, and the last one's is `last`.
  abbrev pub IsChain : List (GymStep O A) → O → Type 0
  IsChain [] last = Unit
  IsChain (s ∷ []) last = s.next_observation ≡ some last
  IsChain (s ∷ t ∷ steps) last =
      (s.next_observation ≡ some t.observation) × IsChain (t ∷ steps) last

  abbrev pub IsNumbered : ℕ → List (GymStep O A) → Type 0
  IsNumbered i [] = Unit
  IsNumbered i (s ∷ steps) = (s.index ≡ i) × IsNumbered (suc i) steps

  pub append-IsChain :
      (steps : List (GymStep O A)) (s : GymStep O A) (last next : O)
      → IsChain steps last
      → s.observation ≡ last
      → s.next_observation ≡ some next
      → IsChain (steps ++ s ∷ []) next
  append-IsChain [] s last next h o n = n
  append-IsChain (t ∷ []) s last next h o n = (h ∙ ap some (sym o), n)
  append-IsChain (t ∷ u ∷ steps) s last next h o n =
      (h.0, append-IsChain (u ∷ steps) s last next h.1 o n)

  pub append-IsNumbered :
      (steps : List (GymStep O A)) (s : GymStep O A) (i : ℕ)
      → IsNumbered i steps
      → s.index ≡ i + length steps
      → IsNumbered i (steps ++ s ∷ [])
  append-IsNumbered [] s i h e = (omega (arith, e), tt)
  append-IsNumbered (t ∷ steps) s i h e =
      (h.0, append-IsNumbered steps s (suc i) h.1 (omega (arith, e)))

module _ {O A N : Type 0} (limit : Option ℕ) where
  -- A recorded episode: it has a step or tells an error, its steps are numbered, are as many as
  -- allowed, and lead from each observation to the next.
  pub record IsEpisode (i : ℕ) (e : Episode O A N) : Type 0 where
    pub index : e.index ≡ i
    pub told : (e.trajectory.steps ≢ []) ⊎ (e.trajectory.metadata ≢ [])
    pub numbered : IsNumbered 0 e.trajectory.steps
    pub within : IsWithin limit (length e.trajectory.steps)
    pub chain : (last : O) × IsChain e.trajectory.steps last

  abbrev pub AreEpisodes : ℕ → List (Episode O A N) → Type 0
  AreEpisodes i [] = Unit
  AreEpisodes i (e ∷ episodes) = IsEpisode i e × AreEpisodes (suc i) episodes

  pub append-AreEpisodes :
      (i : ℕ) (episodes : List (Episode O A N)) (e : Episode O A N)
      → AreEpisodes i episodes
      → IsEpisode (i + length episodes) e
      → AreEpisodes i (episodes ++ e ∷ [])
  append-AreEpisodes i [] e h n = (subst (λ j. IsEpisode j e) (omega arith) n, tt)
  append-AreEpisodes i (d ∷ episodes) e h n =
      (h.0, append-AreEpisodes (suc i) episodes e h.1 (subst (λ j. IsEpisode j e) (omega arith) n))

within_room : (l : Option ℕ) (n : ℕ) → HasRoom l n → IsWithin l n
within_room none n h = tt
within_room (some m) n h = omega (arith, h)

-- What is recorded has a step or an error.
told :
    {X Y : Type 0} (steps : List X) (error : Option Y) (f : Y → String × String)
    → (is_nil steps && is_none error) ≡ false
    → (steps ≢ [])
      ⊎ (elim error as (λ x. List (String × String)) [ none ↦ [] | some e ↦ f e ∷ [] ] ≢ [])
unfolding is_nil is_none
told [] none f h = absurd (ground arith)
told [] (some e) f h = inr (λ q. absurd (ground arith))
told (s ∷ steps) error f h = inl (λ q. absurd (ground arith))

no_steps_if :
    {X Y : Type 0} (steps : List X) (error : Option Y)
    → (is_nil steps && is_none error) ≡ true
    → steps ≡ []
unfolding is_nil
no_steps_if [] error h = refl
no_steps_if (s ∷ steps) error h = absurd (ground arith)

module _ {H C E O A V N W : Type 0} (limit : Option ℕ) where
  -- No episode is open, and no replica takes a step.
  pub record IsClosed (env : Env H C E O A V N W) : Type 0 where
    pub closed : env.is_open ≡ false
    pub no_steps : env.steps ≡ []
    pub idle : (env.done ≡ true) ⊎ (env.session ≡ none)

  -- An episode is open on a live replica: its steps lead to the current observation, and it has a turn
  -- left.
  pub record IsOpen (env : Env H C E O A V N W) : Type 0 where
    pub opened : env.is_open ≡ true
    pub going : env.done ≡ false
    pub sess : E
    pub live : env.session ≡ some sess
    pub now : O
    pub seen : env.current ≡ some now
    pub numbered : IsNumbered 0 env.steps
    pub chain : IsChain env.steps now
    pub room : HasRoom limit (length env.steps)

  pub record IsSound (env : Env H C E O A V N W) : Type 0 where
    pub recorded : AreEpisodes limit 0 env.episodes
    pub phase : IsClosed env ⊎ IsOpen env

  -- An episode that may be recorded now.
  pub record IsRecordable (env : Env H C E O A V N W) : Type 0 where
    pub recorded : AreEpisodes limit 0 env.episodes
    pub numbered : IsNumbered 0 env.steps
    pub last : O
    pub chain : IsChain env.steps last
    pub within : IsWithin limit (length env.steps)

  -- After an episode is closed: sound, and done.
  pub record IsFinal (env : Env H C E O A V N W) : Type 0 where
    pub recorded : AreEpisodes limit 0 env.episodes
    pub closed : env.is_open ≡ false
    pub no_steps : env.steps ≡ []
    pub done : env.done ≡ true

  pub IsFinal-IsSound : (env : Env H C E O A V N W) → IsFinal env → IsSound env
  IsFinal-IsSound env f = record {
    recorded = f.recorded;
    phase = inl (record { closed = f.closed; no_steps = f.no_steps; idle = inl f.done });
  }

  pub IsOpen-IsRecordable :
      (env : Env H C E O A V N W) → AreEpisodes limit 0 env.episodes → IsOpen env → IsRecordable env
  IsOpen-IsRecordable env r o = record {
    recorded = r;
    numbered = o.numbered;
    last = o.now;
    chain = o.chain;
    within = within_room limit (length env.steps) o.room;
  }

  -- Closing an open episode records it, unless it has neither a step nor an error.
  pub finalize_open :
      (terminal : Option String) (reward : Option N) (reason error : Option String)
      (env : Env H C E O A V N W)
      → IsRecordable env
      → env.is_open ≡ true
      → IsFinal (finalize terminal reward reason error env)
  unfolding finalize episode_of
  finalize_open terminal reward reason error env h o =
      elim (Bool-cases (is_nil env.steps && is_none error)) [
        | inl e ↦
            subst IsFinal
              (sym (
                if_false (not env.is_open) _ _ (ap not o)
                ∙ if_true (is_nil env.steps && is_none error) _ _ e))
              (record {
                recorded = h.recorded;
                closed = refl;
                no_steps = no_steps_if env.steps error e;
                done = refl;
              })
        | inr e ↦
            subst IsFinal
              (sym (
                if_false (not env.is_open) _ _ (ap not o)
                ∙ if_false (is_nil env.steps && is_none error) _ _ e))
              (record {
                recorded =
                    append-AreEpisodes limit 0 env.episodes
                      (episode_of terminal reward reason error env) h.recorded
                      (record {
                        index = omega arith;
                        told = told env.steps error (λ e. ("error", e)) e;
                        numbered = h.numbered;
                        within = h.within;
                        chain = (h.last, h.chain);
                      });
                closed = refl;
                no_steps = refl;
                done = refl;
              })
      ]

  pub finalize_closed :
      (terminal : Option String) (reward : Option N) (reason error : Option String)
      (env : Env H C E O A V N W)
      → AreEpisodes limit 0 env.episodes
      → IsClosed env
      → IsFinal (finalize terminal reward reason error env)
  unfolding finalize
  finalize_closed terminal reward reason error env r c =
      subst IsFinal (sym (if_true (not env.is_open) _ _ (ap not c.closed)))
        (record { recorded = r; closed = c.closed; no_steps = c.no_steps; done = refl })
