-- ===== src/Session/Gate/Laws.antt =====
-- The gate's outcomes and its decision log.
use shinken.Prelude.{
  string_eq, ℕ, String, ◌≡◌, ◌↔◌, ◌⊎◌, inl, refl, Bool, true, false, Option, none, some, [], ◌∷◌,
  ◌++◌, Result, ok, raised, arith,
}
use shinken.Prelude.Dict
use shinken.Errors.{Exc}
use shinken.Gateway.{Envelope, Decision, allow, ask, deny, decide_action}
use shinken.Session.Gate.{Event, Gatekeeper, merge, approves, answered, resolve, gate}

module _ {D : Type 0} (lower : String → String) where
  -- One entry for the decision, granted exactly when the call goes through; or the handler raised, and
  -- so does the call, without an entry.
  abbrev pub Audited :
      Decision
      → Option String
      → String
      → String
      → Option D
      → Gatekeeper D
      → Result Exc Unit × Gatekeeper D
      → Type 0
  Audited decision capability reason verb detail g answer =
      ((event : Event D) × (answer.1
          ≡ record g { capability_events = g.capability_events ++ event ∷ [] })
        × (event.subject ≡ verb)
        × (event.capability ≡ capability)
        × (event.decision ≡ decision)
        × (event.detail ≡ detail)
        × ((event.granted ≡ true) ↔ (answer.0 ≡ ok tt)))
      ⊎ ((e : Exc) × (decision ≡ ask)
          × (approves g.on_ask verb capability reason ≡ raised e)
          × (answer ≡ (raised e, g)))

  answered_ok :
      (r : Result Exc Bool) (capability : Option String) (reason verb : String) (now : ℕ)
      (detail : Option D) (g : Gatekeeper D)
      → ((answered r capability reason verb now detail g).0 ≡ ok tt) ↔ (r ≡ ok true)
  unfolding answered
  answered_ok (ok true) capability reason verb now detail g = (λ _. refl, λ _. refl)
  answered_ok (ok false) capability reason verb now detail g = (λ e. cc, λ e. cc)
  answered_ok (raised x) capability reason verb now detail g = (λ e. cc, λ e. cc)

  resolve_ok :
      (d : Decision) (capability : Option String) (reason verb : String) (now : ℕ)
      (detail : Option D) (g : Gatekeeper D)
      → (((resolve d capability reason verb now detail g).0 ≡ ok tt)
          ↔ ((d ≡ allow) ⊎ ((d ≡ ask) × (approves g.on_ask verb capability reason ≡ ok true))))
  unfolding resolve
  resolve_ok allow capability reason verb now detail g = (λ _. inl refl, λ _. refl)
  resolve_ok deny capability reason verb now detail g = (λ e. cc, λ e. absurd (ground arith))
  resolve_ok ask capability reason verb now detail g = ground (
    arith,
    answered_ok (approves g.on_ask verb capability reason) capability reason verb now detail g,
  )

  -- A call goes through exactly when enforcement is off, the decision is to allow, or the decision
  -- is to ask and the handler approves.
  pub gate_ok_iff :
      (verb : String) (detail : Option D) (now : ℕ) (g : Gatekeeper D)
      → let (decision, capability, reason) = decide_action lower verb g.sandbox_capabilities in
        ((gate lower verb detail now g).0 ≡ ok tt) ↔ (
          (g.enforce ≡ false)
          ⊎ (decision ≡ allow)
          ⊎ ((decision ≡ ask) × (approves g.on_ask verb capability reason ≡ ok true)))
  unfolding gate
  gate_ok_iff verb detail now g =
      let (d, capability, reason) = decide_action lower verb g.sandbox_capabilities in
      ground (arith, resolve_ok d capability reason verb now detail g)

-- If the caller gives each key at most once, the merged envelope has the given value for a key that
-- was given, and what the base has for every other key.
pub lookup-merge :
    (k : String) (base given : Envelope)
    → Dict.NodupKeys given
    → Dict.lookup k (merge base given)
      ≡ elim (Dict.lookup k given) [ none ↦ Dict.lookup k base | some v ↦ some v ]
unfolding merge Dict.lookup
lookup-merge k base [] u = refl
lookup-merge k base ((j, v) ∷ given) u = ground (
  arith,
  lookup-merge k (Dict.insert j v base) given u.1,
  Dict.lookup-insert j k v base,
  string_eq.eqb_iff j k,
)
