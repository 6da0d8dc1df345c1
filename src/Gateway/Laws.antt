-- ===== src/Gateway/Laws.antt =====
-- The decision of gateway.py on every branch, against the rule that it documents.
use shinken.Prelude.{
  string_eq, String, ◌≡◌, ◌↔◌, ◌⊎◌, inl, inr, true, false, none, some, arith, Option-cases,
}
use shinken.Prelude.Dict
use shinken.Gateway.{
  CapValue, Envelope, truthy, allow, deny, is_ask, required_capability, decide_action,
}

module _ (lower : String → String) where
  -- The capability that a verb needs is granted: there is none, or its value is truthy and does
  -- not ask for approval.
  abbrev pub IsGranted : String → Envelope → Type 0
  IsGranted verb caps =
      (required_capability verb ≡ none)
      ⊎ ((cap : String) × (v : CapValue) × (required_capability verb ≡ some cap)
          × (Dict.lookup cap caps ≡ some v)
          × (truthy v ≡ true)
          × (is_ask lower v ≡ false))

  -- The capability that a verb needs is missing from the envelope, or its value is falsy and does
  -- not ask for approval.
  abbrev pub IsDenied : String → Envelope → Type 0
  IsDenied verb caps =
      (cap : String) × (required_capability verb ≡ some cap)
      × ((Dict.lookup cap caps ≡ none)
          ⊎ ((v : CapValue) × (Dict.lookup cap caps ≡ some v)
              × (truthy v ≡ false)
              × (is_ask lower v ≡ false)))

  allow-IsGranted :
      (verb : String) (caps : Envelope)
      → (decide_action lower verb caps).0 ≡ allow
      → IsGranted verb caps
  unfolding decide_action
  allow-IsGranted verb caps h = elim (Option-cases (required_capability verb)) [
    | inl free ↦ inl free
    | inr (cap, needed) ↦ elim (Option-cases (Dict.lookup cap caps)) [
      | inl absent ↦ absurd (ground (arith, needed, absent))
      | inr (v, there) ↦
          inr (cap, v, needed, there, ground (arith, needed, there), ground (arith, needed, there))
    ]
  ]

  IsGranted-allow :
      (verb : String) (caps : Envelope)
      → IsGranted verb caps
      → (decide_action lower verb caps).0 ≡ allow
  unfolding decide_action
  IsGranted-allow verb caps (inl free) = ground arith
  IsGranted-allow verb caps (inr (cap, v, needed, there, yes_value, plain)) = ground arith

  -- `decide_action` allows a verb exactly when it needs no capability, or the envelope holds a
  -- truthy value for it that does not ask for approval.
  pub decide_allow_iff :
      (verb : String) (caps : Envelope)
      → ((decide_action lower verb caps).0 ≡ allow) ↔ IsGranted verb caps
  decide_allow_iff verb caps = (allow-IsGranted verb caps, IsGranted-allow verb caps)

  deny-IsDenied :
      (verb : String) (caps : Envelope)
      → (decide_action lower verb caps).0 ≡ deny
      → IsDenied verb caps
  unfolding decide_action
  deny-IsDenied verb caps h = elim (Option-cases (required_capability verb)) [
    | inl free ↦ absurd (ground (arith, free))
    | inr (cap, needed) ↦ (
      cap,
      needed,
      elim (Option-cases (Dict.lookup cap caps)) [
        | inl absent ↦ inl absent
        | inr (v, there) ↦
            inr (v, there, ground (arith, needed, there), ground (arith, needed, there))
      ],
    )
  ]

  IsDenied-deny :
      (verb : String) (caps : Envelope)
      → IsDenied verb caps
      → (decide_action lower verb caps).0 ≡ deny
  unfolding decide_action
  IsDenied-deny verb caps (cap, needed, inl absent) = ground arith
  IsDenied-deny verb caps (cap, needed, inr (v, there, falsy, plain)) = ground arith

  -- `decide_action` denies a verb exactly when the capability that it needs is missing from the
  -- envelope, or has a falsy value that does not ask for approval.
  pub decide_deny_iff :
      (verb : String) (caps : Envelope)
      → ((decide_action lower verb caps).0 ≡ deny) ↔ IsDenied verb caps
  decide_deny_iff verb caps = (deny-IsDenied verb caps, IsDenied-deny verb caps)
