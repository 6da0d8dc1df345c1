-- ===== src/Routed/Dispatch/Laws.antt =====
-- What dispatch_action may call.
use shinken.Prelude.{
  string_eq, String, ◌≡◌, ◌⊎◌, inl, inr, refl, Bool, true, false, ◌||◌, Option, some, List, Result,
  ok, raised, and_then, and_then_ok, arith, if◌then◌else◌, ◌==◌, ◌<>◌,
}
use shinken.Prelude.Int.{ℤ}
use shinken.Prelude.Keyed.{elem}
use shinken.Errors.{Exc, unsupported_provider_operation}
use shinken.Routed.Dispatch.{
  CanonicalAction, Call, click, move, Point, point, base_of, select, select_at, is_allowed,
  dispatch_action, unsupported, with_ref, required, select_page, select_tool, ref_of,
}

pub is_click : Call → Bool
is_click (click x y ref button count) = true
is_click _ = false

-- The verb is declared, or it is a variant of a click and the click is.
abbrev pub IsDeclared : List String → String → Type 0
IsDeclared verbs verb =
    (elem verb verbs ≡ true)
    ⊎ (((verb ≡ "double_click") ⊎ (verb ≡ "right_click"))
        × (elem {K = String} "click" verbs ≡ true))

abbrev pub is_click_verb : String → Bool
is_click_verb verb = verb == "click" || (verb == "double_click" || verb == "right_click")

allowed-IsDeclared :
    (verbs : List String) (verb : String)
    → is_allowed (some verbs) verb ≡ true
    → IsDeclared verbs verb
unfolding is_allowed base_of
allowed-IsDeclared verbs verb h =
    ground (arith, string_eq.eqb_iff verb "double_click", string_eq.eqb_iff verb "right_click")

module _ {V : Type 0} (int : V → Result Exc ℤ) where
  select_page-clicks :
      (verb : String) (a : CanonicalAction V) (c : Call)
      → select_page verb a ≡ ok c
      → is_click c ≡ false
  unfolding select_page is_click unsupported required
  select_page-clicks verb a c h = ground (arith, h)

  select_tool-clicks :
      (verb : String) (a : CanonicalAction V) (ref : Option String) (c : Call)
      → select_tool verb a ref ≡ ok c
      → is_click c ≡ false
  unfolding select_tool is_click with_ref
  select_tool-clicks verb a ref c h = ground (arith, h, select_page-clicks verb a c)

  select_at-clicks :
      (has_move : Bool) (verb : String) (a : CanonicalAction V) (p : Point) (c : Call)
      → select_at int has_move verb a p ≡ ok c
      → is_click c ≡ is_click_verb verb
  unfolding select_at is_click unsupported
  select_at-clicks has_move verb a p c h =
      ground (arith, h, select_tool-clicks verb a (ref_of a.target) c)

  select-clicks :
      (has_move : Bool) (verb : String) (a : CanonicalAction V) (c : Call)
      → select int has_move verb a ≡ ok c
      → is_click c ≡ is_click_verb verb
  unfolding select
  select-clicks has_move verb a c h =
      let (p, (at, e)) = and_then_ok (point int a.target) _ c h in
      select_at-clicks has_move verb a p c e

  -- What is called on a backend that declares its verbs is called for a verb that it declares, or for a
  -- double or right click where it declares the click; and it is a click exactly when the verb is a
  -- click, a double click or a right click.
  pub dispatch_action-IsDeclared :
      (verbs : List String) (has_move : Bool) (verb : String) (a : CanonicalAction V) (c : Call)
      → dispatch_action int (some verbs) has_move verb a ≡ ok c
      → IsDeclared verbs verb × (is_click c ≡ is_click_verb verb)
  unfolding dispatch_action unsupported
  dispatch_action-IsDeclared verbs has_move verb a c h =
      by_cases (is_allowed (some verbs) verb) refl h
    where
      by_cases :
          (allowed : Bool)
          → is_allowed (some verbs) verb ≡ allowed
          → (if allowed
              then select int has_move verb a
              else unsupported ("backend does not advertise verb '" <> (verb <> "'")))
            ≡ ok c
          → IsDeclared verbs verb × (is_click c ≡ is_click_verb verb)
      by_cases true e h = (allowed-IsDeclared verbs verb e, select-clicks has_move verb a c h)
      by_cases false e h = absurd (ground (arith, h))

  -- A pointer move never becomes a click: the backend's `move` is called at the action's point, or the
  -- exception is that of reading the point, or the operation is unsupported.
  pub dispatch_action-move :
      (declared : Option (List String)) (has_move : Bool) (a : CanonicalAction V)
      → let answer = dispatch_action int declared has_move "move" a in
        ((p : Point) × (point int a.target ≡ ok p) × (answer ≡ ok (move p.0 p.1)))
        ⊎ ((e : Exc) × (point int a.target ≡ raised e) × (answer ≡ raised e))
        ⊎ ((e : Exc) × (answer ≡ raised e) × (e.class ≡ unsupported_provider_operation))
  unfolding dispatch_action select select_at unsupported
  dispatch_action-move declared has_move a =
      by_cases (is_allowed declared "move") has_move (point int a.target) refl
    where
      by_cases :
          (allowed has_move : Bool) (r : Result Exc Point)
          → point int a.target ≡ r
          → let answer =
              if allowed
              then and_then r (λ p. select_at int has_move "move" a p)
              else unsupported "backend does not advertise verb 'move'" in
            ((p : Point) × (point int a.target ≡ ok p) × (answer ≡ ok (move p.0 p.1)))
            ⊎ ((e : Exc) × (point int a.target ≡ raised e) × (answer ≡ raised e))
            ⊎ ((e : Exc) × (answer ≡ raised e) × (e.class ≡ unsupported_provider_operation))
      by_cases true true (ok p) e = inl (p, e, refl)
      by_cases true false (ok p) e = inr (inr (_, refl, refl))
      by_cases true has_move (raised x) e = inr (inl (x, e, refl))
      by_cases false has_move r e = inr (inr (_, refl, refl))
