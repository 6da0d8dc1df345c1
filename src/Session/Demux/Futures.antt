-- ===== src/Session/Demux/Futures.antt =====
-- Futures and event queues by their number: a done future stays as it is, and only the futures that
-- are named change.
use shinken.Prelude.{
  ℕ, zero, suc, ◌<◌, ◌≡◌, ◌≢◌, refl, sym, ap, subst, inl, inr, ◌∙◌, true, false, List, [], ◌∷◌,
  ◌++◌, length, arith, ◌==◌, nat_eq, Bool-cases,
}
use shinken.Prelude.Keyed.{elem}
use shinken.Session.Demux.{
  Future, waiting, answered, failed, cancelled, is_waiting, future_of, settled, settle, settle_all,
}

module _ {B : Type 0} where
  pub settle-kept :
      (i : ℕ) (f : Future B) (fs : List (Future B)) (j : ℕ)
      → is_waiting (future_of fs j) ≡ false
      → future_of (settle i f fs) j ≡ future_of fs j
  unfolding settle settled future_of is_waiting
  settle-kept i f [] j w = refl
  settle-kept zero f (waiting ∷ fs) zero w = absurd (ground arith)
  settle-kept zero f (answered m ∷ fs) zero w = refl
  settle-kept zero f (failed e ∷ fs) zero w = refl
  settle-kept zero f (cancelled ∷ fs) zero w = refl
  settle-kept zero f (g ∷ fs) (suc j) w = refl
  settle-kept (suc i) f (g ∷ fs) zero w = refl
  settle-kept (suc i) f (g ∷ fs) (suc j) w = settle-kept i f fs j w

  pub settle-other :
      (i : ℕ) (f : Future B) (fs : List (Future B)) (j : ℕ)
      → j ≢ i
      → future_of (settle i f fs) j ≡ future_of fs j
  unfolding settle future_of
  settle-other i f [] j h = refl
  settle-other zero f (g ∷ fs) zero h = absurd (h refl)
  settle-other zero f (g ∷ fs) (suc j) h = refl
  settle-other (suc i) f (g ∷ fs) zero h = refl
  settle-other (suc i) f (g ∷ fs) (suc j) h = settle-other i f fs j (λ e. h (ap suc e))

  pub settle_self :
      (i : ℕ) (f : Future B) (fs : List (Future B))
      → i < length fs
      → future_of (settle i f fs) i ≡ settled (future_of fs i) f
  unfolding settle future_of
  settle_self i f [] h = absurd (omega arith)
  settle_self zero f (g ∷ fs) h = refl
  settle_self (suc i) f (g ∷ fs) h = settle_self i f fs (omega arith)

  pub length-settle :
      (i : ℕ) (f : Future B) (fs : List (Future B)) → length (settle i f fs) ≡ length fs
  unfolding settle
  length-settle i f [] = refl
  length-settle zero f (g ∷ fs) = refl
  length-settle (suc i) f (g ∷ fs) = ap suc (length-settle i f fs)

  pub future_of-append :
      (fs gs : List (Future B)) (i : ℕ) → i < length fs → future_of (fs ++ gs) i ≡ future_of fs i
  unfolding future_of
  future_of-append [] gs i h = absurd (omega arith)
  future_of-append (f ∷ fs) gs zero h = refl
  future_of-append (f ∷ fs) gs (suc i) h = future_of-append fs gs i (omega arith)

  pub future_of-length :
      (fs : List (Future B)) (f : Future B) → future_of (fs ++ f ∷ []) (length fs) ≡ f
  unfolding future_of
  future_of-length [] f = refl
  future_of-length (g ∷ fs) f = future_of-length fs f

  -- What settles is not waiting.
  pub settled_done : (f g : Future B) → is_waiting g ≡ false → is_waiting (settled f g) ≡ false
  unfolding settled is_waiting
  settled_done waiting g h = h
  settled_done (answered m) g h = refl
  settled_done (failed e) g h = refl
  settled_done cancelled g h = refl

  settle_all-kept :
      (is : List ℕ) (f : Future B) (fs : List (Future B)) (i : ℕ)
      → is_waiting (future_of fs i) ≡ false
      → future_of (settle_all is f fs) i ≡ future_of fs i
  unfolding settle_all
  settle_all-kept [] f fs i w = refl
  settle_all-kept (j ∷ is) f fs i w =
      let kept = settle-kept j f fs i w in
      settle_all-kept is f (settle j f fs) i (ap is_waiting kept ∙ w) ∙ kept

  settle_all-first :
      (is : List ℕ) (f : Future B) (fs : List (Future B)) (i j : ℕ)
      → is_waiting f ≡ false
      → i < length fs
      → j ≡ i
      → future_of (settle_all is f (settle j f fs)) i ≡ settled (future_of fs i) f
  settle_all-first is f fs i j w h q =
      settle_all-kept is f (settle j f fs) i
        (ap is_waiting at_self ∙ settled_done (future_of fs i) f w)
      ∙ at_self
    where
      at_self : future_of (settle j f fs) i ≡ settled (future_of fs i) f
      at_self =
          subst (λ k. future_of (settle k f fs) i ≡ settled (future_of fs i) f) (sym q)
            (settle_self i f fs h)

  -- A future that is named by the list is settled, once, with what it was before.
  pub settle_all-elem :
      (is : List ℕ) (f : Future B) (fs : List (Future B)) (i : ℕ)
      → is_waiting f ≡ false
      → i < length fs
      → elem i is ≡ true
      → future_of (settle_all is f fs) i ≡ settled (future_of fs i) f
  unfolding settle_all
  settle_all-elem [] f fs i w h e = absurd (ground arith)
  settle_all-elem (j ∷ is) f fs i w h e = elim (Bool-cases (j == i)) [
    | inl t ↦ settle_all-first is f fs i j w h ((nat_eq.eqb_iff j i).0 t)
    | inr n ↦
        settle_all-elem is f (settle j f fs) i w (omega (arith, length-settle j f fs, h))
          (ground arith)
        ∙ ap (λ g. settled g f) (settle-other j f fs i (λ q. ground (arith, nat_eq.eqb_iff j i)))
  ]

  pub settle_all-other :
      (is : List ℕ) (f : Future B) (fs : List (Future B)) (i : ℕ)
      → elem i is ≡ false
      → future_of (settle_all is f fs) i ≡ future_of fs i
  unfolding settle_all
  settle_all-other [] f fs i e = refl
  settle_all-other (j ∷ is) f fs i e =
      settle_all-other is f (settle j f fs) i (ground arith)
      ∙ settle-other j f fs i (λ q. ground (arith, nat_eq.eqb_iff j i))
