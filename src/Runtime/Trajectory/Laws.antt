-- ===== src/Runtime/Trajectory/Laws.antt =====
-- resolve_exit_reason: the highest precedence wins, whatever the order of the causes.
use shinken.Prelude.{
  ℕ, ◌≤◌, string_eq, String, ◌≡◌, ◌≢◌, refl, true, Option, none, some, List, [], ◌∷◌, ok, arith,
  ltb, if◌then◌else◌, All, inl, inr, ◌⊎◌, eqb_refl,
}
use shinken.Prelude.Keyed.{elem}
use shinken.Runtime.Trajectory.{
  exit_reasons, index_of, causes, first_unknown, better, best_of, choose, resolve_exit_reason,
}

abbrev pub rank : String → ℕ
rank r = index_of r exit_reasons

least-le :
    (f : String → ℕ) (b c : String)
    → (f (if ltb (f c) (f b) then c else b) ≤ f b) × (f (if ltb (f c) (f b) then c else b) ≤ f c)
least-le f b c = ground arith

better-le : (best c : String) → (rank (better best c) ≤ rank best) × (rank (better best c) ≤ rank c)
unfolding better
better-le best c = least-le rank best c

better_either : (best c : String) → (better best c ≡ best) ⊎ (better best c ≡ c)
unfolding better
better_either best c = ground arith

best_of-le :
    (best : String) (found : List String)
    → (rank (best_of best found) ≤ rank best) × All (λ c. rank (best_of best found) ≤ rank c) found
unfolding best_of
best_of-le best [] = (omega arith, tt)
best_of-le best (c ∷ found) =
    let step = better-le best c in
    let h = best_of-le (better best c) found in
    (omega (arith, h.0, step.0), (omega (arith, h.0, step.1), h.1))

best_of-elem :
    (best : String) (found : List String) → elem (best_of best found) (best ∷ found) ≡ true
unfolding best_of
best_of-elem best [] = ground (arith, eqb_refl best)
best_of-elem best (c ∷ found) = elim (better_either best c) [
  | inl stays ↦ ground (arith, best_of-elem (better best c) found, stays)
  | inr moves ↦ ground (arith, best_of-elem (better best c) found, moves)
]

first_unknown-none :
    (found : List String) → All (λ c. elem c exit_reasons ≡ true) found → first_unknown found ≡ none
unfolding first_unknown
first_unknown-none [] h = refl
first_unknown-none (c ∷ found) h = rw (h.0) (first_unknown-none found h.1)

-- Of known causes, at least one, the result is one of them, and none of them has a higher
-- precedence.
pub resolve_best :
    (candidates : List (Option String))
    → All (λ c. elem c exit_reasons ≡ true) (causes candidates)
    → causes candidates ≢ []
    → (r : String) × (resolve_exit_reason candidates ≡ ok (some r))
      × (elem r (causes candidates) ≡ true)
      × All (λ c. rank r ≤ rank c) (causes candidates)
unfolding resolve_exit_reason
resolve_best candidates known some_cause = best (causes candidates) known some_cause
  where
    best :
        (found : List String)
        → All (λ c. elem c exit_reasons ≡ true) found
        → found ≢ []
        → (r : String) × (choose (first_unknown found) found ≡ ok (some r))
          × (elem r found ≡ true)
          × All (λ c. rank r ≤ rank c) found
    best [] h e = absurd (e refl)
    best (c ∷ found) h e = (
      best_of c found,
      rw (first_unknown-none (c ∷ found) h) refl,
      best_of-elem c found,
      best_of-le c found,
    )
