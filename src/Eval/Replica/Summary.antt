-- ===== src/Eval/Replica/Summary.antt =====
-- The counts of an evaluation's summary.
use shinken.Prelude.{
  string_eq, ℕ, ◌+◌, ◌≤◌, String, ◌≡◌, ◌⊎◌, inl, inr, refl, Bool, true, false, not, ◌||◌, Option,
  some, none, ap, sym, ◌∙◌, ◌≢◌, List, [], ◌∷◌, length, filter, ◌==◌, arith, All, if◌then◌else◌,
}
use shinken.Prelude.Dict
use shinken.Prelude.Dict.{Dict}
use shinken.Eval.Replica.{
  Task, RunResult, summarize, is_completed, is_none, tally, count_of, infra_failure, infra_errors,
  run_eval,
}
use shinken.Eval.Replica.Laws.{IsCoherent, run_eval-IsCoherent}

count_of-insert :
    (k j : String) (v : ℕ) (d : Dict String ℕ)
    → count_of k (Dict.insert j v d) ≡ (if j == k then v else count_of k d)
unfolding count_of
count_of-insert k j v d = ground (arith, Dict.lookup-insert j k v d)

count_of-tally :
    (k : String) (results : List RunResult) (d : Dict String ℕ)
    → count_of k (tally results d) ≡ count_of k d + length (filter (λ r. r.kind == k) results)
unfolding tally
count_of-tally k [] d = omega arith
count_of-tally k (r ∷ results) d =
    let d' = Dict.insert r.kind (count_of r.kind d + 1) d in
    ground (
      arith,
      count_of-tally k results d',
      count_of-insert k r.kind (count_of r.kind d + 1) d,
      string_eq.eqb_iff r.kind k,
    )

count_of-tally_new :
    (k : String) (results : List RunResult)
    → count_of k (tally results []) ≡ length (filter (λ r. r.kind == k) results)
unfolding count_of Dict.lookup
count_of-tally_new k results = omega (arith, count_of-tally k results [])

is_none-none : (o : Option String) → o ≡ none → is_none o ≡ true
unfolding is_none
is_none-none none h = refl
is_none-none (some e) h = absurd (ground (arith, h))

is_none-some : (o : Option String) → o ≢ none → is_none o ≡ false
unfolding is_none
is_none-some none h = absurd (h refl)
is_none-some (some e) h = refl

-- What the summary reads of a coherent result.
coherent_cases :
    (r : RunResult)
    → IsCoherent r
    → ((is_completed r ≡ true) × (infra_failure r ≡ false) × ((r.kind == "pass") ≡ r.passed))
      ⊎ ((is_completed r ≡ false) × (r.passed ≡ false) × ((r.kind == "pass") ≡ false))
unfolding is_completed infra_failure
coherent_cases r (inl (e, _, _, _, inl (k, v))) = inl (
  is_none-none r.error e,
  ap (λ kind. kind == "setup" || kind == "sandbox_died") k,
  ap (λ kind. kind == "pass") k ∙ sym v,
)
coherent_cases r (inl (e, _, _, _, inr (k, v))) = inl (
  is_none-none r.error e,
  ap (λ kind. kind == "setup" || kind == "sandbox_died") k,
  ap (λ kind. kind == "pass") k ∙ sym v,
)
coherent_cases r (inr (v, e, inl (k, _))) =
    inr (is_none-some r.error e, v, ap (λ kind. kind == "pass") k)
coherent_cases r (inr (v, e, inr (inl (k, _)))) =
    inr (is_none-some r.error e, v, ap (λ kind. kind == "pass") k)
coherent_cases r (inr (v, e, inr (inr (k, _)))) =
    inr (is_none-some r.error e, v, ap (λ kind. kind == "pass") k)

-- The counts of the summary over coherent results.
abbrev Counts : List RunResult → Type 0
Counts results =
    (length (filter infra_failure results) ≤ length (filter (λ r. not (is_completed r)) results))
    × (length (filter (λ r. r.passed) results) ≤ length (filter is_completed results))
    × (length (filter is_completed results) + length (filter (λ r. not (is_completed r)) results)
        ≡ length results)
    × (length (filter (λ r. r.kind == "pass") results) ≡ length (filter (λ r. r.passed) results))

results-Counts : (results : List RunResult) → All IsCoherent results → Counts results
results-Counts [] h = ground arith
results-Counts (r ∷ results) (c, h) = elim (coherent_cases r c) [
  | inl (done, infra, pass) ↦ ground (arith, done, infra, pass, results-Counts results h)
  | inr (done, failed, pass) ↦ ground (arith, done, failed, pass, results-Counts results h)
]

module _ (str : ℕ → String) (show_names : List String → String) (show_bool : Bool → String)
    {E W : Type 0} (task : Task E W) where
  -- Of an evaluation of `n` runs: `passed` is the number of results whose kind is "pass", as `kinds`
  -- counts them; a passing run is one of those that completed; completed runs and `setup_errors`
  -- are all runs; and the failures of the infrastructure are among `setup_errors`.
  pub run_eval_counts :
      (n : ℕ) (w : W)
      → let s = (run_eval str show_names show_bool task n w).0 in
        (s.passed ≡ count_of "pass" s.kinds)
        × (s.passed ≤ s.mean_steps.1)
        × (s.mean_steps.1 + s.setup_errors ≡ n)
        × (infra_errors s ≤ s.setup_errors)
  unfolding run_eval summarize infra_errors
  run_eval_counts n w =
      let (coherent, l) = run_eval-IsCoherent str show_names show_bool task n w in
      let results = (run_eval str show_names show_bool task n w).0.results in
      let (infra, passed, all, pass) = results-Counts results coherent in
      (sym (count_of-tally_new "pass" results ∙ pass), passed, all ∙ l, infra)
