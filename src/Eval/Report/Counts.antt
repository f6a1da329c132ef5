-- ===== src/Eval/Report/Counts.antt =====
-- src/eval/report.cpp: the counts of a report agree with each other.
use gemini_cpp.Base.{
  ℕ, ◌+◌, ◌≤◌, true, ◌||◌, List, [], ◌∷◌, if◌then◌else◌, length, map, ◌≡◌, refl, ap, ◌∙◌, All,
  arith, Bool-cases, inl, inr,
}
use gemini_cpp.Eval.Outcome.{
  Outcome, pass, compile_error, test_failure, timeout, crash, no_code, api_error, harness_error,
  is_pass, Attempt, TaskResult, first_passed, passed_first_try,
}
use gemini_cpp.Eval.Rounds.Attempts.{any_pass}
use gemini_cpp.Eval.Report.{all_outcomes, same_outcome, count, passed, first_tries}

abbrev pub sum : List ℕ → ℕ
sum [] = 0
sum (n ∷ ns) = n + sum ns

abbrev hits : Outcome → List Outcome → ℕ
hits o [] = 0
hits o (p ∷ ps) = (if same_outcome o p then 1 else 0) + hits o ps

hits-all_outcomes : (o : Outcome) → hits o all_outcomes ≡ 1
unfolding all_outcomes
hits-all_outcomes pass = refl
hits-all_outcomes compile_error = refl
hits-all_outcomes test_failure = refl
hits-all_outcomes timeout = refl
hits-all_outcomes crash = refl
hits-all_outcomes no_code = refl
hits-all_outcomes api_error = refl
hits-all_outcomes harness_error = refl

sum-count :
    (r : TaskResult) (rs : List TaskResult) (os : List Outcome)
    → sum (map (count (r ∷ rs)) os) ≡ hits r.outcome os + sum (map (count rs) os)
unfolding count
sum-count r rs [] = omega arith
sum-count r rs (o ∷ os) = omega (arith, sum-count r rs os)

sum-nothing : (os : List Outcome) → sum (map (count []) os) ≡ 0
unfolding count
sum-nothing [] = refl
sum-nothing (o ∷ os) = omega (arith, sum-nothing os)

sum-all : (rs : List TaskResult) → sum (map (count rs) all_outcomes) ≡ length rs
sum-all [] = sum-nothing all_outcomes
sum-all (r ∷ rs) =
    omega (arith, sum-count r rs all_outcomes, hits-all_outcomes r.outcome, sum-all rs)

-- A result as `run_task` returns it: it passed if any attempt did.
abbrev pub IsSettled : TaskResult → Type 0
IsSettled r = is_pass r.outcome ≡ any_pass r.attempts

first_passed-any_pass : (as_ : List Attempt) → first_passed as_ ≡ true → any_pass as_ ≡ true
first_passed-any_pass [] h = absurd (ground arith)
first_passed-any_pass (a ∷ more) h = ap (λ b. b || any_pass more) h

first_try-pass :
    (r : TaskResult) → IsSettled r → passed_first_try r ≡ true → is_pass r.outcome ≡ true
unfolding passed_first_try
first_try-pass r h e = h ∙ first_passed-any_pass r.attempts e

is_pass-same : (o : Outcome) → is_pass o ≡ true → same_outcome o pass ≡ true
is_pass-same pass h = refl
is_pass-same compile_error h = absurd (ground arith)
is_pass-same test_failure h = absurd (ground arith)
is_pass-same timeout h = absurd (ground arith)
is_pass-same crash h = absurd (ground arith)
is_pass-same no_code h = absurd (ground arith)
is_pass-same api_error h = absurd (ground arith)
is_pass-same harness_error h = absurd (ground arith)

first_tries-passed : (rs : List TaskResult) → All IsSettled rs → first_tries rs ≤ passed rs
unfolding first_tries passed count
first_tries-passed [] h = omega arith
first_tries-passed (r ∷ rs) (h, hs) = elim (Bool-cases (passed_first_try r)) [
  | inl e ↦
      rw (e, is_pass-same r.outcome (first_try-pass r h e))
        (omega (arith, first_tries-passed rs hs))
  | inr e ↦ rw e (omega (arith, first_tries-passed rs hs))
]

-- Every result of a report counts under exactly one outcome; and if the results are as `run_task`
-- returns them, no more of them passed at the first try than passed at all.
pub counts_lem :
    (rs : List TaskResult)
    → All IsSettled rs
    → (sum (map (count rs) all_outcomes) ≡ length rs) × (first_tries rs ≤ passed rs)
counts_lem rs h = (sum-all rs, first_tries-passed rs h)
