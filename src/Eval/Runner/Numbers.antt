-- ===== src/Eval/Runner/Numbers.antt =====
-- src/eval/runner.cpp: an attempt keeps the number of its round.
use gemini_cpp.Base.{ℕ, Bool, true, false, [], ◌≡◌, refl, Option-cases, inl, inr, ◌⊎◌}
use gemini_cpp.Base.Text.{Bytes, codes}
use gemini_cpp.Error.{Error}
use gemini_cpp.Types.{GenerateResponse, response_text}
use gemini_cpp.Eval.Extract.{extract_cpp_source}
use gemini_cpp.Eval.Outcome.{
  harness_error, join_path, Attempt, attempt_of, RunnerOptions, Task, ProcessResult,
}
use gemini_cpp.Eval.Runner.{
  EvalHost, evaluate, try_reply, compile_options, after_write, run_tests, judge, build_failure,
}

module _ {J D W : Type 0} (E : EvalHost W) (options : RunnerOptions J D) where
  judge-round : (a : Attempt) (r : Error ⊎ ProcessResult) → (judge E options a r).round ≡ a.round
  unfolding judge
  judge-round a (inl e) = refl
  judge-round a (inr r) = refl

  run_tests-round :
      (task : Task) (workdir : Bytes) (a : Attempt) (b : Error ⊎ ProcessResult) (w : W)
      → (run_tests E options task workdir a b w).0.round ≡ a.round
  unfolding run_tests
  run_tests-round task workdir a (inl e) w = refl
  run_tests-round task workdir a (inr built) w =
      elim (Option-cases (build_failure E options built)) [
        | inl e ↦ rw (e, run_tests) (judge-round (record a { compile_time = built.duration }) _)
        | inr (f, e) ↦ rw (e, run_tests) refl
      ]

  after_write-round :
      (task : Task) (workdir : Bytes) (a : Attempt) (written : Bool × W)
      → (after_write E options task workdir a written).0.round ≡ a.round
  unfolding after_write
  after_write-round task workdir a (false, w) = refl
  after_write-round task workdir a (true, w) =
      let run = E.run_process (compile_options E options workdir a.round) w in
      run_tests-round task workdir a run.0 run.1

  pub try_reply-round :
      (task : Task) (workdir : Bytes) (round : ℕ) (reply : GenerateResponse J) (w : W)
      → (try_reply E options task workdir round reply w).0.round ≡ round
  unfolding try_reply evaluate
  try_reply-round task workdir round reply w =
      elim (Option-cases (extract_cpp_source (response_text reply.candidates))) [
        | inl e ↦ rw (e, try_reply) refl
        | inr (source, e) ↦
            rw (e, try_reply)
              (after_write-round task workdir
                (record (attempt_of round harness_error []) { source = source })
                (E.write_file (join_path workdir (codes "solution.hpp")) source w))
      ]

  pub evaluate-round :
      (task : Task) (source workdir : Bytes) (round : ℕ) (w : W)
      → (evaluate E options task source workdir round w).0.round ≡ round
  unfolding evaluate
  evaluate-round task source workdir round w =
      after_write-round task workdir
        (record (attempt_of round harness_error []) { source = source })
        (E.write_file (join_path workdir (codes "solution.hpp")) source w)
