-- ===== src/Apps/Execution.antt =====
-- What an executed plan reports of its steps.
use Prim.Native.String.{String}
use home_server_interface.Base.{
  arith, ℕ, suc, ◌+◌, Bool, false, List, [], ◌∷◌, map, length, some, str_eq, if◌then◌else◌,
  Result-cases, Bool-cases, ◌≡◌, refl, ap, ◌⊎◌, inl, inr,
}
use home_server_interface.Apps.{
  AppStep, AppStepResult, Outcome, run_of, result_of, one_more, with_status, is_warn, not_run,
  execute_app_plan,
}

abbrev pub has_status : String → AppStepResult → Bool
has_status status r = str_eq r.status status

-- The number of results with a status.
abbrev pub count : String → List AppStepResult → ℕ
count status [] = 0
count status (r ∷ results) = (if has_status status r then 1 else 0) + count status results

-- A result for each step; one that failed, and steps that were not run, only if the plan did not
-- end well, and then its failure is the only one.
abbrev pub Reports : {W : Type 0} → List (AppStep W) → Outcome → Type 0
Reports steps out =
    (length out.results ≡ length steps)
    × (count "failed" out.results ≡ (if out.ok then 0 else 1))
    × ((count "not-run" out.results ≡ 0) ⊎ (out.ok ≡ false))

all_not_run :
    {W : Type 0} (steps : List (AppStep W))
    → (length (map (λ (later : AppStep W). not_run) steps) ≡ length steps)
      × (count "failed" (map (λ (later : AppStep W). not_run) steps) ≡ 0)
all_not_run [] = (refl, refl)
all_not_run (s ∷ steps) =
    let (lengths, counts) = all_not_run steps in (ap (λ n. suc n) lengths, ground (arith, counts))

one_more-Reports :
    {W : Type 0} (s : AppStep W) (steps : List (AppStep W)) (r : AppStepResult) (out : Outcome)
    → has_status "failed" r ≡ false
    → has_status "not-run" r ≡ false
    → Reports steps out
    → Reports (s ∷ steps) (one_more r out)
one_more-Reports s steps r out fine ran (lengths, failures, rest) = (
  ap (λ n. suc n) lengths,
  ground (arith, fine, failures),
  elim rest [ inl all_ran ↦ inl (ground (arith, ran, all_ran)) | inr ended ↦ inr ended ],
)

-- An executed plan reports one result for each of its steps. If it ended well, no step failed
-- and all were run; if it did not, exactly one step failed.
execute_app_plan-Reports :
    {W : Type 0} (steps : List (AppStep W)) (w : W) → Reports steps (execute_app_plan steps w).0
unfolding execute_app_plan
execute_app_plan-Reports [] w = (refl, refl, inl refl)
execute_app_plan-Reports (s ∷ steps) w =
    let rest = execute_app_plan-Reports steps (run_of s.run w).1 in
    let out = (execute_app_plan steps (run_of s.run w).1).0 in
    elim (Result-cases (run_of s.run w).0) [
      | inl (e, thrown) ↦ elim (Bool-cases (is_warn s.on_failure)) [
        | inl warns ↦
            rw (execute_app_plan, thrown, warns)
              (one_more-Reports s steps (with_status "warning" (some e.message)) out refl refl rest)
        | inr fails ↦
            rw (execute_app_plan, thrown, fails)
              (let (lengths, counts) = all_not_run steps in
                (ap (λ n. suc n) lengths, ground (arith, counts), inr refl))
      ]
      | inr (r, done) ↦ elim (Bool-cases s.background) [
        | inl later ↦
            rw (execute_app_plan, done)
              (one_more-Reports s steps (result_of s r) out (rw (later) refl) (rw (later) refl)
                rest)
        | inr now ↦
            rw (execute_app_plan, done)
              (one_more-Reports s steps (result_of s r) out (rw (now) refl) (rw (now) refl) rest)
      ]
    ]
