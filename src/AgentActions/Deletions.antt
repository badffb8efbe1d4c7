-- ===== src/AgentActions/Deletions.antt =====
-- apps/backend/src/services/agent-actions.ts: the approved deletion of files. What a file is, as its
-- signature, and whether the file system takes a deletion are parameters.
use home_server_interface.Base.{
  ℕ, zero, ◌==◌, ◌≤◌, Bool, true, List, [], ◌∷◌, filter, mem, length, Option, none, some, str_eq,
  if◌then◌else◌, Result, ok, err, ◌≡◌, inl, inr, refl, ap, ◌∙◌, arith, eq_iff, Bool-cases,
  Option-cases, String, take, Result-cases, length-take-le, map, suc, sym,
}
use home_server_interface.AgentActions.Origins.{All}

abbrev pub max_delete_paths : ℕ
max_delete_paths = 20

-- A path and the signature that it had when the deletion was asked for.
pub record Expectation : Type 0 where
  pub path : String
  pub sig : String

pub data Refusal : Type 0 where
  gone changed : String → Refusal
  unrecorded : Refusal
  not_deleted : String → Refusal

pub record Files : Type 0 where
  -- the signature of what is at a path, if anything is
  pub signature : String → Option String
  -- the error of a deletion that fails
  pub delete : String → Option String

abbrev pub compare_with : Option String → Expectation → Result Refusal (Unit {0})
compare_with none e = err (gone e.path)
compare_with (some now) e = if str_eq now e.sig then ok tt else err (changed e.path)

abbrev pub and_then :
    Result Refusal (Unit {0}) → Result Refusal (Unit {0}) → Result Refusal (Unit {0})
and_then (err e) rest = err e
and_then (ok u) rest = rest

unfoldable pub assert_unchanged : Files → List Expectation → Result Refusal (Unit {0})
assert_unchanged files [] = ok tt
assert_unchanged files (e ∷ es) =
    and_then (compare_with (files.signature e.path) e) (assert_unchanged files es)

abbrev pub delete_next :
    Option String
    → String
    → List String × Result Refusal (Unit {0})
    → List String × Result Refusal (Unit {0})
delete_next none path rest = (path ∷ rest.0, rest.1)
delete_next (some message) path rest = ([], err (not_deleted message))

-- What is deleted, in order, and how it ends.
unfoldable pub delete_each : Files → List String → List String × Result Refusal (Unit {0})
delete_each files [] = ([], ok tt)
delete_each files (path ∷ paths) = delete_next (files.delete path) path (delete_each files paths)

abbrev pub delete_checked :
    Files → Result Refusal (Unit {0}) → Bool → List String → List String × Result Refusal (Unit {0})
delete_checked files (err e) recorded paths = ([], err e)
delete_checked files (ok u) recorded paths =
    if recorded then delete_each files paths else ([], err unrecorded)

unfoldable pub run_delete :
    Files → List String → List Expectation → List String × Result Refusal (Unit {0})
run_delete files all expected =
    let paths = take max_delete_paths all in
    delete_checked files (assert_unchanged files (filter (λ e. mem e.path paths) expected))
      (length expected == length paths) paths

length-delete_each :
    (files : Files) (paths : List String) → length (delete_each files paths).0 ≤ length paths
unfolding delete_each
length-delete_each files [] = omega arith
length-delete_each files (path ∷ paths) = elim (Option-cases (files.delete path)) [
  | inl e1 ↦ rw e1 (omega (arith, length-delete_each files paths))
  | inr (message, e1) ↦ rw e1 (omega arith)
]

assert_unchanged-All :
    (files : Files) (test : Expectation → Bool) (es : List Expectation) (u : Unit {0})
    → assert_unchanged files (filter test es) ≡ ok u
    → All (λ e. test e ≡ true → files.signature e.path ≡ some e.sig) es
unfolding assert_unchanged
assert_unchanged-All files test [] u passed = tt
assert_unchanged-All files test (e ∷ es) u passed = elim (Bool-cases (test e)) [
  | inr e1 ↦ (
    λ holds. absurd (ground (arith, e1, holds)),
    assert_unchanged-All files test es u (simp e1 at passed),
  )
  | inl e1 ↦ elim (Option-cases (files.signature e.path)) [
    | inl e2 ↦ absurd (ground (arith, e1, e2, passed))
    | inr (now, e2) ↦ elim (Bool-cases (str_eq now e.sig)) [
      | inl e3 ↦ (
        λ holds. e2 ∙ ap some ((eq_iff now e.sig).0 e3),
        assert_unchanged-All files test es u (simp (e1, e2, e3) at passed),
      )
      | inr e3 ↦ absurd (ground (arith, e1, e2, e3, passed))
    ]
  ]
]

mem-delete_each :
    (files : Files) (path : String) (paths : List String)
    → mem path (delete_each files paths).0 ≡ true
    → mem path paths ≡ true
unfolding delete_each
mem-delete_each files path [] h = h
mem-delete_each files path (p ∷ paths) h = elim (Option-cases (files.delete p)) [
  | inl e1 ↦ ground (arith, rw e1 at h, mem-delete_each files path paths)
  | inr (message, e1) ↦ absurd (ground (arith, rw e1 at h))
]

mem-take :
    (path : String) (n : ℕ) (xs : List String) → mem path (take n xs) ≡ true → mem path xs ≡ true
mem-take path zero xs h = absurd (ground (arith, h))
mem-take path (suc n) [] h = h
mem-take path (suc n) (x ∷ xs) h = ground (arith, h, mem-take path n xs)

-- The state that was recorded for a path when its deletion was asked for.
abbrev pub recorded_sig : String → List Expectation → Option String
recorded_sig path [] = none
recorded_sig path (e ∷ es) = if str_eq e.path path then some e.sig else recorded_sig path es

-- A path whose state is still the one recorded for it.
abbrev pub IsUnchanged : Files → List Expectation → String → Type 0
IsUnchanged files expected path =
    (sig : String) × (recorded_sig path expected ≡ some sig) × (files.signature path ≡ some sig)

recorded-IsUnchanged :
    (files : Files) (test : String → Bool) (path : String) (es : List Expectation)
    → All (λ e. test e.path ≡ true → files.signature e.path ≡ some e.sig) es
    → test path ≡ true
    → mem path (map (λ e. e.path) es) ≡ true
    → IsUnchanged files es path
recorded-IsUnchanged files test path [] all holds h = absurd (ground (arith, h))
recorded-IsUnchanged files test path (e ∷ es) all holds h = elim (Bool-cases (str_eq e.path path)) [
  | inl same ↦
      let same_path : e.path ≡ path = (eq_iff e.path path).0 same in
      (e.sig, rw same refl, ap files.signature (sym same_path) ∙ all.0 (ap test same_path ∙ holds))
  | inr other ↦
      rw other (recorded-IsUnchanged files test path es all.1 holds (ground (arith, h, other)))
]

-- Of a deletion for which a state was recorded for each path of the request, in their order: when
-- a path is deleted at all, it is among the first 20 of the request, it was when the deletion ran as
-- recorded for it, and at most 20 paths are deleted.
pub run_delete-Unchanged :
    (files : Files) (all : List String) (expected : List Expectation)
    → map (λ e. e.path) expected ≡ all
    → (path : String) → mem path (run_delete files all expected).0 ≡ true
    → (mem path (take 20 all) ≡ true)
      × IsUnchanged files expected path
      × (length (run_delete files all expected).0 ≤ 20)
unfolding run_delete
run_delete-Unchanged files all expected each path h =
    let paths = take max_delete_paths all in
    let test : Expectation → Bool = λ e. mem e.path paths in
    elim (Result-cases (assert_unchanged files (filter test expected))) [
      | inl (e, e1) ↦ absurd (ground (arith, rw e1 at h))
      | inr (u, e1) ↦ elim (Bool-cases (length expected == length paths)) [
        | inr e2 ↦ absurd (ground (arith, rw (e1, e2) at h))
        | inl e2 ↦
            let listed = mem-delete_each files path paths (rw (e1, e2) at h) in
            rw (e1, e2)
              (
                listed,
                recorded-IsUnchanged files (λ p. mem p paths) path expected
                    (assert_unchanged-All files test expected u e1) listed
                    (ap (mem path) each ∙ mem-take path max_delete_paths all listed),
                omega (arith, length-delete_each files paths, length-take-le max_delete_paths all),
              )
      ]
    ]
