-- ===== src/Apps/Diff/RoundTrip.antt =====
-- Both texts can be read off their diff.
use Prim.Native.String.{String}
use home_server_interface.Base.{
  arith, ℕ, zero, suc, ◌+◌, ◌≤◌, leb, Bool, true, false, List, [], ◌∷◌, length, Bool-cases, inl,
  inr, ◌≡◌, refl, ap, ◌∙◌, str_eq, eq_iff, if◌then◌else◌,
}
use home_server_interface.Apps.Diff.Longest.{kept_lines, longest_common, diff_ops-kept}
use home_server_interface.Apps.Diff.{
  Op, OpKind, kept, removed, added, entry, diff_from, diff_ops, lcs_table,
}

-- What was there: the lines kept and removed, which are numbered from a first number on.
abbrev pub old_line : OpKind → Bool
old_line kept = true
old_line removed = true
old_line added = false

abbrev pub new_line : OpKind → Bool
new_line kept = true
new_line removed = false
new_line added = true

abbrev pub old_lines : List Op → List (ℕ × String)
old_lines [] = []
old_lines (o ∷ ops) = if old_line o.kind then (o.ai, o.text) ∷ old_lines ops else old_lines ops

abbrev pub new_lines : List Op → List (ℕ × String)
new_lines [] = []
new_lines (o ∷ ops) = if new_line o.kind then (o.bi, o.text) ∷ new_lines ops else new_lines ops

abbrev pub numbered_from : ℕ → List String → List (ℕ × String)
numbered_from n [] = []
numbered_from n (line ∷ lines) = (n + 1, line) ∷ numbered_from (n + 1) lines

diff_from-lines :
    (fuel : ℕ) (table : List (List ℕ)) (a b : List String) (i j : ℕ)
    → length a + length b ≤ fuel
    → (old_lines (diff_from fuel table a b i j) ≡ numbered_from i a)
      × (new_lines (diff_from fuel table a b i j) ≡ numbered_from j b)
unfolding diff_from
diff_from-lines zero table [] [] i j enough = (refl, refl)
diff_from-lines zero table [] (y ∷ b) i j enough = absurd (omega arith)
diff_from-lines zero table (x ∷ a) b i j enough = absurd (omega arith)
diff_from-lines (suc fuel) table [] [] i j enough = (refl, refl)
diff_from-lines (suc fuel) table [] (y ∷ b) i j enough =
    let (old, new) = diff_from-lines fuel table [] b i (j + 1) (omega arith) in
    (old, ap (λ rest. (j + 1, y) ∷ rest) new)
diff_from-lines (suc fuel) table (x ∷ a) [] i j enough =
    let (old, new) = diff_from-lines fuel table a [] (i + 1) j (omega arith) in
    (ap (λ rest. (i + 1, x) ∷ rest) old, new)
diff_from-lines (suc fuel) table (x ∷ a) (y ∷ b) i j enough = elim (Bool-cases (str_eq x y)) [
  | inl same ↦
      let (old, new) = diff_from-lines fuel table a b (i + 1) (j + 1) (omega arith) in
      rw (diff_from, same)
        (
          ap (λ rest. (i + 1, x) ∷ rest) old,
          ap (λ rest. (j + 1, x) ∷ rest) new
              ∙ ap (λ line. (j + 1, line) ∷ numbered_from (j + 1) b) ((eq_iff x y).0 same),
        )
  | inr other ↦ elim (Bool-cases (leb (entry table i (j + 1)) (entry table (i + 1) j))) [
    | inl less ↦
        let (old, new) = diff_from-lines fuel table a (y ∷ b) (i + 1) j (omega arith) in
        rw (diff_from, other, less) (ap (λ rest. (i + 1, x) ∷ rest) old, new)
    | inr more ↦
        let (old, new) = diff_from-lines fuel table (x ∷ a) b i (j + 1) (omega arith) in
        rw (diff_from, other, more) (old, ap (λ rest. (j + 1, y) ∷ rest) new)
  ]
]

-- The lines of a diff that are kept or removed are the old text's, and those that are kept or
-- added are the new text's, all of them in order and each with its line number in that text,
-- counted from 1. The number of lines kept is the one that the longest common subsequence of
-- both texts has by its definition by recursion on both.
pub diff_ops-lines :
    (a b : List String)
    → (old_lines (diff_ops a b) ≡ numbered_from 0 a)
      × (new_lines (diff_ops a b) ≡ numbered_from 0 b)
      × (kept_lines (diff_ops a b) ≡ longest_common a b)
unfolding diff_ops
diff_ops-lines a b =
    let (old, new) = diff_from-lines (length a + length b) (lcs_table a b) a b 0 0 (omega arith) in
    (old, new, diff_ops-kept a b)
