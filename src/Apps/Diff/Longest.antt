-- ===== src/Apps/Diff/Longest.antt =====
-- The table of a diff against a definition by recursion, and the number of lines that it keeps.
use Prim.Native.String.{String}
use home_server_interface.Base.{
  arith, ℕ, zero, suc, ◌+◌, ◌≤◌, max, leb, List, [], ◌∷◌, length, drop, get_elem?, get_or,
  Bool-cases, inl, inr, ◌≡◌, refl, ap, ◌∙◌, sym, str_eq, if◌then◌else◌,
}
use home_server_interface.Apps.Diff.{
  Op, kept, removed, added, entry, diff_from, diff_ops, lcs_table, row_over, zeros, first_row,
  head_or_zero,
}

-- The greatest number of lines that two texts share in order, by recursion on both.
abbrev pub longest_common : List String → List String → ℕ
longest_common [] b = 0
longest_common (x ∷ a) [] = 0
longest_common (x ∷ a) (y ∷ b) =
    let both = longest_common a b in
    let less = longest_common a (y ∷ b) in
    let more = longest_common (x ∷ a) b in if str_eq x y then both + 1 else max less more

longest_common-nil : (a : List String) → longest_common a [] ≡ 0
longest_common-nil [] = refl
longest_common-nil (x ∷ a) = refl

row_of : List String → List String → List ℕ
row_of a [] = longest_common a [] ∷ []
row_of a (y ∷ b) = longest_common a (y ∷ b) ∷ row_of a b

table_of : List String → List String → List (List ℕ)
table_of [] b = row_of [] b ∷ []
table_of (x ∷ a) b = row_of (x ∷ a) b ∷ table_of a b

head-row_of : (a b : List String) → head_or_zero (row_of a b) ≡ longest_common a b
unfolding row_of
head-row_of a [] = refl
head-row_of a (y ∷ b) = refl

zeros-row_of : (b : List String) → zeros b ≡ row_of [] b
unfolding row_of
zeros-row_of [] = refl
zeros-row_of (y ∷ b) = ap (λ row. 0 ∷ row) (zeros-row_of b)

row_over-row_of : (x : String) (a b : List String) → row_over x b (row_of a b) ≡ row_of (x ∷ a) b
unfolding row_of
row_over-row_of x a [] = refl
row_over-row_of x a (y ∷ b) =
    rw (row_over-row_of x a b, head-row_of a b, head-row_of (x ∷ a) b) refl

first-table_of : (a b : List String) → first_row (table_of a b) ≡ row_of a b
unfolding table_of
first-table_of [] b = refl
first-table_of (x ∷ a) b = refl

lcs_table-table_of : (a b : List String) → lcs_table a b ≡ table_of a b
unfolding lcs_table table_of
lcs_table-table_of [] b = ap (λ row. row ∷ []) (zeros-row_of b)
lcs_table-table_of (x ∷ a) b =
    rw (lcs_table-table_of a b, first-table_of a b, row_over-row_of x a b) refl

entry-row_of :
    (a b : List String) (q : ℕ) → get_or (get_elem? (row_of a b) q) 0 ≡ longest_common a (drop q b)
unfolding row_of
entry-row_of a [] zero = refl
entry-row_of a [] (suc q) = sym (longest_common-nil a)
entry-row_of a (y ∷ b) zero = refl
entry-row_of a (y ∷ b) (suc q) = entry-row_of a b q

entry-table_of :
    (a b : List String) (p q : ℕ) → entry (table_of a b) p q ≡ longest_common (drop p a) (drop q b)
unfolding table_of
entry-table_of [] b zero q = entry-row_of [] b q
entry-table_of [] b (suc p) q = refl
entry-table_of (x ∷ a) b zero q = entry-row_of (x ∷ a) b q
entry-table_of (x ∷ a) b (suc p) q = entry-table_of a b p q

abbrev pub kept_lines : List Op → ℕ
kept_lines [] = 0
kept_lines (o ∷ ops) = elim o.kind [
  | kept ↦ 1 + kept_lines ops
  | removed ↦ kept_lines ops
  | added ↦ kept_lines ops
]

-- From its positions on, the table is right for the lines that are left.
abbrev Reads : List (List ℕ) → List String → List String → ℕ → ℕ → Type 0
Reads table a b i j = (p q : ℕ) → entry table (i + p) (j + q) ≡ longest_common (drop p a) (drop q b)

Reads-down :
    (table : List (List ℕ)) (x : String) (a b : List String) (i j : ℕ)
    → Reads table (x ∷ a) b i j
    → Reads table a b (i + 1) j
Reads-down table x a b i j reads p q = ap (λ n. entry table n (j + q)) (shift i p) ∙ reads (suc p) q
  where
    shift : (n m : ℕ) → n + 1 + m ≡ n + suc m
    shift n m = omega arith

Reads-right :
    (table : List (List ℕ)) (y : String) (a b : List String) (i j : ℕ)
    → Reads table a (y ∷ b) i j
    → Reads table a b i (j + 1)
Reads-right table y a b i j reads p q =
    ap (λ n. entry table (i + p) n) (shift j q) ∙ reads p (suc q)
  where
    shift : (n m : ℕ) → n + 1 + m ≡ n + suc m
    shift n m = omega arith

diff_from-kept :
    (fuel : ℕ) (table : List (List ℕ)) (a b : List String) (i j : ℕ)
    → length a + length b ≤ fuel
    → Reads table a b i j
    → kept_lines (diff_from fuel table a b i j) ≡ longest_common a b
unfolding diff_from
diff_from-kept zero table [] b i j enough reads = refl
diff_from-kept zero table (x ∷ a) b i j enough reads = absurd (omega arith)
diff_from-kept (suc fuel) table [] [] i j enough reads = refl
diff_from-kept (suc fuel) table [] (y ∷ b) i j enough reads =
    diff_from-kept fuel table [] b i (j + 1) (omega arith) (Reads-right table y [] b i j reads)
diff_from-kept (suc fuel) table (x ∷ a) [] i j enough reads =
    diff_from-kept fuel table a [] (i + 1) j (omega arith) (Reads-down table x a [] i j reads)
    ∙ longest_common-nil a
diff_from-kept (suc fuel) table (x ∷ a) (y ∷ b) i j enough reads = elim (Bool-cases (str_eq x y)) [
  | inl same ↦
      let rest =
        diff_from-kept fuel table a b (i + 1) (j + 1) (omega arith)
          (Reads-right table y a b (i + 1) j (Reads-down table x a (y ∷ b) i j reads)) in
      ground (arith, same, rest)
  | inr other ↦
      let less =
        diff_from-kept fuel table a (y ∷ b) (i + 1) j (omega arith)
          (Reads-down table x a (y ∷ b) i j reads) in
      let more =
        diff_from-kept fuel table (x ∷ a) b i (j + 1) (omega arith)
          (Reads-right table y (x ∷ a) b i j reads) in
      let below = ap (entry table (i + 1)) (plus_zero j) ∙ reads 1 0 in
      let right = ap (λ n. entry table n (j + 1)) (plus_zero i) ∙ reads 0 1 in
      elim (Bool-cases (leb (entry table i (j + 1)) (entry table (i + 1) j))) [
        | inl down ↦ ground (arith, other, down, less, below, right)
        | inr over ↦ ground (arith, other, over, more, below, right)
      ]
]
  where
    plus_zero : (n : ℕ) → n ≡ n + 0
    plus_zero n = omega arith

pub diff_ops-kept : (a b : List String) → kept_lines (diff_ops a b) ≡ longest_common a b
unfolding diff_ops
diff_ops-kept a b = diff_from-kept (length a + length b) (lcs_table a b) a b 0 0 (omega arith) reads
  where
    zero_plus : (n : ℕ) → 0 + n ≡ n
    zero_plus n = omega arith

    reads : Reads (lcs_table a b) a b 0 0
    reads p q =
        ap (λ table. entry table (0 + p) (0 + q)) (lcs_table-table_of a b)
        ∙ ap (λ n. entry (table_of a b) n (0 + q)) (zero_plus p)
        ∙ ap (λ n. entry (table_of a b) p n) (zero_plus q)
        ∙ entry-table_of a b p q
