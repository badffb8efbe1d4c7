-- ===== src/Apps/Diff.antt =====
-- unifiedDiff of apps/backend/src/services/app-plan.ts, on the lines of both texts: the table of
-- longest common subsequences and the operations read off it.
pub mod Longest
pub mod RoundTrip
use Prim.Native.String.{String}
use home_server_interface.Base.{
  ℕ, zero, suc, ◌+◌, max, leb, Bool, true, false, not, ◌&&◌, List, [], ◌∷◌, ◌++◌, map, length,
  get_elem?, get_or, str_eq, if◌then◌else◌, concat,
}

-- A line that is kept, removed or added.
pub data OpKind : Type 0 where
  kept removed added : OpKind

-- A line with its number in the old text and in the new one.
pub record Op : Type 0 where
  pub kind : OpKind
  pub text : String
  pub ai : ℕ
  pub bi : ℕ

abbrev pub head_or_zero : List ℕ → ℕ
head_or_zero [] = 0
head_or_zero (n ∷ ns) = n

abbrev pub rest_of : List ℕ → List ℕ
rest_of [] = []
rest_of (n ∷ ns) = ns

-- The row of a line over the row of the line after it, from its last entry to its first.
abbrev pub row_over : String → List String → List ℕ → List ℕ
row_over x [] below = 0 ∷ []
row_over x (y ∷ ys) below =
    let right = row_over x ys (rest_of below) in
    (if str_eq x y
      then head_or_zero (rest_of below) + 1
      else max (head_or_zero below) (head_or_zero right))
    ∷ right

abbrev pub zeros : List String → List ℕ
zeros [] = 0 ∷ []
zeros (y ∷ ys) = 0 ∷ zeros ys

abbrev pub first_row : List (List ℕ) → List ℕ
first_row [] = []
first_row (row ∷ rows) = row

-- The rows of the table, the first for all of the old lines.
unfoldable pub lcs_table : List String → List String → List (List ℕ)
lcs_table [] b = zeros b ∷ []
lcs_table (x ∷ a) b = let rows = lcs_table a b in row_over x b (first_row rows) ∷ rows

abbrev pub entry : List (List ℕ) → ℕ → ℕ → ℕ
entry table i j = get_or (get_elem? (get_or (get_elem? table i) []) j) 0

-- The loop over both texts: `a` and `b` are the lines left, from positions i and j.
unfoldable pub diff_from : ℕ → List (List ℕ) → List String → List String → ℕ → ℕ → List Op
diff_from zero table a b i j = []
diff_from (suc fuel) table [] [] i j = []
diff_from (suc fuel) table [] (y ∷ b) i j =
    record { kind = added; text = y; ai = i; bi = j + 1 } ∷ diff_from fuel table [] b i (j + 1)
diff_from (suc fuel) table (x ∷ a) [] i j =
    record { kind = removed; text = x; ai = i + 1; bi = j } ∷ diff_from fuel table a [] (i + 1) j
diff_from (suc fuel) table (x ∷ a) (y ∷ b) i j =
    let both = diff_from fuel table a b (i + 1) (j + 1) in
    let less = diff_from fuel table a (y ∷ b) (i + 1) j in
    let more = diff_from fuel table (x ∷ a) b i (j + 1) in
    if str_eq x y
    then record { kind = kept; text = x; ai = i + 1; bi = j + 1 } ∷ both
    else if leb (entry table i (j + 1)) (entry table (i + 1) j)
    then record { kind = removed; text = x; ai = i + 1; bi = j } ∷ less
    else record { kind = added; text = y; ai = i; bi = j + 1 } ∷ more

unfoldable pub diff_ops : List String → List String → List Op
diff_ops a b = diff_from (length a + length b) (lcs_table a b) a b 0 0
