-- ===== src/Transfers/Runner/Progress/Sums.antt =====
-- apps/dashboard/src/lib/upload-runner.ts: how many chunks and bytes are counted as sent.
use home_server_interface.Base.{
  ℕ, zero, suc, ◌+◌, ◌*◌, ◌≤◌, ◌<◌, min, ◌==◌, ltb, leb, true, false, ◌||◌, List, [], ◌∷◌,
  if◌then◌else◌, Bool-cases, ◌≡◌, inl, inr, refl, sym, arith, subst,
}
use home_server_interface.Transfers.{File, size}
use home_server_interface.Transfers.Runner.{
  mem_ℕ, chunk_byte_length, count_staged, chunks_of, as_set, chunk_size,
}
use home_server_interface.Transfers.Runner.Bytes.{chunks_of-covers}

abbrev pub sum_to : ℕ → (ℕ → ℕ) → ℕ
sum_to zero f = 0
sum_to (suc n) f = sum_to n f + f n

-- Two sums that differ at one index at most.
sum_to-same :
    (n k : ℕ) (f g : ℕ → ℕ)
    → n ≤ k
    → ((j : ℕ) → (j == k) ≡ false → g j ≡ f j)
    → sum_to n g ≡ sum_to n f
sum_to-same zero k f g outside same = refl
sum_to-same (suc n) k f g outside same =
    ground (arith, sum_to-same n k f g (omega arith) same, same n (ground arith))

sum_to-bump :
    (n k d : ℕ) (f g : ℕ → ℕ)
    → k < n
    → ((j : ℕ) → (j == k) ≡ false → g j ≡ f j)
    → g k ≡ f k + d
    → sum_to n g ≡ sum_to n f + d
sum_to-bump zero k d f g inside same bump = absurd (omega arith)
sum_to-bump (suc n) k d f g inside same bump = elim (Bool-cases (n == k)) [
  | inl e1 ↦
      let index : n ≡ k = ground (arith, e1) in
      omega (
        arith,
        subst (λ m. g m ≡ f m + d) (sym index) bump,
        sum_to-same n k f g (omega (arith, index)) same,
      )
  | inr e1 ↦ ground (arith, e1, same n e1, sum_to-bump n k d f g (ground (arith, e1)) same bump)
]

sum_to-le : (n : ℕ) (f g : ℕ → ℕ) → ((j : ℕ) → f j ≤ g j) → sum_to n f ≤ sum_to n g
sum_to-le zero f g below = omega arith
sum_to-le (suc n) f g below = omega (arith, sum_to-le n f g below, below n)

pub sum_to-one : (n : ℕ) → sum_to n (λ j. 1) ≡ n
sum_to-one zero = refl
sum_to-one (suc n) = omega (arith, sum_to-one n)

sum_to-chunk_byte_length :
    (file : File) (n : ℕ) → sum_to n (chunk_byte_length file) ≡ min (size file) (n * chunk_size)
unfolding chunk_byte_length
sum_to-chunk_byte_length file zero = omega arith
sum_to-chunk_byte_length file (suc n) = omega (arith, sum_to-chunk_byte_length file n)

pub sum_to-size : (file : File) → sum_to (chunks_of file) (chunk_byte_length file) ≡ size file
sum_to-size file =
    omega (arith, sum_to-chunk_byte_length file (chunks_of file), chunks_of-covers file)

-- The weight of chunk j when the loop has come to chunk i: it is counted when it was sent or staged.
abbrev pub weight_at : (ℕ → ℕ) → List ℕ → ℕ → ℕ → ℕ
weight_at weight staged i j = if ltb j i || mem_ℕ j staged then weight j else 0

abbrev pub counted_at : (ℕ → ℕ) → List ℕ → ℕ → ℕ → ℕ
counted_at weight staged i total = sum_to total (weight_at weight staged i)

pub counted_at-le :
    (weight : ℕ → ℕ) (staged : List ℕ) (i total : ℕ)
    → counted_at weight staged i total ≤ sum_to total weight
counted_at-le weight staged i total =
    sum_to-le total (weight_at weight staged i) weight (λ j. ground arith)

pub counted_at-end :
    (weight : ℕ → ℕ) (staged : List ℕ) (total n : ℕ)
    → n ≤ total
    → sum_to n (weight_at weight staged total) ≡ sum_to n weight
counted_at-end weight staged total zero within = refl
counted_at-end weight staged total (suc n) within =
    ground (arith, counted_at-end weight staged total n (omega arith))

pub counted_at-skip :
    (weight : ℕ → ℕ) (staged : List ℕ) (i total : ℕ)
    → i < total
    → mem_ℕ i staged ≡ true
    → counted_at weight staged (i + 1) total ≡ counted_at weight staged i total
counted_at-skip weight staged i total inside known = omega (
  arith,
  sum_to-bump total i 0 (weight_at weight staged i) (weight_at weight staged (i + 1)) inside
      (λ j other. ground (arith, other)) (ground (arith, known)),
)

pub counted_at-send :
    (weight : ℕ → ℕ) (staged : List ℕ) (i total : ℕ)
    → i < total
    → mem_ℕ i staged ≡ false
    → counted_at weight staged (i + 1) total ≡ counted_at weight staged i total + weight i
counted_at-send weight staged i total inside fresh =
    sum_to-bump total i (weight i) (weight_at weight staged i) (weight_at weight staged (i + 1))
      inside (λ j other. ground (arith, other)) (ground (arith, fresh))

abbrev pub IsDistinct : List ℕ → Type 0
IsDistinct [] = Unit
IsDistinct (i ∷ is) = (mem_ℕ i is ≡ false) × IsDistinct is

pub as_set-IsDistinct : (is : List ℕ) → IsDistinct (as_set is)
unfolding as_set
as_set-IsDistinct [] = tt
as_set-IsDistinct (i ∷ is) = elim (Bool-cases (mem_ℕ i (as_set is))) [
  | inl e1 ↦ rw e1 (as_set-IsDistinct is)
  | inr e1 ↦ rw e1 (e1, as_set-IsDistinct is)
]

counted_at-cons :
    (weight : ℕ → ℕ) (i : ℕ) (is : List ℕ) (total : ℕ)
    → mem_ℕ i is ≡ false
    → counted_at weight (i ∷ is) 0 total
      ≡ counted_at weight is 0 total + (if leb total i then 0 else weight i)
counted_at-cons weight i is total fresh = elim (Bool-cases (leb total i)) [
  | inl e1 ↦ ground (
    arith,
    e1,
    sum_to-same total i (weight_at weight is 0) (weight_at weight (i ∷ is) 0) (ground (arith, e1))
        (λ j other. ground (arith, other)),
  )
  | inr e1 ↦ ground (
    arith,
    e1,
    sum_to-bump total i (weight i) (weight_at weight is 0) (weight_at weight (i ∷ is) 0)
        (ground (arith, e1)) (λ j other. ground (arith, other)) (ground (arith, fresh)),
  )
]

counted_at-none : (weight : ℕ → ℕ) (n : ℕ) → sum_to n (weight_at weight [] 0) ≡ 0
counted_at-none weight zero = refl
counted_at-none weight (suc n) = ground (arith, counted_at-none weight n)

pub count_staged-counted_at :
    (file : File) (total : ℕ) (staged : List ℕ)
    → IsDistinct staged
    → ((count_staged file total staged).0 ≡ counted_at (λ j. 1) staged 0 total)
      × ((count_staged file total staged).1 ≡ counted_at (chunk_byte_length file) staged 0 total)
unfolding count_staged
count_staged-counted_at file total [] distinct =
    (sym (counted_at-none (λ j. 1) total), sym (counted_at-none (chunk_byte_length file) total))
count_staged-counted_at file total (i ∷ is) (fresh, distinct) =
    let rest = count_staged-counted_at file total is distinct in
    let chunks = counted_at-cons (λ j. 1) i is total fresh in
    let bytes = counted_at-cons (chunk_byte_length file) i is total fresh in
    elim (Bool-cases (leb total i)) [
      | inl e1 ↦ (ground (arith, e1, rest.0, chunks), ground (arith, e1, rest.1, bytes))
      | inr e1 ↦ (ground (arith, e1, rest.0, chunks), ground (arith, e1, rest.1, bytes))
    ]

pub count_staged-none :
    (file : File) (total : ℕ) (staged : List ℕ)
    → (count_staged file total staged).0 ≡ 0
    → (count_staged file total staged).1 ≡ 0
unfolding count_staged
count_staged-none file total [] none_counted = refl
count_staged-none file total (i ∷ is) none_counted = elim (Bool-cases (leb total i)) [
  | inl e1 ↦ ground (arith, e1, none_counted, count_staged-none file total is)
  | inr e1 ↦ absurd (ground (arith, e1, none_counted))
]
