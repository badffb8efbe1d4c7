-- ===== src/Deliveries/RateLimit.antt =====
-- The rate limit of notification-queue.ts: until when a connector waits.
use home_server_interface.Base.{
  ℕ, zero, suc, ◌+◌, ◌-◌, ◌≤◌, ◌<◌, List, [], ◌∷◌, none, some, get_or, ltb, leb, length, get_elem?,
  filter, max, arith, ◌≡◌, refl, inl, inr, Bool-cases, All, leb→le, suc, length-filter-le, ◌↔◌, ◌∙◌,
  ◌⊎◌, Option-cases,
}
use home_server_interface.Deliveries.{insert_sorted, sort, in_minute, rate_limited_until}

-- How many sends at the times `ts` still count at `now`.
abbrev pub count : ℕ → List ℕ → ℕ
count now ts = length (filter (in_minute now) ts)

count-insert_sorted :
    (now t : ℕ) (ts : List ℕ) → count now (insert_sorted t ts) ≡ count now (t ∷ ts)
count-insert_sorted now t [] = refl
count-insert_sorted now t (u ∷ ts) = ground (arith, count-insert_sorted now t ts)

length-insert_sorted : (t : ℕ) (ts : List ℕ) → length (insert_sorted t ts) ≡ suc (length ts)
length-insert_sorted t [] = refl
length-insert_sorted t (u ∷ ts) = ground (arith, length-insert_sorted t ts)

count-sort : (now : ℕ) (ts : List ℕ) → count now (sort ts) ≡ count now ts
count-sort now [] = refl
count-sort now (t ∷ ts) = ground (arith, count-insert_sorted now t (sort ts), count-sort now ts)

-- No element is below `b`.
abbrev Above : ℕ → List ℕ → Type 0
Above b ts = All (λ t. b ≤ t) ts

abbrev IsSorted : List ℕ → Type 0
IsSorted [] = Unit
IsSorted (t ∷ ts) = Above t ts × IsSorted ts

insert_sorted-Above : (b t : ℕ) (ts : List ℕ) → b ≤ t → Above b ts → Above b (insert_sorted t ts)
insert_sorted-Above b t [] le a = (le, tt)
insert_sorted-Above b t (u ∷ ts) le a = elim (Bool-cases (leb t u)) [
  | inl before ↦ rw before (le, a)
  | inr after ↦ rw after (a.0, insert_sorted-Above b t ts le a.1)
]

Above-trans : (b c : ℕ) (ts : List ℕ) → b ≤ c → Above c ts → Above b ts
Above-trans b c [] le a = tt
Above-trans b c (t ∷ ts) le a = (omega (arith, le, a.0), Above-trans b c ts le a.1)

insert_sorted-IsSorted : (t : ℕ) (ts : List ℕ) → IsSorted ts → IsSorted (insert_sorted t ts)
insert_sorted-IsSorted t [] s = (tt, tt)
insert_sorted-IsSorted t (u ∷ ts) s = elim (Bool-cases (leb t u)) [
  | inl before ↦ rw before ((leb→le t u before, Above-trans t u ts (leb→le t u before) s.0), s)
  | inr after ↦
      rw after
        (insert_sorted-Above u t ts (ground (arith, after)) s.0, insert_sorted-IsSorted t ts s.1)
]

sort-IsSorted : (ts : List ℕ) → IsSorted (sort ts)
sort-IsSorted [] = tt
sort-IsSorted (t ∷ ts) = insert_sorted-IsSorted t (sort ts) (sort-IsSorted ts)

count-Above : (t b : ℕ) (ts : List ℕ) → t < b + 60000 → Above b ts → count t ts ≡ length ts
count-Above t b [] lt a = refl
count-Above t b (u ∷ ts) lt a = ground (arith, count-Above t b ts lt a.1, a.0)

get_elem?-Above : (b x i : ℕ) (ts : List ℕ) → Above b ts → get_elem? ts i ≡ some x → b ≤ x
get_elem?-Above b x i [] a e = absurd (ground (arith, e))
get_elem?-Above b x zero (t ∷ ts) a e = ground (arith, a.0, e)
get_elem?-Above b x (suc i) (t ∷ ts) a e = get_elem?-Above b x i ts a.1 e

-- Before `x` is a minute old it and all later ones still count.
count-le_get :
    (t x i : ℕ) (ts : List ℕ)
    → IsSorted ts
    → get_elem? ts i ≡ some x
    → t < x + 60000
    → length ts ≤ count t ts + i
count-le_get t x i [] s e lt = omega arith
count-le_get t x zero (u ∷ ts) s e lt = ground (arith, count-Above t u ts, s.0, e, lt)
count-le_get t x (suc i) (u ∷ ts) s e lt = ground (arith, count-le_get t x i ts s.1 e lt)

-- When `x` is a minute old it and all earlier ones no longer count.
count-get_le :
    (x i : ℕ) (ts : List ℕ)
    → IsSorted ts
    → get_elem? ts i ≡ some x
    → count (x + 60000) ts + i < length ts
count-get_le x i [] s e = absurd (ground (arith, e))
count-get_le x zero (u ∷ ts) s e = ground (arith, length-filter-le (in_minute (x + 60000)) ts, e)
count-get_le x (suc i) (u ∷ ts) s e =
    ground (arith, count-get_le x i ts s.1 e, get_elem?-Above u x i ts s.0 e)

pub count-antitone : (a b : ℕ) (ts : List ℕ) → a ≤ b → count b ts ≤ count a ts
count-antitone a b [] le = omega arith
count-antitone a b (t ∷ ts) le = ground (arith, count-antitone a b ts le)

pub count-filter :
    (now t : ℕ) (ts : List ℕ) → now ≤ t → count t (filter (in_minute now) ts) ≡ count t ts
count-filter now t [] le = refl
count-filter now t (u ∷ ts) le = ground (arith, count-filter now t ts le)

get_elem?-eq-none→le : (i : ℕ) (ts : List ℕ) → get_elem? ts i ≡ none → length ts ≤ i
get_elem?-eq-none→le i [] e = omega arith
get_elem?-eq-none→le zero (t ∷ ts) e = absurd (ground (arith, e))
get_elem?-eq-none→le (suc i) (t ∷ ts) e = ground (arith, get_elem?-eq-none→le i ts e)

-- In a sorted list of at least `limit` sends, those from the one that is `limit` from the end on
-- keep the limit used up for a minute.
lt-or-le : (a b : ℕ) → (a < b) ⊎ (b ≤ a)
lt-or-le a b = elim (Bool-cases (ltb a b)) [
  | inl below ↦ inl (ground (arith, below))
  | inr above ↦ inr (ground (arith, above))
]

count-full_iff :
    (ts : List ℕ) (limit t x : ℕ)
    → IsSorted ts
    → limit ≤ length ts
    → get_elem? ts (length ts - limit) ≡ some x
    → (count t ts < limit) ↔ (x + 60000 ≤ t)
count-full_iff ts limit t x s le at = (
  λ few. elim (lt-or-le t (x + 60000)) [
    | inl early ↦
        absurd (omega (arith, few, le, count-le_get t x (length ts - limit) ts s at early))
    | inr late ↦ late
  ],
  λ waited. omega (
    arith,
    count-antitone (x + 60000) t ts waited,
    count-get_le x (length ts - limit) ts s at,
    le,
  ),
)

module _ (recent : List ℕ) (limit_per_minute now : ℕ) where
  abbrev window : List ℕ
  window = sort (filter (in_minute now) recent)

  abbrev limit : ℕ
  limit = max 1 limit_per_minute

  count-window : (t : ℕ) → now ≤ t → count t window ≡ count t recent
  count-window t le = count-sort t (filter (in_minute now) recent) ∙ count-filter now t recent le

  length-sort : (ts : List ℕ) → length (sort ts) ≡ length ts
  length-sort [] = refl
  length-sort (t ∷ ts) = ground (arith, length-insert_sorted t (sort ts), length-sort ts)

  -- From `now` on a send is within the limit exactly when the time that the limit names has come,
  -- or at once when it names none: it is the earliest time at which a send is allowed.
  pub rate_limited_until_iff :
      (t : ℕ)
      → now ≤ t
      → (count t recent < max 1 limit_per_minute)
        ↔ (get_or (rate_limited_until recent limit_per_minute now) now ≤ t)
  unfolding rate_limited_until
  rate_limited_until_iff t le = elim (Bool-cases (ltb (length window) limit)) [
    | inl free ↦
        rw (rate_limited_until, free)
          (
            λ _. le,
            λ _. ground (
              arith,
              free,
              count-antitone now t recent le,
              count-window now (omega arith),
              length-filter-le (in_minute now) window,
            ),
          )
    | inr full ↦ elim (Option-cases (get_elem? window (length window - limit))) [
      | inl missing ↦ absurd (ground (arith, full, get_elem?-eq-none→le _ window missing))
      | inr (x, at) ↦
          rw (rate_limited_until, full, at)
            (rw⁻¹ (count-window t le) (
              count-full_iff window limit t x (sort-IsSorted (filter (in_minute now) recent))
                (ground (arith, full)) at))
    ]
  ]
