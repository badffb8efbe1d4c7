-- ===== src/Exclusions/Paths.antt =====
-- apps/backend/src/services/ai-exclusions.ts: which paths are inside which, and which ones a call
-- names.
use Prim.Native.String.{String}
use package.text.Mathlib.TextEquality.{starts_with_iff}
use home_server_interface.Base.{
  Bool, true, List, [], ◌∷◌, Option, none, some, if◌then◌else◌, any, arith, ◌≡◌, inl, inr,
  Bool-cases, ◌↔◌, ◌⊎◌, concat, mem, str_eq, ap, eq_iff, eq_refl, get_or, sym,
}
use home_server_interface.Exclusions.{Args, path_args, cons_some, within}

-- A path at another one or below it.
abbrev pub IsInside : String → String → Type 0
IsInside child parent =
    (child ≡ parent)
    ⊎ ((rest : String) × (child
          ≡ concat (if str_eq parent "/" then "/" else concat parent "/") rest))

pub within_iff : (child parent : String) → (within child parent ≡ true) ↔ IsInside child parent
unfolding within
within_iff child parent =
    let prefix : String = if str_eq parent "/" then "/" else concat parent "/" in
    let below = starts_with_iff child prefix in
    (
      λ e. elim (Bool-cases (str_eq child parent)) [
        | inl same ↦ inl ((eq_iff child parent).0 same)
        | inr other ↦ let (rest, is) = below.0 (ground (arith, e, other)) in inr (rest, sym is)
      ],
      λ o. elim o [
        | inl same ↦ ground (arith, (eq_iff child parent).1 same)
        | inr (rest, is) ↦ ground (arith, below.1 (rest, sym is))
      ],
    )

-- A path that a call names, in whichever argument.
abbrev pub Names : Args → String → Type 0
Names args p =
    (args.path ≡ some p)
    ⊎ (args.parent_path ≡ some p)
    ⊎ (args.src ≡ some p)
    ⊎ (args.dst_dir ≡ some p)
    ⊎ (mem p args.paths ≡ true)

mem-cons_some_iff :
    (o : Option String) (xs : List String) (p : String)
    → (mem p (cons_some o xs) ≡ true) ↔ ((o ≡ some p) ⊎ (mem p xs ≡ true))
mem-cons_some_iff none xs p =
    (λ e. inr e, λ o. elim o [ inl e ↦ absurd (ground (arith, e)) | inr e ↦ e ])
mem-cons_some_iff (some x) xs p = (
  λ e. elim (Bool-cases (str_eq x p)) [
    | inl same ↦ inl (ap some ((eq_iff x p).0 same))
    | inr other ↦ inr (ground (arith, e, other))
  ],
  λ o. elim o [
    | inl e ↦ ground (arith, (eq_iff x p).1 (ap (λ o. get_or o x) e))
    | inr e ↦ ground (arith, e)
  ],
)

or_else : {A B C : Type 0} → (B ↔ C) → (A ⊎ B) ↔ (A ⊎ C)
or_else (to, from) = (
  λ o. elim o [ inl a ↦ inl a | inr b ↦ inr (to b) ],
  λ o. elim o [ inl a ↦ inl a | inr c ↦ inr (from c) ],
)

and_then : {A B C : Type 0} → (A ↔ B) → (B ↔ C) → A ↔ C
and_then (to, from) (to', from') = (λ a. to' (to a), λ c. from (from' c))

pub path_args_iff : (args : Args) (p : String) → (mem p (path_args args) ≡ true) ↔ Names args p
path_args_iff args p = and_then (mem-cons_some_iff args.path _ p) (
    or_else (
      and_then (mem-cons_some_iff args.parent_path _ p) (
        or_else (
          and_then (mem-cons_some_iff args.src _ p)
            (or_else (mem-cons_some_iff args.dst_dir args.paths p))))))

pub any_iff :
    (f : String → Bool) (xs : List String)
    → (any f xs ≡ true) ↔ ((x : String) × (mem x xs ≡ true) × (f x ≡ true))
any_iff f [] = (λ e. absurd (ground (arith, e)), λ (x, e, h). absurd (ground (arith, e)))
any_iff f (y ∷ xs) = (
  λ e. elim (Bool-cases (f y)) [
    | inl e1 ↦ (y, ground (arith, eq_refl y), e1)
    | inr e1 ↦
        let (x, listed, holds) = (any_iff f xs).0 (ground (arith, e, e1)) in
        (x, ground (arith, listed), holds)
  ],
  λ (x, listed, holds). elim (Bool-cases (str_eq y x)) [
    | inl e1 ↦ ground (arith, ap f ((eq_iff y x).0 e1), holds)
    | inr e1 ↦ ground (arith, (any_iff f xs).1 (x, ground (arith, listed, e1), holds))
  ],
)
