-- ===== src/Base/Maps.antt =====
-- A JavaScript `Map` with text keys, as its entries in insertion order: `get`, `has`, `set`,
-- `delete` and the deletion of the entries that fail a test.
use Prim.Native.String.{String}
use mathlib.Core.Path.{◌≡◌, refl}
use mathlib.Core.Logic.{inl, inr}
use mathlib.Core.Bool.{Bool}
use mathlib.Core.List.{List, [], ◌∷◌}
use mathlib.Core.Option.{Option, none, some}
use native.Mathlib.Omega.{arith}
use text.Mathlib.Text.{◌==◌ as str_eq}
use text.Mathlib.TextEquality.{eq_iff}
use home_server_interface.Base.Tests.{if◌then◌else◌, is_some, Bool-cases}

module _ {ℓ} {V : Type ℓ} where
  abbrev pub lookup : String → List (String × V) → Option V
  lookup k [] = none
  lookup k ((j, v) ∷ m) = if str_eq j k then some v else lookup k m

  -- A key that is there keeps its place.
  abbrev pub insert : String → V → List (String × V) → List (String × V)
  insert k v [] = (k, v) ∷ []
  insert k v ((j, w) ∷ m) = if str_eq j k then (j, v) ∷ m else (j, w) ∷ insert k v m

  abbrev pub erase : String → List (String × V) → List (String × V)
  erase k [] = []
  erase k ((j, v) ∷ m) = if str_eq j k then erase k m else (j, v) ∷ erase k m

  -- The entries that pass the test stay: a `for` loop that deletes the others.
  abbrev pub retain : (V → Bool) → List (String × V) → List (String × V)
  retain p [] = []
  retain p ((j, v) ∷ m) = if p v then (j, v) ∷ retain p m else retain p m

  abbrev pub keep_if : (V → Bool) → Option V → Option V
  keep_if p none = none
  keep_if p (some v) = if p v then some v else none

  -- No key stands twice, as in every `Map`.
  abbrev pub Unique : List (String × V) → Type ℓ
  Unique [] = Unit
  Unique ((j, v) ∷ m) = (lookup j m ≡ none) × Unique m

  pub lookup-insert :
      (k j : String) (v : V) (m : List (String × V))
      → lookup j (insert k v m) ≡ (if str_eq k j then some v else lookup j m)
  lookup-insert k j v [] = refl
  lookup-insert k j v ((i, w) ∷ m) =
      ground (arith, eq_iff k j, eq_iff i k, eq_iff i j, lookup-insert k j v m)

  pub lookup-erase :
      (k j : String) (m : List (String × V))
      → lookup j (erase k m) ≡ (if str_eq k j then none else lookup j m)
  lookup-erase k j [] = ground arith
  lookup-erase k j ((i, w) ∷ m) =
      ground (arith, eq_iff k j, eq_iff i k, eq_iff i j, lookup-erase k j m)

  lookup-retain-none :
      (p : V → Bool) (k : String) (m : List (String × V))
      → lookup k m ≡ none
      → lookup k (retain p m) ≡ none
  lookup-retain-none p k [] h = refl
  lookup-retain-none p k ((i, w) ∷ m) h = ground (arith, lookup-retain-none p k m)

  pub lookup-retain :
      (p : V → Bool) (k : String) (m : List (String × V))
      → Unique m
      → lookup k (retain p m) ≡ keep_if p (lookup k m)
  lookup-retain p k [] u = refl
  lookup-retain p k ((i, w) ∷ m) u =
      ground (arith, eq_iff i k, lookup-retain p k m u.1, lookup-retain-none p i m u.0)

  pub insert-Unique :
      (k : String) (v : V) (m : List (String × V)) → Unique m → Unique (insert k v m)
  insert-Unique k v [] u = (refl, tt)
  insert-Unique k v ((i, w) ∷ m) u = elim (Bool-cases (str_eq i k)) [
    | inl hit ↦ rw hit u
    | inr miss ↦
        rw miss
          (ground (arith, lookup-insert k i v m, eq_iff i k, eq_iff k i), insert-Unique k v m u.1)
  ]

  pub erase-Unique : (k : String) (m : List (String × V)) → Unique m → Unique (erase k m)
  erase-Unique k [] u = tt
  erase-Unique k ((i, w) ∷ m) u = elim (Bool-cases (str_eq i k)) [
    | inl hit ↦ rw hit (erase-Unique k m u.1)
    | inr miss ↦ rw miss (ground (arith, lookup-erase k i m), erase-Unique k m u.1)
  ]

  pub retain-Unique : (p : V → Bool) (m : List (String × V)) → Unique m → Unique (retain p m)
  retain-Unique p [] u = tt
  retain-Unique p ((i, w) ∷ m) u = elim (Bool-cases (p w)) [
    | inl hit ↦ rw hit (lookup-retain-none p i m u.0, retain-Unique p m u.1)
    | inr miss ↦ rw miss (retain-Unique p m u.1)
  ]

  abbrev pub has : String → List (String × V) → Bool
  has k m = is_some (lookup k m)

  -- An update of the row with a key, if there is one.
  abbrev pub modify : String → (V → V) → List (String × V) → List (String × V)
  modify k g [] = []
  modify k g ((j, v) ∷ m) = if str_eq j k then (j, g v) ∷ m else (j, v) ∷ modify k g m

  abbrev pub map_some : (V → V) → Option V → Option V
  map_some g none = none
  map_some g (some v) = some (g v)

  pub lookup-modify :
      (k j : String) (g : V → V) (m : List (String × V))
      → lookup j (modify k g m) ≡ (if str_eq k j then map_some g (lookup j m) else lookup j m)
  lookup-modify k j g [] = ground arith
  lookup-modify k j g ((i, w) ∷ m) =
      ground (arith, eq_iff k j, eq_iff i k, eq_iff i j, lookup-modify k j g m)

  abbrev pub keys : List (String × V) → List String
  keys [] = []
  keys ((j, v) ∷ m) = j ∷ keys m

-- A loop of writes, one for each entry of a list.
module _ {ℓ κ} {V : Type ℓ} {H : Type κ}
    (write : String → V → List (String × H) → List (String × H)) where
  abbrev pub write_all : List (String × V) → List (String × H) → List (String × H)
  write_all [] m = m
  write_all ((k, v) ∷ l) m = write_all l (write k v m)

  abbrev pub written : (V → Option H → Option H) → Option V → Option H → Option H
  written f none h = h
  written f (some v) h = f v h

  -- What a key holds after the loop, when no key is written twice.
  pub lookup-write_all :
      (f : V → Option H → Option H) (j : String)
      (law : (k : String) (v : V) (m : List (String × H))
        → lookup j (write k v m) ≡ (if str_eq k j then f v (lookup j m) else lookup j m))
      (l : List (String × V)) (m : List (String × H))
      → Unique l
      → lookup j (write_all l m) ≡ written f (lookup j l) (lookup j m)
  lookup-write_all f j law [] m u = refl
  lookup-write_all f j law ((k, v) ∷ l) m u =
      ground (arith, eq_iff k j, law k v m, lookup-write_all f j law l (write k v m) u.1)
