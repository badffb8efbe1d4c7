-- ===== src/Transfers/Runner/Bytes.antt =====
-- apps/dashboard/src/lib/upload-runner.ts: the chunks of a file are its bytes.
use native.Mathlib.Nat.{div-add-mod, mod-lt, mul_comm, mul-le-mul_right}
use home_server_interface.Base.{
  ℕ, zero, suc, ◌+◌, ◌*◌, ◌-◌, ◌≤◌, ◌<◌, List, [], ◌∷◌, ◌++◌, take, drop, length, ◌≡◌, refl, sym,
  ap, ◌∙◌, arith,
}
use home_server_interface.Transfers.{File, size}
use home_server_interface.Transfers.Runner.{part, chunks_of, ceil_div, chunk_size}

-- The first chunks of a file, in their order.
abbrev pub parts : File → ℕ → List ℕ
parts file zero = []
parts file (suc n) = parts file n ++ part file n

take-nil : (n : ℕ) → Path (List ℕ) (take n []) []
take-nil zero = refl
take-nil (suc n) = refl

take_add : (m n : ℕ) (bytes : List ℕ) → take m bytes ++ take n (drop m bytes) ≡ take (m + n) bytes
take_add zero n bytes = ap (λ m. take m bytes) {x = n} {y = 0 + n} (omega arith)
take_add (suc m) n [] = take-nil n ∙ sym (take-nil (suc m + n))
take_add (suc m) n (b ∷ bytes) =
    ap (λ rest. b ∷ rest) (take_add m n bytes)
    ∙ ap (λ k. take k (b ∷ bytes)) {x = suc (m + n)} {y = suc m + n} (omega arith)

take-all : (m : ℕ) (bytes : List ℕ) → length bytes ≤ m → take m bytes ≡ bytes
take-all zero [] bound = refl
take-all zero (b ∷ bytes) bound = absurd (omega arith)
take-all (suc m) [] bound = refl
take-all (suc m) (b ∷ bytes) bound = ap (λ rest. b ∷ rest) (take-all m bytes (omega arith))

parts-eq-take : (file : File) (n : ℕ) → parts file n ≡ take (n * chunk_size) file.bytes
parts-eq-take file zero = ap (λ m. take m file.bytes) {x = 0} {y = 0 * chunk_size} (omega arith)
parts-eq-take file (suc n) = rw (parts-eq-take file n) (
    take_add (n * chunk_size) chunk_size file.bytes
    ∙ ap (λ m. take m file.bytes) {x = n * chunk_size + chunk_size} {y = suc n * chunk_size}
        (omega arith))

ceil_div-covers : (n c : ℕ) → 0 < c → n ≤ ceil_div n c * c
ceil_div-covers n c positive = omega (
  arith,
  div-add-mod (n + (c - 1)) c,
  mod-lt (n + (c - 1)) {m = c} positive,
  mul_comm c (ceil_div n c),
)

chunk_size-pos : 0 < chunk_size
unfolding chunk_size
chunk_size-pos = omega arith

pub chunks_of-covers : (file : File) → size file ≤ chunks_of file * chunk_size
chunks_of-covers file = omega (
  arith,
  ceil_div-covers (size file) chunk_size chunk_size-pos,
  mul-le-mul_right {m = ceil_div (size file) chunk_size} {n = chunks_of file} chunk_size
      (omega arith),
)

pub parts-eq-bytes : (file : File) → parts file (chunks_of file) ≡ file.bytes
parts-eq-bytes file =
    parts-eq-take file (chunks_of file)
    ∙ take-all (chunks_of file * chunk_size) file.bytes (chunks_of-covers file)
