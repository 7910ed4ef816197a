-- ===== src/Base/Slices.antt =====
-- Blocks of bytes: reading a slice, and overwriting a slice in place (`memcpy`).
use Prim.Native.Nat.{ℕ, zero, suc, ◌+◌, ◌≤◌}
use mathlib.Core.Path.{◌≡◌, refl, ap}
use mathlib.Core.List.{List, [], ◌∷◌}
use native.Mathlib.Omega.{arith}
use oclgrind.Base.Lists.{length}

module _ {ℓ} {A : Type ℓ} where
  -- `n` elements from the start; fewer where the list ends.
  abbrev pub take : ℕ → List A → List A
  take zero xs = []
  take (suc n) [] = []
  take (suc n) (x ∷ xs) = x ∷ take n xs

  -- `n` elements from index `i` on.
  abbrev pub slice : ℕ → ℕ → List A → List A
  slice i n [] = []
  slice zero n (x ∷ xs) = take n (x ∷ xs)
  slice (suc i) n (x ∷ xs) = slice i n xs

  -- `memcpy(xs + i, src, length src)`; what would fall beyond the end is not written.
  abbrev pub overwrite : List A → ℕ → List A → List A
  overwrite [] i src = []
  overwrite (x ∷ xs) zero [] = x ∷ xs
  overwrite (x ∷ xs) zero (s ∷ src) = s ∷ overwrite xs zero src
  overwrite (x ∷ xs) (suc i) src = x ∷ overwrite xs i src

module _ {ℓ} {A : Type ℓ} where
  pub length-take : (n : ℕ) (xs : List A) → n ≤ length xs → length (take n xs) ≡ n
  length-take zero xs h = refl
  length-take (suc n) [] h = absurd (omega arith)
  length-take (suc n) (x ∷ xs) h = ap suc (length-take n xs (omega arith))

  pub take-length : (xs : List A) → take (length xs) xs ≡ xs
  take-length [] = refl
  take-length (x ∷ xs) = ap (◌∷◌ x) (take-length xs)

  pub length-slice : (i n : ℕ) (xs : List A) → i + n ≤ length xs → length (slice i n xs) ≡ n
  length-slice i n [] h = omega arith
  length-slice zero n (x ∷ xs) h = length-take n (x ∷ xs) (omega arith)
  length-slice (suc i) n (x ∷ xs) h = length-slice i n xs (omega arith)

  pub length-overwrite :
      (xs : List A) (i : ℕ) (src : List A) → length (overwrite xs i src) ≡ length xs
  length-overwrite [] i src = refl
  length-overwrite (x ∷ xs) zero [] = refl
  length-overwrite (x ∷ xs) zero (s ∷ src) = ap suc (length-overwrite xs zero src)
  length-overwrite (x ∷ xs) (suc i) src = ap suc (length-overwrite xs i src)

  take-overwrite :
      (xs src : List A) → length src ≤ length xs → take (length src) (overwrite xs zero src) ≡ src
  take-overwrite xs [] h = refl
  take-overwrite [] (s ∷ src) h = absurd (omega arith)
  take-overwrite (x ∷ xs) (s ∷ src) h = ap (◌∷◌ s) (take-overwrite xs src (omega arith))

  -- What was written is read back.
  pub slice-overwrite :
      (xs : List A) (i : ℕ) (src : List A)
      → i + length src ≤ length xs
      → slice i (length src) (overwrite xs i src) ≡ src
  slice-overwrite [] i [] h = refl
  slice-overwrite [] i (s ∷ src) h = absurd (omega arith)
  slice-overwrite (x ∷ xs) zero [] h = refl
  slice-overwrite (x ∷ xs) zero (s ∷ src) h = take-overwrite (x ∷ xs) (s ∷ src) (omega arith)
  slice-overwrite (x ∷ xs) (suc i) src h = slice-overwrite xs i src (omega arith)

  take-overwrite_below :
      (xs : List A) (i n : ℕ) (src : List A) → n ≤ i → take n (overwrite xs i src) ≡ take n xs
  take-overwrite_below xs i zero src h = refl
  take-overwrite_below [] i (suc n) src h = refl
  take-overwrite_below (x ∷ xs) zero (suc n) src h = absurd (omega arith)
  take-overwrite_below (x ∷ xs) (suc i) (suc n) src h =
      ap (◌∷◌ x) (take-overwrite_below xs i n src (omega arith))

  -- A slice that ends before the write begins is unchanged.
  pub slice-overwrite_below :
      (xs : List A) (i j n : ℕ) (src : List A)
      → j + n ≤ i
      → slice j n (overwrite xs i src) ≡ slice j n xs
  slice-overwrite_below [] i j n src h = refl
  slice-overwrite_below (x ∷ xs) zero zero n [] h = refl
  slice-overwrite_below (x ∷ xs) zero zero zero (s ∷ src) h = refl
  slice-overwrite_below (x ∷ xs) zero zero (suc n) (s ∷ src) h = absurd (omega arith)
  slice-overwrite_below (x ∷ xs) (suc i) zero n src h =
      take-overwrite_below (x ∷ xs) (suc i) n src (omega arith)
  slice-overwrite_below (x ∷ xs) zero (suc j) n src h = absurd (omega arith)
  slice-overwrite_below (x ∷ xs) (suc i) (suc j) n src h =
      slice-overwrite_below xs i j n src (omega arith)

  -- So is one that starts where the write ends, or later.
  pub slice-overwrite_above :
      (xs : List A) (i j n : ℕ) (src : List A)
      → i + length src ≤ j
      → slice j n (overwrite xs i src) ≡ slice j n xs
  slice-overwrite_above [] i j n src h = refl
  slice-overwrite_above (x ∷ xs) zero j n [] h = refl
  slice-overwrite_above (x ∷ xs) zero zero n (s ∷ src) h = absurd (omega arith)
  slice-overwrite_above (x ∷ xs) zero (suc j) n (s ∷ src) h =
      slice-overwrite_above xs zero j n src (omega arith)
  slice-overwrite_above (x ∷ xs) (suc i) zero n src h = absurd (omega arith)
  slice-overwrite_above (x ∷ xs) (suc i) (suc j) n src h =
      slice-overwrite_above xs i j n src (omega arith)
