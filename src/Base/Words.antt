-- ===== src/Base/Words.antt =====
-- Machine words: the modulus of `size_t`, powers of two, and little-endian byte blocks.
use Prim.Native.Nat.{ℕ, zero, suc, ◌+◌, ◌*◌, ◌/◌, ◌%◌, ◌^◌, ◌<◌}
use mathlib.Core.Path.{◌≡◌, refl, ap}
use mathlib.Core.List.{List, [], ◌∷◌}
use native.Mathlib.Omega.{arith}
use native.Mathlib.Nat.{pow-suc, add-zero, add-suc, mul_assoc}
use oclgrind.Base.Lists.{length, All}

-- `size_t` has 64 bits.
abbrev pub size_mod : ℕ
size_mod = 2 ^ 64

-- `unsigned` has 32 bits.
abbrev pub unsigned_mod : ℕ
unsigned_mod = 2 ^ 32

pub pow-pos : (n : ℕ) → 0 < 2 ^ n
pow-pos zero = omega arith
pow-pos (suc n) = omega (arith, pow-suc 2 n, pow-pos n)

pub pow-add : (a b : ℕ) → 2 ^ (a + b) ≡ 2 ^ a * 2 ^ b
pow-add a zero = rw add-zero (omega arith)
pow-add a (suc b) = simp (add-suc, pow-suc, pow-add a b, mul_assoc)

-- The bytes of a number, least significant first, and back.
abbrev pub to_bytes : ℕ → ℕ → List ℕ
to_bytes zero v = []
to_bytes (suc n) v = (v % 256) ∷ to_bytes n (v / 256)

abbrev pub of_bytes : List ℕ → ℕ
of_bytes [] = 0
of_bytes (b ∷ bs) = b + 256 * of_bytes bs

pub length-to_bytes : (n v : ℕ) → length (to_bytes n v) ≡ n
length-to_bytes zero v = refl
length-to_bytes (suc n) v = ap suc (length-to_bytes n (v / 256))

pub of_bytes-to_bytes : (n v : ℕ) → v < 256 ^ n → of_bytes (to_bytes n v) ≡ v
of_bytes-to_bytes zero v h = omega arith
of_bytes-to_bytes (suc n) v h =
    omega (arith, pow-suc 256 n, of_bytes-to_bytes n (v / 256) (omega (arith, pow-suc 256 n)))

pub of_bytes-lt : (bs : List ℕ) → All (λ b. b < 256) bs → of_bytes bs < 256 ^ length bs
of_bytes-lt [] h = omega arith
of_bytes-lt (b ∷ bs) h = omega (arith, pow-suc 256 (length bs), of_bytes-lt bs h.1)
