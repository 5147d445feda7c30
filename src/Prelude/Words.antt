-- ===== src/Prelude/Words.antt =====
-- Big-endian words: `u32::to_be_bytes`, `u32::from_be_bytes` and their 16-bit versions.
use Prim.Native.Nat.{ℕ, ◌+◌, ◌-◌, ◌*◌, ◌/◌, ◌%◌, ◌^◌, ◌<◌}
use mathlib.Core.Path.{◌≡◌}
use mathlib.Core.List.{List, [], ◌∷◌}
use native.Mathlib.Omega.{arith}

abbrev pub u16_mod : ℕ
u16_mod = 2 ^ 16

abbrev pub u32_mod : ℕ
u32_mod = 2 ^ 32

abbrev pub u64_mod : ℕ
u64_mod = 2 ^ 64

abbrev pub be32_bytes : ℕ → List ℕ
be32_bytes n = n / 2 ^ 24 % 256 ∷ n / 2 ^ 16 % 256 ∷ n / 2 ^ 8 % 256 ∷ n % 256 ∷ []

abbrev pub be32 : ℕ → ℕ → ℕ → ℕ → ℕ
be32 a b c d = a * 2 ^ 24 + b * 2 ^ 16 + c * 2 ^ 8 + d

abbrev pub be16 : ℕ → ℕ → ℕ
be16 a b = a * 2 ^ 8 + b

pub be32-bytes :
    (n : ℕ)
    → n < u32_mod
    → be32 (n / 2 ^ 24 % 256) (n / 2 ^ 16 % 256) (n / 2 ^ 8 % 256) (n % 256) ≡ n
be32-bytes n h = omega arith

pub be16-bytes : (n : ℕ) → n < u16_mod → be16 (n / 2 ^ 8 % 256) (n % 256) ≡ n
be16-bytes n h = omega arith

pub be32_lt : (a b c d : ℕ) → a < 256 → b < 256 → c < 256 → d < 256 → be32 a b c d < u32_mod
be32_lt a b c d ha hb hc hd = omega arith

-- `usize::div_ceil`, for a positive divisor.
abbrev pub div_ceil : ℕ → ℕ → ℕ
div_ceil n d = (n + d - 1) / d
