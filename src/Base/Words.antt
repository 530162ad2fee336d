-- ===== src/Base/Words.antt =====
-- Big-endian machine words: `to_be_bytes` and `from_be_bytes`.
use Prim.Native.Nat.{ℕ, ◌+◌, ◌*◌, ◌/◌, ◌%◌, ◌^◌, ◌<◌, min}
use mathlib.Core.Path.{◌≡◌}
use mathlib.Core.List.{List, [], ◌∷◌}
use native.Mathlib.Omega.{arith}

abbrev pub IsByte : ℕ → Type 0
IsByte b = b < 256

abbrev pub IsU16 : ℕ → Type 0
IsU16 n = n < 2 ^ 16

abbrev pub IsU32 : ℕ → Type 0
IsU32 n = n < 2 ^ 32

abbrev pub IsU64 : ℕ → Type 0
IsU64 n = n < 2 ^ 64

abbrev pub u16_to_be_bytes : ℕ → List ℕ
u16_to_be_bytes n = (n / 2 ^ 8 % 256) ∷ (n % 256) ∷ []

abbrev pub u16_from_be_bytes : ℕ → ℕ → ℕ
u16_from_be_bytes a b = a * 2 ^ 8 + b

abbrev pub u32_to_be_bytes : ℕ → List ℕ
u32_to_be_bytes n = (n / 2 ^ 24 % 256) ∷ (n / 2 ^ 16 % 256) ∷ (n / 2 ^ 8 % 256) ∷ (n % 256) ∷ []

abbrev pub u32_from_be_bytes : ℕ → ℕ → ℕ → ℕ → ℕ
u32_from_be_bytes a b c d = a * 2 ^ 24 + b * 2 ^ 16 + c * 2 ^ 8 + d

pub u32_round :
    (n : ℕ)
    → IsU32 n
    → u32_from_be_bytes (n / 2 ^ 24 % 256) (n / 2 ^ 16 % 256) (n / 2 ^ 8 % 256) (n % 256) ≡ n
u32_round n h = omega arith

pub u16_round : (n : ℕ) → IsU16 n → u16_from_be_bytes (n / 2 ^ 8 % 256) (n % 256) ≡ n
u16_round n h = omega arith

module _ (a b c d : ℕ) (ha : IsByte a) (hb : IsByte b) (hc : IsByte c) (hd : IsByte d) where
  pub u32_from_be_bytes-IsU32 : IsU32 (u32_from_be_bytes a b c d)
  u32_from_be_bytes-IsU32 = omega arith

  pub u32_bytes : u32_to_be_bytes (u32_from_be_bytes a b c d) ≡ a ∷ b ∷ c ∷ d ∷ []
  u32_bytes = ground arith

abbrev pub u64_max : ℕ
u64_max = 18446744073709551615

abbrev pub saturating_add : ℕ → ℕ → ℕ
saturating_add a b = min (a + b) u64_max
