-- ===== src/Base/Words.antt =====
-- `std::size_t` arithmetic: sums, differences and products modulo 2 ^ 64.
use Prim.Native.Nat.{ℕ, ◌+◌, ◌-◌, ◌*◌, ◌%◌, ◌^◌, ◌≤◌, ◌<◌}
use mathlib.Core.Path.{◌≡◌}
use native.Mathlib.Omega.{arith}
use native.Mathlib.Nat.{mod-eq_of_lt}

abbrev pub size_mod : ℕ
size_mod = 2 ^ 64

unfoldable pub add64 : ℕ → ℕ → ℕ
add64 a b = (a + b) % size_mod

unfoldable pub sub64 : ℕ → ℕ → ℕ
sub64 a b = (a + size_mod - b) % size_mod

unfoldable pub mul64 : ℕ → ℕ → ℕ
mul64 a b = (a * b) % size_mod

-- Where nothing wraps the operations are those of ℕ.
pub add64_exact : (a b : ℕ) → a + b < size_mod → add64 a b ≡ a + b
unfolding add64
add64_exact a b h = omega arith

pub sub64_exact : (a b : ℕ) → b ≤ a → a < size_mod → sub64 a b ≡ a - b
unfolding sub64
sub64_exact a b h k = omega arith

pub mul64_exact : (a b : ℕ) → a * b < size_mod → mul64 a b ≡ a * b
unfolding mul64
mul64_exact a b h = mod-eq_of_lt h
