-- ===== src/GoLib/Int64.antt =====
-- int64, and time.Duration, which is an int64 of nanoseconds.
use vault_autounseal_operato.Prelude.{ℕ, ◌+◌, ◌-◌, ◌*◌, ◌%◌, ltb, if◌then◌else◌, ℤ, pos, negsuc}

abbrev pub modulus : ℕ
modulus = 18_446_744_073_709_551_616

abbrev pub half_modulus : ℕ
half_modulus = 9_223_372_036_854_775_808

-- The int64 with the given bit pattern.
abbrev pub from_bits : ℕ → ℤ
from_bits r = if ltb r half_modulus then pos r else negsuc (modulus - r - 1)

-- The bit pattern of an integer.
abbrev pub to_bits : ℤ → ℕ
to_bits (pos n) = n % modulus
to_bits (negsuc n) = (modulus - (n + 1) % modulus) % modulus

-- An int64 times a small non-negative int64, as the machine computes it.
unfoldable pub mul_int64 : ℤ → ℕ → ℤ
mul_int64 a k = from_bits ((to_bits a * k) % modulus)
