-- ===== src/Strategy/Policy/Backoff.antt =====
-- NextDelay of pkg/vault/strategy.go: the exponential backoff in machine arithmetic.
use native.Mathlib.Nat.{pow-le-pow_right, mod-eq_of_lt, mul-le-mul}
use vault_autounseal_operato.Prelude.{ℕ, ◌-◌, ◌*◌, ◌^◌, ◌≤◌, ◌<◌, ◌≡◌, min, pos, negsuc, arith}
use vault_autounseal_operato.GoLib.Int64.{mul_int64, modulus, half_modulus}
use vault_autounseal_operato.Strategy.Policy.{DefaultRetryPolicy, next_delay, capped}

capped_lem : (a : ℕ) → capped (pos a) ≡ min a 30
unfolding capped
capped_lem a = ground arith

pow_bound : (c : ℕ) → c ≤ 30 → 2 ^ c ≤ 1_073_741_824
pow_bound c h = pow-le-pow_right {n = 2} (omega arith) h

pow_pos : (c : ℕ) → 0 < 2 ^ c
pow_pos c = pow-le-pow_right {n = 2} (omega arith) {i = 0} {j = c} (omega arith)

product_bound : (b k : ℕ) → b < 8_589_934_592 → k ≤ 1_073_741_824 → b * k < half_modulus
product_bound b k hb hk =
    let le : b ≤ 8_589_934_591 = omega arith in omega (arith, mul-le-mul le hk)

mul_exact : (b k : ℕ) → b < modulus → b * k < half_modulus → mul_int64 (pos b) k ≡ pos (b * k)
unfolding mul_int64
mul_exact b k hb h =
    rw (mod-eq_of_lt hb) (rw (mod-eq_of_lt {n = b * k} {m = modulus} (omega arith)) (ground arith))

-- With a base below 2^33 nanoseconds (8.58 seconds) the delay is the base, doubled at each attempt
-- up to the thirtieth, and cut to the maximum.
pub next_delay_exact :
    (p : DefaultRetryPolicy) (b m a : ℕ)
    → p.base_delay ≡ pos b
    → p.max_delay ≡ pos m
    → b < 8_589_934_592
    → next_delay p (pos a) ≡ pos (min (b * 2 ^ min a 30) m)
unfolding next_delay
next_delay_exact p b m a hb hm small =
    let exact =
      mul_exact b (2 ^ min a 30) (omega arith)
        (product_bound b (2 ^ min a 30) small (pow_bound (min a 30) (omega arith))) in
    rw (hb, hm, capped_lem a) (rw exact (ground arith))

mul_wraps :
    (b : ℕ)
    → 8_589_934_592 ≤ b
    → b < 17_179_869_184
    → mul_int64 (pos b) 1_073_741_824 ≡ negsuc (modulus - b * 1_073_741_824 - 1)
unfolding mul_int64
mul_wraps b low high =
    rw (mod-eq_of_lt {n = b} {m = modulus} (omega arith))
      (rw (mod-eq_of_lt {n = b * 1_073_741_824} {m = modulus} (omega arith)) (ground arith))

-- With a base from 2^33 up to 2^34 nanoseconds, the cap on the attempt does not prevent the overflow:
-- from the thirtieth attempt on the delay is negative.
pub next_delay_overflow :
    (p : DefaultRetryPolicy) (b m a : ℕ)
    → p.base_delay ≡ pos b
    → p.max_delay ≡ pos m
    → 8_589_934_592 ≤ b
    → b < 17_179_869_184
    → 30 ≤ a
    → (n : ℕ) × (next_delay p (pos a) ≡ negsuc n)
unfolding next_delay
next_delay_overflow p b m a hb hm low high late =
    let cap : min a 30 ≡ 30 = omega arith in
    (
      modulus - b * 1_073_741_824 - 1,
      rw (hb, hm, capped_lem a, cap) (rw (mul_wraps b low high) (ground arith)),
    )
