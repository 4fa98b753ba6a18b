-- ===== src/Validator/Pattern/Weak.antt =====
-- validateKeyPattern of pkg/vault/validator.go against a description of the weak keys.
use vault_autounseal_operato.Prelude.{
  ℕ, ◌*◌, ◌≤◌, ◌<◌, ◌≡◌, refl, ◌↔◌, ◌≢◌, ◌⊎◌, inl, inr, Bool, true, false, ◌&&◌, [], ◌∷◌, All,
  length, ◌==◌, leb, ltb, arith, Bool-cases,
}
use vault_autounseal_operato.GoLib.Strings.{Bytes}
use vault_autounseal_operato.GoLib.Outcome.{ok, panic}
use vault_autounseal_operato.Validator.Pattern.{
  scan, judge, has_repeating_pattern, validate_key_pattern,
}
use vault_autounseal_operato.Validator.Pattern.Periodic.{Periodic, has_repeating_pattern_iff}

-- All bytes are zero.
abbrev pub AllZero : Bytes → Type 0
AllZero = All λ b. b ≡ 0

-- Two bytes or more, all the same.
abbrev pub Constant : Bytes → Type 0
Constant [] = ⊥
Constant (b ∷ bs) = (0 < length bs) × All (λ c. c ≡ b) bs

-- Eight bytes or more, that repeat a block of two or of four bytes.
abbrev pub Repetitive : Bytes → Type 0
Repetitive bs = (8 ≤ length bs) × (Periodic 2 bs ⊎ Periodic 4 bs)

abbrev pub Weak : Bytes → Type 0
Weak bs = AllZero bs ⊎ (Constant bs ⊎ Repetitive bs)

not_true : {b : Bool} → ¬ (b ≡ true) → b ≡ false
not_true {b = true} h = absurd (h refl)
not_true {b = false} h = refl

-- The two flags after the loop.
scan-zeros :
    (first : ℕ) (bs : Bytes) (z s : Bool)
    → ((scan first bs (z, s)).0 ≡ true) ↔ ((z ≡ true) × AllZero bs)
unfolding scan
scan-zeros first [] z s = (λ h. (h, tt), λ h. h.0)
scan-zeros first (b ∷ bs) z s =
    let ih = scan-zeros first bs (z && b == 0) (s && b == first) in
    (λ h. ground (arith, ih.0 h), λ h. ih.1 (ground arith))

scan-same :
    (first : ℕ) (bs : Bytes) (z s : Bool)
    → ((scan first bs (z, s)).1 ≡ true) ↔ ((s ≡ true) × All (λ c. c ≡ first) bs)
unfolding scan
scan-same first [] z s = (λ h. (h, tt), λ h. h.0)
scan-same first (b ∷ bs) z s =
    let ih = scan-same first bs (z && b == 0) (s && b == first) in
    (λ h. ground (arith, ih.0 h), λ h. ih.1 (ground arith))

judge_iff :
    (bs : Bytes) (z s : Bool)
    → (judge bs (z, s) ≡ ok tt) ↔ (
        (z ≡ false)
        × (s && ltb 1 (length bs) ≡ false)
        × (leb 8 (length bs) && has_repeating_pattern bs 2 ≡ false)
        × (leb 8 (length bs) && has_repeating_pattern bs 4 ≡ false))
unfolding judge
judge_iff bs z s = (λ h. ground arith, λ h. ground arith)

-- The tests of the code, in the words of the description.
same_iff :
    (b : ℕ) (bs : Bytes)
    → ((scan b (b ∷ bs) (true, true)).1 && ltb 1 (length (b ∷ bs)) ≡ false) ↔ ¬ Constant (b ∷ bs)
same_iff b bs =
    let flag = scan-same b (b ∷ bs) true true in
    (
      λ h c. ground (arith, flag.1 (refl, (refl, c.1))),
      λ no. elim (Bool-cases (scan b (b ∷ bs) (true, true)).1) [
        | inl on ↦ elim (Bool-cases (ltb 1 (length (b ∷ bs)))) [
          | inl long ↦ absurd (no (ground arith, (flag.0 on).1.1))
          | inr short ↦ rw (on, short)
        ]
        | inr off ↦ rw off
      ],
    )

period_iff :
    (p : ℕ) (bs : Bytes)
    → 0 < p
    → p * 2 ≤ 8
    → (leb 8 (length bs) && has_repeating_pattern bs p ≡ false)
      ↔ ¬ ((8 ≤ length bs) × Periodic p bs)
period_iff p bs positive small =
    let found = has_repeating_pattern_iff bs p positive in
    (
      λ h per. ground (arith, found.1 (omega arith, per.1)),
      λ no. elim (Bool-cases (leb 8 (length bs))) [
        | inl long ↦ elim (Bool-cases (has_repeating_pattern bs p)) [
          | inl yes' ↦ absurd (no (ground arith, (found.0 yes').1))
          | inr no' ↦ rw (long, no')
        ]
        | inr short ↦ rw short
      ],
    )

-- A decoded key that is not empty is accepted exactly when it is not weak.
pub validate_key_pattern_iff :
    (b : ℕ) (bs : Bytes) → (validate_key_pattern (b ∷ bs) ≡ ok tt) ↔ ¬ Weak (b ∷ bs)
unfolding validate_key_pattern
validate_key_pattern_iff b bs =
    let flags = scan b (b ∷ bs) (true, true) in
    let tests = judge_iff (b ∷ bs) flags.0 flags.1 in
    let zeros = scan-zeros b (b ∷ bs) true true in
    let same = same_iff b bs in
    let two = period_iff 2 (b ∷ bs) (omega arith) (omega arith) in
    let four = period_iff 4 (b ∷ bs) (omega arith) (omega arith) in
    (
      λ h.
          let (z, s, p, q) = tests.0 h in
          elim [
            | inl all ↦ ground (arith, z, zeros.1 (refl, all))
            | inr (inl c) ↦ same.0 s c
            | inr (inr (long, inl per)) ↦ two.0 p (long, per)
            | inr (inr (long, inr per)) ↦ four.0 q (long, per)
          ],
      λ no. tests.1 (
        not_true (λ on. no (inl (zeros.0 on).1)),
        same.1 (λ c. no (inr (inl c))),
        two.1 (λ r. no (inr (inr (r.0, inl r.1)))),
        four.1 (λ r. no (inr (inr (r.0, inr r.1)))),
      ),
    )

-- The check of a key that is not empty does not panic.
pub validate_key_pattern-ne-panic : (b : ℕ) (bs : Bytes) → validate_key_pattern (b ∷ bs) ≢ panic
unfolding validate_key_pattern
validate_key_pattern-ne-panic b bs h = ground arith
