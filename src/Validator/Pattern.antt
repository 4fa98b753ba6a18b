-- ===== src/Validator/Pattern.antt =====
-- pkg/vault/validator.go: the weak patterns that a decoded key must not have.
pub mod Periodic
pub mod Weak
use vault_autounseal_operato.Prelude.{
  ℕ, zero, suc, ◌+◌, ◌-◌, ◌*◌, ◌%◌, Bool, true, false, ◌&&◌, [], ◌∷◌, length, take, drop, ltb, leb,
  ◌==◌, if◌then◌else◌,
}
use vault_autounseal_operato.GoLib.Strings.{Bytes, bytes_eq}
use vault_autounseal_operato.GoLib.Outcome.{Outcome, panic, fail_if, ◌>>◌}
use vault_autounseal_operato.Errors.{
  Err, Message, validation_error, field_key, raw_bytes, all_zeros, all_identical, repeating_pattern,
}

-- for i := patternLen; i <= len(data)-patternLen; i += patternLen. The bound `last` is
-- len(data)-patternLen, and `fuel` bounds the rounds.
blocks_repeat : ℕ → Bytes → ℕ → ℕ → ℕ → Bool
blocks_repeat zero bytes p last i = true
blocks_repeat (suc fuel) bytes p last i =
    let rest = blocks_repeat fuel bytes p last (i + p) in
    if leb i last
    then (if bytes_eq (take p bytes) (take p (drop i bytes)) then rest else false)
    else true

-- The bytes after the last whole block.
rest_repeats : Bytes → ℕ → Bool
rest_repeats bytes p =
    let remaining = length bytes % p in
    if ltb 0 remaining
    then bytes_eq (take remaining bytes) (drop (length bytes - remaining) bytes)
    else true

-- A round moves by at least one byte, so one round for each byte is enough.
unfoldable pub has_repeating_pattern : Bytes → ℕ → Bool
unfolding blocks_repeat rest_repeats
has_repeating_pattern bytes p =
    if ltb (length bytes) (p * 2)
    then false
    else if blocks_repeat (length bytes) bytes p (length bytes - p) p
    then rest_repeats bytes p
    else false

-- The loop that clears `allZeros` and `allSame`.
scan : ℕ → Bytes → Bool × Bool → Bool × Bool
scan first [] flags = flags
scan first (b ∷ bs) (zeros, same) = scan first bs (zeros && b == 0, same && b == first)

abbrev weak : Bytes → Message → Err
weak bytes m = validation_error field_key (raw_bytes bytes) m

unfoldable pub judge : Bytes → Bool × Bool → Outcome Err (Unit {0})
judge bytes (zeros, same) = do
  fail_if zeros (weak bytes all_zeros)
  fail_if (same && ltb 1 (length bytes)) (weak bytes all_identical)
  fail_if (leb 8 (length bytes) && has_repeating_pattern bytes 2) (weak bytes repeating_pattern)
  fail_if (leb 8 (length bytes) && has_repeating_pattern bytes 4) (weak bytes repeating_pattern)

-- decoded[0] panics on an empty slice.
unfoldable pub validate_key_pattern : Bytes → Outcome Err (Unit {0})
unfolding scan judge has_repeating_pattern
validate_key_pattern [] = panic
validate_key_pattern (b ∷ bs) = judge (b ∷ bs) (scan b (b ∷ bs) (true, true))
