-- ===== src/Tests/Validator.antt =====
-- The validators of pkg/vault/validator.go at concrete keys.
use vault_autounseal_operato.Prelude.{
  ◌⊎◌, ◌≡◌, ◌↔◌, ◌≤◌, ◌*◌, refl, List, [], ◌∷◌, All, length, pos, true, arith,
}
use vault_autounseal_operato.Prelude.Int.{◌≤ℤ◌}
use vault_autounseal_operato.GoLib.Strings.{Bytes, codes, bytes_eq}
use vault_autounseal_operato.GoLib.Base64.{decoded, decode_string}
use vault_autounseal_operato.GoLib.Outcome.{ok, err}
use vault_autounseal_operato.Errors.{
  Err, validation_error, text, texts, field_key, field_keys, invalid_base64, duplicate_at,
}
use vault_autounseal_operato.Validator.Pattern.{has_repeating_pattern, validate_key_pattern}
use vault_autounseal_operato.Validator.Pattern.Periodic.{Periodic, has_repeating_pattern_iff}
use vault_autounseal_operato.Validator.Pattern.Weak.{Weak, validate_key_pattern_iff}
use vault_autounseal_operato.Validator.Default.{
  validate_keys, validate_each, check_counts, check_for_duplicates, validate_base64_key,
  new_default_key_validator, contains_sensitive_content, redacted,
}
use vault_autounseal_operato.Validator.Default.Sets.{
  Distinct, FirstBad, Twice, validate_keys_iff, validate_keys_error,
}
use vault_autounseal_operato.Validator.Strict
use vault_autounseal_operato.Validator.Strict.{StrictKeyValidator, new_strict_key_validator}
use vault_autounseal_operato.Validator.Strict.Stricter.{strict_validate_keys_default}
use vault_autounseal_operato.Tests.Fixtures.{same_bytes, key_one, key_two, two_keys, sensitive_key}

decode_key_one : decode_string key_one ≡ decoded (codes "1234")
unfolding decode_string
decode_key_one = refl

pub two_keys_pass : validate_keys same_bytes new_default_key_validator two_keys (pos 2) ≡ ok tt
unfolding validate_keys check_counts validate_each check_for_duplicates validate_base64_key
    decode_string validate_key_pattern bytes_eq
two_keys_pass = refl

has_repeating_pattern_iff_example :
    (has_repeating_pattern (codes "abababab") 2 ≡ true)
    ↔ ((2 * 2 ≤ length (codes "abababab")) × Periodic 2 (codes "abababab"))
has_repeating_pattern_iff_example = has_repeating_pattern_iff (codes "abababab") 2 (omega arith)

validate_key_pattern_iff_example :
    (validate_key_pattern (codes "abab") ≡ ok tt) ↔ ¬ Weak (codes "abab")
validate_key_pattern_iff_example = validate_key_pattern_iff b'a' (codes "bab")

validate_keys_iff_example :
    (validate_keys same_bytes new_default_key_validator two_keys (pos 2) ≡ ok tt) ↔ (
      (pos 1 ≤ℤ pos 2)
      × (pos 2 ≤ℤ pos (length two_keys))
      × All (λ k. validate_base64_key same_bytes new_default_key_validator k ≡ ok tt) two_keys
      × Distinct two_keys)
validate_keys_iff_example = validate_keys_iff same_bytes new_default_key_validator two_keys (pos 2)

abbrev same_twice : List Bytes
same_twice = key_two ∷ key_one ∷ key_one ∷ []

abbrev twice_error : Err
twice_error = validation_error field_keys (texts same_twice) (duplicate_at 1 2)

same_twice_refused :
    validate_keys same_bytes new_default_key_validator same_twice (pos 2) ≡ err twice_error
unfolding validate_keys check_counts validate_each check_for_duplicates validate_base64_key
    decode_string validate_key_pattern bytes_eq
same_twice_refused = refl

looks_sensitive : contains_sensitive_content same_bytes sensitive_key ≡ true
unfolding contains_sensitive_content
looks_sensitive = refl

abbrev refused : Err
refused = validation_error field_key (text redacted) (invalid_base64 8)

sensitive_refused :
    validate_base64_key same_bytes new_default_key_validator sensitive_key ≡ err refused
unfolding validate_base64_key contains_sensitive_content decode_string
sensitive_refused = refl

abbrev four_bytes : StrictKeyValidator
four_bytes = new_strict_key_validator (pos 4)

strict_two_keys_pass : Strict.validate_keys same_bytes four_bytes two_keys (pos 2) ≡ ok tt
unfolding Strict.validate_keys Strict.validate_base64_key check_counts validate_each
    validate_base64_key decode_string validate_key_pattern bytes_eq
strict_two_keys_pass = refl

strict_validate_keys_default_example :
    validate_keys same_bytes new_default_key_validator two_keys (pos 2) ≡ ok tt
strict_validate_keys_default_example =
    strict_validate_keys_default same_bytes four_bytes two_keys (pos 2) strict_two_keys_pass

key_one_passes : validate_base64_key same_bytes new_default_key_validator key_one ≡ ok tt
unfolding validate_base64_key decode_string validate_key_pattern bytes_eq
key_one_passes = refl

validate_keys_error_example :
    FirstBad (validate_base64_key same_bytes new_default_key_validator) 0 same_twice twice_error
    ⊎ (All (λ k. validate_base64_key same_bytes new_default_key_validator k ≡ ok tt) same_twice
        × Twice same_twice twice_error)
validate_keys_error_example =
    validate_keys_error same_bytes new_default_key_validator same_twice (pos 2) twice_error
      (omega arith) (omega arith) same_twice_refused
