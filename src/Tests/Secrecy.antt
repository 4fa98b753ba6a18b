-- ===== src/Tests/Secrecy.antt =====
-- The errors of the validators at concrete inputs.
use vault_autounseal_operato.Prelude.{ℕ, ◌≡◌, refl, inl, pos, []}
use vault_autounseal_operato.GoLib.Strings.{Bytes, codes}
use vault_autounseal_operato.GoLib.Outcome.{err}
use vault_autounseal_operato.Errors.{Err, Value, validation_error, texts, field_keys, no_keys}
use vault_autounseal_operato.Validator.Default.{
  validate_keys, new_default_key_validator, check_counts,
}
use vault_autounseal_operato.Validator.Strict.{new_strict_key_validator}
use vault_autounseal_operato.Validator.Secrecy.{IsSecret, validate_keys-IsSecret}
use vault_autounseal_operato.Tests.Fixtures.{same_bytes}

-- fmt's %v, which no value of the test reaches.
abbrev show_value : Value → Bytes
show_value v = codes "value"

abbrev no_keys_error : Err
no_keys_error = validation_error field_keys (texts []) no_keys

refused_empty : validate_keys same_bytes new_default_key_validator [] (pos 1) ≡ err no_keys_error
unfolding validate_keys check_counts
refused_empty = refl

abbrev external_text : ℕ → Bytes
external_text n = codes "external"

validate_keys-IsSecret_example :
    IsSecret same_bytes show_value external_text
      (pos 1)
      (new_strict_key_validator (pos 32))
      no_keys_error
validate_keys-IsSecret_example =
    validate_keys-IsSecret same_bytes show_value external_text (pos 1)
      (new_strict_key_validator (pos 32)) new_default_key_validator [] no_keys_error
      (inl refused_empty)
