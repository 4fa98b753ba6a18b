-- ===== src/Validator/Strict.antt =====
-- pkg/vault/validator.go: StrictKeyValidator. It embeds the default validator, and overrides both
-- methods of the interface.
pub mod Stricter
use vault_autounseal_operato.Prelude.{
  ℕ, ◌+◌, Bool, false, ◌&&◌, ◌||◌, List, [], ◌∷◌, length, ◌==◌, ℤ, pos, leb_ℤ, not, if◌then◌else◌,
}
use vault_autounseal_operato.GoLib.Strings.{Bytes, codes, bytes_eq, contains, has_prefix, to_lower}
use vault_autounseal_operato.GoLib.Base64.{Decoded, decoded, corrupt, decode_string}
use vault_autounseal_operato.GoLib.Outcome.{Outcome, ok, err, ◌>>◌, fail_if}
use vault_autounseal_operato.Errors.{
  Err, Message, validation_error, text, texts, field_key, field_keys, bad_base64, wrong_length,
  no_allowed_prefix, forbidden_string, duplicate_index,
}
use vault_autounseal_operato.Validator.Default
use vault_autounseal_operato.Validator.Default.{
  KeyValidator, DefaultKeyValidator, new_default_key_validator, check_counts, validate_each,
}

pub record StrictKeyValidator : Type 0 where
  pub defaults : DefaultKeyValidator
  pub required_key_length : ℤ
  pub allowed_prefixes : List Bytes
  pub forbidden_strings : List Bytes

abbrev pub new_strict_key_validator : ℤ → StrictKeyValidator
new_strict_key_validator required = record {
  defaults = new_default_key_validator;
  required_key_length = required;
  allowed_prefixes = [];
  forbidden_strings =
      codes "password" ∷ codes "secret" ∷ codes "test" ∷ codes "example" ∷ codes "demo" ∷ [];
}

abbrev pub set_allowed_prefixes : List Bytes → StrictKeyValidator → StrictKeyValidator
set_allowed_prefixes prefixes v = record v { allowed_prefixes = prefixes }

abbrev pub set_forbidden_strings : List Bytes → StrictKeyValidator → StrictKeyValidator
set_forbidden_strings forbidden v = record v { forbidden_strings = forbidden }

-- The strict checks show the key itself, not the redacted one.
abbrev pub bad_key : Bytes → Message → Err
bad_key k m = validation_error field_key (text k) m

abbrev pub length_of : StrictKeyValidator → Bytes → Decoded → Outcome Err (Unit {0})
length_of v k (corrupt i) = err (bad_key k bad_base64)
length_of v k (decoded bs) =
    fail_if
      (not (
        leb_ℤ (pos (length bs)) v.required_key_length
        && leb_ℤ v.required_key_length (pos (length bs))))
      (bad_key k (wrong_length v.required_key_length (length bs)))

unfoldable pub validate_key_length : StrictKeyValidator → Bytes → Outcome Err (Unit {0})
validate_key_length v k =
    if leb_ℤ v.required_key_length (pos 0) then ok tt else length_of v k (decode_string k)

pub any_prefix : Bytes → List Bytes → Bool
any_prefix k [] = false
any_prefix k (p ∷ ps) = has_prefix k p || any_prefix k ps

unfoldable pub validate_allowed_prefixes : StrictKeyValidator → Bytes → Outcome Err (Unit {0})
unfolding any_prefix
validate_allowed_prefixes v k =
    if length v.allowed_prefixes == 0
    then ok tt
    else fail_if (not (any_prefix k v.allowed_prefixes))
        (bad_key k (no_allowed_prefix v.allowed_prefixes))

-- The map `seen` as the list of the keys that are in it.
unfoldable pub seen_before : Bytes → List Bytes → Bool
seen_before k [] = false
seen_before k (j ∷ seen) = bytes_eq j k || seen_before k seen

unfoldable pub find_duplicate : List Bytes → ℕ → List Bytes → List Bytes → Outcome Err (Unit {0})
unfolding seen_before
find_duplicate all i seen [] = ok tt
find_duplicate all i seen (k ∷ ks) = do
  fail_if (seen_before k seen) (validation_error field_keys (texts all) (duplicate_index i))
  find_duplicate all (i + 1) (k ∷ seen) ks

module _ (unicode_lower : Bytes → Bytes) where
  -- The loop over the forbidden strings, with the lowered key and the lowered decoded key.
  unfoldable pub find_forbidden : Bytes → Bytes → Bytes → List Bytes → Outcome Err (Unit {0})
  unfolding contains to_lower
  find_forbidden k key_lower decoded_lower [] = ok tt
  find_forbidden k key_lower decoded_lower (f ∷ fs) = do
    fail_if
        (contains key_lower (to_lower unicode_lower f)
          || contains decoded_lower (to_lower unicode_lower f))
        (bad_key k (forbidden_string f))
    find_forbidden k key_lower decoded_lower fs

  abbrev pub forbidden_in : StrictKeyValidator → Bytes → Decoded → Outcome Err (Unit {0})
  forbidden_in v k (corrupt i) = err (bad_key k bad_base64)
  forbidden_in v k (decoded bs) =
      find_forbidden k (to_lower unicode_lower k) (to_lower unicode_lower bs) v.forbidden_strings

  unfoldable pub validate_forbidden_strings : StrictKeyValidator → Bytes → Outcome Err (Unit {0})
  unfolding find_forbidden
  validate_forbidden_strings v k =
      if length v.forbidden_strings == 0 then ok tt else forbidden_in v k (decode_string k)

  module _ (v : StrictKeyValidator) where
    unfoldable pub validate_base64_key : Bytes → Outcome Err (Unit {0})
    unfolding validate_key_length validate_allowed_prefixes validate_forbidden_strings
    validate_base64_key k = do
      Default.validate_base64_key unicode_lower v.defaults k
      validate_key_length v k
      validate_allowed_prefixes v k
      validate_forbidden_strings v k

    unfoldable pub validate_keys : List Bytes → ℤ → Outcome Err (Unit {0})
    unfolding find_duplicate
    validate_keys ks t = do
      check_counts ks t
      validate_each validate_base64_key 0 ks
      find_duplicate ks 0 [] ks

    abbrev pub as_key_validator : KeyValidator
    as_key_validator = record {
      validate_keys = validate_keys;
      validate_base64_key = validate_base64_key;
    }
