-- ===== src/Unsealing.antt =====
-- pkg/unsealing/validation/strict_validator.go: the strict validator that the unsealing packages have, which
-- looks for the allowed prefixes in the decoded key. The default validator that it embeds is in
-- pkg/unsealing/validation/validator.go, which repeats that of pkg/vault/validator.go line by line, with
-- the error types of pkg/core/types; it is taken from Validator/Default.
pub mod Strategy
pub mod Accepted
pub mod Direct
use vault_autounseal_operato.Prelude.{
  ℕ, ◌+◌, Bool, false, not, ◌&&◌, ◌||◌, List, [], ◌∷◌, length, ◌==◌, ℤ, pos, leb_ℤ, ltb_ℤ,
  if◌then◌else◌,
}
use vault_autounseal_operato.GoLib.Strings.{Bytes, bytes_eq, contains, has_prefix, to_lower}
use vault_autounseal_operato.GoLib.Base64.{Decoded, decoded, corrupt, decode_string}
use vault_autounseal_operato.GoLib.Outcome.{Outcome, ok, err, ◌>>◌, fail_if, map_err}
use vault_autounseal_operato.Errors.{
  Err, Message, validation_error, wrapped, text, texts, number, field_key, field_keys,
  field_threshold, no_keys, threshold_too_small, threshold_exceeds_keys, bad_base64, wrong_length,
  no_decoded_prefix, forbidden_string, duplicate_index, invalid_key_at,
}
use vault_autounseal_operato.Validator.Default
use vault_autounseal_operato.Validator.Strict.{StrictKeyValidator}

abbrev pub refused : Bytes → Message → Outcome Err (Unit {0})
refused k m = err (validation_error field_key (text k) m)

abbrev pub checked_length : StrictKeyValidator → Bytes → Decoded → Outcome Err (Unit {0})
checked_length v k (corrupt i) = refused k bad_base64
checked_length v k (decoded bs) =
    if leb_ℤ (pos (length bs)) v.required_key_length
      && leb_ℤ v.required_key_length (pos (length bs))
    then ok tt
    else refused k (wrong_length v.required_key_length (length bs))

pub validate_key_length : StrictKeyValidator → Bytes → Outcome Err (Unit {0})
validate_key_length v k =
    if leb_ℤ v.required_key_length (pos 0) then ok tt else checked_length v k (decode_string k)

-- The loop over the prefixes.
pub starts_with_one : Bytes → List Bytes → Bool
starts_with_one s [] = false
starts_with_one s (p ∷ ps) = has_prefix s p || starts_with_one s ps

abbrev pub decoded_prefix : StrictKeyValidator → Bytes → Decoded → Outcome Err (Unit {0})
decoded_prefix v k (corrupt i) = refused k bad_base64
decoded_prefix v k (decoded bs) =
    if starts_with_one bs v.allowed_prefixes
    then ok tt
    else refused k (no_decoded_prefix v.allowed_prefixes)

pub validate_allowed_prefixes : StrictKeyValidator → Bytes → Outcome Err (Unit {0})
unfolding starts_with_one
validate_allowed_prefixes v k =
    if length v.allowed_prefixes == 0 then ok tt else decoded_prefix v k (decode_string k)

-- The three guards of ValidateKeys.
pub check_counts : List Bytes → ℤ → Outcome Err (Unit {0})
check_counts ks t = do
  fail_if (length ks == 0) (validation_error field_keys (texts ks) no_keys)
  fail_if (ltb_ℤ t (pos 1)) (validation_error field_threshold (number t) threshold_too_small)
  fail_if (ltb_ℤ (pos (length ks)) t)
      (validation_error field_threshold (number t) (threshold_exceeds_keys t (length ks)))

-- The loop over the keys, from index `i`.
pub validate_each : (Bytes → Outcome Err (Unit {0})) → ℕ → List Bytes → Outcome Err (Unit {0})
validate_each check i [] = ok tt
validate_each check i (k ∷ ks) = do
  map_err (wrapped (invalid_key_at i)) (check k)
  validate_each check (i + 1) ks

-- The map `seen` as the list of the keys that are in it.
pub is_seen : Bytes → List Bytes → Bool
is_seen k [] = false
is_seen k (j ∷ seen) = bytes_eq j k || is_seen k seen

-- The loop that looks for duplicates, from index `i`; the error shows `all`, the whole slice.
pub find_duplicate : List Bytes → ℕ → List Bytes → List Bytes → Outcome Err (Unit {0})
unfolding is_seen
find_duplicate all i seen [] = ok tt
find_duplicate all i seen (k ∷ ks) = do
  fail_if (is_seen k seen) (validation_error field_keys (texts all) (duplicate_index i))
  find_duplicate all (i + 1) (k ∷ seen) ks

module _ (unicode_lower : Bytes → Bytes) where
  -- The loop over the forbidden strings, with the lowered key and the lowered decoded key.
  pub find_forbidden : Bytes → Bytes → Bytes → List Bytes → Outcome Err (Unit {0})
  find_forbidden k key_lower decoded_lower [] = ok tt
  find_forbidden k key_lower decoded_lower (f ∷ fs) =
      let rest = find_forbidden k key_lower decoded_lower fs in
      if contains key_lower (to_lower unicode_lower f)
        || contains decoded_lower (to_lower unicode_lower f)
      then refused k (forbidden_string f)
      else rest

  abbrev pub forbidden_in : StrictKeyValidator → Bytes → Decoded → Outcome Err (Unit {0})
  forbidden_in v k (corrupt i) = refused k bad_base64
  forbidden_in v k (decoded bs) =
      find_forbidden k (to_lower unicode_lower k) (to_lower unicode_lower bs) v.forbidden_strings

  pub validate_forbidden_strings : StrictKeyValidator → Bytes → Outcome Err (Unit {0})
  unfolding find_forbidden
  validate_forbidden_strings v k =
      if length v.forbidden_strings == 0 then ok tt else forbidden_in v k (decode_string k)

  module _ (v : StrictKeyValidator) where
    pub validate_base64_key : Bytes → Outcome Err (Unit {0})
    unfolding validate_key_length validate_allowed_prefixes validate_forbidden_strings
    validate_base64_key k = do
      Default.validate_base64_key unicode_lower v.defaults k
      validate_key_length v k
      validate_allowed_prefixes v k
      validate_forbidden_strings v k

    pub validate_keys : List Bytes → ℤ → Outcome Err (Unit {0})
    unfolding validate_base64_key check_counts validate_each find_duplicate
    validate_keys ks t = do
      check_counts ks t
      validate_each validate_base64_key 0 ks
      find_duplicate ks 0 [] ks
