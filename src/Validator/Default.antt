-- ===== src/Validator/Default.antt =====
-- pkg/vault/validator.go: DefaultKeyValidator, and the KeyValidator interface that it meets.
-- `unicode_lower` is the part of strings.ToLower that follows the Unicode tables.
pub mod Single
pub mod Sets
pub mod Bounds
use vault_autounseal_operato.Prelude.{
  ℕ, suc, ◌+◌, Bool, true, false, ◌||◌, Option, none, some, List, [], ◌∷◌, length, ◌==◌, ℤ, pos,
  ltb_ℤ, if◌then◌else◌,
}
use vault_autounseal_operato.GoLib.Strings.{Bytes, codes, bytes_eq, contains, to_lower}
use vault_autounseal_operato.GoLib.Base64.{Decoded, decoded, corrupt, decode_string}
use vault_autounseal_operato.GoLib.Outcome.{Outcome, ok, err, panic, ◌>>=◌, ◌>>◌, fail_if, map_err}
use vault_autounseal_operato.Errors.{
  Err, Value, Field, Message, validation_error, wrapped, text, texts, number, field_key, field_keys,
  field_threshold, no_keys, threshold_too_small, threshold_exceeds_keys, key_empty, key_too_short,
  key_too_long, invalid_base64, decoded_empty, validation_hidden, duplicate_at, invalid_key_at,
}
use vault_autounseal_operato.Validator.Pattern.{validate_key_pattern}

-- The interface KeyValidator of pkg/vault/interfaces.go.
pub record KeyValidator : Type 0 where
  pub validate_keys : List Bytes → ℤ → Outcome Err (Unit {0})
  pub validate_base64_key : Bytes → Outcome Err (Unit {0})

pub record DefaultKeyValidator : Type 0 where
  pub min_key_length : ℤ
  pub max_key_length : ℤ

abbrev pub new_default_key_validator : DefaultKeyValidator
new_default_key_validator = record { min_key_length = pos 1; max_key_length = pos 1024 }

abbrev pub sensitive_patterns : List Bytes
sensitive_patterns =
    codes "password"
    ∷ codes "secret"
    ∷ codes "key"
    ∷ codes "token"
    ∷ codes "credential"
    ∷ codes "admin"
    ∷ codes "root"
    ∷ codes "auth"
    ∷ codes "login"
    ∷ codes "session"
    ∷ codes "/etc/passwd"
    ∷ codes "/proc/"
    ∷ codes "C:\\Windows\\"
    ∷ codes "127.0.0.1"
    ∷ codes "localhost"
    ∷ codes "192.168."
    ∷ codes "10.0.0."
    ∷ []

abbrev pub redacted : Bytes
redacted = codes "[REDACTED]"

-- fmt.Errorf("invalid key at index %d: %w", i, err) for the first key that is refused.
unfoldable pub validate_each :
    (Bytes → Outcome Err (Unit {0})) → ℕ → List Bytes → Outcome Err (Unit {0})
validate_each check i [] = ok tt
validate_each check i (k ∷ ks) = do
  map_err (wrapped (invalid_key_at i)) (check k)
  validate_each check (i + 1) ks

-- The map `seen`, from a key to the index where it stands.
unfoldable pub seen_at : Bytes → List (Bytes × ℕ) → Option ℕ
seen_at k [] = none
seen_at k ((j, i) ∷ seen) = if bytes_eq j k then some i else seen_at k seen

abbrev pub bad_threshold : ℤ → Message → Err
bad_threshold t m = validation_error field_threshold (number t) m

-- The guards of ValidateKeys, which the strict validator repeats.
unfoldable pub check_counts : List Bytes → ℤ → Outcome Err (Unit {0})
check_counts ks t = do
  fail_if (length ks == 0) (validation_error field_keys (texts ks) no_keys)
  fail_if (ltb_ℤ t (pos 1)) (bad_threshold t threshold_too_small)
  fail_if (ltb_ℤ (pos (length ks)) t) (bad_threshold t (threshold_exceeds_keys t (length ks)))

-- The loop of checkForDuplicates from index `i`; the error shows `all`, the whole slice.
unfoldable pub find_duplicate :
    List Bytes → ℕ → List (Bytes × ℕ) → List Bytes → Outcome Err (Unit {0})
unfolding seen_at
find_duplicate all i seen [] = ok tt
find_duplicate all i seen (k ∷ ks) =
    let rest = find_duplicate all (i + 1) ((k, i) ∷ seen) ks in
    elim (seen_at k seen) [
      | some j ↦ err (validation_error field_keys (texts all) (duplicate_at j i))
      | none ↦ rest
    ]

unfoldable pub check_for_duplicates : List Bytes → Outcome Err (Unit {0})
unfolding find_duplicate
check_for_duplicates ks = find_duplicate ks 0 [] ks

module _ (unicode_lower : Bytes → Bytes) where
  unfoldable pub contains_any : Bytes → List Bytes → Bool
  unfolding contains to_lower
  contains_any lowered [] = false
  contains_any lowered (p ∷ ps) =
      contains lowered (to_lower unicode_lower p) || contains_any lowered ps

  unfoldable pub contains_sensitive_content : Bytes → Bool
  unfolding contains_any
  contains_sensitive_content value = contains_any (to_lower unicode_lower value) sensitive_patterns

  abbrev pub display_key : Bytes → Bytes
  display_key k = if contains_sensitive_content k then redacted else k

  abbrev pub bad_key : Bytes → Message → Err
  bad_key k m = validation_error field_key (text (display_key k)) m

  -- An error of the pattern check is hidden if the key looks sensitive.
  abbrev pub hide : Bytes → Err → Err
  hide k e = if contains_sensitive_content k then bad_key k validation_hidden else e

  abbrev pub check_decoded : Bytes → Decoded → Outcome Err (Unit {0})
  check_decoded k (corrupt i) = err (bad_key k (invalid_base64 i))
  check_decoded k (decoded bs) = do
    fail_if (length bs == 0) (bad_key k decoded_empty)
    map_err (hide k) (validate_key_pattern bs)

  module _ (v : DefaultKeyValidator) where
    unfoldable pub validate_base64_key : Bytes → Outcome Err (Unit {0})
    validate_base64_key k = do
      fail_if (length k == 0) (bad_key k key_empty)
      fail_if (ltb_ℤ (pos (length k)) v.min_key_length)
          (bad_key k (key_too_short (length k) v.min_key_length))
      fail_if (ltb_ℤ v.max_key_length (pos (length k)))
          (bad_key k (key_too_long (length k) v.max_key_length))
      check_decoded k (decode_string k)

    unfoldable pub validate_keys : List Bytes → ℤ → Outcome Err (Unit {0})
    validate_keys ks t = do
      check_counts ks t
      validate_each validate_base64_key 0 ks
      check_for_duplicates ks

    abbrev pub as_key_validator : KeyValidator
    as_key_validator = record {
      validate_keys = validate_keys;
      validate_base64_key = validate_base64_key;
    }
