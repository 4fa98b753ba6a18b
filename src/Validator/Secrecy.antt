-- ===== src/Validator/Secrecy.antt =====
-- pkg/vault/validator.go with the methods Error of pkg/vault/errors.go: what the text of a validator's error
-- shows.
use mathlib.Core.List.{Memᴰ}
use vault_autounseal_operato.Prelude.{
  ℕ, ◌+◌, ◌≡◌, refl, ◌⊎◌, inl, inr, Bool, true, false, List, [], ◌∷◌, All, ℤ, arith, Bool-cases,
}
use vault_autounseal_operato.GoLib.Strings.{Bytes}
use vault_autounseal_operato.GoLib.Base64.{Decoded, decoded, corrupt, decode_string}
use vault_autounseal_operato.GoLib.Outcome.{Outcome, ok, err, panic, ◌>>◌, fail_if, map_err}
use vault_autounseal_operato.Errors.{
  Err, Value, Message, number, text, no_allowed_prefix, forbidden_string, validation_error, wrapped,
  field_key, field_keys, field_threshold, invalid_key_at, decoded_empty,
}
use vault_autounseal_operato.Errors.Display.{shown_message, shown_value, shown_strings}
use vault_autounseal_operato.Validator.Pattern.{judge, validate_key_pattern}
use vault_autounseal_operato.Validator.Default
use vault_autounseal_operato.Validator.Default.{
  DefaultKeyValidator, contains_sensitive_content, redacted, check_counts, validate_each,
  check_for_duplicates, seen_at, check_decoded, hide,
}
use vault_autounseal_operato.Validator.Strict
use vault_autounseal_operato.Validator.Strict.{
  StrictKeyValidator, validate_key_length, validate_allowed_prefixes, validate_forbidden_strings,
  find_forbidden, length_of, forbidden_in,
}

-- What stands in a list has a property that all its elements have.
each_listed : {P : Bytes → Type 0} (xs : List Bytes) → ((x : Bytes) → Memᴰ x xs → P x) → All P xs
each_listed [] h = tt
each_listed (x ∷ xs) h = (h x (Memᴰ.head refl), each_listed xs (λ y m. h y (Memᴰ.tail m)))

module _ (unicode_lower : Bytes → Bytes) (show : Value → Bytes) (external_text : ℕ → Bytes) (t : ℤ)
    (strict : StrictKeyValidator) where
  -- A string of the validator's configuration.
  abbrev pub IsConfigured : Bytes → Type 0
  IsConfigured s = Memᴰ s strict.allowed_prefixes ⊎ Memᴰ s strict.forbidden_strings

  -- Each string in the text of the error is the mark, the threshold, or one of the configuration.
  abbrev pub IsSecret : Err → Type 0
  IsSecret e =
      All (λ s. (s ≡ redacted) ⊎ ((s ≡ show (number t)) ⊎ IsConfigured s))
        (shown_strings unicode_lower show external_text e)

  abbrev SecretEnd : Outcome Err (Unit {0}) → Type 0
  SecretEnd (ok a) = Unit
  SecretEnd (err e) = IsSecret e
  SecretEnd panic = Unit

  -- The message of an error shows strings of the configuration only.
  abbrev IsPlain : Message → Type 0
  IsPlain m = All (λ s. (s ≡ redacted) ⊎ ((s ≡ show (number t)) ⊎ IsConfigured s)) (shown_message m)

  key_IsSecret : (v : Value) (m : Message) → IsPlain m → IsSecret (validation_error field_key v m)
  unfolding shown_strings shown_value
  key_IsSecret v m plain = (inl refl, plain)

  keys_IsSecret : (v : Value) (m : Message) → IsPlain m → IsSecret (validation_error field_keys v m)
  unfolding shown_strings shown_value
  keys_IsSecret v m plain = (inl refl, plain)

  threshold_IsSecret :
      (m : Message) → IsPlain m → IsSecret (validation_error field_threshold (number t) m)
  unfolding shown_strings shown_value
  threshold_IsSecret m plain =
      elim (Bool-cases (contains_sensitive_content unicode_lower (show (number t)))) [
        | inl e ↦ (inl (rw e refl), plain)
        | inr e ↦ (inr (inl (rw e refl)), plain)
      ]

  fail_if-SecretEnd : (b : Bool) (e : Err) → IsSecret e → SecretEnd (fail_if b e)
  fail_if-SecretEnd true e s = s
  fail_if-SecretEnd false e s = tt

  then-SecretEnd : (m k : Outcome Err (Unit {0})) → SecretEnd m → SecretEnd k → SecretEnd (m >> k)
  then-SecretEnd (ok a) k s r = r
  then-SecretEnd (err e) k s r = s
  then-SecretEnd panic k s r = tt

  map_err-SecretEnd :
      (f : Err → Err) (o : Outcome Err (Unit {0}))
      → ((e : Err) → IsSecret e → IsSecret (f e))
      → SecretEnd o
      → SecretEnd (map_err f o)
  map_err-SecretEnd f (ok a) keeps s = tt
  map_err-SecretEnd f (err e) keeps s = keeps e s
  map_err-SecretEnd f panic keeps s = tt

  -- A guard with an error about a key, before the rest.
  guard_key :
      (b : Bool) (v : Value) (m : Message) (rest : Outcome Err (Unit {0}))
      → IsPlain m
      → SecretEnd rest
      → SecretEnd (fail_if b (validation_error field_key v m) >> rest)
  guard_key b v m rest plain =
      then-SecretEnd _ rest (fail_if-SecretEnd b _ (key_IsSecret v m plain))

  validate_key_pattern-SecretEnd : (bs : Bytes) → SecretEnd (validate_key_pattern bs)
  unfolding validate_key_pattern judge shown_strings shown_value
  validate_key_pattern-SecretEnd [] = tt
  validate_key_pattern-SecretEnd (b ∷ bs) = ground arith

  check_counts-SecretEnd : (ks : List Bytes) → SecretEnd (check_counts ks t)
  unfolding check_counts shown_strings shown_value
  check_counts-SecretEnd ks = ground arith

  length_of-SecretEnd : (k : Bytes) (d : Decoded) → SecretEnd (length_of strict k d)
  unfolding shown_strings shown_value
  length_of-SecretEnd k (corrupt i) = ground arith
  length_of-SecretEnd k (decoded bs) = ground arith

  prefixes_IsPlain : IsPlain (no_allowed_prefix strict.allowed_prefixes)
  prefixes_IsPlain = each_listed strict.allowed_prefixes (λ s m. inr (inr (inl m)))

  validate_allowed_prefixes-SecretEnd : (k : Bytes) → SecretEnd (validate_allowed_prefixes strict k)
  unfolding validate_allowed_prefixes
  validate_allowed_prefixes-SecretEnd k =
      ground
        (arith, key_IsSecret (text k) (no_allowed_prefix strict.allowed_prefixes) prefixes_IsPlain)

  check_decoded-SecretEnd : (k : Bytes) (d : Decoded) → SecretEnd (check_decoded unicode_lower k d)
  unfolding shown_strings shown_value
  check_decoded-SecretEnd k (corrupt i) = ground arith
  check_decoded-SecretEnd k (decoded bs) =
      guard_key _ _ decoded_empty (map_err (hide unicode_lower k) (validate_key_pattern bs)) tt (
        map_err-SecretEnd (hide unicode_lower k) (validate_key_pattern bs)
          (λ e s. ground (arith, s)) (validate_key_pattern-SecretEnd bs))

  default_key :
      (v : DefaultKeyValidator) (k : Bytes)
      → SecretEnd (Default.validate_base64_key unicode_lower v k)
  unfolding Default.validate_base64_key shown_strings shown_value
  default_key v k = ground (arith, check_decoded-SecretEnd k (decode_string k))

  validate_each-SecretEnd :
      (check : Bytes → Outcome Err (Unit {0})) (i : ℕ) (ks : List Bytes)
      → ((k : Bytes) → SecretEnd (check k))
      → SecretEnd (validate_each check i ks)
  unfolding validate_each shown_strings
  validate_each-SecretEnd check i [] each = tt
  validate_each-SecretEnd check i (k ∷ ks) each =
      then-SecretEnd (map_err (wrapped (invalid_key_at i)) (check k))
        (validate_each check (i + 1) ks)
        (map_err-SecretEnd (wrapped (invalid_key_at i)) (check k) (λ e s. s) (each k))
        (validate_each-SecretEnd check (i + 1) ks each)

  default_duplicate :
      (all : List Bytes) (i : ℕ) (seen : List (Bytes × ℕ)) (ks : List Bytes)
      → SecretEnd (Default.find_duplicate all i seen ks)
  unfolding Default.find_duplicate shown_strings shown_value
  default_duplicate all i seen [] = tt
  default_duplicate all i seen (k ∷ ks) =
      ground (arith, default_duplicate all (i + 1) ((k, i) ∷ seen) ks)

  default_keys :
      (v : DefaultKeyValidator) (ks : List Bytes)
      → SecretEnd (Default.validate_keys unicode_lower v ks t)
  unfolding Default.validate_keys check_for_duplicates
  default_keys v ks = then-SecretEnd (check_counts ks t) _ (check_counts-SecretEnd ks) (
      then-SecretEnd (validate_each (Default.validate_base64_key unicode_lower v) 0 ks)
        (check_for_duplicates ks)
        (validate_each-SecretEnd (Default.validate_base64_key unicode_lower v) 0 ks (default_key v))
        (default_duplicate ks 0 [] ks))

  find_forbidden-SecretEnd :
      (k l d : Bytes) (fs : List Bytes)
      → ((f : Bytes) → Memᴰ f fs → IsConfigured f)
      → SecretEnd (find_forbidden unicode_lower k l d fs)
  unfolding find_forbidden
  find_forbidden-SecretEnd k l d [] configured = tt
  find_forbidden-SecretEnd k l d (f ∷ fs) configured =
      guard_key _ (text k) (forbidden_string f) (find_forbidden unicode_lower k l d fs)
        (inr (inr (configured f (Memᴰ.head refl))), tt)
        (find_forbidden-SecretEnd k l d fs (λ g m. configured g (Memᴰ.tail m)))

  forbidden_in-SecretEnd :
      (k : Bytes) (d : Decoded) → SecretEnd (forbidden_in unicode_lower strict k d)
  unfolding shown_strings shown_value
  forbidden_in-SecretEnd k (corrupt i) = ground arith
  forbidden_in-SecretEnd k (decoded bs) =
      find_forbidden-SecretEnd k _ _ strict.forbidden_strings (λ f m. inr m)

  strict_key : (k : Bytes) → SecretEnd (Strict.validate_base64_key unicode_lower strict k)
  unfolding Strict.validate_base64_key validate_key_length validate_forbidden_strings
  strict_key k =
      then-SecretEnd (Default.validate_base64_key unicode_lower strict.defaults k) _
        (default_key strict.defaults k)
        (then-SecretEnd (validate_key_length strict k) _
          (ground (arith, length_of-SecretEnd k (decode_string k)))
          (then-SecretEnd (validate_allowed_prefixes strict k) _
            (validate_allowed_prefixes-SecretEnd k)
            (ground (arith, forbidden_in-SecretEnd k (decode_string k)))))

  strict_duplicate :
      (all : List Bytes) (i : ℕ) (seen ks : List Bytes)
      → SecretEnd (Strict.find_duplicate all i seen ks)
  unfolding Strict.find_duplicate shown_strings shown_value
  strict_duplicate all i seen [] = tt
  strict_duplicate all i seen (k ∷ ks) = ground (arith, strict_duplicate all (i + 1) (k ∷ seen) ks)

  strict_keys : (ks : List Bytes) → SecretEnd (Strict.validate_keys unicode_lower strict ks t)
  unfolding Strict.validate_keys
  strict_keys ks = then-SecretEnd (check_counts ks t) _ (check_counts-SecretEnd ks) (
      then-SecretEnd (validate_each (Strict.validate_base64_key unicode_lower strict) 0 ks) _
        (validate_each-SecretEnd (Strict.validate_base64_key unicode_lower strict) 0 ks strict_key)
        (strict_duplicate ks 0 [] ks))

  error_end : (o : Outcome Err (Unit {0})) (e : Err) → o ≡ err e → SecretEnd o → IsSecret e
  error_end o e h s = rw h at s

  -- Besides the words of its formats and decimal numbers, the text of an error of ValidateKeys, of the
  -- default validator or of the strict one, has only the mark [REDACTED] in place of a value, the
  -- threshold, and allowed prefixes and forbidden strings of the strict validator: no other string, so
  -- none that comes from a key.
  pub validate_keys-IsSecret :
      (v : DefaultKeyValidator) (ks : List Bytes) (e : Err)
      → (Default.validate_keys unicode_lower v ks t ≡ err e)
        ⊎ (Strict.validate_keys unicode_lower strict ks t ≡ err e)
      → IsSecret e
  validate_keys-IsSecret v ks e h = elim h [
    | inl d ↦ error_end _ e d (default_keys v ks)
    | inr d ↦ error_end _ e d (strict_keys ks)
  ]
