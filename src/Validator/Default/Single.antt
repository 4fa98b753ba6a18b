-- ===== src/Validator/Default/Single.antt =====
-- ValidateBase64Key of pkg/vault/validator.go: which keys are accepted, and what an error shows.
use vault_autounseal_operato.Prelude.{
  ◌<◌, ◌≡◌, refl, ◌≢◌, ◌↔◌, Bool, true, false, [], ◌∷◌, length, ◌==◌, pos, arith, ltb_ℤ,
}
use vault_autounseal_operato.Prelude.Int.{◌≤ℤ◌}
use vault_autounseal_operato.GoLib.Strings.{Bytes}
use vault_autounseal_operato.GoLib.Base64.{Decoded, decoded, corrupt, decode_string}
use vault_autounseal_operato.GoLib.Outcome.{Outcome, ok, err, panic, ◌>>◌, fail_if, map_err}
use vault_autounseal_operato.Errors.{
  Err, Message, validation_error, text, field_key, validation_hidden, invalid_base64, decoded_empty,
  key_empty, key_too_short, key_too_long,
}
use vault_autounseal_operato.Validator.Pattern.{validate_key_pattern}
use vault_autounseal_operato.Validator.Pattern.Weak.{
  Weak, validate_key_pattern_iff, validate_key_pattern-ne-panic,
}
use vault_autounseal_operato.Validator.Default.{
  DefaultKeyValidator, contains_sensitive_content, validate_base64_key, check_decoded, redacted,
  hide, bad_key,
}

-- What an accepted key is: its length is within the limits and not 0, and it decodes to bytes
-- that are not weak.
abbrev pub AcceptedKey : DefaultKeyValidator → Bytes → Type 0
AcceptedKey v k =
    (0 < length k)
    × (v.min_key_length ≤ℤ pos (length k))
    × (pos (length k) ≤ℤ v.max_key_length)
    × ((bs : Bytes) × (decode_string k ≡ decoded bs) × (bs ≢ []) × (¬ Weak bs))

module _ (unicode_lower : Bytes → Bytes) where
  decoded-ok :
      (k : Bytes) (d : Decoded)
      → (check_decoded unicode_lower k d ≡ ok tt)
        ↔ ((bs : Bytes) × (d ≡ decoded bs) × (bs ≢ []) × (¬ Weak bs))
  decoded-ok k (corrupt i) = (λ h. ground arith, λ h. ground arith)
  decoded-ok k (decoded []) = (λ h. ground arith, λ h. ground arith)
  decoded-ok k (decoded (b ∷ bs)) = (
    λ h. (b ∷ bs, refl, (λ e. ground arith), (validate_key_pattern_iff b bs).0 (ground arith)),
    λ (cs, e, _, strong).
        let same : cs ≡ b ∷ bs = ground arith in
        let pass : validate_key_pattern (b ∷ bs) ≡ ok tt =
          (validate_key_pattern_iff b bs).1 (rw same at strong) in
        ground (arith, pass),
  )

  -- Whether a key passes depends on its length and its decoded bytes alone.
  pub validate_base64_key_iff :
      (v : DefaultKeyValidator) (k : Bytes)
      → (validate_base64_key unicode_lower v k ≡ ok tt) ↔ AcceptedKey v k
  unfolding validate_base64_key
  validate_base64_key_iff v k =
      let d = decoded-ok k (decode_string k) in
      (λ h. ground (arith, d.0), λ h. ground (arith, d.1 h.3))

  decoded-ne-panic : (k : Bytes) (d : Decoded) → check_decoded unicode_lower k d ≢ panic
  decoded-ne-panic k (corrupt i) h = ground arith
  decoded-ne-panic k (decoded []) h = ground arith
  decoded-ne-panic k (decoded (b ∷ bs)) h = ground (arith, validate_key_pattern-ne-panic b bs)

  -- No key makes the validator index an empty slice.
  pub validate_base64_key-ne-panic :
      (v : DefaultKeyValidator) (k : Bytes) → validate_base64_key unicode_lower v k ≢ panic
  unfolding validate_base64_key
  validate_base64_key-ne-panic v k h = ground (arith, decoded-ne-panic k (decode_string k))

  -- Each error of the call shows the mark in place of the key.
  abbrev Redacts : Outcome Err (Unit {0}) → Type 0
  Redacts o =
      (e : Err) → o ≡ err e → (m : Message) × (e ≡ validation_error field_key (text redacted) m)

  module _ (k : Bytes) (sensitive : contains_sensitive_content unicode_lower k ≡ true) where
    bad_key-redacted :
        (m : Message) → bad_key unicode_lower k m ≡ validation_error field_key (text redacted) m
    bad_key-redacted m = rw sensitive

    guard-Redacts :
        (b : Bool) (m : Message) (rest : Outcome Err (Unit {0}))
        → Redacts rest
        → Redacts (fail_if b (bad_key unicode_lower k m) >> rest)
    guard-Redacts true m rest later e h = (m, ground (arith, bad_key-redacted m))
    guard-Redacts false m rest later e h = later e h

    hide-Redacts : (o : Outcome Err (Unit {0})) → Redacts (map_err (hide unicode_lower k) o)
    hide-Redacts (ok a) e h = ground arith
    hide-Redacts (err x) e h = (validation_hidden, ground arith)
    hide-Redacts panic e h = ground arith

    decoded-Redacts : (d : Decoded) → Redacts (check_decoded unicode_lower k d)
    decoded-Redacts (corrupt i) e h =
        (invalid_base64 i, ground (arith, bad_key-redacted (invalid_base64 i)))
    decoded-Redacts (decoded bs) e h =
        guard-Redacts (length bs == 0) decoded_empty
          (map_err (hide unicode_lower k) (validate_key_pattern bs))
          (hide-Redacts (validate_key_pattern bs)) e h

    -- The error for a key that looks sensitive shows neither the key nor its decoded bytes.
    validate_base64_key_redacted :
        (v : DefaultKeyValidator) (e : Err)
        → validate_base64_key unicode_lower v k ≡ err e
        → (m : Message) × (e ≡ validation_error field_key (text redacted) m)
    unfolding validate_base64_key
    validate_base64_key_redacted v =
        let last = check_decoded unicode_lower k (decode_string k) in
        let long =
          fail_if (ltb_ℤ v.max_key_length (pos (length k)))
            (bad_key unicode_lower k (key_too_long (length k) v.max_key_length))
          >> last in
        let short =
          fail_if (ltb_ℤ (pos (length k)) v.min_key_length)
            (bad_key unicode_lower k (key_too_short (length k) v.min_key_length))
          >> long in
        guard-Redacts (length k == 0) key_empty short (
          guard-Redacts _ (key_too_short (length k) v.min_key_length) long (
            guard-Redacts _ (key_too_long (length k) v.max_key_length) last
              (decoded-Redacts (decode_string k))))
