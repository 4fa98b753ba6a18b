-- ===== src/Errors/Display.antt =====
-- pkg/vault/errors.go: the text of an error, as far as it is not fixed: which strings stand in it besides the
-- words of its format and decimal numbers. `show` is fmt's %v for a value that is not a string, and
-- `external_text` the text of an error of a package that is not in the repository.
use vault_autounseal_operato.Prelude.{
  ℕ, Bool, true, false, ◌||◌, List, [], ◌∷◌, ◌++◌, if◌then◌else◌,
}
use vault_autounseal_operato.GoLib.Strings.{Bytes}
use vault_autounseal_operato.Errors.{
  Value, text, Field, field_key, field_keys, Message, no_allowed_prefix, no_decoded_prefix,
  forbidden_string, Context, create_client_for, Err, nil, vault_error, validation_error,
  unseal_error, connection_error, timeout_error, authentication_error, formatted, wrapped, external,
}
use vault_autounseal_operato.Validator.Default.{contains_sensitive_content, redacted}

abbrev pub is_key_field : Field → Bool
is_key_field field_key = true
is_key_field field_keys = true
is_key_field _ = false

-- The strings that a Message and a text of fmt.Errorf are formatted with.
abbrev pub shown_message : Message → List Bytes
shown_message (no_allowed_prefix prefixes) = prefixes
shown_message (no_decoded_prefix prefixes) = prefixes
shown_message (forbidden_string forbidden) = forbidden ∷ []
shown_message _ = []

abbrev pub shown_context : Context → List Bytes
shown_context (create_client_for key) = key ∷ []
shown_context _ = []

module _ (unicode_lower : Bytes → Bytes) (show : Value → Bytes) (external_text : ℕ → Bytes) where
  abbrev pub value_text : Value → Bytes
  value_text (text s) = s
  value_text v = show v

  -- The value as ValidationError.Error shows it.
  unfoldable pub shown_value : Field → Value → Bytes
  shown_value f v =
      if is_key_field f || contains_sensitive_content unicode_lower (value_text v)
      then redacted
      else value_text v

  -- Each Error() shows the text of the error that it holds. That of a ValidationError has the value, or
  -- the mark in its place, and the message.
  unfoldable pub shown_strings : Err → List Bytes
  unfolding shown_value
  shown_strings nil = []
  shown_strings (vault_error op endpoint e retryable) = endpoint ∷ shown_strings e
  shown_strings (validation_error f v m) = shown_value f v ∷ shown_message m
  shown_strings (unseal_error endpoint i e) = endpoint ∷ shown_strings e
  shown_strings (connection_error endpoint e limit retryable) = endpoint ∷ shown_strings e
  shown_strings (timeout_error op limit elapsed) = []
  shown_strings (authentication_error endpoint method e) = endpoint ∷ method ∷ shown_strings e
  shown_strings (formatted c) = shown_context c
  shown_strings (wrapped c e) = shown_context c ++ shown_strings e
  shown_strings (external n) = external_text n ∷ []
