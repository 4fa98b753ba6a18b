-- ===== src/Errors.antt =====
-- pkg/vault/errors.go, which pkg/core/types/errors.go repeats. Messages are kept as data: a
-- constructor for each format string with its arguments.
pub mod Display
use vault_autounseal_operato.Prelude.{ℕ, Bool, true, false, List, ℤ}
use vault_autounseal_operato.GoLib.Strings.{Bytes}

-- The argument `value interface{}` of NewValidationError.
pub data Value : Type 0 where
  text : Bytes → Value
  texts : List Bytes → Value
  raw_bytes : Bytes → Value
  number : ℤ → Value
  duration : ℤ → Value

pub data Field : Type 0 where
  field_key field_keys field_threshold field_url field_timeout field_max_retries : Field

pub data Message : Type 0 where
  no_keys threshold_too_small : Message
  threshold_exceeds_keys : ℤ → ℕ → Message
  key_empty : Message
  key_too_short key_too_long : ℕ → ℤ → Message
  invalid_base64 : ℕ → Message
  invalid_base64_key : ℤ → ℕ → Message
  bad_base64 decoded_empty validation_hidden : Message
  all_zeros all_identical repeating_pattern : Message
  duplicate_at : ℕ → ℕ → Message
  duplicate_index : ℕ → Message
  wrong_length : ℤ → ℕ → Message
  no_allowed_prefix no_decoded_prefix : List Bytes → Message
  forbidden_string : Bytes → Message
  url_empty url_scheme url_too_long timeout_too_small retries_negative : Message

-- The operation named by a VaultError.
pub data Operation : Type 0 where
  is_sealed_op seal_status_op get_seal_status_op unseal_op unseal_key_submit : Operation
  is_initialized_op init_status_op health_check_op tls_config client_creation : Operation

-- The texts of fmt.Errorf, with or without a wrapped error.
pub data Context : Type 0 where
  validation_failed : Context
  invalid_key_at : ℕ → Context
  canceled_during_unseal : Context
  canceled_at_attempt : ℕ → Context
  canceled_during_delay : Context
  failed_after : ℤ → Context
  failed_to_submit : ℤ → Context
  client_closed : Context
  create_client_for : Bytes → Context
  create_client : Context
  get_vault_client check_seal_status unseal_vault update_status : Context
  mock_seal_status mock_unseal mock_initialized mock_health_check mock_client_factory : Context

-- A value of Go's type `error`. `external` is an error of a package that is not in the
-- repository, with a code for which; `formatted` and `wrapped` come from fmt.Errorf, the second
-- with `%w`. VaultError's Timestamp, which nothing
-- reads, and UnsealError's SealStatus, which nothing sets, are left out.
pub data Err : Type 0 where
  nil : Err
  vault_error : Operation → Bytes → Err → Bool → Err
  validation_error : Field → Value → Message → Err
  unseal_error : Bytes → ℕ → Err → Err
  connection_error : Bytes → Err → ℤ → Bool → Err
  timeout_error : Operation → ℤ → ℤ → Err
  authentication_error : Bytes → Bytes → Err → Err
  formatted : Context → Err
  wrapped : Context → Err → Err
  external : ℕ → Err

abbrev pub is_nil : Err → Bool
is_nil nil = true
is_nil _ = false

-- IsRetryableError walks the chain of Unwrap; an error of another package, and one that fmt.Errorf
-- makes without `%w`, holds none of the two retryable types.
unfoldable pub is_retryable_error : Err → Bool
is_retryable_error nil = false
is_retryable_error (vault_error op endpoint e retryable) = retryable
is_retryable_error (connection_error endpoint e limit retryable) = retryable
is_retryable_error (unseal_error endpoint i e) = is_retryable_error e
is_retryable_error (authentication_error endpoint method e) = is_retryable_error e
is_retryable_error (wrapped c e) = is_retryable_error e
is_retryable_error (validation_error f v m) = false
is_retryable_error (timeout_error op limit elapsed) = false
is_retryable_error (formatted c) = false
is_retryable_error (external n) = false

-- IsTimeoutError, IsValidationError, ... look at the outermost error only.
unfoldable pub is_timeout_error : Err → Bool
is_timeout_error (timeout_error op limit elapsed) = true
is_timeout_error _ = false

unfoldable pub is_validation_error : Err → Bool
is_validation_error (validation_error f v m) = true
is_validation_error _ = false

unfoldable pub is_authentication_error : Err → Bool
is_authentication_error (authentication_error endpoint method e) = true
is_authentication_error _ = false

unfoldable pub is_vault_error : Err → Bool
is_vault_error (vault_error op endpoint e retryable) = true
is_vault_error _ = false

unfoldable pub is_connection_error : Err → Bool
is_connection_error (connection_error endpoint e limit retryable) = true
is_connection_error _ = false
