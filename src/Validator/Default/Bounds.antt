-- ===== src/Validator/Default/Bounds.antt =====
-- ValidateBase64Key of pkg/vault/validator.go: the size of the bytes that an accepted key stands for.
use vault_autounseal_operato.Prelude.{ℕ, ◌*◌, ◌<◌, ◌≤◌, ◌≡◌, length, pos, arith}
use vault_autounseal_operato.GoLib.Strings.{Bytes}
use vault_autounseal_operato.GoLib.Base64.{decoded, decode_string}
use vault_autounseal_operato.GoLib.Base64.Size.{length-decode_string}
use vault_autounseal_operato.GoLib.Outcome.{ok}
use vault_autounseal_operato.Validator.Default.{DefaultKeyValidator, validate_base64_key}
use vault_autounseal_operato.Validator.Default.Single.{validate_base64_key_iff}
use vault_autounseal_operato.Validator.Pattern.Weak.{Weak}

-- With a maximal key length of `m`, each key that the default validator accepts decodes to at least one
-- byte and to at most three quarters of `m` bytes, which are not weak.
pub validate_base64_key-bounds :
    (unicode_lower : Bytes → Bytes) (v : DefaultKeyValidator) (m : ℕ) (k : Bytes)
    → v.max_key_length ≡ pos m
    → validate_base64_key unicode_lower v k ≡ ok tt
    → (bs : Bytes) × (decode_string k ≡ decoded bs)
      × (0 < length bs)
      × (4 * length bs ≤ 3 * m)
      × (¬ Weak bs)
validate_base64_key-bounds unicode_lower v m k limit h =
    let (_, _, short, (bs, d, full, strong)) = (validate_base64_key_iff unicode_lower v k).0 h in
    let size = length-decode_string k bs d in
    let long : length k ≤ m = ground (arith, short, limit) in
    (bs, d, ground (arith, full), omega arith, strong)
