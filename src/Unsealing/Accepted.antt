-- ===== src/Unsealing/Accepted.antt =====
-- pkg/unsealing/validation/strict_validator.go: which keys, and which sets of keys, it accepts.
use mathlib.Core.List.{Memᴰ}
use vault_autounseal_operato.Prelude.{
  ℕ, ◌+◌, ◌≡◌, refl, ◌↔◌, ◌⊎◌, inl, inr, true, false, List, [], ◌∷◌, All, length, ◌==◌, pos, ℤ,
  arith, ◌∙◌, sym, Bool-cases, if◌then◌else◌,
}
use vault_autounseal_operato.Prelude.Int.{◌≤ℤ◌}
use vault_autounseal_operato.GoLib.Strings.{Bytes, has_prefix, to_lower}
use vault_autounseal_operato.GoLib.Base64.{decoded, decode_string}
use vault_autounseal_operato.GoLib.Outcome.{Outcome, ok, >>=-eq-ok}
use vault_autounseal_operato.Errors.{Err}
use vault_autounseal_operato.Validator.Default
use vault_autounseal_operato.Validator.Default.Single.{validate_base64_key_iff}
use vault_autounseal_operato.Validator.Default.Sets.{Distinct}
use vault_autounseal_operato.Validator.Strict
use vault_autounseal_operato.Validator.Strict.{StrictKeyValidator}
use vault_autounseal_operato.Validator.Strict.Stricter.{Avoids, find_duplicate_iff}
use vault_autounseal_operato.Unsealing.{
  validate_key_length, starts_with_one, validate_allowed_prefixes, check_counts, validate_each,
  is_seen, find_duplicate, find_forbidden, validate_forbidden_strings, validate_base64_key,
  validate_keys,
}

-- A prefix of the decoded key is allowed, or all are.
abbrev pub StartsWell : StrictKeyValidator → Bytes → Type 0
StartsWell v bs =
    (v.allowed_prefixes ≡ []) ⊎ ((p : Bytes) × Memᴰ p v.allowed_prefixes × (has_prefix bs p ≡ true))

starts_with_one_of :
    (s : Bytes) {p : Bytes} {ps : List Bytes}
    → Memᴰ p ps
    → has_prefix s p ≡ true
    → starts_with_one s ps ≡ true
unfolding starts_with_one
starts_with_one_of s (Memᴰ.head e) h = ground arith
starts_with_one_of s (Memᴰ.tail m) h = ground (arith, starts_with_one_of s m h)

starts_with_one_iff :
    (s : Bytes) (ps : List Bytes)
    → (starts_with_one s ps ≡ true) ↔ ((p : Bytes) × Memᴰ p ps × (has_prefix s p ≡ true))
unfolding starts_with_one
starts_with_one_iff s [] = (λ h. ground arith, λ h. starts_with_one_of s h.1 h.2)
starts_with_one_iff s (p ∷ ps) = (
  λ h. elim (Bool-cases (has_prefix s p)) [
    | inl e ↦ (p, Memᴰ.head refl, e)
    | inr d ↦ let (q, m, e) = (starts_with_one_iff s ps).0 (ground arith) in (q, Memᴰ.tail m, e)
  ],
  λ h. starts_with_one_of s h.1 h.2,
)

module _ (v : StrictKeyValidator) (k bs : Bytes) (d : decode_string k ≡ decoded bs) where
  length_iff :
      (validate_key_length v k ≡ ok tt)
      ↔ ((v.required_key_length ≤ℤ pos 0) ⊎ (v.required_key_length ≡ pos (length bs)))
  unfolding validate_key_length
  length_iff = (λ h. ground (arith, d), λ h. ground (arith, d))

  decoded_iff :
      (validate_allowed_prefixes v k ≡ ok tt)
      ↔ ((v.allowed_prefixes ≡ []) ⊎ (starts_with_one bs v.allowed_prefixes ≡ true))
  unfolding validate_allowed_prefixes
  decoded_iff = rw d (λ h. ground arith, λ h. ground arith)

  prefixes_iff : (validate_allowed_prefixes v k ≡ ok tt) ↔ StartsWell v bs
  prefixes_iff =
      let start = starts_with_one_iff bs v.allowed_prefixes in
      (
        λ h. elim (decoded_iff.0 h) [ inl e ↦ inl e | inr e ↦ inr (start.0 e) ],
        λ h. decoded_iff.1 (elim h [ inl e ↦ inl e | inr e ↦ inr (start.1 e) ]),
      )

  module _ (unicode_lower : Bytes → Bytes) where
    found_iff :
        (fs : List Bytes)
        → (find_forbidden unicode_lower k (to_lower unicode_lower k) (to_lower unicode_lower bs) fs
            ≡ ok tt)
          ↔ All (Avoids unicode_lower k bs) fs
    unfolding find_forbidden
    found_iff [] = (λ h. tt, λ h. refl)
    found_iff (f ∷ fs) =
        (λ h. ground (arith, (found_iff fs).0), λ h. ground (arith, (found_iff fs).1 h.1))

    forbidden_iff :
        (validate_forbidden_strings unicode_lower v k ≡ ok tt)
        ↔ All (Avoids unicode_lower k bs) v.forbidden_strings
    unfolding validate_forbidden_strings
    forbidden_iff = rw d (go v.forbidden_strings)
      where
        go :
            (fs : List Bytes)
            → ((if length fs == 0
                  then ok tt
                  else find_forbidden unicode_lower k
                      (to_lower unicode_lower k)
                      (to_lower unicode_lower bs)
                      fs)
                ≡ ok tt)
              ↔ All (Avoids unicode_lower k bs) fs
        go [] = (λ h. tt, λ h. refl)
        go (f ∷ fs) =
            let found = found_iff (f ∷ fs) in
            (λ h. found.0 (ground arith), λ h. ground (arith, found.1 h))

check_counts_iff :
    (ks : List Bytes) (t : ℤ)
    → (check_counts ks t ≡ ok tt) ↔ ((pos 1 ≤ℤ t) × (t ≤ℤ pos (length ks)))
unfolding check_counts
check_counts_iff ks t = (λ h. ground arith, λ h. ground arith)

validate_each_iff :
    (check : Bytes → Outcome Err (Unit {0})) (i : ℕ) (ks : List Bytes)
    → (validate_each check i ks ≡ ok tt) ↔ All (λ k. check k ≡ ok tt) ks
unfolding validate_each
validate_each_iff check i [] = (λ h. tt, λ h. refl)
validate_each_iff check i (k ∷ ks) = (
  λ h. ground (arith, (validate_each_iff check (i + 1) ks).0),
  λ h. ground (arith, (validate_each_iff check (i + 1) ks).1 h.1),
)

-- The search for duplicates is that of pkg/vault.
is_seen-same : (k : Bytes) (seen : List Bytes) → is_seen k seen ≡ Strict.seen_before k seen
unfolding is_seen Strict.seen_before
is_seen-same k [] = refl
is_seen-same k (j ∷ seen) = rw (is_seen-same k seen) refl

find_duplicate-same :
    (all : List Bytes) (i : ℕ) (seen ks : List Bytes)
    → find_duplicate all i seen ks ≡ Strict.find_duplicate all i seen ks
unfolding find_duplicate Strict.find_duplicate
find_duplicate-same all i seen [] = refl
find_duplicate-same all i seen (k ∷ ks) =
    rw (is_seen-same k seen, find_duplicate-same all (i + 1) (k ∷ seen) ks) refl

Distinct-iff : (ks : List Bytes) → (find_duplicate ks 0 [] ks ≡ ok tt) ↔ Distinct ks
unfolding Strict.seen_before
Distinct-iff ks =
    let same = find_duplicate-same ks 0 [] ks in
    let it = find_duplicate_iff ks 0 [] ks in
    (λ h. (it.0 (sym same ∙ h)).1, λ h. same ∙ it.1 (unseen ks, h))
  where
    unseen : (js : List Bytes) → All (λ j. Strict.seen_before j [] ≡ false) js
    unseen [] = tt
    unseen (j ∷ js) = (refl, unseen js)

module _ (unicode_lower : Bytes → Bytes) (v : StrictKeyValidator) where
  -- The default validator accepts the key, and it decodes to bytes with the required length and an
  -- allowed prefix, where these are set, with no forbidden string in the key or the bytes.
  abbrev pub IsAcceptable : Bytes → Type 0
  IsAcceptable k =
      (Default.validate_base64_key unicode_lower v.defaults k ≡ ok tt)
      × ((bs : Bytes) × (decode_string k ≡ decoded bs)
          × ((v.required_key_length ≤ℤ pos 0) ⊎ (v.required_key_length ≡ pos (length bs)))
          × StartsWell v bs
          × All (Avoids unicode_lower k bs) v.forbidden_strings)

  key_iff : (k : Bytes) → (validate_base64_key unicode_lower v k ≡ ok tt) ↔ IsAcceptable k
  unfolding validate_base64_key
  key_iff k = (
    λ h.
        let (_, base, h1) =
          >>=-eq-ok (Default.validate_base64_key unicode_lower v.defaults k) _ h in
        let (_, len, h2) = >>=-eq-ok (validate_key_length v k) _ h1 in
        let (_, pre, forb) = >>=-eq-ok (validate_allowed_prefixes v k) _ h2 in
        let (bs, d, _, _) = ((validate_base64_key_iff unicode_lower v.defaults k).0 base).3 in
        (
          base,
          (
            bs,
            d,
            (length_iff v k bs d).0 len,
            (prefixes_iff v k bs d).0 pre,
            (forbidden_iff v k bs d unicode_lower).0 forb,
          ),
        ),
    λ (base, (bs, d, len, pre, forb)). rw base (
        rw ((length_iff v k bs d).1 len)
          (rw ((prefixes_iff v k bs d).1 pre) ((forbidden_iff v k bs d unicode_lower).1 forb))),
  )

  each-IsAcceptable :
      (ks : List Bytes)
      → All (λ k. validate_base64_key unicode_lower v k ≡ ok tt) ks ↔ All IsAcceptable ks
  each-IsAcceptable [] = (λ h. tt, λ h. tt)
  each-IsAcceptable (k ∷ ks) =
      let one = key_iff k in
      let rest = each-IsAcceptable ks in
      (λ h. (one.0 h.0, rest.0 h.1), λ h. (one.1 h.0, rest.1 h.1))

  -- The strict validator of pkg/unsealing accepts a set of keys exactly when the threshold is between 1
  -- and their number, no key stands twice, and each key is one that the default validator accepts and
  -- that decodes to bytes which have the required length and an allowed prefix, where these are set,
  -- while neither the key nor the bytes hold a forbidden string, all in lower case.
  pub strict_validate_keys_iff :
      (ks : List Bytes) (t : ℤ)
      → (validate_keys unicode_lower v ks t ≡ ok tt)
        ↔ ((pos 1 ≤ℤ t) × (t ≤ℤ pos (length ks)) × All IsAcceptable ks × Distinct ks)
  unfolding validate_keys
  strict_validate_keys_iff ks t =
      let counts = check_counts_iff ks t in
      let each = validate_each_iff (validate_base64_key unicode_lower v) 0 ks in
      let good = each-IsAcceptable ks in
      let distinct = Distinct-iff ks in
      (
        λ h.
            let (_, c, rest) = >>=-eq-ok (check_counts ks t) _ h in
            let (_, p, last) =
              >>=-eq-ok (validate_each (validate_base64_key unicode_lower v) 0 ks) _ rest in
            let (low, high) = counts.0 c in (low, high, good.0 (each.0 p), distinct.0 last),
        λ (low, high, keys, d).
            rw (counts.1 (low, high)) (rw (each.1 (good.1 keys)) (distinct.1 d)),
      )
