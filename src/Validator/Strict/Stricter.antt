-- ===== src/Validator/Strict/Stricter.antt =====
-- StrictKeyValidator of pkg/vault/validator.go: what it adds to the default validator.
use mathlib.Core.List.{Memᴰ}
use vault_autounseal_operato.Prelude.{
  ℕ, ◌+◌, ◌≡◌, refl, sym, ◌≢◌, ◌↔◌, ◌⊎◌, inl, inr, true, false, List, [], ◌∷◌, All, length, ◌==◌, ℤ,
  pos, arith, Bool-cases, if◌then◌else◌,
}
use vault_autounseal_operato.Prelude.Int.{◌≤ℤ◌}
use vault_autounseal_operato.GoLib.Strings.{Bytes, contains, has_prefix, to_lower, bytes_eq}
use vault_autounseal_operato.GoLib.Strings.Laws.{bytes_eq_iff}
use vault_autounseal_operato.GoLib.Base64.{decoded, decode_string}
use vault_autounseal_operato.GoLib.Outcome.{ok, >>=-eq-ok}
use vault_autounseal_operato.Validator.Default
use vault_autounseal_operato.Validator.Default.{check_counts, validate_each}
use vault_autounseal_operato.Validator.Default.Single.{validate_base64_key_iff}
use vault_autounseal_operato.Validator.Default.Sets.{
  Distinct, check_counts_iff, validate_each_iff, validate_keys_iff,
}
use vault_autounseal_operato.Validator.Strict.{
  StrictKeyValidator, validate_base64_key, validate_keys, validate_key_length, any_prefix,
  validate_allowed_prefixes, seen_before, find_duplicate, find_forbidden,
  validate_forbidden_strings,
}

any_prefix_of :
    (k : Bytes) {p : Bytes} {ps : List Bytes}
    → Memᴰ p ps
    → has_prefix k p ≡ true
    → any_prefix k ps ≡ true
unfolding any_prefix
any_prefix_of k (Memᴰ.head e) h = ground arith
any_prefix_of k (Memᴰ.tail m) h = ground (arith, any_prefix_of k m h)

pub any_prefix_iff :
    (k : Bytes) (ps : List Bytes)
    → (any_prefix k ps ≡ true) ↔ ((p : Bytes) × Memᴰ p ps × (has_prefix k p ≡ true))
unfolding any_prefix
any_prefix_iff k [] = (λ h. ground arith, λ h. any_prefix_of k h.1 h.2)
any_prefix_iff k (p ∷ ps) = (
  λ h. elim (Bool-cases (has_prefix k p)) [
    | inl e ↦ (p, Memᴰ.head refl, e)
    | inr d ↦ let (q, m, e) = (any_prefix_iff k ps).0 (ground arith) in (q, Memᴰ.tail m, e)
  ],
  λ h. any_prefix_of k h.1 h.2,
)

pub length_iff :
    (v : StrictKeyValidator) (k bs : Bytes)
    → decode_string k ≡ decoded bs
    → (validate_key_length v k ≡ ok tt)
      ↔ ((v.required_key_length ≤ℤ pos 0) ⊎ (v.required_key_length ≡ pos (length bs)))
unfolding validate_key_length
length_iff v k bs d = (λ h. ground arith, λ h. ground arith)

prefix_iff :
    (v : StrictKeyValidator) (k : Bytes)
    → (validate_allowed_prefixes v k ≡ ok tt)
      ↔ ((v.allowed_prefixes ≡ []) ⊎ (any_prefix k v.allowed_prefixes ≡ true))
unfolding validate_allowed_prefixes
prefix_iff v k = (λ h. ground arith, λ h. ground arith)

-- The key is not a repetition of one seen before, nor of one before it in the list.
seen_before_cons :
    (k : Bytes) (seen ks : List Bytes)
    → All (λ j. seen_before j (k ∷ seen) ≡ false) ks
      ↔ (All (λ j. seen_before j seen ≡ false) ks × All (λ j. j ≢ k) ks)
unfolding seen_before
seen_before_cons k seen [] = (λ h. (tt, tt), λ h. tt)
seen_before_cons k seen (j ∷ ks) =
    let ih = seen_before_cons k seen ks in
    let same = bytes_eq_iff k j in
    elim (Bool-cases (bytes_eq k j)) [
      | inl e ↦ (λ h. ground arith, λ h. absurd (h.1.0 (sym (same.0 e))))
      | inr d ↦ (
        λ h.
            let r = ih.0 h.1 in ((ground arith, r.0), ((λ q. ground (arith, same.1 (sym q))), r.1)),
        λ h. (ground arith, ih.1 (h.0.1, h.1.1)),
      )
    ]

pub find_duplicate_iff :
    (all : List Bytes) (i : ℕ) (seen ks : List Bytes)
    → (find_duplicate all i seen ks ≡ ok tt)
      ↔ (All (λ j. seen_before j seen ≡ false) ks × Distinct ks)
unfolding find_duplicate
find_duplicate_iff all i seen [] = (λ h. (tt, tt), λ h. refl)
find_duplicate_iff all i seen (k ∷ ks) =
    let ih = find_duplicate_iff all (i + 1) (k ∷ seen) ks in
    let more = seen_before_cons k seen ks in
    (λ h. ground (arith, ih.0, more.0), λ h. ground (arith, ih.1, more.1))

module _ (unicode_lower : Bytes → Bytes) where
  -- Neither the key nor its decoded bytes hold the text, all in lower case.
  abbrev pub Avoids : Bytes → Bytes → Bytes → Type 0
  Avoids k bs f =
      (contains (to_lower unicode_lower k) (to_lower unicode_lower f) ≡ false)
      × (contains (to_lower unicode_lower bs) (to_lower unicode_lower f) ≡ false)

  find_forbidden_iff :
      (k bs : Bytes) (fs : List Bytes)
      → (find_forbidden unicode_lower k (to_lower unicode_lower k) (to_lower unicode_lower bs) fs
          ≡ ok tt)
        ↔ All (Avoids k bs) fs
  unfolding find_forbidden
  find_forbidden_iff k bs [] = (λ h. tt, λ h. refl)
  find_forbidden_iff k bs (f ∷ fs) = (
    λ h. ground (arith, (find_forbidden_iff k bs fs).0),
    λ h. ground (arith, (find_forbidden_iff k bs fs).1 h.1),
  )

  pub forbidden_iff :
      (v : StrictKeyValidator) (k bs : Bytes)
      → decode_string k ≡ decoded bs
      → (validate_forbidden_strings unicode_lower v k ≡ ok tt)
        ↔ All (Avoids k bs) v.forbidden_strings
  unfolding validate_forbidden_strings
  forbidden_iff v k bs d = rw d (go v.forbidden_strings)
    where
      go :
          (fs : List Bytes)
          → ((if length fs == 0
                then ok tt
                else find_forbidden unicode_lower k
                    (to_lower unicode_lower k)
                    (to_lower unicode_lower bs)
                    fs)
              ≡ ok tt)
            ↔ All (Avoids k bs) fs
      go [] = (λ h. tt, λ h. refl)
      go (f ∷ fs) =
          let found = find_forbidden_iff k bs (f ∷ fs) in
          (λ h. found.0 (ground arith), λ h. ground (arith, found.1 h))

  module _ (v : StrictKeyValidator) where
    -- What the strict validator asks of a key that decodes to `bs`, beyond the default rules.
    abbrev pub Extra : Bytes → Bytes → Type 0
    Extra k bs =
        ((v.required_key_length ≤ℤ pos 0) ⊎ (v.required_key_length ≡ pos (length bs)))
        × ((v.allowed_prefixes ≡ [])
            ⊎ ((p : Bytes) × Memᴰ p v.allowed_prefixes × (has_prefix k p ≡ true)))
        × All (Avoids k bs) v.forbidden_strings

    -- The strict validator accepts a key exactly when the default one does and the key meets the
    -- extra rules.
    pub strict_validate_base64_key_iff :
        (k : Bytes)
        → (validate_base64_key unicode_lower v k ≡ ok tt) ↔ (
            (Default.validate_base64_key unicode_lower v.defaults k ≡ ok tt)
            × ((bs : Bytes) × (decode_string k ≡ decoded bs) × Extra k bs))
    unfolding validate_base64_key
    strict_validate_base64_key_iff k = (
      λ h.
          let (_, base, h1) =
            >>=-eq-ok (Default.validate_base64_key unicode_lower v.defaults k) _ h in
          let (_, len, h2) = >>=-eq-ok (validate_key_length v k) _ h1 in
          let (_, pre, forb) = >>=-eq-ok (validate_allowed_prefixes v k) _ h2 in
          let (bs, d, _, _) = ((validate_base64_key_iff unicode_lower v.defaults k).0 base).3 in
          (
            base,
            (
              bs,
              d,
              ((length_iff v k bs d).0 len, prefix_words.0 pre, (forbidden_iff v k bs d).0 forb),
            ),
          ),
      λ (base, (bs, d, (len, pre, forb))). rw base (
          rw ((length_iff v k bs d).1 len)
            (rw (prefix_words.1 pre) ((forbidden_iff v k bs d).1 forb))),
    )
      where
        prefix_words : (validate_allowed_prefixes v k ≡ ok tt) ↔ (
            (v.allowed_prefixes ≡ [])
            ⊎ ((p : Bytes) × Memᴰ p v.allowed_prefixes × (has_prefix k p ≡ true)))
        prefix_words = (
          λ h. elim ((prefix_iff v k).0 h) [
            | inl e ↦ inl e
            | inr e ↦ inr ((any_prefix_iff k v.allowed_prefixes).0 e)
          ],
          λ h.
              (prefix_iff v k).1 (elim h [
                | inl e ↦ inl e
                | inr e ↦ inr ((any_prefix_iff k v.allowed_prefixes).1 e)
              ]),
        )

    -- Every set of keys that the strict validator accepts is accepted by the default one.
    pub strict_validate_keys_default :
        (ks : List Bytes) (t : ℤ)
        → validate_keys unicode_lower v ks t ≡ ok tt
        → Default.validate_keys unicode_lower v.defaults ks t ≡ ok tt
    unfolding validate_keys
    strict_validate_keys_default ks t h =
        let (_, counts, h1) = >>=-eq-ok (check_counts ks t) _ h in
        let (_, each, last) =
          >>=-eq-ok (validate_each (validate_base64_key unicode_lower v) 0 ks) _ h1 in
        let (low, high) = (check_counts_iff ks t).0 counts in
        (validate_keys_iff unicode_lower v.defaults ks t).1 (
          low,
          high,
          weaken ks ((validate_each_iff (validate_base64_key unicode_lower v) 0 ks).0 each),
          ((find_duplicate_iff ks 0 [] ks).0 last).1,
        )
      where
        weaken :
            (js : List Bytes)
            → All (λ k. validate_base64_key unicode_lower v k ≡ ok tt) js
            → All (λ k. Default.validate_base64_key unicode_lower v.defaults k ≡ ok tt) js
        weaken [] a = tt
        weaken (j ∷ js) a = (((strict_validate_base64_key_iff j).0 a.0).0, weaken js a.1)
