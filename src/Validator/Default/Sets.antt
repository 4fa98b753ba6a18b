-- ===== src/Validator/Default/Sets.antt =====
-- ValidateKeys of pkg/vault/validator.go: which sets of keys are accepted, and what each refusal
-- reports.
use vault_autounseal_operato.Prelude.{
  ℕ, zero, suc, ◌+◌, ◌<◌, ◌≡◌, refl, sym, ap, ◌∙◌, ◌≢◌, ◌↔◌, ◌⊎◌, inl, inr, none, some, List, [],
  ◌∷◌, All, length, get_elem?, get_elem?-drop, take, drop, ℤ, pos, arith, Bool-cases, Option-cases,
}
use vault_autounseal_operato.Prelude.Int.{◌≤ℤ◌}
use vault_autounseal_operato.GoLib.Strings.{Bytes, bytes_eq}
use vault_autounseal_operato.GoLib.Strings.Laws.{bytes_eq_iff}
use vault_autounseal_operato.GoLib.Outcome.{Outcome, ok, err, panic, >>=-eq-ok}
use vault_autounseal_operato.Errors.{
  Err, validation_error, wrapped, invalid_key_at, texts, field_keys, duplicate_at,
}
use vault_autounseal_operato.Validator.Default.{
  DefaultKeyValidator, check_counts, validate_each, seen_at, find_duplicate, check_for_duplicates,
  validate_base64_key, validate_keys,
}
use vault_autounseal_operato.Validator.Default.Single.{validate_base64_key-ne-panic}

-- No key stands twice.
abbrev pub Distinct : List Bytes → Type 0
Distinct [] = Unit
Distinct (k ∷ ks) = All (λ j. j ≢ k) ks × Distinct ks

pub check_counts_iff :
    (ks : List Bytes) (t : ℤ)
    → (check_counts ks t ≡ ok tt) ↔ ((pos 1 ≤ℤ t) × (t ≤ℤ pos (length ks)))
unfolding check_counts
check_counts_iff ks t = (λ h. ground arith, λ h. ground arith)

module _ (check : Bytes → Outcome Err (Unit {0})) where
  pub validate_each_iff :
      (i : ℕ) (ks : List Bytes) → (validate_each check i ks ≡ ok tt) ↔ All (λ k. check k ≡ ok tt) ks
  unfolding validate_each
  validate_each_iff i [] = (λ h. tt, λ h. refl)
  validate_each_iff i (k ∷ ks) = (
    λ h. ground (arith, (validate_each_iff (i + 1) ks).0),
    λ h. ground (arith, (validate_each_iff (i + 1) ks).1 h.1),
  )

  -- The first key that the check refuses, counted from `i`, and the error that names its place.
  abbrev pub FirstBad : ℕ → List Bytes → Err → Type 0
  FirstBad i ks e =
      (n : ℕ) × (k : Bytes) × (cause : Err) × (get_elem? ks n ≡ some k)
      × (check k ≡ err cause)
      × All (λ j. check j ≡ ok tt) (take n ks)
      × (e ≡ wrapped (invalid_key_at (i + n)) cause)

  FirstBad-cons :
      (i : ℕ) (k : Bytes) (ks : List Bytes) (e : Err)
      → check k ≡ ok tt
      → FirstBad (i + 1) ks e
      → FirstBad i (k ∷ ks) e
  FirstBad-cons i k ks e pass (n, k', cause, place, bad, before, text) =
      let same : i + 1 + n ≡ i + suc n = omega arith in
      (suc n, k', cause, place, bad, (pass, before), rw same at text)

  validate_each_error :
      (i : ℕ) (ks : List Bytes) (e : Err) → validate_each check i ks ≡ err e → FirstBad i ks e
  unfolding validate_each
  validate_each_error i [] e h = ground arith
  validate_each_error i (k ∷ ks) e h = go (check k) refl (validate_each_error (i + 1) ks e)
    where
      go :
          (o : Outcome Err (Unit {0}))
          → check k ≡ o
          → (validate_each check (i + 1) ks ≡ err e → FirstBad (i + 1) ks e)
          → FirstBad i (k ∷ ks) e
      go (ok a) p later = FirstBad-cons i k ks e p (later (ground arith))
      go (err c) p later =
          let same : i ≡ i + 0 = omega arith in (0, k, c, refl, p, tt, rw (← same) (ground arith))
      go panic p later = ground arith

  validate_each-ne-panic :
      ((k : Bytes) → check k ≢ panic) → (i : ℕ) (ks : List Bytes) → validate_each check i ks ≢ panic
  unfolding validate_each
  validate_each-ne-panic safe i [] h = ground arith
  validate_each-ne-panic safe i (k ∷ ks) h =
      ground (arith, safe k, validate_each-ne-panic safe (i + 1) ks)

Fresh : List (Bytes × ℕ) → List Bytes → Type 0
Fresh seen = All λ k. seen_at k seen ≡ none

Fresh-cons :
    (k : Bytes) (i : ℕ) (seen : List (Bytes × ℕ)) (ks : List Bytes)
    → Fresh ((k, i) ∷ seen) ks ↔ (Fresh seen ks × All (λ j. j ≢ k) ks)
unfolding Fresh seen_at
Fresh-cons k i seen [] = (λ h. (tt, tt), λ h. tt)
Fresh-cons k i seen (j ∷ ks) =
    let ih = Fresh-cons k i seen ks in
    let same = bytes_eq_iff k j in
    elim (Bool-cases (bytes_eq k j)) [
      | inl e ↦ (λ h. ground arith, λ h. absurd (h.1.0 (sym (same.0 e))))
      | inr d ↦ (
        λ h.
            let r = ih.0 h.1 in ((ground arith, r.0), ((λ q. ground (arith, same.1 (sym q))), r.1)),
        λ h. (ground arith, ih.1 (h.0.1, h.1.1)),
      )
    ]

find_duplicate_iff :
    (all : List Bytes) (i : ℕ) (seen : List (Bytes × ℕ)) (ks : List Bytes)
    → (find_duplicate all i seen ks ≡ ok tt) ↔ (Fresh seen ks × Distinct ks)
unfolding find_duplicate Fresh
find_duplicate_iff all i seen [] = (λ h. (tt, tt), λ h. refl)
find_duplicate_iff all i seen (k ∷ ks) =
    let ih = find_duplicate_iff all (i + 1) ((k, i) ∷ seen) ks in
    let more = Fresh-cons k i seen ks in
    (λ h. ground (arith, ih.0, more.0), λ h. ground (arith, ih.1, more.1))

check_for_duplicates_iff : (ks : List Bytes) → (check_for_duplicates ks ≡ ok tt) ↔ Distinct ks
unfolding check_for_duplicates Fresh
check_for_duplicates_iff ks =
    let found = find_duplicate_iff ks 0 [] ks in
    (λ h. (found.0 h).1, λ d. found.1 (all_fresh ks, d))
  where
    all_fresh : (js : List Bytes) → Fresh [] js
    all_fresh [] = tt
    all_fresh (j ∷ js) = (refl, all_fresh js)

drop-suc :
    {A : Type 0} (i : ℕ) (x : A) (xs rest : List A) → drop i xs ≡ x ∷ rest → drop (i + 1) xs ≡ rest
drop-suc zero x [] rest h = ground arith
drop-suc zero x (y ∷ xs) rest h = ground arith
drop-suc (suc i) x [] rest h = ground arith
drop-suc (suc i) x (y ∷ xs) rest h =
    let same : suc i + 1 ≡ suc (i + 1) = omega arith in rw same (drop-suc i x xs rest h)

get-drop :
    (i : ℕ) (k : Bytes) (all rest : List Bytes) → drop i all ≡ k ∷ rest → get_elem? all i ≡ some k
get-drop i k all rest h =
    let same : i + 0 ≡ i = omega arith in
    rw same at (sym (get_elem?-drop i 0 all) ∙ ap (λ xs. get_elem? xs 0) h)

-- The map holds indices below `i`, each with the key that stands there.
Remembers : List Bytes → ℕ → List (Bytes × ℕ) → Type 0
Remembers all i seen =
    (k : Bytes) (j : ℕ) → seen_at k seen ≡ some j → (j < i) × (get_elem? all j ≡ some k)

Remembers-cons :
    (all : List Bytes) (i : ℕ) (seen : List (Bytes × ℕ)) (k : Bytes)
    → get_elem? all i ≡ some k
    → Remembers all i seen
    → Remembers all (i + 1) ((k, i) ∷ seen)
unfolding Remembers seen_at
Remembers-cons all i seen k e r k' j h = elim (Bool-cases (bytes_eq k k')) [
  | inl same ↦ ground (arith, (bytes_eq_iff k k').0 same)
  | inr other ↦ ground (arith, r k' j)
]

-- The two places of a duplicate.
abbrev pub Twice : List Bytes → Err → Type 0
Twice ks e =
    (j n : ℕ) × (k : Bytes) × (j < n)
    × (get_elem? ks j ≡ some k)
    × (get_elem? ks n ≡ some k)
    × (e ≡ validation_error field_keys (texts ks) (duplicate_at j n))

find_duplicate_error :
    (all : List Bytes) (i : ℕ) (seen : List (Bytes × ℕ)) (ks : List Bytes) (e : Err)
    → drop i all ≡ ks
    → Remembers all i seen
    → find_duplicate all i seen ks ≡ err e
    → Twice all e
unfolding find_duplicate Remembers
find_duplicate_error all i seen [] e d r h = ground arith
find_duplicate_error all i seen (k ∷ ks) e d r h = elim (Option-cases (seen_at k seen)) [
  | inl new ↦
      find_duplicate_error all (i + 1) ((k, i) ∷ seen) ks e (drop-suc i k all ks d)
        (Remembers-cons all i seen k (get-drop i k all ks d) r) (ground arith)
  | inr (j, old) ↦ (j, i, k, (r k j old).0, (r k j old).1, get-drop i k all ks d, ground arith)
]

-- A report of a duplicate names two places that hold the same key, the first one first.
check_for_duplicates_error :
    (ks : List Bytes) (e : Err) → check_for_duplicates ks ≡ err e → Twice ks e
unfolding check_for_duplicates Remembers
check_for_duplicates_error ks e h = find_duplicate_error ks 0 [] ks e refl (λ k j q. ground arith) h

module _ (unicode_lower : Bytes → Bytes) (v : DefaultKeyValidator) where
  -- A set of keys is accepted exactly when the threshold is from 1 to the number of keys, each key
  -- is accepted, and no key stands twice.
  pub validate_keys_iff :
      (ks : List Bytes) (t : ℤ)
      → (validate_keys unicode_lower v ks t ≡ ok tt) ↔ (
          (pos 1 ≤ℤ t)
          × (t ≤ℤ pos (length ks))
          × All (λ k. validate_base64_key unicode_lower v k ≡ ok tt) ks
          × Distinct ks)
  unfolding validate_keys
  validate_keys_iff ks t =
      let counts = check_counts_iff ks t in
      let each = validate_each_iff (validate_base64_key unicode_lower v) 0 ks in
      let distinct = check_for_duplicates_iff ks in
      (
        λ h.
            let (_, c, rest) = >>=-eq-ok (check_counts ks t) _ h in
            let (_, p, last) =
              >>=-eq-ok (validate_each (validate_base64_key unicode_lower v) 0 ks) _ rest in
            let (low, high) = counts.0 c in (low, high, each.0 p, distinct.0 last),
        λ (low, high, good, d). rw (counts.1 (low, high)) (rw (each.1 good) (distinct.1 d)),
      )

  counts-ne-panic : (ks : List Bytes) (t : ℤ) → check_counts ks t ≢ panic
  unfolding check_counts
  counts-ne-panic ks t h = ground arith

  find_duplicate-ne-panic :
      (all : List Bytes) (i : ℕ) (seen : List (Bytes × ℕ)) (ks : List Bytes)
      → find_duplicate all i seen ks ≢ panic
  unfolding find_duplicate
  find_duplicate-ne-panic all i seen [] h = ground arith
  find_duplicate-ne-panic all i seen (k ∷ ks) h =
      ground (arith, find_duplicate-ne-panic all (i + 1) ((k, i) ∷ seen) ks)

  -- Whatever the keys and the threshold, the validator returns.
  pub validate_keys-ne-panic :
      (ks : List Bytes) (t : ℤ) → validate_keys unicode_lower v ks t ≢ panic
  unfolding validate_keys check_for_duplicates
  validate_keys-ne-panic ks t h = ground (
    arith,
    counts-ne-panic ks t,
    validate_each-ne-panic (validate_base64_key unicode_lower v)
        (validate_base64_key-ne-panic unicode_lower v) 0 ks,
    find_duplicate-ne-panic ks 0 [] ks,
  )

  -- If the counts are right, a refusal is either the first bad key or, all keys being good, a key
  -- that stands twice.
  pub validate_keys_error :
      (ks : List Bytes) (t : ℤ) (e : Err)
      → pos 1 ≤ℤ t
      → t ≤ℤ pos (length ks)
      → validate_keys unicode_lower v ks t ≡ err e
      → FirstBad (validate_base64_key unicode_lower v) 0 ks e
        ⊎ (All (λ k. validate_base64_key unicode_lower v k ≡ ok tt) ks × Twice ks e)
  unfolding validate_keys
  validate_keys_error ks t e low high h =
      go (validate_each (validate_base64_key unicode_lower v) 0 ks) refl
    where
      go :
          (o : Outcome Err (Unit {0}))
          → validate_each (validate_base64_key unicode_lower v) 0 ks ≡ o
          → FirstBad (validate_base64_key unicode_lower v) 0 ks e
            ⊎ (All (λ k. validate_base64_key unicode_lower v k ≡ ok tt) ks × Twice ks e)
      go (ok a) p = inr (
        (validate_each_iff (validate_base64_key unicode_lower v) 0 ks).0 p,
        check_for_duplicates_error ks e (ground (arith, (check_counts_iff ks t).1 (low, high))),
      )
      go (err c) p = inl (
          validate_each_error (validate_base64_key unicode_lower v) 0 ks e
            (ground (arith, (check_counts_iff ks t).1 (low, high))))
      go panic p = ground (arith, (check_counts_iff ks t).1 (low, high))
