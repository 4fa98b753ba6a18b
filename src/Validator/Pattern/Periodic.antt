-- ===== src/Validator/Pattern/Periodic.antt =====
-- hasRepeatingPattern of pkg/vault/validator.go against the definition of a period.
use native.Mathlib.Nat.{div-add-mod, div-add-mod', mod-lt}
use vault_autounseal_operato.Prelude.{
  ℕ, zero, suc, ◌+◌, ◌-◌, ◌*◌, ◌/◌, ◌%◌, ◌≤◌, ◌<◌, ◌≡◌, refl, sym, ◌∙◌, ap, ◌↔◌, inl, inr, true,
  length, take, drop, get_elem?, arith, leb, ltb, leb→le, ltb→lt, get_elem?-take_lt,
  get_elem?-take_ge, get_elem?-drop, get_elem?-beyond, get_elem?_ext, Bool-cases,
}
use vault_autounseal_operato.GoLib.Strings.{Bytes, bytes_eq}
use vault_autounseal_operato.GoLib.Strings.Laws.{bytes_eq_iff}
use vault_autounseal_operato.Validator.Pattern.{blocks_repeat, rest_repeats, has_repeating_pattern}

-- Each byte equals the one `p` places before it.
abbrev pub Periodic : ℕ → Bytes → Type 0
Periodic p bs = (j : ℕ) → j + p < length bs → get_elem? bs (j + p) ≡ get_elem? bs j

-- The bytes from `i` on, up to the end, equal those from the start.
abbrev Aligned : ℕ → Bytes → Type 0
Aligned i bs = (r : ℕ) → i + r < length bs → get_elem? bs (i + r) ≡ get_elem? bs r

block_eq :
    (p i r : ℕ) (bs : Bytes)
    → bytes_eq (take p bs) (take p (drop i bs)) ≡ true
    → r < p
    → get_elem? bs (i + r) ≡ get_elem? bs r
block_eq p i r bs h lt =
    sym (get_elem?-drop i r bs)
    ∙ sym (get_elem?-take_lt p r (drop i bs) lt)
    ∙ ap (λ xs. get_elem? xs r) (sym ((bytes_eq_iff _ _).0 h))
    ∙ get_elem?-take_lt p r bs lt

-- One round of the loop.
blocks_repeat_step :
    (fuel : ℕ) (bs : Bytes) (p last i : ℕ)
    → i ≤ last
    → blocks_repeat (suc fuel) bs p last i ≡ true
    → (bytes_eq (take p bs) (take p (drop i bs)) ≡ true)
      × (blocks_repeat fuel bs p last (i + p) ≡ true)
unfolding blocks_repeat
blocks_repeat_step fuel bs p last i le h = ground arith

blocks_repeat_sound :
    (fuel : ℕ) (bs : Bytes) (p last i k r : ℕ)
    → blocks_repeat fuel bs p last i ≡ true
    → last + p ≡ length bs
    → length bs ≤ i + fuel
    → r < p
    → i + k * p + p ≤ length bs
    → get_elem? bs (i + k * p + r) ≡ get_elem? bs r
blocks_repeat_sound zero bs p last i k r h e enough lt inside = absurd (omega arith)
blocks_repeat_sound (suc fuel) bs p last i zero r h e enough lt inside =
    let same : i + 0 * p + r ≡ i + r = omega arith in
    rw same (block_eq p i r bs (blocks_repeat_step fuel bs p last i (omega arith) h).0 lt)
blocks_repeat_sound (suc fuel) bs p last i (suc k) r h e enough lt inside =
    let same : i + suc k * p + r ≡ i + p + k * p + r = omega arith in
    rw same (
      blocks_repeat_sound fuel bs p last (i + p) k r
        (blocks_repeat_step fuel bs p last i (omega arith) h).1 e (omega arith) lt (omega arith))

rest_repeats_sound :
    (bs : Bytes) (p r : ℕ)
    → rest_repeats bs p ≡ true
    → length bs % p ≤ length bs
    → r < length bs % p
    → get_elem? bs (length bs - length bs % p + r) ≡ get_elem? bs r
unfolding rest_repeats
rest_repeats_sound bs p r h le lt =
    let same : bytes_eq (take (length bs % p) bs) (drop (length bs - length bs % p) bs) ≡ true =
      ground arith in
    sym (get_elem?-drop (length bs - length bs % p) r bs)
    ∙ ap (λ xs. get_elem? xs r) (sym ((bytes_eq_iff _ _).0 same))
    ∙ get_elem?-take_lt (length bs % p) r bs lt

-- What the two loops have checked: every byte equals the one at its place in the first block.
Checked : ℕ → Bytes → Type 0
Checked p bs = (k r : ℕ) → r < p → k * p + r < length bs → get_elem? bs (k * p + r) ≡ get_elem? bs r

Checked-Periodic : (p : ℕ) (bs : Bytes) → 0 < p → Checked p bs → Periodic p bs
unfolding Checked
Checked-Periodic p bs h c j lt =
    let low : j % p < p = mod-lt j h in
    let split : p * (j / p) + j % p ≡ j = div-add-mod j p in
    let here : j / p * p + j % p ≡ j = omega arith in
    let there : suc (j / p) * p + j % p ≡ j + p = omega arith in
    rw there at (c (suc (j / p)) (j % p) low (omega arith))
    ∙ sym (rw here at (c (j / p) (j % p) low (omega arith)))

-- A place past the last whole block lies in the rest.
in_rest : (n p k r : ℕ) → r < p → k * p + r < n → n < k * p + p → (n % p + k * p ≡ n) × (r < n % p)
in_rest n p k r lt inside past = let rem : n % p ≡ n - k * p = grind arith in omega arith

loops-Checked :
    (bs : Bytes) (p : ℕ)
    → p * 2 ≤ length bs
    → blocks_repeat (length bs) bs p (length bs - p) p ≡ true
    → rest_repeats bs p ≡ true
    → Checked p bs
unfolding Checked
loops-Checked bs p fits b t zero r lt inside = ap (get_elem? bs) (omega arith)
loops-Checked bs p fits b t (suc k) r lt inside =
    elim (Bool-cases (leb (suc k * p + p) (length bs))) [
      | inl whole ↦
          let same : suc k * p + r ≡ p + k * p + r = omega arith in
          rw same (
            blocks_repeat_sound (length bs) bs p (length bs - p) p k r b (omega arith) (omega arith)
              lt (omega (arith, leb→le _ _ whole)))
      | inr past ↦
          let (place, low) = in_rest (length bs) p (suc k) r lt inside (ground arith) in
          let same : suc k * p + r ≡ length bs - length bs % p + r = omega arith in
          rw same (rest_repeats_sound bs p r t (omega arith) low)
    ]

block-ext :
    (p i : ℕ) (bs : Bytes) → i + p ≤ length bs → Aligned i bs → take p bs ≡ take p (drop i bs)
block-ext p i bs fits aligned = get_elem?_ext _ _ λ j. elim (Bool-cases (ltb j p)) [
  | inl lt ↦
      get_elem?-take_lt p j bs (ltb→lt _ _ lt)
      ∙ sym (aligned j (omega (arith, ltb→lt _ _ lt)))
      ∙ sym (get_elem?-drop i j bs)
      ∙ sym (get_elem?-take_lt p j (drop i bs) (ltb→lt _ _ lt))
  | inr ge ↦
      get_elem?-take_ge p j bs (ground arith)
      ∙ sym (get_elem?-take_ge p j (drop i bs) (ground arith))
]

Aligned-add : (p i : ℕ) (bs : Bytes) → Periodic p bs → Aligned i bs → Aligned (i + p) bs
Aligned-add p i bs per aligned r lt =
    let same : i + p + r ≡ i + r + p = omega arith in
    rw same (per (i + r) (omega arith)) ∙ aligned r (omega arith)

Aligned-mul : (p k : ℕ) (bs : Bytes) → Periodic p bs → Aligned (k * p) bs
Aligned-mul p zero bs per = λ r lt. ap (get_elem? bs) (omega arith)
Aligned-mul p (suc k) bs per =
    let same : suc k * p ≡ k * p + p = omega arith in
    rw same (Aligned-add p (k * p) bs per (Aligned-mul p k bs per))

blocks_repeat_complete :
    (fuel : ℕ) (bs : Bytes) (p last i : ℕ)
    → last + p ≡ length bs
    → Periodic p bs
    → Aligned i bs
    → blocks_repeat fuel bs p last i ≡ true
unfolding blocks_repeat
blocks_repeat_complete zero bs p last i e per aligned = refl
blocks_repeat_complete (suc fuel) bs p last i e per aligned = elim (Bool-cases (leb i last)) [
  | inl le ↦ rw le (
      rw ((bytes_eq_iff _ _).1 (block-ext p i bs (omega (arith, leb→le _ _ le)) aligned))
        (blocks_repeat_complete fuel bs p last (i + p) e per (Aligned-add p i bs per aligned)))
  | inr gt ↦ rw gt refl
]

rest-ext :
    (bs : Bytes) (p : ℕ)
    → Periodic p bs
    → take (length bs % p) bs ≡ drop (length bs - length bs % p) bs
rest-ext bs p per =
    let whole : length bs / p * p + length bs % p ≡ length bs = div-add-mod' (length bs) p in
    let start : length bs - length bs % p ≡ length bs / p * p = omega arith in
    rw start (
      get_elem?_ext _ _ λ j. elim (Bool-cases (ltb j (length bs % p))) [
        | inl lt ↦
            get_elem?-take_lt _ j bs (ltb→lt _ _ lt)
            ∙ sym (Aligned-mul p (length bs / p) bs per j (omega (arith, ltb→lt _ _ lt)))
            ∙ sym (get_elem?-drop _ j bs)
        | inr ge ↦
            let past : length bs % p ≤ j = ground arith in
            get_elem?-take_ge _ j bs past
            ∙ sym (get_elem?-drop (length bs / p * p) j bs ∙ get_elem?-beyond _ bs (omega arith))
      ])

rest_repeats_complete : (bs : Bytes) (p : ℕ) → Periodic p bs → rest_repeats bs p ≡ true
unfolding rest_repeats
rest_repeats_complete bs p per = ground (arith, (bytes_eq_iff _ _).1 (rest-ext bs p per))

pattern_sound :
    (bs : Bytes) (p : ℕ)
    → has_repeating_pattern bs p ≡ true
    → (p * 2 ≤ length bs)
      × (blocks_repeat (length bs) bs p (length bs - p) p ≡ true)
      × (rest_repeats bs p ≡ true)
unfolding has_repeating_pattern
pattern_sound bs p h = ground arith

-- For a positive length the two loops find a repeating pattern exactly when the bytes hold the
-- pattern at least twice and are periodic with that period, to the last byte.
pub has_repeating_pattern_iff :
    (bs : Bytes) (p : ℕ)
    → 0 < p
    → (has_repeating_pattern bs p ≡ true) ↔ ((p * 2 ≤ length bs) × Periodic p bs)
unfolding has_repeating_pattern
has_repeating_pattern_iff bs p positive = (
  λ h.
      let (fits, b, t) = pattern_sound bs p h in
      (fits, Checked-Periodic p bs positive (loops-Checked bs p fits b t)),
  λ h.
      let one : 1 * p ≡ p = omega arith in
      ground (
        arith,
        h,
        blocks_repeat_complete (length bs) bs p (length bs - p) p (omega arith) h.1
            (rw one at (Aligned-mul p 1 bs h.1)),
        rest_repeats_complete bs p h.1,
      ),
)
