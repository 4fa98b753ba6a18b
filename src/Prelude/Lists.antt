-- ===== src/Prelude/Lists.antt =====
-- Lists measured and indexed by native numbers, under the library's names.
use Prim.Native.Nat.{ℕ, zero, suc, ◌+◌, ◌≤◌, ◌<◌, min}
use mathlib.Core.Path.{◌≡◌, refl, ap}
use mathlib.Core.List.{List, [], ◌∷◌, ◌++◌}
use mathlib.Core.Option.{Option, none, some}
use native.Mathlib.Nat.{zero-add, suc-add}
use native.Mathlib.Omega.{arith}

module _ {ℓ} {A : Type ℓ} where
  abbrev pub length : List A → ℕ
  length [] = 0
  length (x ∷ xs) = suc (length xs)

  abbrev pub get_elem? : List A → ℕ → Option A
  get_elem? [] i = none
  get_elem? (x ∷ xs) zero = some x
  get_elem? (x ∷ xs) (suc i) = get_elem? xs i

  abbrev pub take : ℕ → List A → List A
  take zero xs = []
  take (suc n) [] = []
  take (suc n) (x ∷ xs) = x ∷ take n xs

  abbrev pub drop : ℕ → List A → List A
  drop zero xs = xs
  drop (suc n) [] = []
  drop (suc n) (x ∷ xs) = drop n xs

  pub length-append : (xs ys : List A) → length (xs ++ ys) ≡ length xs + length ys
  length-append [] ys = omega arith
  length-append (x ∷ xs) ys = omega (arith, length-append xs ys)

  pub length-take : (n : ℕ) (xs : List A) → length (take n xs) ≡ min n (length xs)
  length-take zero xs = omega arith
  length-take (suc n) [] = omega arith
  length-take (suc n) (x ∷ xs) = omega (arith, length-take n xs)

  -- A predicate that every element meets.
  abbrev pub All {κ} : (A → Type κ) → List A → Type κ
  All P [] = Unit
  All P (x ∷ xs) = P x × All P xs

  pub get_elem?-take_lt : (n j : ℕ) (xs : List A) → j < n → get_elem? (take n xs) j ≡ get_elem? xs j
  get_elem?-take_lt zero j xs h = elim h [ ]
  get_elem?-take_lt (suc n) j [] h = refl
  get_elem?-take_lt (suc n) zero (x ∷ xs) h = refl
  get_elem?-take_lt (suc n) (suc j) (x ∷ xs) h = get_elem?-take_lt n j xs (omega arith)

  pub get_elem?-take_ge : (n j : ℕ) (xs : List A) → n ≤ j → get_elem? (take n xs) j ≡ none
  get_elem?-take_ge zero j xs h = refl
  get_elem?-take_ge (suc n) j [] h = refl
  get_elem?-take_ge (suc n) zero (x ∷ xs) h = absurd (omega arith)
  get_elem?-take_ge (suc n) (suc j) (x ∷ xs) h = get_elem?-take_ge n j xs (omega arith)

  pub get_elem?-drop : (n j : ℕ) (xs : List A) → get_elem? (drop n xs) j ≡ get_elem? xs (n + j)
  get_elem?-drop zero j xs = rw (zero-add j)
  get_elem?-drop (suc n) j [] = refl
  get_elem?-drop (suc n) j (x ∷ xs) = rw (suc-add n j) (get_elem?-drop n j xs)

  pub get_elem?-beyond : (j : ℕ) (xs : List A) → length xs ≤ j → get_elem? xs j ≡ none
  get_elem?-beyond j [] h = refl
  get_elem?-beyond zero (x ∷ xs) h = absurd (omega arith)
  get_elem?-beyond (suc j) (x ∷ xs) h = get_elem?-beyond j xs (omega arith)

  -- Lists with the same elements at each index are equal.
  pub get_elem?_ext : (xs ys : List A) → ((j : ℕ) → get_elem? xs j ≡ get_elem? ys j) → xs ≡ ys
  get_elem?_ext [] [] h = refl
  get_elem?_ext [] (y ∷ ys) h = ground (arith, h 0)
  get_elem?_ext (x ∷ xs) [] h = ground (arith, h 0)
  get_elem?_ext (x ∷ xs) (y ∷ ys) h = cc (h 0, get_elem?_ext xs ys (λ j. h (suc j)))

  pub take-take : (n m : ℕ) (xs : List A) → n ≤ m → take n (take m xs) ≡ take n xs
  take-take zero m xs h = refl
  take-take (suc n) zero xs h = absurd (omega arith)
  take-take (suc n) (suc m) [] h = refl
  take-take (suc n) (suc m) (x ∷ xs) h = ap (◌∷◌ x) (take-take n m xs (omega arith))
