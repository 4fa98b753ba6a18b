-- ===== src/GoLib/Base64/Size.antt =====
-- The size of what the base64 decoder returns.
use vault_autounseal_operato.Prelude.{
  ℕ, ◌+◌, ◌*◌, ◌≤◌, ◌≡◌, refl, ◌++◌, Bool, true, false, if◌then◌else◌, ◌==◌, Option, none, some, [],
  ◌∷◌, length, length-append, arith,
}
use vault_autounseal_operato.GoLib.Strings.{Bytes}
use vault_autounseal_operato.GoLib.Base64.{
  Decoded, decoded, corrupt, Mode, q0, q1, q2, q3, half_padded, padded, Move, emit, reject, next,
  sextet, is_newline, on_sextet, on_pad, on_other, prepend, finish, decode_from, decode_string,
}

-- Four times the bytes that the mode still owes is at most this, and three for each byte to come.
credit : Mode → ℕ
credit q0 = 0
credit (q1 a) = 3
credit (q2 a b) = 6
credit (q3 a b c) = 9
credit (half_padded bs) = 4 * length bs
credit padded = 0

abbrev Pays : ℕ → Move → Type 0
Pays c (emit bs m) = 4 * length bs + credit m ≤ c + 3
Pays c (reject i) = Unit

sextet-Pays : (i v : ℕ) (m : Mode) → Pays (credit m) (on_sextet i v m)
unfolding on_sextet credit
sextet-Pays i v q0 = omega arith
sextet-Pays i v (q1 a) = omega arith
sextet-Pays i v (q2 a b) = omega arith
sextet-Pays i v (q3 a b c) = omega arith
sextet-Pays i v (half_padded bs) = tt
sextet-Pays i v padded = tt

pad-Pays : (i : ℕ) (m : Mode) → Pays (credit m) (on_pad i m)
unfolding on_pad credit
pad-Pays i q0 = tt
pad-Pays i (q1 a) = tt
pad-Pays i (q2 a b) = omega arith
pad-Pays i (q3 a b c) = omega arith
pad-Pays i (half_padded bs) = omega arith
pad-Pays i padded = tt

other-Pays : (i : ℕ) (m : Mode) → Pays (credit m) (on_other i m)
unfolding on_other
other-Pays i q0 = tt
other-Pays i (q1 a) = tt
other-Pays i (q2 a b) = tt
other-Pays i (q3 a b c) = tt
other-Pays i (half_padded bs) = tt
other-Pays i padded = tt

branch-Pays :
    (i : ℕ) (m : Mode) (newline pad : Bool) (v : Option ℕ)
    → Pays (credit m) (
        if newline
        then emit [] m
        else if pad
        then on_pad i m
        else elim v [ none ↦ on_other i m | some a ↦ on_sextet i a m ])
branch-Pays i m true pad v = omega arith
branch-Pays i m false true v = pad-Pays i m
branch-Pays i m false false none = other-Pays i m
branch-Pays i m false false (some a) = sextet-Pays i a m

next-Pays : (i c : ℕ) (m : Mode) → Pays (credit m) (next i c m)
unfolding next
next-Pays i c m = branch-Pays i m (is_newline c) (c == 61) (sextet c)

prepend-decoded :
    (out : Bytes) (d : Decoded) (bs : Bytes)
    → prepend out d ≡ decoded bs
    → (cs : Bytes) × (d ≡ decoded cs) × (bs ≡ out ++ cs)
prepend-decoded out (decoded cs) bs h = (cs, refl, ground arith)
prepend-decoded out (corrupt i) bs h = ground arith

finish-empty : (n : ℕ) (m : Mode) (bs : Bytes) → finish n m ≡ decoded bs → bs ≡ []
unfolding finish
finish-empty n q0 bs h = ground arith
finish-empty n (q1 a) bs h = ground arith
finish-empty n (q2 a b) bs h = ground arith
finish-empty n (q3 a b c) bs h = ground arith
finish-empty n (half_padded cs) bs h = ground arith
finish-empty n padded bs h = ground arith

decode_from-pays :
    (i : ℕ) (m : Mode) (s bs : Bytes)
    → decode_from i m s ≡ decoded bs
    → 4 * length bs ≤ credit m + 3 * length s
unfolding decode_from
decode_from-pays i m [] bs h = rw (finish-empty i m bs h) (omega arith)
decode_from-pays i m (c ∷ s) bs h =
    go (next i c m) (next-Pays i c m) (λ m' cs. decode_from-pays (i + 1) m' s cs) h
  where
    go :
        (o : Move)
        → Pays (credit m) o
        → ((m' : Mode) (cs : Bytes)
            → decode_from (i + 1) m' s ≡ decoded cs
            → 4 * length cs ≤ credit m' + 3 * length s)
        → (elim o [ emit out m' ↦ prepend out (decode_from (i + 1) m' s) | reject k ↦ corrupt k ])
          ≡ decoded bs
        → 4 * length bs ≤ credit m + 3 * length (c ∷ s)
    go (emit out m') pays ih e =
        let (cs, d, same) = prepend-decoded out (decode_from (i + 1) m' s) bs e in
        rw same (omega (arith, ih m' cs d, length-append out cs))
    go (reject k) pays ih e = ground arith

-- Three bytes at most come from four characters.
pub length-decode_string :
    (s bs : Bytes) → decode_string s ≡ decoded bs → 4 * length bs ≤ 3 * length s
unfolding decode_string credit
length-decode_string s bs h = omega (arith, decode_from-pays 0 q0 s bs h)
