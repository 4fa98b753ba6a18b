-- ===== src/GoLib/Base64.antt =====
-- base64.StdEncoding.DecodeString: padded, not strict, line breaks skipped. The decoder is a
-- machine over the bytes; an error carries the offset that CorruptInputError reports.
pub mod Size
use vault_autounseal_operato.Prelude.{
  ℕ, ◌+◌, ◌-◌, ◌*◌, ◌/◌, ◌%◌, Bool, ◌&&◌, ◌||◌, Option, none, some, [], ◌∷◌, ◌++◌, leb, ◌==◌,
  if◌then◌else◌,
}
use vault_autounseal_operato.GoLib.Strings.{Bytes}

pub data Decoded : Type 0 where
  decoded : Bytes → Decoded
  corrupt : ℕ → Decoded

-- The value of a byte in the standard alphabet.
unfoldable pub sextet : ℕ → Option ℕ
sextet c =
    if leb b'A' c && leb c b'Z'
    then some (c - 65)
    else if leb b'a' c && leb c b'z'
    then some (c - 71)
    else if leb b'0' c && leb c b'9'
    then some (c + 4)
    else if c == 43
    then some 62
    else if c == 47
    then some 63
    else none

unfoldable pub is_newline : ℕ → Bool
is_newline c = c == 10 || c == 13

-- The sextets read of the current quantum; after the first `=` of two; after the padding.
pub data Mode : Type 0 where
  q0 : Mode
  q1 : ℕ → Mode
  q2 : ℕ → ℕ → Mode
  q3 : ℕ → ℕ → ℕ → Mode
  half_padded : Bytes → Mode
  padded : Mode

pub data Move : Type 0 where
  emit : Bytes → Mode → Move
  reject : ℕ → Move

abbrev pub byte0 : ℕ → ℕ → ℕ
byte0 a b = a * 4 + b / 16

abbrev pub byte1 : ℕ → ℕ → ℕ
byte1 b c = b % 16 * 16 + c / 4

abbrev pub byte2 : ℕ → ℕ → ℕ
byte2 c d = c % 4 * 64 + d

-- `i` is the offset of the byte.
unfoldable pub on_sextet : ℕ → ℕ → Mode → Move
on_sextet i v q0 = emit [] (q1 v)
on_sextet i v (q1 a) = emit [] (q2 a v)
on_sextet i v (q2 a b) = emit [] (q3 a b v)
on_sextet i v (q3 a b c) = emit (byte0 a b ∷ byte1 b c ∷ byte2 c v ∷ []) q0
on_sextet i v (half_padded bs) = reject (i - 1)
on_sextet i v padded = reject i

unfoldable pub on_pad : ℕ → Mode → Move
on_pad i q0 = reject i
on_pad i (q1 a) = reject i
on_pad i (q2 a b) = emit [] (half_padded (byte0 a b ∷ []))
on_pad i (q3 a b c) = emit (byte0 a b ∷ byte1 b c ∷ []) padded
on_pad i (half_padded bs) = emit bs padded
on_pad i padded = reject i

-- Any other byte.
unfoldable pub on_other : ℕ → Mode → Move
on_other i (half_padded bs) = reject (i - 1)
on_other i q0 = reject i
on_other i (q1 a) = reject i
on_other i (q2 a b) = reject i
on_other i (q3 a b c) = reject i
on_other i padded = reject i

unfoldable pub next : ℕ → ℕ → Mode → Move
unfolding sextet is_newline on_sextet on_pad on_other
next i c m =
    if is_newline c
    then emit [] m
    else if c == 61
    then on_pad i m
    else elim (sextet c) [ none ↦ on_other i m | some v ↦ on_sextet i v m ]

-- The end of the input, at offset `n`.
unfoldable pub finish : ℕ → Mode → Decoded
finish n q0 = decoded []
finish n (q1 a) = corrupt (n - 1)
finish n (q2 a b) = corrupt (n - 2)
finish n (q3 a b c) = corrupt (n - 3)
finish n (half_padded bs) = corrupt n
finish n padded = decoded []

abbrev pub prepend : Bytes → Decoded → Decoded
prepend bs (decoded cs) = decoded (bs ++ cs)
prepend bs (corrupt i) = corrupt i

unfoldable pub decode_from : ℕ → Mode → Bytes → Decoded
decode_from i m [] = finish i m
decode_from i m (c ∷ s) = elim (next i c m) [
  | emit bs m' ↦ prepend bs (decode_from (i + 1) m' s)
  | reject k ↦ corrupt k
]

unfoldable pub decode_string : Bytes → Decoded
unfolding decode_from next finish
decode_string s = decode_from 0 q0 s
