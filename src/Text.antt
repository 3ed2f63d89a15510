-- ===== src/Text.antt =====
-- Python's `str` and `bytes` as the code uses them: a text is its code points, `encode` and
-- `decode` are strict UTF-8.
pub mod Decoding
use pywssocks.Base.{
  ℕ, zero, suc, ◌+◌, ◌-◌, ◌*◌, ◌/◌, ◌%◌, ◌≤◌, ◌<◌, ◌≡◌, refl, ◌⊎◌, Bool, ◌&&◌, not, Option, none,
  some, List, [], ◌∷◌, ◌++◌, ltb, leb, if◌then◌else◌, String,
}
use Prim.Native.Char.{code}

abbrev pub Bytes : Type 0
Bytes = List ℕ

abbrev pub Str : Type 0
Str = List ℕ

abbrev pub IsByte : ℕ → Type 0
IsByte b = b < 256

-- The code points of a text literal.
abbrev pub codes : String → Str
codes String.[] = []
codes (String.◌∷◌ c s) = code c ∷ codes s

abbrev pub is_surrogate : ℕ → Bool
is_surrogate c = leb 0xd800 c && ltb c 0xe000

-- The UTF-8 bytes of one code point; a surrogate has none.
pub encode_char : ℕ → Option Bytes
encode_char c =
    if ltb c 0x80
    then some (c ∷ [])
    else if ltb c 0x800
    then some ((0xc0 + c / 64) ∷ (0x80 + c % 64) ∷ [])
    else if is_surrogate c
    then none
    else if ltb c 0x10000
    then some ((0xe0 + c / 4096) ∷ (0x80 + c / 64 % 64) ∷ (0x80 + c % 64) ∷ [])
    else if ltb c 0x110000
    then some
        ((0xf0 + c / 262144) ∷ (0x80 + c / 4096 % 64) ∷ (0x80 + c / 64 % 64) ∷ (0x80 + c % 64) ∷ [])
    else none

abbrev pub joined : Option Bytes → Option Bytes → Option Bytes
joined (some a) (some b) = some (a ++ b)
joined none _ = none
joined (some _) none = none

-- `s.encode()`; `none` is a UnicodeEncodeError.
unfoldable pub encode : Str → Option Bytes
unfolding encode_char
encode [] = some []
encode (c ∷ s) = joined (encode_char c) (encode s)

-- Where the decoder stands: between characters; inside one, with the continuation bytes still to
-- come, the least value that may have this many bytes, and the value so far; or after an error.
pub data Place : Type 0 where
  start bad : Place
  inside : ℕ → ℕ → ℕ → Place

abbrev pub finish : ℕ → ℕ → Place × Option ℕ
finish least v =
    if leb least v && not (is_surrogate v) && ltb v 0x110000 then (start, some v) else (bad, none)

decode_byte : Place → ℕ → Place × Option ℕ
decode_byte bad b = (bad, none)
decode_byte start b =
    if ltb b 0x80
    then (start, some b)
    else if leb 0xc0 b && ltb b 0xe0
    then (inside 0 0x80 (b - 0xc0), none)
    else if leb 0xe0 b && ltb b 0xf0
    then (inside 1 0x800 (b - 0xe0), none)
    else if leb 0xf0 b && ltb b 0xf8
    then (inside 2 0x10000 (b - 0xf0), none)
    else (bad, none)
decode_byte (inside zero least v) b =
    if leb 0x80 b && ltb b 0xc0 then finish least (v * 64 + (b - 0x80)) else (bad, none)
decode_byte (inside (suc n) least v) b =
    if leb 0x80 b && ltb b 0xc0 then (inside n least (v * 64 + (b - 0x80)), none) else (bad, none)

abbrev pub emit : Option ℕ → Option Str → Option Str
emit none r = r
emit (some c) none = none
emit (some c) (some s) = some (c ∷ s)

decode_from : Place → Bytes → Option Str
unfolding decode_byte
decode_from start [] = some []
decode_from bad [] = none
decode_from (inside _ _ _) [] = none
decode_from p (b ∷ bs) = let (p', c) = decode_byte p b in emit c (decode_from p' bs)

-- `b.decode()`; `none` is a UnicodeDecodeError.
unfoldable pub decode : Bytes → Option Str
unfolding decode_from
decode = decode_from start

-- Every code point has an encoding.
abbrev pub IsScalar : ℕ → Type 0
IsScalar c = (c < 0xd800) ⊎ ((0xe000 ≤ c) × (c < 0x110000))

abbrev pub IsAscii : ℕ → Type 0
IsAscii c = c < 0x80

decode_sample :
    decode (0x68 ∷ 0xc3 ∷ 0xa9 ∷ 0xf0 ∷ 0x9f ∷ 0x98 ∷ 0x80 ∷ []) ≡ some (0x68 ∷ 0xe9 ∷ 0x1f600 ∷ [])
unfolding decode
decode_sample = refl
