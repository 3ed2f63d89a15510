-- ===== src/Text/Decoding.antt =====
-- How long a decoded text is.
use pywssocks.Base.{
  ◌<◌, ℕ, suc, ◌≤◌, ◌≡◌, refl, true, false, Option, none, some, [], ◌∷◌, arith, ltb, length, All,
  Bool-cases, inl, inr,
}
use pywssocks.Text.{
  Str, Bytes, IsAscii, Place, start, bad, inside, emit, decode_byte, decode_from, decode,
}

length-emit :
    (c : Option ℕ) (o : Option Str) (n : ℕ) (s : Str)
    → ((t : Str) → o ≡ some t → length t ≤ n)
    → emit c o ≡ some s
    → length s ≤ suc n
length-emit none o n s h e = omega (arith, h s e)
length-emit (some c) none n s h e = cc
length-emit (some c) (some t) n s h e = ground (arith, h t refl)

-- There are no more characters than bytes.
length-decode_from :
    (p : Place) (b : Bytes) (s : Str) → decode_from p b ≡ some s → length s ≤ length b
unfolding decode_from
length-decode_from start [] s h = ground arith
length-decode_from bad [] s h = cc
length-decode_from (inside n l v) [] s h = cc
length-decode_from start (x ∷ b) s h =
    let (p, c) = decode_byte start x in
    length-emit c (decode_from p b) (length b) s (length-decode_from p b) h
length-decode_from bad (x ∷ b) s h =
    let (p, c) = decode_byte bad x in
    length-emit c (decode_from p b) (length b) s (length-decode_from p b) h
length-decode_from (inside n l v) (x ∷ b) s h =
    let (p, c) = decode_byte (inside n l v) x in
    length-emit c (decode_from p b) (length b) s (length-decode_from p b) h

pub length-decode : (b : Bytes) (s : Str) → decode b ≡ some s → length s ≤ length b
unfolding decode
length-decode b s h = length-decode_from start b s h

lead_byte : (x : ℕ) → ltb x 0x80 ≡ false → (decode_byte start x).1 ≡ none
unfolding decode_byte
lead_byte x h = ground arith

ascii_byte : (x : ℕ) → ltb x 0x80 ≡ true → decode_byte start x ≡ (start, some x)
unfolding decode_byte
ascii_byte x h = rw h

emit-IsAscii :
    (x : ℕ) (o : Option Str) (n : ℕ) (s : Str)
    → x < 0x80
    → ((t : Str) → o ≡ some t → n ≤ length t → All IsAscii t)
    → emit (some x) o ≡ some s
    → suc n ≤ length s
    → All IsAscii s
emit-IsAscii x none n s hx h e k = cc
emit-IsAscii x (some t) n s hx h e k = ground (arith, h t refl)

-- A text with as many characters as bytes is ASCII.
decode_from-IsAscii :
    (b : Bytes) (s : Str) → decode_from start b ≡ some s → length b ≤ length s → All IsAscii s
unfolding decode_from
decode_from-IsAscii [] s h k = ground arith
decode_from-IsAscii (x ∷ b) s h k = elim (Bool-cases (ltb x 0x80)) [
  | inl low ↦
      emit-IsAscii x (decode_from start b) (length b) s (ground arith) (decode_from-IsAscii b)
        (rw (ascii_byte x low) at h) k
  | inr high ↦
      absurd
        (omega (arith, length-decode_from (decode_byte start x).0 b s (rw (lead_byte x high) at h)))
]

pub decode-IsAscii : (b : Bytes) (s : Str) → decode b ≡ some s → length b ≤ length s → All IsAscii s
unfolding decode
decode-IsAscii b s h k = decode_from-IsAscii b s h k
