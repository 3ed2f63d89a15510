-- ===== src/Message/Fields.antt =====
-- Reading back one field of a packed message: texts, numbers and slices at known places.
use pywssocks.Base.{
  ℕ, ◌+◌, ◌-◌, ◌/◌, ◌%◌, ◌<◌, ◌≡◌, refl, ap, Bool, true, false, some, [], ◌∷◌, ◌++◌, arith, lt→ltb,
  All, length, drop-append, take-append, take-all, get_elem?-append, Result, ok, String, le→ltb,
  length-append, nat_eq,
}
use pywssocks.Text.{Str, Bytes, IsAscii, encode, decode}
use pywssocks.Message.Canonical.{IsText}
use pywssocks.Message.Types.{Message}
use pywssocks.Message.Pack.{pack_byte, pack_u16, pack_u32, pack_text, bool_byte}
use pywssocks.Message.Parse.{parse_text, index, slice, decoded, bool_of, unpack_u16, unpack_u32}

-- `parse` reads `m` from what stands behind the type `c`.
abbrev pub ReadsBack : Result Bytes → ℕ → (Bytes → Result Message) → Message → Type 0
ReadsBack packed c parse m = (b : Bytes) × (packed ≡ ok (c ∷ b)) × (parse b ≡ ok m)

pub encode_ascii : (s : Str) → All IsAscii s → encode s ≡ some s
unfolding encode
encode_ascii [] h = refl
encode_ascii (c ∷ s) h = ground (arith, encode_ascii s h.1)

pub decode_ascii : (s : Str) → All IsAscii s → decode s ≡ some s
unfolding decode
decode_ascii [] h = refl
decode_ascii (c ∷ s) h = ground (arith, decode_ascii s h.1)

pub pack_text-IsText : (s : Str) → IsText s → pack_text s ≡ ok (length s ∷ s)
unfolding pack_text pack_byte
pack_text-IsText s h = rw (lt→ltb _ _ h.fits, encode_ascii s h.ascii)

pub decoded-ascii : (s : Str) → All IsAscii s → decoded s ≡ ok s
decoded-ascii s h = rw (decode_ascii s h)

pub decoded-IsText : (s : Str) → IsText s → decoded s ≡ ok s
decoded-IsText s h = rw (decode_ascii s h.ascii)

pub bool_of-bool_byte : (b : Bool) → bool_of (bool_byte b) ≡ b
bool_of-bool_byte true = refl
bool_of-bool_byte false = refl

-- A slice that begins behind `pre` and takes `f`.
pub slice_field :
    (pre f post : Bytes) (i j : ℕ)
    → i ≡ length pre
    → j ≡ i + length f
    → slice (pre ++ (f ++ post)) i j ≡ f
slice_field pre f post i j hi hj =
    rw (drop-append i 0 pre (f ++ post) (omega arith)) (take-append (j - i) f post (omega arith))

pub slice_last :
    (pre f : Bytes) (i j : ℕ) → i ≡ length pre → j ≡ i + length f → slice (pre ++ f) i j ≡ f
slice_last pre f i j hi hj =
    rw (drop-append i 0 pre f (omega arith)) (take-all (j - i) f (omega arith))

pub index_field :
    (pre : Bytes) (b : ℕ) (post : Bytes) (i : ℕ)
    → i ≡ length pre
    → index (pre ++ (b ∷ post)) i ≡ ok b
index_field pre b post i hi = rw (get_elem?-append i 0 pre (b ∷ post) (omega arith))

-- A text at the end of a message, behind its length byte.
pub parse_text_last :
    (pre : Bytes) (s : Str) (at : ℕ) (message : String)
    → IsText s
    → at ≡ length pre
    → parse_text (pre ++ (length s ∷ s)) at message ≡ ok s
unfolding parse_text
parse_text_last pre s at message h e = rw (
  index_field pre (length s) s at e,
  le→ltb (length (pre ++ (length s ∷ s))) (at + 1 + length s)
      (omega (arith, length-append pre (length s ∷ s))),
  drop-append (at + 1) 1 pre (length s ∷ s) (omega arith),
  take-all (at + 1 + length s - (at + 1)) s (omega arith),
  decoded-IsText s h,
)

pub pack_u16_lem : (n : ℕ) → n < 65536 → pack_u16 n ≡ ok ((n / 256) ∷ (n % 256) ∷ [])
unfolding pack_u16
pack_u16_lem n h = rw (lt→ltb n 65536 h)

pub unpack_u16_lem : (n : ℕ) → unpack_u16 ((n / 256) ∷ (n % 256) ∷ []) ≡ ok n
unfolding unpack_u16
unpack_u16_lem n = ap ok (omega arith)

abbrev pub size_bytes : ℕ → Bytes
size_bytes n = (n / 16777216) ∷ (n / 65536 % 256) ∷ (n / 256 % 256) ∷ (n % 256) ∷ []

pub pack_u32_lem : (n : ℕ) → n < 4294967296 → pack_u32 n ≡ ok (size_bytes n)
unfolding pack_u32
pack_u32_lem n h = rw (lt→ltb n 4294967296 h)

pub unpack_u32_lem : (n : ℕ) → unpack_u32 (size_bytes n) ≡ ok n
unfolding unpack_u32
unpack_u32_lem n = ap ok (omega arith)
