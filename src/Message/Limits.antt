-- ===== src/Message/Limits.antt =====
-- Messages that the format cannot carry, though `pack_message` accepts them.
use pywssocks.Base.{
  ℕ, suc, ◌+◌, ◌-◌, ◌≡◌, refl, false, inl, inr, Option, none, some, [], ◌∷◌, ◌++◌, arith, ltb,
  le→ltb, lt→ltb, length, length-append, All, ok, err, value_error, append-nil, take, nat_eq,
  Option-cases, Bool-cases, length-take_le, get_elem?,
}
use pywssocks.Text.{Str, Bytes, IsAscii, decode, encode}
use pywssocks.Text.Decoding.{decode-IsAscii}
use pywssocks.Message.Types.{AuthMessage, Message, Runtime, Uuid}
use pywssocks.Message.Pack.{
  bool_byte, truthy, pack_connect_response, pack_connector_response, pack_auth, pack_text,
  pack_byte, pack_body, pack_message,
}
use pywssocks.Message.Parse.{
  parse_auth, parse_connect_response, parse_connector_response, parse_payload, parse_message,
}
use pywssocks.Message.Canonical.{IsUuid}
use pywssocks.Message.Fields.{index_field}

-- A failed connect response without an error text is packed, and the bytes are refused.
pub connect_response_unreadable :
    (r : Runtime) (u : Uuid)
    → IsUuid u
    → let m = Message.connect_response (record { success = false; channel_id = u; error = none }) in
      (b : Bytes) × (pack_message r m ≡ ok b)
      × (parse_message r b ≡ err (value_error "Invalid connect response error length"))
unfolding pack_message pack_body pack_connect_response parse_message parse_payload
    parse_connect_response
connect_response_unreadable r u hu = (0x01 ∷ 0x05 ∷ 0 ∷ (u ++ []), refl, rw (append-nil u, hu))

-- A failed connector response whose error text is missing or empty is packed, and the bytes are
-- refused.
pub connector_response_unreadable :
    (r : Runtime) (u : Uuid) (error token : Option Str)
    → IsUuid u
    → truthy error ≡ false
    → let m =
        Message.connector_response
          (record { success = false; channel_id = u; error = error; connector_token = token }) in
      (b : Bytes) × (pack_message r m ≡ ok b)
      × (parse_message r b ≡ err (value_error "Invalid connector response error length"))
unfolding pack_message pack_body pack_connector_response parse_message parse_payload
    parse_connector_response
connector_response_unreadable r u error token hu h =
    let n = length-append u (0 ∷ []) in
    (
      0x01 ∷ 0x08 ∷ (u ++ (0 ∷ [])),
      rw h,
      rw (
        le→ltb (suc (suc (length (u ++ (0 ∷ []))))) 2 (omega arith),
        le→ltb (length (u ++ (0 ∷ []))) 17 (omega (arith, n)),
        lt→ltb (length (u ++ (0 ∷ []))) 18 (omega (arith, n)),
        index_field u 0 [] 16 (omega arith),
      ),
    )

abbrev auth_bytes : AuthMessage → Bytes → Bytes
auth_bytes m e = length m.token ∷ (e ++ (bool_byte m.reverse ∷ m.instance_id))

-- What a packed auth message holds.
pack_auth_bytes :
    (r : Runtime) (m : AuthMessage) (b : Bytes)
    → pack_message r (Message.auth m) ≡ ok b
    → (e : Bytes) × (b ≡ 0x01 ∷ 0x01 ∷ auth_bytes m e)
unfolding pack_message pack_body pack_auth pack_text pack_byte
pack_auth_bytes r m b h = elim (Bool-cases (ltb (length m.token) 256)) [
  | inl short ↦ elim (Option-cases (encode m.token)) [
    | inl no_encoding ↦ cc (rw (short, no_encoding) at h)
    | inr (e, found) ↦ (e, cc (rw (short, found) at h))
  ]
  | inr long ↦ cc (rw long at h)
]

-- What `parse_auth` makes of the token.
parse_auth_token :
    (n : ℕ) (rest : Bytes) (m : AuthMessage)
    → parse_auth (n ∷ rest) ≡ ok (Message.auth m)
    → decode (take (1 + n - 1) rest) ≡ some m.token
unfolding parse_auth
parse_auth_token n rest m h = elim (Bool-cases (ltb (suc (length rest)) (1 + n + 1 + 16))) [
  | inl short ↦ cc (rw (le→ltb (suc (length rest)) 1 (omega arith), short) at h)
  | inr fits ↦ elim (Option-cases (decode (take (1 + n - 1) rest))) [
    | inl no_text ↦ cc (rw (le→ltb (suc (length rest)) 1 (omega arith), fits, no_text) at h)
    | inr (s, text) ↦ elim (Option-cases (get_elem? (n ∷ rest) (1 + n))) [
      | inl no_flag ↦ cc (rw (le→ltb (suc (length rest)) 1 (omega arith), fits, text, no_flag) at h)
      | inr (flag, found) ↦
          ground
            (arith, text, rw (le→ltb (suc (length rest)) 1 (omega arith), fits, text, found) at h)
    ]
  ]
]

-- If an auth message is read back as it was, its token is ASCII: of any other token, `pack_message`
-- writes the number of characters where the reader takes a number of bytes.
pub pack-IsAscii :
    (r : Runtime) (m : AuthMessage) (b : Bytes)
    → pack_message r (Message.auth m) ≡ ok b
    → parse_message r b ≡ ok (Message.auth m)
    → All IsAscii m.token
unfolding parse_message parse_payload
pack-IsAscii r m b packed parsed =
    let (e, same) = pack_auth_bytes r m b packed in
    let rest = e ++ (bool_byte m.reverse ∷ m.instance_id) in
    let n = length m.token in
    decode-IsAscii (take (1 + n - 1) rest) m.token
      (parse_auth_token n rest m
        (rw (le→ltb (suc (suc (suc (length rest)))) 2 (omega arith)) at (rw same at parsed)))
      (omega (arith, length-take_le (1 + n - 1) rest))
