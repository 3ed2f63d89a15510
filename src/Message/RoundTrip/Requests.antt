-- ===== src/Message/RoundTrip/Requests.antt =====
-- Reading back the requests: auth, connect and connector.
use pywssocks.Base.{
  take-all, sym, ℕ, suc, ◌+◌, ◌-◌, ◌/◌, ◌%◌, ◌<◌, ◌≡◌, ◌⊎◌, inl, inr, refl, ap, ◌∙◌, Bool, true,
  false, Option, none, some, [], ◌∷◌, ◌++◌, arith, le→ltb, length, length-append, ok, drop-append,
  take-append, list_eq, nat_eq, ◌==◌, Bool-cases,
}
use pywssocks.Text.{Str, Bytes}
use pywssocks.Message.Types.{
  tcp, udp, AuthMessage, ConnectMessage, ConnectorMessage, Message, Uuid, add_operation,
  remove_operation,
}
use pywssocks.Message.Pack.{
  pack_auth, pack_connect, pack_connector, pack_target, bool_byte, protocol_to_bytes,
  operation_to_bytes,
}
use pywssocks.Message.Parse.{
  parse_auth, parse_connect, parse_connector, parse_target, bytes_to_protocol, bytes_to_operation,
}
use pywssocks.Message.Canonical.{IsText, IsUuid, IsTarget, canonical, known_protocol}
use pywssocks.Message.Fields.{
  ReadsBack, pack_text-IsText, decoded-IsText, bool_of-bool_byte, slice_field, slice_last,
  index_field, pack_u16_lem, unpack_u16_lem,
}

parse-auth :
    (s : Str) (b : Bool) (u : Uuid)
    → IsText s
    → IsUuid u
    → parse_auth (length s ∷ (s ++ (bool_byte b ∷ u)))
      ≡ ok (Message.auth (record { token = s; reverse = b; instance_id = u }))
unfolding parse_auth
parse-auth s b u hs hu =
    let n = length-append s (bool_byte b ∷ u) in
    rw (
      le→ltb (suc (length (s ++ (bool_byte b ∷ u)))) 1 (omega arith),
      le→ltb (suc (length (s ++ (bool_byte b ∷ u)))) (1 + length s + 1 + 16) (omega (arith, n)),
      slice_field (length s ∷ []) s (bool_byte b ∷ u) 1 (1 + length s) refl refl,
      decoded-IsText s hs,
      index_field (length s ∷ s) (bool_byte b) u (1 + length s) (omega arith),
      bool_of-bool_byte b,
      drop-append (1 + length s + 1) 1 (length s ∷ s) (bool_byte b ∷ u) (omega arith),
      take-all (1 + length s + 1 + 16 - (1 + length s + 1)) u (omega arith),
    )

pub auth-ReadsBack :
    (m : AuthMessage)
    → IsText m.token
    → IsUuid m.instance_id
    → ReadsBack (pack_auth m) 0x01 parse_auth (Message.auth m)
unfolding pack_auth
auth-ReadsBack m hs hu = (
  length m.token ∷ (m.token ++ (bool_byte m.reverse ∷ m.instance_id)),
  rw (pack_text-IsText m.token hs),
  parse-auth m.token m.reverse m.instance_id hs hu,
)

pub protocol_round : (p : Str) → bytes_to_protocol (protocol_to_bytes p) ≡ known_protocol p
unfolding bytes_to_protocol protocol_to_bytes
protocol_round p = elim (Bool-cases (p == tcp)) [
  | inl e ↦ rw e
  | inr e ↦ rw e (elim (Bool-cases (p == udp)) [ inl f ↦ rw f | inr f ↦ rw f ])
]

pub target_round :
    (a : Str) (p : ℕ)
    → IsText a
    → p < 65536
    → parse_target (length a ∷ (a ++ ((p / 256) ∷ (p % 256) ∷ []))) ≡ ok (a, p)
unfolding parse_target
target_round a p ha hp =
    let port = (p / 256) ∷ (p % 256) ∷ [] in
    let n = length-append a port in
    rw (
      le→ltb (suc (length (a ++ port))) 1 (omega arith),
      le→ltb (suc (length (a ++ port))) (1 + length a + 2) (omega (arith, n)),
      slice_field (length a ∷ []) a port 1 (1 + length a) refl refl,
      decoded-IsText a ha,
      slice_last (length a ∷ a) port (1 + length a) (1 + length a + 2) (omega arith) (omega arith),
      unpack_u16_lem p,
    )

parse-connect_other :
    (b : ℕ) (u : Uuid)
    → IsUuid u
    → (bytes_to_protocol b == tcp) ≡ false
    → parse_connect (b ∷ (u ++ []))
      ≡ ok (
          Message.connect (record {
            protocol = bytes_to_protocol b;
            channel_id = u;
            address = none;
            port = none;
          }))
unfolding parse_connect
parse-connect_other b u hu e = rw (
  le→ltb (suc (length (u ++ []))) 17 (omega (arith, length-append u [])),
  e,
  slice_field (b ∷ []) u [] 1 17 refl (omega arith),
)

parse-connect-tcp :
    (u : Uuid) (a : Str) (p : ℕ)
    → IsUuid u
    → IsText a
    → p < 65536
    → parse_connect (0x01 ∷ (u ++ (length a ∷ (a ++ ((p / 256) ∷ (p % 256) ∷ [])))))
      ≡ ok (
          Message.connect
            (record { protocol = tcp; channel_id = u; address = some a; port = some p }))
unfolding parse_connect bytes_to_protocol
parse-connect-tcp u a p hu ha hp =
    let rest = length a ∷ (a ++ ((p / 256) ∷ (p % 256) ∷ [])) in
    rw (
      le→ltb (suc (length (u ++ rest))) 17 (omega (arith, length-append u rest)),
      slice_field (0x01 ∷ []) u rest 1 17 refl (omega arith),
      drop-append 16 0 u rest (omega arith),
      target_round a p ha hp,
    )

known_not_tcp : (p : Str) → (p == tcp) ≡ false → (known_protocol p == tcp) ≡ false
known_not_tcp p e = elim (Bool-cases (p == udp)) [ inl f ↦ rw (e, f) | inr f ↦ rw (e, f) ]

module _ (protocol : Str) (u : Uuid) (hu : IsUuid u) where
  abbrev request : Option Str → Option ℕ → ConnectMessage
  request a p = record { protocol = protocol; channel_id = u; address = a; port = p }

  connect_cases :
      (c : Bool) (a : Option Str) (p : Option ℕ)
      → (protocol == tcp) ≡ c
      → IsTarget c a p
      → ReadsBack
          (pack_connect (request a p))
          0x03
          parse_connect
          (canonical (Message.connect (request a p)))
  unfolding pack_connect pack_target
  connect_cases true none p e ht = absurd ht
  connect_cases true (some a) none e ht = absurd ht
  connect_cases true (some a) (some p) e ht = (
    0x01 ∷ (u ++ (length a ∷ (a ++ ((p / 256) ∷ (p % 256) ∷ [])))),
    rw (e, pack_text-IsText a ht.0, pack_u16_lem p ht.1) (unfold protocol_to_bytes in rw e),
    rw e (parse-connect-tcp u a p hu ht.0 ht.1),
  )
  connect_cases false a p e ht = (
    protocol_to_bytes protocol ∷ (u ++ []),
    rw e,
    parse-connect_other (protocol_to_bytes protocol) u hu
          (rw (protocol_round protocol) (known_not_tcp protocol e))
        ∙ rw (protocol_round protocol, e),
  )

pub connect-ReadsBack :
    (m : ConnectMessage)
    → IsUuid m.channel_id
    → IsTarget (m.protocol == tcp) m.address m.port
    → ReadsBack (pack_connect m) 0x03 parse_connect (canonical (Message.connect m))
connect-ReadsBack m hu ht =
    connect_cases m.protocol m.channel_id hu (m.protocol == tcp) m.address m.port refl ht

module _ (token : Str) (u : Uuid) (ht : IsText token) (hu : IsUuid u) (b : ℕ) where
  connector_bytes : Bytes
  connector_bytes = u ++ (length token ∷ (token ++ (b ∷ [])))

  parse-connector :
      (bytes_to_operation b == []) ≡ false
      → parse_connector connector_bytes
        ≡ ok (
            Message.connector (record {
              channel_id = u;
              connector_token = token;
              operation = bytes_to_operation b;
            }))
  unfolding parse_connector connector_bytes
  parse-connector e =
      let rest = length token ∷ (token ++ (b ∷ [])) in
      let n = length-append token (b ∷ []) in
      rw (
        le→ltb (length (u ++ rest)) 16 (omega (arith, length-append u rest)),
        take-append 16 u rest (omega arith),
        drop-append 16 0 u rest (omega arith),
        le→ltb (suc (length (token ++ (b ∷ [])))) 1 (omega arith),
        le→ltb (suc (length (token ++ (b ∷ [])))) (1 + length token + 1) (omega (arith, n)),
        slice_field (length token ∷ []) token (b ∷ []) 1 (1 + length token) refl refl,
        decoded-IsText token ht,
        index_field (length token ∷ token) b [] (1 + length token) (omega arith),
        e,
      )

pub connector-ReadsBack :
    (m : ConnectorMessage)
    → IsUuid m.channel_id
    → IsText m.connector_token
    → (m.operation ≡ add_operation) ⊎ (m.operation ≡ remove_operation)
    → ReadsBack (pack_connector m) 0x07 parse_connector (Message.connector m)
unfolding pack_connector operation_to_bytes connector_bytes bytes_to_operation
connector-ReadsBack m hu ht (inl e) = (
  connector_bytes m.connector_token m.channel_id ht hu 0x01,
  rw (pack_text-IsText m.connector_token ht, e),
  parse-connector m.connector_token m.channel_id ht hu 0x01 refl
      ∙ ap (λ o. ok (Message.connector (record m { operation = o }))) (sym e),
)
connector-ReadsBack m hu ht (inr e) = (
  connector_bytes m.connector_token m.channel_id ht hu 0x02,
  rw (pack_text-IsText m.connector_token ht, e),
  parse-connector m.connector_token m.channel_id ht hu 0x02 refl
      ∙ ap (λ o. ok (Message.connector (record m { operation = o }))) (sym e),
)
