-- ===== src/Message/RoundTrip/Payloads.antt =====
-- Reading back the messages behind a size: data, log and partners.
use pywssocks.Base.{
  drop-add, eq_iff, sym, subst, ℕ, suc, ◌+◌, ◌-◌, ◌/◌, ◌%◌, ◌<◌, ◌≡◌, inl, inr, refl, ap, ◌∙◌, true,
  false, Option, none, some, [], ◌∷◌, ◌++◌, arith, lt→ltb, le→ltb, length, length-append, Result,
  ok, drop-append, take-append, take-all, append_assoc, nat_eq, list_eq, ◌==◌, Bool-cases, String,
  All,
}
use pywssocks.Text.{Str, Bytes, IsScalar}
use pywssocks.Message.Types.{
  Runtime, DataMessage, LogMessage, PartnersMessage, Message, Uuid, Json, tcp, udp,
  compression_gzip,
}
use pywssocks.Message.Pack.{
  pack_byte, pack_endpoint, pack_endpoints, pack_data, pack_json, pack_log, pack_partners,
  protocol_to_bytes, text_or_empty, number_or_zero, log_object, partners_object,
}
use pywssocks.Message.Parse.{
  parse_endpoints, parse_data, decompressed, parse_json, parse_log, parse_partners,
}
use pywssocks.Message.Canonical.{
  IsText, IsUuid, IsLawful, IsEndpoint, stored, canonical, known_protocol,
}
use pywssocks.Message.Fields.{
  ReadsBack, encode_ascii, decoded-ascii, pack_text-IsText, decoded-IsText, slice_field, slice_last,
  index_field, pack_u16_lem, unpack_u16_lem, pack_u32_lem, unpack_u32_lem, size_bytes,
}
use pywssocks.Message.RoundTrip.Requests.{protocol_round}

abbrev endpoint_bytes : Str → ℕ → Bytes
endpoint_bytes a p = length a ∷ (a ++ ((p / 256) ∷ (p % 256) ∷ []))

pack_endpoint_lem :
    (a : Option Str) (p : Option ℕ)
    → IsEndpoint a p
    → pack_endpoint a p ≡ ok (endpoint_bytes (text_or_empty a) (number_or_zero p))
unfolding pack_endpoint
pack_endpoint_lem a p h =
    rw (pack_text-IsText (text_or_empty a) h.0, pack_u16_lem (number_or_zero p) h.1)

length-endpoint : (a : Str) (p : ℕ) → length (endpoint_bytes a p) ≡ length a + 3
length-endpoint a p = omega (arith, length-append a ((p / 256) ∷ (p % 256) ∷ []))

endpoints_round :
    (a b : Str) (p q : ℕ)
    → IsText a
    → IsText b
    → parse_endpoints (endpoint_bytes a p ++ endpoint_bytes b q) ≡ ok (a, p, b, q)
unfolding parse_endpoints
endpoints_round a b p q ha hb =
    let source = (p / 256) ∷ (p % 256) ∷ [] in
    let target = (q / 256) ∷ (q % 256) ∷ [] in
    let rest = endpoint_bytes b q in
    let n = length-append (a ++ source) rest in
    let k = length-append a source in
    let j = length-append b target in
    rw (
      le→ltb (suc (length ((a ++ source) ++ rest))) 1 (omega arith),
      le→ltb (suc (length ((a ++ source) ++ rest))) (1 + length a + 2 + 1) (omega (arith, n, k, j)),
      append_assoc a source rest,
      slice_field (length a ∷ []) a (source ++ rest) 1 (1 + length a) refl refl,
      decoded-IsText a ha,
      slice_field (length a ∷ a) source rest (1 + length a) (1 + length a + 2) (omega arith)
          (omega arith),
      unpack_u16_lem p,
      drop-append (1 + length a + 2) 2 (length a ∷ a) (source ++ rest) (omega arith),
      le→ltb (suc (length (b ++ target))) (1 + length b + 2) (omega (arith, j)),
      slice_field (length b ∷ []) b target 1 (1 + length b) refl refl,
      decoded-IsText b hb,
      slice_last (length b ∷ b) target (1 + length b) (1 + length b + 2) (omega arith)
          (omega arith),
      unpack_u16_lem q,
    )

decompressed-stored :
    (r : Runtime) (laws : IsLawful r) (m : DataMessage)
    → decompressed r m.compression (stored r m) ≡ ok m.content
unfolding decompressed
decompressed-stored r laws m = elim (Bool-cases (m.compression == compression_gzip)) [
  | inl e ↦ rw (e, laws.decompress-compress m.content)
  | inr e ↦ rw e
]

-- The bytes of a data message behind its type.
data_bytes : Str → Uuid → ℕ → Bytes → Bytes → Bytes
data_bytes protocol u compression content tail =
    protocol_to_bytes protocol
    ∷ (u ++ (compression ∷ (size_bytes (length content) ++ (content ++ tail))))

module _ (r : Runtime) (laws : IsLawful r) (m : DataMessage) (hu : IsUuid m.channel_id) where
  abbrev content_bytes : Bytes
  content_bytes = stored r m

  abbrev whole : Bytes → Bytes
  whole tail = data_bytes m.protocol m.channel_id m.compression content_bytes tail

  -- The fields before the endpoints, whatever follows them.
  parse-data_plain :
      (tail : Bytes)
      → (known_protocol m.protocol == udp) ≡ false
      → parse_data r (whole tail)
        ≡ ok (
            Message.payload (record {
              protocol = known_protocol m.protocol;
              channel_id = m.channel_id;
              content = m.content;
              compression = m.compression;
              address = none;
              port = none;
              target_addr = none;
              target_port = none;
            }))
  unfolding parse_data data_bytes
  parse-data_plain tail e =
      let u = m.channel_id in
      let n = length content_bytes in
      let rest = m.compression ∷ (size_bytes n ++ (content_bytes ++ tail)) in
      let k = length-append u rest in
      let j = length-append content_bytes tail in
      rw (
        le→ltb (suc (length (u ++ rest))) 22 (omega (arith, k, j)),
        protocol_round m.protocol,
        slice_field (protocol_to_bytes m.protocol ∷ []) u rest 1 17 refl (omega arith),
        index_field u m.compression (size_bytes n ++ (content_bytes ++ tail)) 16 (omega arith),
        drop-append 17 1 u rest (omega arith),
        unpack_u32_lem n,
        le→ltb (suc (length (u ++ rest))) (22 + n) (omega (arith, k, j)),
        drop-append 21 5 u rest (omega arith),
        take-append (22 + n - 22) content_bytes tail (omega arith),
        decompressed-stored r laws m,
        e,
      )

  -- A udp message, whose endpoints stand behind the data.
  parse-data_udp :
      (a b : Str) (p q : ℕ)
      → (m.protocol == udp) ≡ true
      → (known_protocol m.protocol ≡ udp)
      → IsText a
      → IsText b
      → parse_data r (whole (endpoint_bytes a p ++ endpoint_bytes b q))
        ≡ ok (
            Message.payload (record {
              protocol = udp;
              channel_id = m.channel_id;
              content = m.content;
              compression = m.compression;
              address = some a;
              port = some p;
              target_addr = some b;
              target_port = some q;
            }))
  unfolding parse_data data_bytes
  parse-data_udp a b p q e known ha hb =
      let u = m.channel_id in
      let n = length content_bytes in
      let tail = endpoint_bytes a p ++ endpoint_bytes b q in
      let rest = m.compression ∷ (size_bytes n ++ (content_bytes ++ tail)) in
      let k = length-append u rest in
      let j = length-append content_bytes tail in
      rw (
        le→ltb (suc (length (u ++ rest))) 22 (omega (arith, k, j)),
        protocol_round m.protocol,
        slice_field (protocol_to_bytes m.protocol ∷ []) u rest 1 17 refl (omega arith),
        index_field u m.compression (size_bytes n ++ (content_bytes ++ tail)) 16 (omega arith),
        drop-append 17 1 u rest (omega arith),
        unpack_u32_lem n,
        le→ltb (suc (length (u ++ rest))) (22 + n) (omega (arith, k, j)),
        drop-append 21 5 u rest (omega arith),
        take-append (22 + n - 22) content_bytes tail (omega arith),
        decompressed-stored r laws m,
        known,
        drop-add 22 n (22 + n) (protocol_to_bytes m.protocol ∷ (u ++ rest)) refl,
        drop-append 21 5 u rest (omega arith),
        drop-append n 0 content_bytes tail (omega arith),
        endpoints_round a b p q ha hb,
      )

known_of_udp : (p : Str) → (p == udp) ≡ true → known_protocol p ≡ udp
known_of_udp p e = rw ((eq_iff p udp).0 e)

known_not_udp : (p : Str) → (p == udp) ≡ false → (known_protocol p == udp) ≡ false
known_not_udp p e = elim (Bool-cases (p == tcp)) [ inl f ↦ rw (e, f) | inr f ↦ rw (e, f) ]

-- The two ways to write what is read from a udp message.
module _ (m : DataMessage) where
  abbrev with_endpoints : Str → Option Str → Option ℕ → Option Str → Option ℕ → Result Message
  with_endpoints protocol a p b q = ok (
      Message.payload
        (record m { protocol = protocol; address = a; port = p; target_addr = b; target_port = q }))

  udp_fields :
      (m.protocol == udp) ≡ true
      → known_protocol m.protocol ≡ udp
      → with_endpoints udp
          (some (text_or_empty m.address))
          (some (number_or_zero m.port))
          (some (text_or_empty m.target_addr))
          (some (number_or_zero m.target_port))
        ≡ ok (canonical (Message.payload m))
  udp_fields e known =
      ap
        (λ p.
          with_endpoints p (some (text_or_empty m.address)) (some (number_or_zero m.port))
            (some (text_or_empty m.target_addr)) (some (number_or_zero m.target_port)))
        (sym known)
      ∙ rw e

pub data-ReadsBack :
    (r : Runtime) (laws : IsLawful r) (m : DataMessage)
    → IsUuid m.channel_id
    → m.compression < 256
    → length (stored r m) < 4294967296
    → IsEndpoint m.address m.port
    → IsEndpoint m.target_addr m.target_port
    → ReadsBack (pack_data r m) 0x04 (parse_data r) (canonical (Message.payload m))
unfolding pack_data pack_byte pack_endpoints data_bytes
data-ReadsBack r laws m hu hc hs ha hb = elim (Bool-cases (m.protocol == udp)) [
  | inl e ↦ (
    data_bytes m.protocol m.channel_id m.compression (stored r m) (
        endpoint_bytes (text_or_empty m.address) (number_or_zero m.port)
        ++ endpoint_bytes (text_or_empty m.target_addr) (number_or_zero m.target_port)),
    rw (
      lt→ltb m.compression 256 hc,
      pack_u32_lem (length (stored r m)) hs,
      e,
      pack_endpoint_lem m.address m.port ha,
      pack_endpoint_lem m.target_addr m.target_port hb,
    ),
    parse-data_udp r laws m hu (text_or_empty m.address) (text_or_empty m.target_addr)
          (number_or_zero m.port) (number_or_zero m.target_port) e (known_of_udp m.protocol e) ha.0
          hb.0
        ∙ udp_fields m e (known_of_udp m.protocol e),
  )
  | inr e ↦ (
    data_bytes m.protocol m.channel_id m.compression (stored r m) [],
    rw (lt→ltb m.compression 256 hc, pack_u32_lem (length (stored r m)) hs, e),
    parse-data_plain r laws m hu [] (known_not_udp m.protocol e) ∙ rw e,
  )
]

-- A JSON value behind its size.
json_round :
    (r : Runtime) (laws : IsLawful r) (j : Json) (short_message length_message : String)
    → length (r.dumps j) < 4294967296
    → r.loads (r.dumps j) ≡ some j
    → (b : Bytes) × (pack_json r j ≡ ok b) × (parse_json r b short_message length_message ≡ ok j)
unfolding pack_json parse_json
json_round r laws j short_message length_message h e =
    let n = length (r.dumps j) in
    let ascii = laws.dumps_ascii j in
    (
      size_bytes n ++ r.dumps j,
      rw (encode_ascii (r.dumps j) ascii, pack_u32_lem n h),
      rw (
        le→ltb (suc (suc (suc (suc n)))) 4 (omega arith),
        unpack_u32_lem n,
        le→ltb (suc (suc (suc (suc n)))) (4 + n) (omega arith),
        take-all (4 + n - 4) (r.dumps j) (omega arith),
        decoded-ascii (r.dumps j) ascii,
        e,
      ),
    )

log_strings-ReadsBack :
    (r : Runtime) (laws : IsLawful r) (l s : Str)
    → All IsScalar l
    → All IsScalar s
    → length (r.dumps (log_object (Json.str l) (Json.str s))) < 4294967296
    → let m : LogMessage = record { level = Json.str l; msg = Json.str s } in
      ReadsBack (pack_log r m) 0x09 (parse_log r) (Message.log m)
unfolding pack_log parse_log
log_strings-ReadsBack r laws l s hl hs h =
    let j = log_object (Json.str l) (Json.str s) in
    let (b, packed, parsed) =
      json_round r laws j "Invalid log message" "Invalid log message length" h
        (laws.loads-log l s hl hs) in
    (b, rw packed, rw parsed)

pub log-ReadsBack :
    (r : Runtime) (laws : IsLawful r) (m : LogMessage) (l s : Str)
    → m.level ≡ Json.str l
    → m.msg ≡ Json.str s
    → All IsScalar l
    → All IsScalar s
    → length (r.dumps (log_object m.level m.msg)) < 4294967296
    → ReadsBack (pack_log r m) 0x09 (parse_log r) (Message.log m)
log-ReadsBack r laws m l s el es hl hs h =
    let same : m ≡ record { level = Json.str l; msg = Json.str s } =
      λ i. record { level = el i; msg = es i } in
    subst (λ n. ReadsBack (pack_log r n) 0x09 (parse_log r) (Message.log n)) (sym same)
      (log_strings-ReadsBack r laws l s hl hs
        (subst (λ n. length (r.dumps (log_object n.level n.msg)) < 4294967296) same h))

partners_count-ReadsBack :
    (r : Runtime) (laws : IsLawful r) (n : ℕ)
    → length (r.dumps (partners_object (Json.int n))) < 4294967296
    → let m : PartnersMessage = record { count = Json.int n } in
      ReadsBack (pack_partners r m) 0x0a (parse_partners r) (Message.partners m)
unfolding pack_partners parse_partners
partners_count-ReadsBack r laws n h =
    let j = partners_object (Json.int n) in
    let (b, packed, parsed) =
      json_round r laws j "Invalid partners message" "Invalid partners message length" h
        (laws.loads-partners n) in
    (b, rw packed, rw parsed)

pub partners-ReadsBack :
    (r : Runtime) (laws : IsLawful r) (m : PartnersMessage) (n : ℕ)
    → m.count ≡ Json.int n
    → length (r.dumps (partners_object m.count)) < 4294967296
    → ReadsBack (pack_partners r m) 0x0a (parse_partners r) (Message.partners m)
partners-ReadsBack r laws m n e h =
    let same : m ≡ record { count = Json.int n } = λ i. record { count = e i } in
    subst (λ k. ReadsBack (pack_partners r k) 0x0a (parse_partners r) (Message.partners k))
      (sym same)
      (partners_count-ReadsBack r laws n
        (subst (λ k. length (r.dumps (partners_object k.count)) < 4294967296) same h))
