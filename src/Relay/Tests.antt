-- ===== src/Relay/Tests.antt =====
-- The SOCKS handler and the UDP headers at small inputs.
use pywssocks.Base.{
  arith, list_eq, nat_eq, ◌≡◌, refl, sym, ◌∙◌, true, false, Option, none, some, List, [], ◌∷◌, ◌++◌,
  length, if◌then◌else◌, ◌==◌, ok, struct_error, eq_iff,
}
use pywssocks.Base.Sets.{elem, discard}
use pywssocks.Text.{Str, Bytes, encode, decode, codes}
use pywssocks.Message.Types.{Message, Runtime, tcp}
use pywssocks.Message.Pack.{
  pack_message, pack_body, pack_connect, pack_target, pack_byte, pack_text, pack_u16,
  protocol_to_bytes,
}
use pywssocks.Relay.Inet.{Inet, IsInet}
use pywssocks.Relay.Udp.{
  data_message, datagram_to_message, socks_udp_to_websocket, websocket_to_socks_udp,
}
use pywssocks.Relay.Echo.{domain, datagram_from, reply-reaches_sender}
use pywssocks.Relay.Session.{recv, send, sendall, Session, End}
use pywssocks.Relay.Handshake.{
  authenticate, choose_method, check_password, recv_request, answer_client, add_queue, serve_client,
  reply, connect_request, handle_socks_request,
}
use pywssocks.Relay.Consumed.{joined}
use pywssocks.Relay.Authentication.{IsPresented, request-IsPresented}
use pywssocks.Relay.Established.{success, handle_socks_request-connects, split_greeting_fails}

-- Four bytes stand for the text that has them as its characters.
abbrev four_or_none : Bytes → Option Str
four_or_none b = if length b == 4 then some b else none

abbrev inet : Inet
inet = record { ntoa = four_or_none; aton = four_or_none; ntop6 = λ b. none; pton6 = λ s. none }

inet-IsInet : IsInet inet
inet-IsInet = record {
  dotted = λ b h. (b, fits b h, fits b h);
  four = from;
  only_four = λ b h. ground (arith, eq_iff (length b) 4);
}
  where
    fits : (b : Bytes) → length b ≡ 4 → four_or_none b ≡ some b
    fits b h = ground (arith, eq_iff (length b) 4)

    from : (s : Str) (b : Bytes) → four_or_none s ≡ some b → length b ≡ 4
    from s b h = ground (arith, eq_iff (length s) 4)

abbrev name : Str
name = codes "a.org"

-- A datagram to the name "a" and port 53.
abbrev query : Bytes
query = 0 ∷ 0 ∷ 0 ∷ 3 ∷ 1 ∷ 97 ∷ 0 ∷ 53 ∷ 7 ∷ []

query_read :
    (socks_udp_to_websocket inet (9 ∷ []) query (name, 4000) []).1
    ≡ ok (some (data_message (9 ∷ []) (97 ∷ []) 53 (7 ∷ [])))
unfolding socks_udp_to_websocket datagram_to_message decode
query_read = refl

reply-reaches_sender_example :
    (d : Bytes) × (websocket_to_socks_udp inet
        (9 ∷ [])
        (Message.payload (datagram_from (9 ∷ []) name 53 (1 ∷ 2 ∷ [])))
        (socks_udp_to_websocket inet (9 ∷ []) query (name, 4000) []).0
      ≡ ok (some (d, (name, 4000))))
    × (datagram_to_message inet (9 ∷ []) d ≡ ok (some (data_message (9 ∷ []) name 53 (1 ∷ 2 ∷ []))))
reply-reaches_sender_example =
    reply-reaches_sender inet (9 ∷ []) name 53 (1 ∷ 2 ∷ []) query (name, 4000) []
      (some (data_message (9 ∷ []) (97 ∷ []) 53 (7 ∷ []))) query_read
      (domain refl (record { ascii = ground arith; fits = omega arith })) (omega arith)

abbrev runtime : Runtime
runtime = record { compress = λ b. b; decompress = some; dumps = λ j. []; loads = λ s. none }

abbrev session : List Bytes → Session
session pieces = record {
  incoming = pieces;
  sent = [];
  forwarded = [];
  queues = [];
  closed = false;
}

-- The login of the user "a" with the password "b", and a UDP request.
abbrev login : List Bytes
login =
    (5 ∷ 1 ∷ 2 ∷ [])
    ∷ (1 ∷ 1 ∷ 97 ∷ 1 ∷ 98 ∷ [])
    ∷ (5 ∷ 3 ∷ 0 ∷ 1 ∷ 0 ∷ 0 ∷ 0 ∷ 0 ∷ 0 ∷ 0 ∷ [])
    ∷ []

login_sends :
    (handle_socks_request runtime inet
      (some (97 ∷ []))
      (some (98 ∷ []))
      (9 ∷ [])
      0
      none
      (session login)).0.forwarded
    ≡ (1 ∷ 3 ∷ 2 ∷ 9 ∷ []) ∷ []
unfolding handle_socks_request serve_client authenticate choose_method check_password recv_request
    answer_client recv send sendall add_queue elem decode pack_message pack_connect pack_target
    pack_body protocol_to_bytes
login_sends = refl

request-IsPresented_example :
    (c : Bytes) × (rest : Bytes) × (joined login ≡ c ++ rest) × IsPresented (97 ∷ []) (98 ∷ []) c
request-IsPresented_example =
    request-IsPresented runtime inet (97 ∷ []) (98 ∷ []) (9 ∷ []) 0 none (session login) refl
      (λ same. not_empty (sym login_sends ∙ same))
  where
    not_empty : {b : Bytes} {l : List Bytes} → b ∷ l ≡ [] → ⊥
    not_empty e = cc

abbrev visit : List Bytes
visit = (5 ∷ 1 ∷ 0 ∷ []) ∷ (5 ∷ 1 ∷ 0 ∷ 3 ∷ 1 ∷ 97 ∷ 0 ∷ 80 ∷ []) ∷ []

visit_packs :
    pack_message runtime (connect_request tcp (9 ∷ []) (some (97 ∷ [])) (some 80))
    ≡ ok (1 ∷ 3 ∷ 1 ∷ 9 ∷ 1 ∷ 97 ∷ 0 ∷ 80 ∷ [])
unfolding pack_message pack_connect pack_target pack_body pack_text pack_byte encode pack_u16
    protocol_to_bytes
visit_packs = refl

handle_socks_request-connects_example :
    handle_socks_request runtime inet none none
      (9 ∷ [])
      0
      (some (success (9 ∷ []) none))
      (session visit)
    ≡ (
      record {
        incoming = [];
        sent = 5 ∷ 0 ∷ reply 0x00;
        forwarded = (1 ∷ 3 ∷ 1 ∷ 9 ∷ 1 ∷ 97 ∷ 0 ∷ 80 ∷ []) ∷ [];
        queues = [];
        closed = true;
      },
      End.done (9 ∷ []),
    )
unfolding discard decode
handle_socks_request-connects_example =
    handle_socks_request-connects runtime inet none none (9 ∷ []) (9 ∷ []) none 0 1 0 [] 5 0 1 0 80
      (97 ∷ []) (97 ∷ []) [] (1 ∷ 3 ∷ 1 ∷ 9 ∷ 1 ∷ 97 ∷ 0 ∷ 80 ∷ []) (session visit) refl refl refl
      refl refl visit_packs

split_greeting_fails_example :
    handle_socks_request runtime inet none none
      (9 ∷ [])
      0
      none
      (session ((5 ∷ []) ∷ (1 ∷ 0 ∷ []) ∷ []))
    ≡ (
      record {
        incoming = (1 ∷ 0 ∷ []) ∷ [];
        sent = reply 0x01;
        forwarded = [];
        queues = [];
        closed = true;
      },
      End.raised struct_error,
    )
unfolding discard
split_greeting_fails_example =
    split_greeting_fails runtime inet none none (9 ∷ []) (9 ∷ []) none 0 5 ((1 ∷ 0 ∷ []) ∷ []) none
      (session ((5 ∷ []) ∷ (1 ∷ 0 ∷ []) ∷ [])) refl
