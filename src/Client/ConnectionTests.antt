-- ===== src/Client/ConnectionTests.antt =====
-- A small client that loses its connection, is refused, and receives a stream.
use pywssocks.Base.{
  list_eq, nat_eq, arith, ◌≡◌, refl, true, false, none, some, List, [], ◌∷◌, ◌++◌, map, ok, inr,
}
use pywssocks.Base.Dict.{get}
use pywssocks.Text.{Bytes, codes, encode}
use pywssocks.Message.Types.{Uuid, Message, AuthResponseMessage}
use pywssocks.Message.Pack.{pack_message, pack_body, pack_auth, pack_text, pack_byte}
use pywssocks.Message.Parse.{parse_message, parse_payload, parse_auth_response}
use pywssocks.Server.State.{int_eq}
use pywssocks.Server.Clients.{uuid_text}
use pywssocks.Client.State.{Client}
use pywssocks.Client.Dispatcher.{binary}
use pywssocks.Client.Connection.{Attempt, attempt, attempts}
use pywssocks.Client.Lifecycle.{IsDisconnected, IsRejected, refused, closed_for_good, attempts-end}
use pywssocks.Client.Retries.{IsAccepted, lost_connection_retries}
use pywssocks.Message.Lawful.{runtime, runtime-IsLawful}
use pywssocks.Relay.Forwarding.{tcp_to_websocket}
use pywssocks.Client.Dispatcher.{message_dispatcher}
use pywssocks.Client.Stream.{written, up_to_end, tcp_stream}
use pywssocks.Client.Small.{relay, client, wire, first_id}

abbrev success : AuthResponseMessage
success = record { success = true; error = none }

abbrev failure_answer : AuthResponseMessage
failure_answer = record { success = false; error = none }

success_parses : parse_message wire.runtime (1 ∷ 2 ∷ 1 ∷ []) ≡ ok (Message.auth_response success)
unfolding parse_message parse_payload parse_auth_response
success_parses = refl

failure_parses :
    parse_message wire.runtime (1 ∷ 2 ∷ 0 ∷ []) ≡ ok (Message.auth_response failure_answer)
unfolding parse_message parse_payload parse_auth_response
failure_parses = refl

abbrev auth_bytes : Bytes
auth_bytes = 1 ∷ 1 ∷ 1 ∷ 98 ∷ 1 ∷ 1 ∷ []

-- An attempt that is accepted and loses its connection, and one that is refused.
abbrev lost : Attempt
lost = record {
  instance_id = first_id;
  connection = some 8;
  answer = some (binary (1 ∷ 2 ∷ 1 ∷ []));
  messages = [];
  code = none;
}

abbrev refusal : Attempt
refusal = record {
  instance_id = first_id;
  connection = some 9;
  answer = some (binary (1 ∷ 2 ∷ 0 ∷ []));
  messages = [];
  code = none;
}

auth_packs :
    pack_message wire.runtime
      (Message.auth (record { token = codes "b"; reverse = true; instance_id = first_id }))
    ≡ ok auth_bytes
unfolding pack_message pack_body pack_auth pack_text pack_byte encode
auth_packs = refl

lost-IsAccepted : IsAccepted wire client lost 8 auth_bytes
lost-IsAccepted = record {
  found = refl;
  packs = auth_packs;
  is_open = refl;
  answer = 1 ∷ 2 ∷ 1 ∷ [];
  m = success;
  got = refl;
  parses = success_parses;
  succeeds = refl;
}

lost_connection_retries_example :
    (attempts (λ t. true) wire (lost ∷ refusal ∷ []) client
      ≡ attempts (λ t. true) wire (refusal ∷ []) (attempt (λ t. true) wire lost client).0)
    × ((attempt (λ t. true) wire lost client).0.sleeps ≡ 0)
lost_connection_retries_example =
    lost_connection_retries (λ t. true) wire lost (refusal ∷ []) client 8 auth_bytes lost-IsAccepted

attempts_none : attempts (λ t. true) wire [] client ≡ (client, true)
unfolding attempts
attempts_none = refl

refusal-IsRejected : IsRejected wire client refusal
refusal-IsRejected =
    refused 9 auth_bytes (1 ∷ 2 ∷ 0 ∷ []) failure_answer refl auth_packs refl refl failure_parses
      refl

-- The server closes the connection with 1008 before it answers.
abbrev banned : Attempt
banned = record refusal { answer = none; code = some 1008 }

banned-IsRejected : IsRejected wire client banned
banned-IsRejected = closed_for_good 9 auth_bytes refl auth_packs refl refl (inr refl)

refused_too :
    (attempts (λ t. true) wire (refusal ∷ lost ∷ []) client
      ≡ ((attempt (λ t. true) wire refusal client).0, false))
    × IsDisconnected (attempt (λ t. true) wire refusal client).0
refused_too =
    attempts-end (λ t. true) wire [] (lost ∷ []) refusal client client attempts_none
      refusal-IsRejected

attempts-end_example :
    (attempts (λ t. true) wire (banned ∷ lost ∷ []) client
      ≡ ((attempt (λ t. true) wire banned client).0, false))
    × IsDisconnected (attempt (λ t. true) wire banned client).0
attempts-end_example =
    attempts-end (λ t. true) wire [] (lost ∷ []) banned client client attempts_none
      banned-IsRejected

abbrev channel : Uuid
channel = 1 ∷ 2 ∷ 3 ∷ 4 ∷ 5 ∷ 6 ∷ 7 ∷ 8 ∷ 9 ∷ 10 ∷ 11 ∷ 12 ∷ 13 ∷ 14 ∷ 15 ∷ 16 ∷ []

abbrev receiver : Client
receiver = record client { relay = record relay { message_queues = (uuid_text channel, 5) ∷ [] } }

-- Two pieces and the end of the connection; what would follow is not read.
abbrev pieces : List Bytes
pieces = codes "SSH" ∷ codes "-2" ∷ [] ∷ codes "x" ∷ []

tcp_stream_example :
    ((tcp_to_websocket runtime channel pieces).1 ≡ none)
    × (written 5 (
          message_dispatcher runtime
            (λ t. true)
            8
            (map binary (tcp_to_websocket runtime channel pieces).0)
            receiver)
        ≡ written 5 receiver ++ up_to_end pieces)
unfolding get uuid_text
tcp_stream_example =
    tcp_stream runtime (λ t. true) 8 5 channel pieces receiver runtime-IsLawful refl (omega arith)
      refl
