-- ===== src/Server/Admission.antt =====
-- `_handle_websocket` and `_cleanup_connection` of `WSSocksServer`. What the dispatchers do while a
-- client is connected is an argument.
use pywssocks.Base.{
  list_eq, nat_eq, ℕ, ◌+◌, Bool, true, false, not, ◌&&◌, ◌||◌, Option, none, some, List, [], ◌∷◌,
  ◌++◌, if◌then◌else◌, ◌==◌, leb, map, Result, ok, err,
}
use pywssocks.Base.Dict.{Dict, get, contains}
use pywssocks.Base.Sets.{elem}
use pywssocks.Text.{Str, Bytes, codes}
use pywssocks.Message.Types.{Uuid, Message, AuthMessage}
use pywssocks.Message.Parse.{parse_message}
use pywssocks.Server.State.{Server}
use pywssocks.Server.Clients.{
  Kind, reverse_client, forward_client, unknown, connector_client, kind, register_client, leave,
  leaving_token,
}
use pywssocks.Server.Hub.{
  Hub, Wire, Outcome, Step, ◌then_do◌, change, on_server, send, close, auth_response,
  partners_message, reverse_count, keys, broadcast_partners_to_connectors,
  broadcast_partners_to_reverse_clients,
}

-- A raw token of the query stands for a known token or for its SHA-256 digest.
unfoldable pub find_token : (Str → Str) → Str → List Str → Option Str
find_token digest raw [] = none
find_token digest raw (t ∷ ts) =
    let rest = find_token digest raw ts in if raw == t || raw == digest t then some t else rest

-- All tokens, as one set.
abbrev pub all_tokens : Server → List Str
all_tokens s = keys s.tokens ++ (s.forward_tokens ++ keys s.connector_tokens)

-- `str.lower` on the letters A to Z.
abbrev pub lower : ℕ → ℕ
lower c = if leb 65 c && leb c 90 then c + 32 else c

abbrev pub is_true : Option Str → Bool
is_true none = false
is_true (some text) = map lower text == codes "true"

-- How a client introduces itself: by the query of its URL, with the token, the text of `reverse` and
-- the instance (a new one where it is missing or is no UUID), by a binary message, or by a text.
pub data Greeting : Type 0 where
  query : Str → Option Str → Uuid → Greeting
  binary : Bytes → Greeting
  text : Greeting

-- What comes first through the connection, where the query has no token: bytes or a text.
abbrev pub first_message : Option Bytes → Greeting
first_message none = text
first_message (some b) = binary b

-- `UUID(text)`, or a new one where that raises.
abbrev pub instance_of : (Str → Option Uuid) → Uuid → Option (Str × List Str) → Uuid
instance_of parse_uuid fresh none = fresh
instance_of parse_uuid fresh (some (t, others)) = or_fresh (parse_uuid t)
  where
    or_fresh : Option Uuid → Uuid
    or_fresh none = fresh
    or_fresh (some u) = u

abbrev pub first_value : Option (Str × List Str) → Option Str
first_value none = none
first_value (some (v, others)) = some v

abbrev pub greeting_with :
    (Str → Option Uuid) → Uuid → Dict Str (Str × List Str) → Option Bytes → Option Str → Greeting
greeting_with parse_uuid fresh parsed_qs first none = first_message first
greeting_with parse_uuid fresh parsed_qs first (some raw) =
    query raw (first_value (get (codes "reverse") parsed_qs))
      (instance_of parse_uuid fresh (get (codes "instance") parsed_qs))

-- How a client introduces itself, by the parsed query of its URL and the first message otherwise.
unfoldable pub greeting :
    (Str → Option Uuid) → Uuid → Dict Str (Str × List Str) → Option Bytes → Greeting
greeting parse_uuid fresh parsed_qs first =
    greeting_with parse_uuid fresh parsed_qs first (first_value (get (codes "token") parsed_qs))

abbrev pub only_auth : Result Message → Option AuthMessage
only_auth (ok (Message.auth m)) = some m
only_auth (ok _) = none
only_auth (err e) = none

-- `if not resolved_token` refuses an empty token like None.
abbrev pub resolved : Bool → Uuid → Option Str → Option AuthMessage
resolved reverse instance_id none = none
resolved reverse instance_id (some []) = none
resolved reverse instance_id (some (c ∷ t)) =
    some (record { token = c ∷ t; reverse = reverse; instance_id = instance_id })

-- The authentication message, or none where the connection is closed with 1008. `arrange` is the
-- order in which the set is walked.
unfoldable pub auth_message :
    (List Str → List Str) → (Str → Str) → Wire → Greeting → Server → Option AuthMessage
unfolding find_token
auth_message arrange digest wire (query raw reverse instance_id) s =
    resolved (is_true reverse) instance_id (find_token digest raw (arrange (all_tokens s)))
auth_message arrange digest wire (binary b) s = only_auth (parse_message wire.runtime b)
auth_message arrange digest wire text s = none

-- The part of each branch that follows the registration.
unfoldable pub greet_client : Wire → ℕ → Kind → Step
greet_client wire ws (reverse_client port) =
    send wire ws (auth_response true none) then_do change (broadcast_partners_to_connectors wire)
greet_client wire ws forward_client = send wire ws (auth_response true none)
greet_client wire ws (connector_client reverse_token) =
    (send wire ws (auth_response true none)
      then_do change (broadcast_partners_to_reverse_clients wire reverse_token))
    then_do λ h. send wire ws (partners_message (reverse_count h.server)) h
greet_client wire ws unknown =
    send wire ws (auth_response false (some (codes "Invalid token"))) then_do change (close ws 1008)

-- The lock of a reverse token is looked up before anything changes.
abbrev pub lacks_lock : AuthMessage → Kind → Server → Bool
lacks_lock m (reverse_client port) s = not (elem m.token s.token_locks)
lacks_lock m forward_client s = false
lacks_lock m (connector_client reverse_token) s = false
lacks_lock m unknown s = false

-- "Validate token and generate client_id only after successful authentication"
unfoldable pub welcome : Wire → AuthMessage → Uuid → ℕ → Kind → Step
unfolding greet_client
welcome wire m client_id ws k h =
    if lacks_lock m k h.server
    then (h, Outcome.failed)
    else greet_client wire ws k (on_server (register_client m (client_id, ws) k) h)

-- The broadcasts of `_cleanup_connection`; the token's kind is that from before the removal.
abbrev pub tell_partners : Wire → Bool → Option Str → Hub → Hub
tell_partners wire true reverse_token h = broadcast_partners_to_connectors wire h
tell_partners wire false none h = h
tell_partners wire false (some []) h = h
tell_partners wire false (some (c ∷ t)) h = broadcast_partners_to_reverse_clients wire (c ∷ t) h

abbrev pub leave_known : Wire → Uuid → Str → Hub → Hub
leave_known wire client_id token h =
    tell_partners wire (contains token h.server.tokens) (get token h.server.connector_tokens)
      (on_server (leave client_id token) h)

unfoldable pub cleanup_connection : Wire → Uuid → Str → Hub → Hub
cleanup_connection wire client_id [] h = h
cleanup_connection wire client_id (c ∷ t) h = leave_known wire client_id (c ∷ t) h

-- The dispatcher runs only if the welcome raised nothing.
abbrev pub session : (Hub → Hub) → Hub × Outcome → Hub
session during (h, Outcome.going) = during h
session during (h, Outcome.connection_closed) = h
session during (h, Outcome.failed) = h

abbrev pub serve_kind : Wire → (Hub → Hub) → AuthMessage → Uuid → ℕ → Kind → Hub → Hub
serve_kind wire during m client_id ws unknown h = (welcome wire m client_id ws unknown h).0
serve_kind wire during m client_id ws (reverse_client port) h =
    let token =
      if lacks_lock m (reverse_client port) h.server
      then m.token
      else leaving_token m (reverse_client port) h.server in
    cleanup_connection wire client_id token
      (session during (welcome wire m client_id ws (reverse_client port) h))
serve_kind wire during m client_id ws forward_client h =
    cleanup_connection wire client_id m.token
      (session during (welcome wire m client_id ws forward_client h))
serve_kind wire during m client_id ws (connector_client reverse_token) h =
    cleanup_connection wire client_id m.token
      (session during (welcome wire m client_id ws (connector_client reverse_token) h))

abbrev pub serve_message : Wire → (Hub → Hub) → Uuid → ℕ → Option AuthMessage → Hub → Hub
serve_message wire during client_id ws none h = close ws 1008 h
serve_message wire during client_id ws (some m) h =
    serve_kind wire during m client_id ws (kind m h.server) h

unfoldable pub handle_websocket :
    (List Str → List Str) → (Str → Str) → Wire → (Hub → Hub) → Uuid → ℕ → Greeting → Hub → Hub
unfolding auth_message welcome cleanup_connection
handle_websocket arrange digest wire during client_id ws greeting h =
    serve_message wire during client_id ws (auth_message arrange digest wire greeting h.server) h
