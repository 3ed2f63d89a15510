-- ===== src/Client/Stream.antt =====
-- A TCP stream from the socket on one side to the socket on the other.
use pywssocks.Base.{
  list_eq, nat_eq, ℕ, ◌≤◌, ◌≡◌, refl, ◌∙◌, ap, sym, Bool, none, some, List, [], ◌∷◌, ◌++◌, map,
  if◌then◌else◌, ◌==◌, arith, eq_refl, length, All, append_assoc, append-nil, ok,
}
use pywssocks.Base.Dict.{get}
use pywssocks.Text.{Bytes}
use pywssocks.Message.Types.{Uuid, Message, Runtime, DataMessage}
use pywssocks.Message.Parse.{parse_message}
use pywssocks.Message.Canonical.{IsLawful, IsUuid, IsPackable, IsText}
use pywssocks.Message.RoundTrip.{parse-pack}
use pywssocks.Server.Clients.{uuid_text}
use pywssocks.Relay.Forwarding.{tcp_message, tcp_to_websocket, websocket_to_tcp}
use pywssocks.Client.State.{Client}
use pywssocks.Client.Dispatcher.{
  Received, binary, handle_received, handle_message, message_dispatcher, put_message,
}

-- What was put into a queue.
unfoldable pub queued : ℕ → List (ℕ × Message) → List Message
queued q [] = []
queued q ((k, m) ∷ l) = let rest = queued q l in if k == q then m ∷ rest else rest

-- What is written for a queue.
abbrev pub written : ℕ → Client → Bytes
written q c = websocket_to_tcp (queued q c.delivered)

-- The bytes before the end of the connection.
unfoldable pub up_to_end : List Bytes → Bytes
up_to_end [] = []
up_to_end ([] ∷ pieces) = []
up_to_end ((c ∷ piece) ∷ pieces) = (c ∷ piece) ++ up_to_end pieces

queued-append : (q : ℕ) (l k : List (ℕ × Message)) → queued q (l ++ k) ≡ queued q l ++ queued q k
unfolding queued
queued-append q [] k = refl
queued-append q ((j, m) ∷ l) k = ground (arith, queued-append q l k)

websocket_to_tcp-append :
    (l k : List Message) → websocket_to_tcp (l ++ k) ≡ websocket_to_tcp l ++ websocket_to_tcp k
unfolding websocket_to_tcp
websocket_to_tcp-append [] k = refl
websocket_to_tcp-append (Message.payload m ∷ l) k =
    ap (λ (b : Bytes). m.content ++ b) (websocket_to_tcp-append l k)
    ∙ sym (append_assoc m.content (websocket_to_tcp l) (websocket_to_tcp k))
websocket_to_tcp-append (m ∷ l) k = websocket_to_tcp-append l k

-- A message that the format carries, and that is put into the queue of its channel.
tcp_message-IsPackable :
    (r : Runtime) (channel_id : Uuid) (content : Bytes)
    → IsUuid channel_id
    → length content ≤ 65535
    → IsPackable r (Message.payload (tcp_message channel_id content))
tcp_message-IsPackable r channel_id content u small =
    (u, omega arith, omega (arith, small), (none_is_text, omega arith), (none_is_text, omega arith))
  where
    none_is_text : IsText []
    none_is_text = record { ascii = tt; fits = omega arith }

abbrev delivered_to : ℕ → Message → Client → Client
delivered_to q m c = record c { delivered = c.delivered ++ ((q, m) ∷ []) }

receives :
    (r : Runtime) (is_done : ℕ → Bool) (ws q : ℕ) (m : DataMessage) (b : Bytes) (c : Client)
    → parse_message r b ≡ ok (Message.payload m)
    → get (uuid_text m.channel_id) c.relay.message_queues ≡ some q
    → handle_received r is_done ws (binary b) c ≡ delivered_to q (Message.payload m) c
unfolding handle_message put_message
receives r is_done ws q m b c parses found = rw (parses, found) refl

last_written :
    (q : ℕ) (m : DataMessage)
    → websocket_to_tcp (queued q ((q, Message.payload m) ∷ [])) ≡ m.content
unfolding queued websocket_to_tcp
last_written q m = rw (eq_refl q) (append-nil m.content)

dispatcher_next :
    (r : Runtime) (is_done : ℕ → Bool) (ws : ℕ) (b : Bytes) (l : List Received) (c c' : Client)
    → handle_received r is_done ws (binary b) c ≡ c'
    → message_dispatcher r is_done ws (binary b ∷ l) c ≡ message_dispatcher r is_done ws l c'
unfolding message_dispatcher
dispatcher_next r is_done ws b l c c' h = ap (message_dispatcher r is_done ws l) h

writes :
    (q : ℕ) (m : DataMessage) (c : Client)
    → written q (delivered_to q (Message.payload m) c) ≡ written q c ++ m.content
writes q m c =
    ap websocket_to_tcp (queued-append q c.delivered ((q, Message.payload m) ∷ []))
    ∙ websocket_to_tcp-append (queued q c.delivered) (queued q ((q, Message.payload m) ∷ []))
    ∙ ap (λ (b : Bytes). written q c ++ b) (last_written q m)

nothing_more :
    (r : Runtime) (is_done : ℕ → Bool) (ws q : ℕ) (c : Client)
    → written q (message_dispatcher r is_done ws [] c) ≡ written q c ++ []
unfolding message_dispatcher
nothing_more r is_done ws q c = sym (append-nil (written q c))

module _ (r : Runtime) (is_done : ℕ → Bool) (ws q : ℕ) (channel_id : Uuid) where
  -- What is read from a socket on one side, in pieces of at most 65535 bytes, is sent as messages of
  -- the channel without an error, and the other side, which has a queue for the channel, writes these
  -- bytes to its socket behind what it has written before: all of them, in order, up to the end of
  -- the connection.
  pub tcp_stream :
      (pieces : List Bytes) (c : Client)
      → IsLawful r
      → IsUuid channel_id
      → All (λ piece. length piece ≤ 65535) pieces
      → get (uuid_text channel_id) c.relay.message_queues ≡ some q
      → ((tcp_to_websocket r channel_id pieces).1 ≡ none)
        × (written q (
              message_dispatcher r is_done ws
                (map binary (tcp_to_websocket r channel_id pieces).0)
                c)
            ≡ written q c ++ up_to_end pieces)
  unfolding tcp_to_websocket up_to_end
  tcp_stream [] c laws u small found = (refl, nothing_more r is_done ws q c)
  tcp_stream ([] ∷ pieces) c laws u small found = (refl, nothing_more r is_done ws q c)
  tcp_stream ((x ∷ piece) ∷ pieces) c laws u small found =
      let m = tcp_message channel_id (x ∷ piece) in
      let (b, packs, parses) =
        parse-pack r (Message.payload m) laws
          (tcp_message-IsPackable r channel_id (x ∷ piece) u small.0) in
      let c' = delivered_to q (Message.payload m) c in
      let (fine, rest) = tcp_stream pieces c' laws u small.1 found in
      (
        rw packs fine,
        rw packs (
            ap (written q)
              (dispatcher_next r is_done ws b _ c c' (receives r is_done ws q m b c parses found))
            ∙ rest
            ∙ ap (λ (w : Bytes). w ++ up_to_end pieces) (writes q m c)
            ∙ append_assoc (written q c) (x ∷ piece) (up_to_end pieces)),
      )
