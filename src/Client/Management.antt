-- ===== src/Client/Management.antt =====
-- `add_connector` of a client with the server's answer to it.
use pywssocks.Base.{
  list_eq, nat_eq, ℕ, ◌≡◌, refl, ◌∙◌, Bool, true, false, Option, none, some, [], ◌∷◌, ◌++◌, arith,
  eq_refl, ok, inl,
}
use pywssocks.Base.Dict.{get, insert, contains, get-insert, get-erase}
use pywssocks.Text.{Str, Bytes}
use pywssocks.Message.Types.{Uuid, Message, add_operation}
use pywssocks.Message.Pack.{pack_message}
use pywssocks.Server.State.{Server}
use pywssocks.Server.Tokens.{add_connector_token, is_reverse}
use pywssocks.Server.Clients.{uuid_text}
use pywssocks.Message.Parse.{parse_message}
use pywssocks.Message.Canonical.{IsLawful, IsUuid, IsText}
use pywssocks.Message.RoundTrip.{parse-pack}
use pywssocks.Server.Hub.{Hub, Wire, Outcome, send}
use pywssocks.Server.Dispatch.{manage, operate, agreement, client_message, turn, bytes}
use pywssocks.Server.Authority.{IsFoundManager, manage_operates}
use pywssocks.Client.State.{Client}
use pywssocks.Client.Dispatcher.{
  add_message_queue, handle_message, put_message, message_dispatcher, binary,
}
use pywssocks.Client.Requests.{
  begin_add_connector, finish_add_connector, send_request, connector_request, drop_request,
}

abbrev waiting : Uuid → ℕ → Bytes → Client → Client
waiting channel_id ws packed c =
    let c' = add_message_queue (uuid_text channel_id) c in
    record c' { sent = c'.sent ++ ((ws, packed) ∷ []) }

begin_sends :
    (wire : Wire) (c : Client) (ws : ℕ) (packed : Bytes) (channel_id : Uuid) (token : Str)
    → c.reverse ≡ true
    → c.websocket ≡ some ws
    → pack_message wire.runtime
        (Message.connector (connector_request add_operation channel_id token))
      ≡ ok packed
    → wire.is_open ws ≡ true
    → begin_add_connector wire channel_id token c ≡ (waiting channel_id ws packed c, none)
unfolding begin_add_connector send_request
begin_sends wire c ws packed channel_id token r w packs open_ = rw (r, w, packs, open_) refl

queue_waits :
    (channel_id : Uuid) (ws : ℕ) (packed : Bytes) (c : Client)
    → get (uuid_text channel_id) (waiting channel_id ws packed c).relay.message_queues
      ≡ some c.next_queue
unfolding add_message_queue
queue_waits channel_id ws packed c =
    let key = uuid_text channel_id in
    ground (arith, get-insert key key c.next_queue c.relay.message_queues, eq_refl key)

answer_waits :
    (is_done : ℕ → Bool) (channel_id : Uuid) (ws : ℕ) (packed : Bytes) (token : Option Str)
    (c : Client)
    → (handle_message is_done ws
        (agreement channel_id token)
        (waiting channel_id ws packed c)).delivered
      ≡ c.delivered ++ ((c.next_queue, agreement channel_id token) ∷ [])
unfolding handle_message put_message
answer_waits is_done channel_id ws packed token c = rw (queue_waits channel_id ws packed c) refl

manage_adds :
    (client_id channel_id : Uuid) (t : Str) (k : ℕ) (ks : Str) (s : Server)
    → IsFoundManager client_id t s
    → is_reverse (some t) s ≡ true
    → contains (k ∷ ks) s.connector_tokens ≡ false
    → manage client_id (connector_request add_operation channel_id (k ∷ ks)) s ≡ (
      record s { connector_tokens = insert (k ∷ ks) t s.connector_tokens },
      ok (agreement channel_id (some (k ∷ ks))),
    )
unfolding operate add_connector_token
manage_adds client_id channel_id t k ks s i known new =
    manage_operates client_id t (connector_request add_operation channel_id (k ∷ ks)) s i
    ∙ rw (eq_refl add_operation, known, new) refl

-- The hub once the token is added and the answer, packed as `reply`, is sent on `ws`.
abbrev answered : ℕ → Bytes → Str → Str → Hub → Hub
answered ws reply token t h = record h {
  server = record h.server { connector_tokens = insert token t h.server.connector_tokens };
  sent = h.sent ++ ((ws, reply) ∷ []);
}

request-answered :
    (wire : Wire) (is_done : ℕ → Bool) (ws : ℕ) (request reply : Bytes)
    (channel_id client_id : Uuid) (t : Str) (k : ℕ) (ks : Str) (h : Hub)
    → parse_message wire.runtime request
      ≡ ok (Message.connector (connector_request add_operation channel_id (k ∷ ks)))
    → pack_message wire.runtime (agreement channel_id (some (k ∷ ks))) ≡ ok reply
    → wire.is_open ws ≡ true
    → IsFoundManager client_id t h.server
    → is_reverse (some t) h.server ≡ true
    → contains (k ∷ ks) h.server.connector_tokens ≡ false
    → turn wire (client_message wire is_done ws client_id) (bytes request) h
      ≡ (answered ws reply (k ∷ ks) t h, Outcome.going)
unfolding client_message send
request-answered wire is_done ws request reply channel_id client_id t k ks h parses packs open_ i
      known new =
    rw (parses, manage_adds client_id channel_id t k ks h.server i known new, packs, open_) refl

reply-waits :
    (wire : Wire) (is_done : ℕ → Bool) (channel_id : Uuid) (ws : ℕ) (packed reply : Bytes)
    (token : Option Str) (c : Client)
    → parse_message wire.runtime reply ≡ ok (agreement channel_id token)
    → (message_dispatcher wire.runtime is_done ws
        (binary reply ∷ [])
        (waiting channel_id ws packed c)).delivered
      ≡ c.delivered ++ ((c.next_queue, agreement channel_id token) ∷ [])
unfolding message_dispatcher
reply-waits wire is_done channel_id ws packed reply token c parses =
    rw parses (answer_waits is_done channel_id ws packed token c)

module _ (wire : Wire) (is_done server_done : ℕ → Bool) (c : Client) (h : Hub) where
  -- A reverse client that the server finds under a reverse token which may manage connectors adds a
  -- new connector token by add_connector, an ASCII text that is not empty and has fewer than 256
  -- characters, where both ends of the connection are open: the request goes out in bytes from which
  -- the server, in one turn of its dispatcher, reads it; then the server has the token for the
  -- client's reverse token and has sent a reply. From the reply's bytes the client's dispatcher puts
  -- the answer into the queue of the request. With this answer add_connector returns the token, and
  -- the queue is gone.
  pub add_connector-manage :
      (ws from_ws : ℕ) (channel_id client_id : Uuid) (t : Str) (k : ℕ) (ks : Str)
      → IsLawful wire.runtime
      → IsUuid channel_id
      → IsText (k ∷ ks)
      → c.reverse ≡ true
      → c.websocket ≡ some ws
      → wire.is_open ws ≡ true
      → wire.is_open from_ws ≡ true
      → IsFoundManager client_id t h.server
      → is_reverse (some t) h.server ≡ true
      → contains (k ∷ ks) h.server.connector_tokens ≡ false
      → (c' : Client) × (request : Bytes) × (h' : Hub) × (reply : Bytes) × (answer : Message)
        × (begin_add_connector wire channel_id (k ∷ ks) c ≡ (c', none))
        × (c'.sent ≡ c.sent ++ ((ws, request) ∷ []))
        × (turn wire (client_message wire server_done from_ws client_id) (bytes request) h
            ≡ (h', Outcome.going))
        × (get (k ∷ ks) h'.server.connector_tokens ≡ some t)
        × (h'.sent ≡ h.sent ++ ((from_ws, reply) ∷ []))
        × (get (uuid_text channel_id) c'.relay.message_queues ≡ some c.next_queue)
        × ((message_dispatcher wire.runtime is_done ws (binary reply ∷ []) c').delivered
            ≡ c.delivered ++ ((c.next_queue, answer) ∷ []))
        × ((d : Client)
            → ((finish_add_connector channel_id (some answer) d).1 ≡ ok (k ∷ ks))
              × (get
                    (uuid_text channel_id)
                    (finish_add_connector channel_id (some answer) d).0.relay.message_queues
                  ≡ none))
  unfolding finish_add_connector drop_request add_message_queue
  add_connector-manage ws from_ws channel_id client_id t k ks laws uuid text r w open_ from_open i
        known new =
      let key = uuid_text channel_id in
      let answer = agreement channel_id (some (k ∷ ks)) in
      let (request, packs, parses) =
        parse-pack wire.runtime
          (Message.connector (connector_request add_operation channel_id (k ∷ ks))) laws
          (uuid, text, inl refl) in
      let (reply, reply_packs, reply_parses) =
        parse-pack wire.runtime answer laws
          (uuid, record { ascii = tt; fits = omega arith }, text, inl refl) in
      (
        waiting channel_id ws request c,
        request,
        answered from_ws reply (k ∷ ks) t h,
        reply,
        answer,
        begin_sends wire c ws request channel_id (k ∷ ks) r w packs open_,
        refl,
        request-answered wire server_done from_ws request reply channel_id client_id t k ks h parses
            reply_packs from_open i known new,
        ground (arith, get-insert (k ∷ ks) (k ∷ ks) t h.server.connector_tokens, eq_refl (k ∷ ks)),
        refl,
        queue_waits channel_id ws request c,
        reply-waits wire is_done channel_id ws request reply (some (k ∷ ks)) c reply_parses,
        λ d. (refl, ground (arith, get-erase key key d.relay.message_queues, eq_refl key)),
      )
