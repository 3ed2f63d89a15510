-- ===== src/Server/Welcome.antt =====
-- Who is admitted: what `_handle_websocket` does with every authentication message.
use pywssocks.Base.{
  list_eq, nat_eq, ℕ, ◌≡◌, refl, ◌∙◌, ap, sym, subst, true, false, Option, none, some, [], ◌∷◌,
  ◌++◌, arith, eq_refl, Bool-cases, inl, inr, ok,
}
use pywssocks.Base.Dict.{get, contains, get-insert}
use pywssocks.Base.Sets.{elem}
use pywssocks.Text.{Str, Bytes, codes}
use pywssocks.Message.Types.{Uuid, Message, AuthMessage}
use pywssocks.Message.Pack.{pack_message}
use pywssocks.Server.State.{int_eq, ℤ, Server}
use pywssocks.Server.Ports.{IsValid}
use pywssocks.Server.Clients.{
  Kind, kind, register_client, register_forward, leaving_token, reverse_client, forward_client,
  connector_client, unknown, reverse_kind, connector_kind,
}
use pywssocks.Server.Visits.{HasJoined, register-HasJoined, is_listed}
use pywssocks.Server.Hub.{Hub, Wire, on_server, send, close, auth_response}
use pywssocks.Server.Admission.{greet_client, welcome, lacks_lock}
use pywssocks.Server.Sending.{greet_client-server}
use pywssocks.Server.Greeting.{
  IsWelcomed, greet_reverse-IsWelcomed, greet_forward-IsWelcomed, greet_connector-IsWelcomed,
}

-- A client whose token stands for nothing of its kind.
pub record IsStranger (m : AuthMessage) (s : Server) : Type 0 where
  pub no_reverse : m.reverse ≡ true → contains m.token s.tokens ≡ false
  pub no_forward : m.reverse ≡ false → elem m.token s.forward_tokens ≡ false
  pub no_connector : m.reverse ≡ false → contains m.token s.connector_tokens ≡ false

abbrev pub invalid_token : Message
invalid_token = auth_response false (some (codes "Invalid token"))

-- The reply to a stranger, where its connection takes it.
abbrev pub IsTurnedAway : Wire → ℕ → Hub → Hub → Type 0
IsTurnedAway wire ws h h' =
    (b : Bytes)
    → pack_message wire.runtime invalid_token ≡ ok b
    → wire.is_open ws ≡ true
    → (h'.sent ≡ h.sent ++ ((ws, b) ∷ [])) × (h'.closed ≡ h.closed ++ ((ws, 1008) ∷ []))

-- The four ends of an authentication, with what the server's maps say after each.
pub data Admission (wire : Wire) (m : AuthMessage) (client_id : Uuid) (ws : ℕ) (h h' : Hub)
    : Type 0 where
  as_reverse :
      (port : ℤ)
      → m.reverse ≡ true
      → get m.token h.server.tokens ≡ some port
      → HasJoined client_id ws (leaving_token m (reverse_client port) h.server) h.server h'.server
      → IsWelcomed wire ws h h'
      → Admission wire m client_id ws h h'
  as_forward :
      m.reverse ≡ false
      → elem m.token h.server.forward_tokens ≡ true
      → get client_id h'.server.forward_clients ≡ some ws
      → IsWelcomed wire ws h h'
      → Admission wire m client_id ws h h'
  as_connector :
      (reverse_token : Str)
      → m.reverse ≡ false
      → elem m.token h.server.forward_tokens ≡ false
      → get m.token h.server.connector_tokens ≡ some reverse_token
      → HasJoined client_id ws m.token h.server h'.server
      → IsWelcomed wire ws h h'
      → Admission wire m client_id ws h h'
  turned_away :
      IsStranger m h.server
      → h'.server ≡ h.server
      → IsTurnedAway wire ws h h'
      → Admission wire m client_id ws h h'

welcome-server :
    (wire : Wire) (m : AuthMessage) (client_id : Uuid) (ws : ℕ) (k : Kind) (h : Hub)
    → lacks_lock m k h.server ≡ false
    → (welcome wire m client_id ws k h).0.server ≡ register_client m (client_id, ws) k h.server
unfolding welcome
welcome-server wire m client_id ws k h lock =
    rw lock (greet_client-server wire ws k (on_server (register_client m (client_id, ws) k) h))

welcome-IsTurnedAway :
    (wire : Wire) (m : AuthMessage) (client_id : Uuid) (ws : ℕ) (h : Hub)
    → IsTurnedAway wire ws h (welcome wire m client_id ws unknown h).0
unfolding welcome greet_client send close register_client
welcome-IsTurnedAway wire m client_id ws h b packs open_ = rw (packs, open_) (refl, refl)

module _ (wire : Wire) (m : AuthMessage) (client_id : Uuid) (ws : ℕ) (h : Hub) where
  abbrev Ends : Kind → Type 0
  Ends k = Admission wire m client_id ws h (welcome wire m client_id ws k h).0

  joins :
      (k : Kind)
      → is_listed k ≡ true
      → lacks_lock m k h.server ≡ false
      → HasJoined client_id ws
          (leaving_token m k h.server)
          h.server
          (welcome wire m client_id ws k h).0.server
  joins k listed lock =
      subst (λ (s : Server). HasJoined client_id ws (leaving_token m k h.server) h.server s)
        (sym (welcome-server wire m client_id ws k h lock))
        (register-HasJoined m client_id ws k h.server listed)

  welcome_reverse-IsWelcomed :
      (port : ℤ)
      → elem m.token h.server.token_locks ≡ true
      → IsWelcomed wire ws h (welcome wire m client_id ws (reverse_client port) h).0
  unfolding welcome
  welcome_reverse-IsWelcomed port locked = rw locked (
      greet_reverse-IsWelcomed wire ws port
        (on_server (register_client m (client_id, ws) (reverse_client port)) h))

  welcome_forward-IsWelcomed : IsWelcomed wire ws h (welcome wire m client_id ws forward_client h).0
  unfolding welcome
  welcome_forward-IsWelcomed =
      greet_forward-IsWelcomed wire ws
        (on_server (register_client m (client_id, ws) forward_client) h)

  welcome_connector-IsWelcomed :
      (rt : Str) → IsWelcomed wire ws h (welcome wire m client_id ws (connector_client rt) h).0
  unfolding welcome
  welcome_connector-IsWelcomed rt =
      greet_connector-IsWelcomed wire ws rt
        (on_server (register_client m (client_id, ws) (connector_client rt)) h)

  turns_away : IsStranger m h.server → Ends unknown
  unfolding register_client
  turns_away stranger =
      turned_away stranger (welcome-server wire m client_id ws unknown h refl)
        (welcome-IsTurnedAway wire m client_id ws h)

  reverse-Ends :
      (o : Option ℤ)
      → IsValid h.server
      → m.reverse ≡ true
      → get m.token h.server.tokens ≡ o
      → Ends (reverse_kind o)
  unfolding is_listed
  reverse-Ends none v r e =
      turns_away
        (record { no_reverse = λ x. rw e refl; no_forward = λ x. cc; no_connector = λ x. cc })
  reverse-Ends (some port) v r e =
      let locked = v.locked m.token port e in
      as_reverse port r e (joins (reverse_client port) refl (rw locked refl))
        (welcome_reverse-IsWelcomed port locked)

  connector-Ends :
      (o : Option Str)
      → m.reverse ≡ false
      → elem m.token h.server.forward_tokens ≡ false
      → get m.token h.server.connector_tokens ≡ o
      → Ends (connector_kind o)
  unfolding is_listed
  connector-Ends none r f e =
      turns_away
        (record { no_reverse = λ x. cc; no_forward = λ x. f; no_connector = λ x. rw e refl })
  connector-Ends (some rt) r f e =
      as_connector rt r f e (joins (connector_client rt) refl refl)
        (welcome_connector-IsWelcomed rt)

  forward-Ends :
      m.reverse ≡ false → elem m.token h.server.forward_tokens ≡ true → Ends forward_client
  unfolding register_client register_forward
  forward-Ends r f =
      as_forward r f
        (ap (λ (s : Server). get client_id s.forward_clients)
            (welcome-server wire m client_id ws forward_client h refl)
          ∙ ground (
            arith,
            get-insert client_id client_id ws h.server.forward_clients,
            eq_refl client_id,
          ))
        welcome_forward-IsWelcomed

  -- In a valid server a client is admitted exactly if its token stands for something of its kind: a
  -- reverse client for a reverse token, another for a forward token or else, where its token is no
  -- forward token, for a connector token. Then it is in the maps and, where its connection is open
  -- and the message can be packed, the first message sent is its own and tells success. A stranger
  -- is told so, its connection is closed with 1008, and the server is as it was.
  pub welcome-Admission : IsValid h.server → Ends (kind m h.server)
  unfolding kind
  welcome-Admission v = elim (Bool-cases m.reverse) [
    | inl r ↦ simp r (reverse-Ends (get m.token h.server.tokens) v r refl)
    | inr r ↦ elim (Bool-cases (elem m.token h.server.forward_tokens)) [
      | inl f ↦ simp (r, f) (forward-Ends r f)
      | inr f ↦ simp (r, f) (connector-Ends (get m.token h.server.connector_tokens) r f refl)
    ]
  ]
