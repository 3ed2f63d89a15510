-- ===== src/Server/Greeting.antt =====
-- What an admitted client is sent first, by `_handle_websocket`.
use pywssocks.Base.{
  list_eq, nat_eq, ℕ, ◌≡◌, refl, ◌∙◌, ap, sym, Bool, true, false, none, List, [], ◌∷◌, ◌++◌, Result,
  ok, err, append_assoc, append-nil,
}
use pywssocks.Base.Dict.{get}
use pywssocks.Text.{Str, Bytes}
use pywssocks.Message.Types.{Uuid, Message}
use pywssocks.Message.Pack.{pack_message}
use pywssocks.Server.State.{ℤ}
use pywssocks.Server.Clients.{list_or_empty, reverse_client, forward_client, connector_client}
use pywssocks.Server.Hub.{
  Hub, Wire, send, send_each, send_to_tokens, broadcast_partners_to_connectors,
  broadcast_partners_to_reverse_clients, auth_response, transmit, send_packed, partners_message,
  reverse_count, connector_count, keys,
}
use pywssocks.Server.Admission.{greet_client}

-- What was sent before is still there, and nothing was sent before it.
abbrev Grows : Hub → Hub → Type 0
Grows h h' = (rest : List (ℕ × Bytes)) × (h'.sent ≡ h.sent ++ rest)

Grows-refl : (h : Hub) → Grows h h
Grows-refl h = ([], sym (append-nil h.sent))

Grows-trans : (f g h : Hub) → Grows f g → Grows g h → Grows f h
Grows-trans f g h (r, e) (r', e') = (r ++ r', e' ∙ ap (λ l. l ++ r') e ∙ append_assoc f.sent r r')

send-Grows : (wire : Wire) (ws : ℕ) (msg : Message) (h : Hub) → Grows h (send wire ws msg h).0
unfolding send
send-Grows wire ws msg h = packed_grows (pack_message wire.runtime msg)
  where
    transmit_grows : (b : Bool) (p : Bytes) → Grows h (transmit b ws p h).0
    transmit_grows true p = ((ws, p) ∷ [], refl)
    transmit_grows false p = Grows-refl h

    packed_grows : (r : Result Bytes) → Grows h (send_packed wire ws r h).0
    packed_grows (ok p) = transmit_grows (wire.is_open ws) p
    packed_grows (err e) = Grows-refl h

send_each-Grows :
    (wire : Wire) (msg : Message) (l : List (Uuid × ℕ)) (h : Hub) → Grows h (send_each wire msg l h)
unfolding send_each
send_each-Grows wire msg [] h = Grows-refl h
send_each-Grows wire msg ((c, ws) ∷ l) h =
    let next = (send wire ws msg h).0 in
    Grows-trans h next (send_each wire msg l next) (send-Grows wire ws msg h)
      (send_each-Grows wire msg l next)

send_to_tokens-Grows :
    (wire : Wire) (msg : Message) (ts : List Str) (h : Hub) → Grows h (send_to_tokens wire msg ts h)
unfolding send_to_tokens
send_to_tokens-Grows wire msg [] h = Grows-refl h
send_to_tokens-Grows wire msg (t ∷ ts) h =
    let l = list_or_empty (get t h.server.token_clients) in
    let next = send_each wire msg l h in
    Grows-trans h next (send_to_tokens wire msg ts next) (send_each-Grows wire msg l h)
      (send_to_tokens-Grows wire msg ts next)

to_connectors-Grows : (wire : Wire) (h : Hub) → Grows h (broadcast_partners_to_connectors wire h)
unfolding broadcast_partners_to_connectors
to_connectors-Grows wire h =
    send_to_tokens-Grows wire (partners_message (reverse_count h.server))
      (keys h.server.connector_tokens) h

to_reverse_clients-Grows :
    (wire : Wire) (rt : Str) (h : Hub) → Grows h (broadcast_partners_to_reverse_clients wire rt h)
unfolding broadcast_partners_to_reverse_clients
to_reverse_clients-Grows wire rt h =
    send_each-Grows wire (partners_message (connector_count rt h.server))
      (list_or_empty (get rt h.server.token_clients)) h

-- The first message to the client tells it that it is admitted, where its connection takes it.
abbrev pub IsWelcomed : Wire → ℕ → Hub → Hub → Type 0
IsWelcomed wire ws h h' =
    (b : Bytes)
    → pack_message wire.runtime (auth_response true none) ≡ ok b
    → wire.is_open ws ≡ true
    → (rest : List (ℕ × Bytes)) × (h'.sent ≡ h.sent ++ ((ws, b) ∷ rest))

first_sent :
    (ws : ℕ) (b : Bytes) (h told h' : Hub)
    → told.sent ≡ h.sent ++ ((ws, b) ∷ [])
    → Grows told h'
    → (rest : List (ℕ × Bytes)) × (h'.sent ≡ h.sent ++ ((ws, b) ∷ rest))
first_sent ws b h told h' first (rest, e) =
    (rest, e ∙ ap (λ l. l ++ rest) first ∙ append_assoc h.sent ((ws, b) ∷ []) rest)

send_is :
    (wire : Wire) (ws : ℕ) (msg : Message) (b : Bytes) (h : Hub)
    → pack_message wire.runtime msg ≡ ok b
    → wire.is_open ws ≡ true
    → send wire ws msg h ≡ transmit true ws b h
unfolding send
send_is wire ws msg b h packs open_ = rw (packs, open_) refl

pub greet_reverse-IsWelcomed :
    (wire : Wire) (ws : ℕ) (port : ℤ) (h : Hub)
    → IsWelcomed wire ws h (greet_client wire ws (reverse_client port) h).0
unfolding greet_client
greet_reverse-IsWelcomed wire ws port h b packs open_ =
    let told = record h { sent = h.sent ++ ((ws, b) ∷ []) } in
    rw (send_is wire ws (auth_response true none) b h packs open_) (
      first_sent ws b h told (broadcast_partners_to_connectors wire told) refl
        (to_connectors-Grows wire told))

pub greet_forward-IsWelcomed :
    (wire : Wire) (ws : ℕ) (h : Hub)
    → IsWelcomed wire ws h (greet_client wire ws forward_client h).0
unfolding greet_client
greet_forward-IsWelcomed wire ws h b packs open_ =
    rw (send_is wire ws (auth_response true none) b h packs open_) ([], refl)

pub greet_connector-IsWelcomed :
    (wire : Wire) (ws : ℕ) (rt : Str) (h : Hub)
    → IsWelcomed wire ws h (greet_client wire ws (connector_client rt) h).0
unfolding greet_client
greet_connector-IsWelcomed wire ws rt h b packs open_ =
    let told = record h { sent = h.sent ++ ((ws, b) ∷ []) } in
    let next = broadcast_partners_to_reverse_clients wire rt told in
    rw (send_is wire ws (auth_response true none) b h packs open_) (
      first_sent ws b h told (send wire ws (partners_message (reverse_count next.server)) next).0
        refl
        (Grows-trans told next (send wire ws (partners_message (reverse_count next.server)) next).0
          (to_reverse_clients-Grows wire rt told)
          (send-Grows wire ws (partners_message (reverse_count next.server)) next)))
