-- ===== src/Server/Sending.antt =====
-- What is sent to the clients leaves the maps of the server as they are.
use pywssocks.Base.{
  list_eq, nat_eq, ℕ, ◌≡◌, refl, ◌∙◌, ap, sym, Bool, true, false, none, some, List, [], ◌∷◌, Result,
  ok, err,
}
use pywssocks.Base.Dict.{get}
use pywssocks.Text.{Str, Bytes, codes}
use pywssocks.Message.Types.{Uuid, Message}
use pywssocks.Message.Pack.{pack_message}
use pywssocks.Server.State.{int_eq}
use pywssocks.Server.Clients.{
  list_or_empty, Kind, reverse_client, forward_client, connector_client, unknown,
}
use pywssocks.Server.Hub.{
  Hub, Wire, Outcome, Step, after, ◌then_do◌, change, send, close, send_each, send_to_tokens,
  broadcast_partners_to_connectors, broadcast_partners_to_reverse_clients, auth_response, transmit,
  send_packed, partners_message, reverse_count, connector_count, keys,
}
use pywssocks.Server.Admission.{greet_client}

-- Sending changes nothing of the server.
send-server :
    (wire : Wire) (ws : ℕ) (msg : Message) (h : Hub) → (send wire ws msg h).0.server ≡ h.server
unfolding send
send-server wire ws msg h = packed_server (pack_message wire.runtime msg)
  where
    transmit_server : (b : Bool) (p : Bytes) → (transmit b ws p h).0.server ≡ h.server
    transmit_server true p = refl
    transmit_server false p = refl

    packed_server : (r : Result Bytes) → (send_packed wire ws r h).0.server ≡ h.server
    packed_server (ok p) = transmit_server (wire.is_open ws) p
    packed_server (err e) = refl

send_each-server :
    (wire : Wire) (msg : Message) (l : List (Uuid × ℕ)) (h : Hub)
    → (send_each wire msg l h).server ≡ h.server
unfolding send_each
send_each-server wire msg [] h = refl
send_each-server wire msg ((c, ws) ∷ l) h =
    send_each-server wire msg l _ ∙ send-server wire ws msg h

send_to_tokens-server :
    (wire : Wire) (msg : Message) (ts : List Str) (h : Hub)
    → (send_to_tokens wire msg ts h).server ≡ h.server
unfolding send_to_tokens
send_to_tokens-server wire msg [] h = refl
send_to_tokens-server wire msg (t ∷ ts) h =
    let l = list_or_empty (get t h.server.token_clients) in
    send_to_tokens-server wire msg ts (send_each wire msg l h) ∙ send_each-server wire msg l h

-- Two steps that leave the server as it was.
then_do-server :
    (first next : Step) (h : Hub)
    → ((g : Hub) → (first g).0.server ≡ g.server)
    → ((g : Hub) → (next g).0.server ≡ g.server)
    → ((first then_do next) h).0.server ≡ h.server
then_do-server first next h f n = both (first h) refl
  where
    both : (r : Hub × Outcome) → first h ≡ r → (after r next).0.server ≡ h.server
    both (g, Outcome.going) e = n g ∙ sym (ap (λ (p : Hub × Outcome). p.0.server) e) ∙ f h
    both (g, Outcome.connection_closed) e = sym (ap (λ (p : Hub × Outcome). p.0.server) e) ∙ f h
    both (g, Outcome.failed) e = sym (ap (λ (p : Hub × Outcome). p.0.server) e) ∙ f h

to_connectors-server :
    (wire : Wire) (h : Hub) → (broadcast_partners_to_connectors wire h).server ≡ h.server
unfolding broadcast_partners_to_connectors
to_connectors-server wire h =
    send_to_tokens-server wire (partners_message (reverse_count h.server))
      (keys h.server.connector_tokens) h

to_reverse_clients-server :
    (wire : Wire) (rt : Str) (h : Hub)
    → (broadcast_partners_to_reverse_clients wire rt h).server ≡ h.server
unfolding broadcast_partners_to_reverse_clients
to_reverse_clients-server wire rt h =
    send_each-server wire (partners_message (connector_count rt h.server))
      (list_or_empty (get rt h.server.token_clients)) h

pub greet_client-server :
    (wire : Wire) (ws : ℕ) (k : Kind) (h : Hub) → (greet_client wire ws k h).0.server ≡ h.server
unfolding greet_client close
greet_client-server wire ws (reverse_client port) h =
    then_do-server (send wire ws (auth_response true none))
      (change (broadcast_partners_to_connectors wire)) h
      (send-server wire ws (auth_response true none)) (to_connectors-server wire)
greet_client-server wire ws forward_client h = send-server wire ws (auth_response true none) h
greet_client-server wire ws (connector_client rt) h =
    then_do-server
      (send wire ws (auth_response true none)
        then_do change (broadcast_partners_to_reverse_clients wire rt))
      (λ g. send wire ws (partners_message (reverse_count g.server)) g) h
      (λ g.
        then_do-server (send wire ws (auth_response true none))
          (change (broadcast_partners_to_reverse_clients wire rt)) g
          (send-server wire ws (auth_response true none)) (to_reverse_clients-server wire rt))
      (λ g. send-server wire ws (partners_message (reverse_count g.server)) g)
greet_client-server wire ws unknown h =
    then_do-server (send wire ws (auth_response false (some (codes "Invalid token"))))
      (change (close ws 1008)) h
      (send-server wire ws (auth_response false (some (codes "Invalid token")))) (λ g. refl)
