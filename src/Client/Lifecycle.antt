-- ===== src/Client/Lifecycle.antt =====
-- When the client's loop over its attempts to connect ends.
use pywssocks.Base.{
  list_eq, nat_eq, ℕ, ◌≡◌, refl, ◌∙◌, Bool, true, false, not, none, some, List, [], ◌∷◌, ◌++◌, ok,
  ◌⊎◌, inl, inr,
}
use pywssocks.Text.{Bytes, codes}
use pywssocks.Message.Types.{Message, AuthResponseMessage}
use pywssocks.Message.Pack.{pack_message}
use pywssocks.Message.Parse.{parse_message}
use pywssocks.Server.Hub.{Wire}
use pywssocks.Client.State.{Client}
use pywssocks.Client.Dispatcher.{binary, add_message_queue}
use pywssocks.Client.Connection.{
  Attempt, receive_auth, send_auth, start_socks, auth_request, attempt_on, disconnect, after_ending,
  attempt, attempts, go_on, is_final,
}

-- The three events that an attempt leaves behind it.
pub record IsDisconnected (c : Client) : Type 0 where
  pub no_websocket : c.websocket ≡ none
  pub not_connected : c.connected ≡ false
  pub is_disconnected : c.disconnected ≡ true

-- An attempt that gets through to the server with the authentication of a client, and what the
-- server then says: that it refuses it, or only that it closes the connection for good.
pub data IsRejected (wire : Wire) (c : Client) (a : Attempt) : Type 0 where
  refused :
      (ws : ℕ) (b answer : Bytes) (m : AuthResponseMessage)
      → a.connection ≡ some ws
      → pack_message wire.runtime (auth_request a.instance_id c) ≡ ok b
      → wire.is_open ws ≡ true
      → a.answer ≡ some (binary answer)
      → parse_message wire.runtime answer ≡ ok (Message.auth_response m)
      → m.success ≡ false
      → IsRejected wire c a
  closed_for_good :
      (ws : ℕ) (b : Bytes)
      → a.connection ≡ some ws
      → pack_message wire.runtime (auth_request a.instance_id c) ≡ ok b
      → wire.is_open ws ≡ true
      → a.answer ≡ none
      → (a.code ≡ some 1000) ⊎ (a.code ≡ some 1008)
      → IsRejected wire c a

abbrev pub opened : ℕ → Bytes → Client → Client
opened ws b c =
    let c' =
      add_message_queue (codes "auth")
        (start_socks (not c.reverse) (record c { websocket = some ws })) in
    record c' { sent = c'.sent ++ ((ws, b) ∷ []) }

-- An attempt whose message goes out is decided by the answer.
pub attempt_on-receive_auth :
    (is_done : ℕ → Bool) (wire : Wire) (a : Attempt) (c : Client) (ws : ℕ) (b : Bytes)
    → a.connection ≡ some ws
    → pack_message wire.runtime (auth_request a.instance_id c) ≡ ok b
    → wire.is_open ws ≡ true
    → attempt_on is_done wire a a.connection c
      ≡ receive_auth is_done wire ws a a.answer (opened ws b c)
unfolding attempt_on send_auth
attempt_on-receive_auth is_done wire a c ws b found packs open_ = rw (found, packs, open_) refl

attempt-IsDisconnected :
    (is_done : ℕ → Bool) (wire : Wire) (a : Attempt) (c : Client)
    → IsDisconnected (attempt is_done wire a c).0
unfolding attempt disconnect
attempt-IsDisconnected is_done wire a c = record {
  no_websocket = refl;
  not_connected = refl;
  is_disconnected = refl;
}

rejected-stops :
    (is_done : ℕ → Bool) (wire : Wire) (a : Attempt) (c : Client)
    → IsRejected wire c a
    → (attempt is_done wire a c).1 ≡ false
unfolding attempt receive_auth after_ending
rejected-stops is_done wire a c (refused ws b answer m found packs open_ got parses fails) =
    rw (attempt_on-receive_auth is_done wire a c ws b found packs open_, got, parses, fails) refl
rejected-stops is_done wire a c (closed_for_good ws b found packs open_ got final) =
    rw (attempt_on-receive_auth is_done wire a c ws b found packs open_, got, is_last final) refl
  where
    is_last : (a.code ≡ some 1000) ⊎ (a.code ≡ some 1008) → is_final a.code ≡ true
    is_last (inl normal) = rw normal refl
    is_last (inr policy) = rw policy refl

-- The loop over attempts that come one after another.
attempts-append :
    (is_done : ℕ → Bool) (wire : Wire) (before after_ : List Attempt) (c : Client)
    → attempts is_done wire (before ++ after_) c
      ≡ go_on (attempts is_done wire before c) (attempts is_done wire after_)
unfolding attempts
attempts-append is_done wire [] after_ c = refl
attempts-append is_done wire (a ∷ before) after_ c =
    both (attempt is_done wire a c) (attempts-append is_done wire before after_)
  where
    both :
        (r : Client × Bool)
        → ((d : Client)
            → attempts is_done wire (before ++ after_) d
              ≡ go_on (attempts is_done wire before d) (attempts is_done wire after_))
        → go_on r (attempts is_done wire (before ++ after_))
          ≡ go_on (go_on r (attempts is_done wire before)) (attempts is_done wire after_)
    both (d, true) rest = rest d
    both (d, false) rest = refl

-- Nothing follows an attempt that ends the loop.
attempts-stop :
    (is_done : ℕ → Bool) (wire : Wire) (a : Attempt) (later : List Attempt) (c : Client)
    → (attempt is_done wire a c).1 ≡ false
    → attempts is_done wire (a ∷ later) c ≡ ((attempt is_done wire a c).0, false)
unfolding attempts
attempts-stop is_done wire a later c stops = last (attempt is_done wire a c) stops
  where
    last : (r : Client × Bool) → r.1 ≡ false → go_on r (attempts is_done wire later) ≡ (r.0, false)
    last (d, true) f = cc
    last (d, false) f = refl

-- Once the server refuses the client or closes the connection with 1000 or 1008 before it answers,
-- the loop is over, reconnect or not: whatever attempts could follow, none is made, and the client
-- has no connection and is marked as disconnected.
pub attempts-end :
    (is_done : ℕ → Bool) (wire : Wire) (before later : List Attempt) (a : Attempt) (c c' : Client)
    → attempts is_done wire before c ≡ (c', true)
    → IsRejected wire c' a
    → (attempts is_done wire (before ++ (a ∷ later)) c ≡ ((attempt is_done wire a c').0, false))
      × IsDisconnected (attempt is_done wire a c').0
attempts-end is_done wire before later a c c' runs rejected = (
  attempts-append is_done wire before (a ∷ later) c
      ∙ rw runs (attempts-stop is_done wire a later c' (rejected-stops is_done wire a c' rejected)),
  attempt-IsDisconnected is_done wire a c',
)
