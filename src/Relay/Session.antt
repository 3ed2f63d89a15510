-- ===== src/Relay/Session.antt =====
-- What a SOCKS handler of relay.py works on: the client's socket, the WebSocket and the queues; and
-- its steps, which go on, return early or raise.
use pywssocks.Base.{ℕ, Bool, List, [], ◌∷◌, ◌++◌, take, drop, Result, ok, err, Exception}
use pywssocks.Text.{Bytes}
use pywssocks.Message.Types.{Uuid}

-- `incoming` holds the pieces that the client's bytes come in: `sock_recv` sees one of them at most,
-- and no piece means that the client has closed.
pub record Session : Type 0 where
  pub incoming : List Bytes
  pub sent : Bytes
  pub forwarded : List Bytes
  pub queues : List Uuid
  pub closed : Bool

pub data End {ℓ} (A : Type ℓ) : Type ℓ where
  done : A → End A
  returned : End A
  raised : Exception → End A

abbrev pub Act {ℓ} : Type ℓ → Type ℓ
Act A = Session → Session × End A

abbrev pub after {ℓ κ} : {A : Type ℓ} {B : Type κ} → Session × End A → (A → Act B) → Session × End B
after (s, End.done a) rest = rest a s
after (s, End.returned) rest = (s, End.returned)
after (s, End.raised e) rest = (s, End.raised e)

infixl 5 ◌>>=◌ ◌>>◌
abbrev pub ◌>>=◌ {ℓ κ} : {A : Type ℓ} {B : Type κ} → Act A → (A → Act B) → Act B
◌>>=◌ step rest s = after (step s) rest

abbrev pub ◌>>◌ {κ} : {B : Type κ} → Act (Unit {0}) → Act B → Act B
◌>>◌ step rest = step >>= λ u. rest

abbrev pub pure {ℓ} : {A : Type ℓ} → A → Act A
pure a s = (s, End.done a)

abbrev pub return_early {ℓ} : {A : Type ℓ} → Act A
return_early s = (s, End.returned)

-- A computation that may raise, as a step.
abbrev pub attempt {ℓ} : {A : Type ℓ} → Result A → Act A
attempt (ok a) s = (s, End.done a)
attempt (err e) s = (s, End.raised e)

-- What is left of a piece comes before the other pieces.
abbrev pub push : Bytes → List Bytes → List Bytes
push [] rest = rest
push (b ∷ bs) rest = (b ∷ bs) ∷ rest

abbrev pub received : ℕ → List Bytes → Bytes
received n [] = []
received n (piece ∷ rest) = take n piece

abbrev pub unread : ℕ → List Bytes → List Bytes
unread n [] = []
unread n (piece ∷ rest) = push (drop n piece) rest

-- `loop.sock_recv(socks_socket, n)`
unfoldable pub recv : ℕ → Act Bytes
recv n s = (record s { incoming = unread n s.incoming }, End.done (received n s.incoming))

-- `loop.sock_sendall(socks_socket, b)`
unfoldable pub sendall : Bytes → Act (Unit {0})
sendall b s = (record s { sent = s.sent ++ b }, End.done tt)

-- `websocket.send(b)`
unfoldable pub send : Bytes → Act (Unit {0})
send b s = (record s { forwarded = s.forwarded ++ (b ∷ []) }, End.done tt)
