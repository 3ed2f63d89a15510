-- ===== src/Relay/Established.antt =====
-- What `_handle_socks_request` does with whole requests, and with a greeting in pieces.
use pywssocks.Base.{
  list_eq, nat_eq, ℕ, ◌+◌, ◌*◌, ◌≡◌, refl, ◌∙◌, ap, sym, true, false, ◌&&◌, Option, some, List, [],
  ◌∷◌, ◌++◌, take, drop, length, ok, struct_error, arith, take-append, take-all, drop-append,
  append-nil, eq_refl,
}
use pywssocks.Base.Sets.{discard}
use pywssocks.Text.{Str, Bytes, decode}
use pywssocks.Message.Types.{Message, Uuid, Runtime, tcp}
use pywssocks.Message.Pack.{pack_message, truthy}
use pywssocks.Message.Parse.{unpack_u16}
use pywssocks.Relay.Inet.{Inet}
use pywssocks.Relay.Session.{Session, End, push, received, unread, recv, sendall, send}
use pywssocks.Relay.Handshake.{
  reply, authenticate, choose_method, recv_request, recv_address, recv_port, add_queue,
  connect_request, answer_client, serve_client, handle_socks_request,
}

pub received-push : (n : ℕ) (f rest : Bytes) → n ≡ length f → received n (push (f ++ rest) []) ≡ f
received-push n [] [] h = refl
received-push n [] (x ∷ rest) h = ap (λ n. take n (x ∷ rest)) h
received-push n (x ∷ f) rest h = take-append n (x ∷ f) rest h

pub unread-push :
    (n : ℕ) (f rest : Bytes) → n ≡ length f → unread n (push (f ++ rest) []) ≡ push rest []
unread-push n [] [] h = refl
unread-push n [] (x ∷ rest) h = ap (λ n. push (drop n (x ∷ rest)) []) h
unread-push n (x ∷ f) rest h = ap (λ b. push b []) (drop-append n 0 (x ∷ f) rest (omega (arith, h)))

drop_all : (n : ℕ) (f : Bytes) → n ≡ length f → drop n f ≡ []
drop_all n f h = ap (drop n) (sym (append-nil f)) ∙ drop-append n 0 f [] (omega (arith, h))

-- A greeting with any methods, where no username and password are set.
greeted :
    (u p : Option Str) (n m : ℕ) (methods : Bytes) (more : List Bytes) (s : Session)
    → truthy u && truthy p ≡ false
    → n ≡ length (m ∷ methods)
    → s.incoming ≡ (0x05 ∷ n ∷ m ∷ methods) ∷ more
    → authenticate u p s
      ≡ (record s { incoming = more; sent = s.sent ++ (0x05 ∷ 0x00 ∷ []) }, End.done tt)
unfolding authenticate choose_method recv sendall
greeted u p n m methods more s unset size given =
    rw (given, take-all n (m ∷ methods) size, drop_all n (m ∷ methods) size, unset) refl

-- A CONNECT request for a domain name.
pub requested :
    (inet : Inet) (connect_id : Uuid) (v r len p1 p2 : ℕ) (name host rest : Bytes) (s : Session)
    → len ≡ length name
    → decode name ≡ some host
    → s.incoming ≡ (v ∷ 0x01 ∷ r ∷ 0x03 ∷ len ∷ (name ++ (p1 ∷ p2 ∷ rest))) ∷ []
    → recv_request inet connect_id s ≡ (
      record s { incoming = push rest []; queues = connect_id ∷ s.queues },
      End.done (connect_request tcp connect_id (some host) (some (p1 * 256 + p2))),
    )
unfolding recv_request recv_address recv_port recv add_queue unpack_u16
requested inet connect_id v r len p1 p2 name host rest s size text given =
    rw
      (
        given,
        received-push len name (p1 ∷ p2 ∷ rest) size,
        unread-push len name (p1 ∷ p2 ∷ rest) size,
        text,
      )
      refl

-- The message with the answer, for a channel.
abbrev pub success : Uuid → Option Str → Message
success channel_id error =
    Message.connect_response (record { success = true; channel_id = channel_id; error = error })

module _ (runtime : Runtime) (inet : Inet) (u p : Option Str) (connect_id channel_id : Uuid)
    (error : Option Str) (bound_port : ℕ) where
  -- A client that offers any methods in one piece and asks for a domain name and a port in the next
  -- one gets through, where no username and password are set and the other side answers with a
  -- success: it is sent the method 0 and a success reply, the other side is sent the packed connect
  -- message with the name and the port, the handler goes on with the channel of the answer, and its
  -- own queue is removed again.
  pub handle_socks_request-connects :
      (n m : ℕ) (methods : Bytes) (v r len p1 p2 : ℕ) (name host rest packed : Bytes) (s : Session)
      → truthy u && truthy p ≡ false
      → n ≡ length (m ∷ methods)
      → len ≡ length name
      → decode name ≡ some host
      → s.incoming
        ≡ (0x05 ∷ n ∷ m ∷ methods) ∷ (v ∷ 0x01 ∷ r ∷ 0x03 ∷ len ∷ (name ++ (p1 ∷ p2 ∷ rest))) ∷ []
      → pack_message runtime (connect_request tcp connect_id (some host) (some (p1 * 256 + p2)))
        ≡ ok packed
      → handle_socks_request runtime inet u p connect_id bound_port
          (some (success channel_id error))
          s
        ≡ (
          record {
            incoming = push rest [];
            sent = (s.sent ++ (0x05 ∷ 0x00 ∷ [])) ++ reply 0x00;
            forwarded = s.forwarded ++ (packed ∷ []);
            queues = discard connect_id s.queues;
            closed = true;
          },
          End.done channel_id,
        )
  unfolding handle_socks_request serve_client answer_client sendall send discard
  handle_socks_request-connects n m methods v r len p1 p2 name host rest packed s unset size
        name_size text given fits =
      rw
        (
          greeted u p n m methods ((v ∷ 0x01 ∷ r ∷ 0x03 ∷ len ∷ (name ++ (p1 ∷ p2 ∷ rest))) ∷ []) s
              unset size given,
          requested inet connect_id v r len p1 p2 name host rest
              (record s {
                incoming = (v ∷ 0x01 ∷ r ∷ 0x03 ∷ len ∷ (name ++ (p1 ∷ p2 ∷ rest))) ∷ [];
                sent = s.sent ++ (0x05 ∷ 0x00 ∷ []);
              })
              name_size text refl,
          fits,
          eq_refl connect_id,
        )
        refl

  -- `sock_recv` is taken to give as many bytes as it is asked for. A client whose first piece is a
  -- single byte gets a general failure, whatever it sends then, and nothing goes to the other side.
  pub split_greeting_fails :
      (b : ℕ) (more : List Bytes) (answer : Option Message) (s : Session)
      → s.incoming ≡ (b ∷ []) ∷ more
      → handle_socks_request runtime inet u p connect_id bound_port answer s ≡ (
        record s {
          incoming = more;
          sent = s.sent ++ reply 0x01;
          queues = discard connect_id s.queues;
          closed = true;
        },
        End.raised struct_error,
      )
  unfolding handle_socks_request serve_client authenticate recv
  split_greeting_fails b more answer s given = rw given refl
