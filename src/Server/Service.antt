-- ===== src/Server/Service.antt =====
-- Over which connection a request of a SOCKS client is served.
use pywssocks.Base.{
  list_eq, nat_eq, ℕ, zero, suc, ◌+◌, ◌%◌, ◌≡◌, ◌≢◌, refl, ap, sym, subst, Bool, true, false, ◌||◌,
  Option, none, some, List, [], ◌∷◌, ◌==◌, arith, eq_refl, Bool-cases, inl, inr, ◌⊎◌, length,
  get_elem?,
}
use pywssocks.Base.Dict.{get, contains}
use pywssocks.Base.Sets.{elem}
use pywssocks.Text.{Str}
use pywssocks.Message.Types.{Uuid}
use pywssocks.Server.State.{Server}
use pywssocks.Server.Tokens.{get_next_websocket, next_of, index_or_zero, client_at}
use pywssocks.Server.Socks.{
  is_filled, wait_for_clients, refuse, serve, missing_lock, missing_token, no_client, Service,
  username_of, password_of, serve_next, choose, choose_after, handle_request,
}

-- A connection of a client in a list.
unfoldable pub has_connection : ℕ → List (Uuid × ℕ) → Bool
has_connection ws [] = false
has_connection ws ((cid, v) ∷ l) = v == ws || has_connection ws l

-- A connection of the token, with the username and the password that the token asks for.
pub record IsOwn (token : Str) (s : Server) (ws : ℕ) (username password : Option Str) : Type 0 where
  clients : List (Uuid × ℕ)
  pub listed : get token s.token_clients ≡ some clients
  pub own : has_connection ws clients ≡ true
  pub name : username ≡ username_of (get token s.token_options)
  pub word : password ≡ password_of (get token s.token_options)

elem_connection :
    (l : List (Uuid × ℕ)) (i : ℕ) (client : Uuid × ℕ)
    → get_elem? l i ≡ some client
    → has_connection client.1 l ≡ true
unfolding has_connection
elem_connection [] i client h = cc
elem_connection ((cid, v) ∷ l) zero client h =
    ground (arith, eq_refl v, ap (λ o. client_at 0 (cid, v) o) h)
elem_connection ((cid, v) ∷ l) (suc i) client h = ground (arith, elem_connection l i client h)

client_at-own :
    (c : Uuid × ℕ) (cs : List (Uuid × ℕ)) (i : ℕ) (o : Option (Uuid × ℕ))
    → get_elem? (c ∷ cs) i ≡ o
    → has_connection (client_at i c o) (c ∷ cs) ≡ true
unfolding has_connection
client_at-own c cs i none h = ground (arith, eq_refl c.1)
client_at-own c cs i (some client) h = elem_connection (c ∷ cs) i client h

abbrev connection_of : Service → ℕ
connection_of (serve ws u p) = ws
connection_of (refuse reason) = 0
connection_of missing_lock = 0
connection_of missing_token = 0

abbrev username_in : Service → Option Str
username_in (serve ws u p) = u
username_in (refuse reason) = none
username_in missing_lock = none
username_in missing_token = none

abbrev password_in : Service → Option Str
password_in (serve ws u p) = p
password_in (refuse reason) = none
password_in missing_lock = none
password_in missing_token = none

none_serves :
    (b : Bool) (ws : ℕ) (username password : Option Str) → no_client b ≢ serve ws username password
none_serves true ws username password e = cc
none_serves false ws username password e = cc

serve_next-IsOwn :
    (token : Str) (s : Server) (o : Option (List (Uuid × ℕ))) (ws : ℕ)
    (username password : Option Str)
    → get token s.token_clients ≡ o
    → (serve_next token (next_of token o s)).1 ≡ serve ws username password
    → IsOwn token s ws username password
unfolding next_of
serve_next-IsOwn token s none ws username password h served =
    absurd (none_serves (contains token s.tokens) ws username password served)
serve_next-IsOwn token s (some []) ws username password h served =
    absurd (none_serves (contains token s.tokens) ws username password served)
serve_next-IsOwn token s (some (c ∷ cs)) ws username password h served =
    let i = (index_or_zero (get token s.token_indexes) + 1) % length (c ∷ cs) in
    record {
      clients = c ∷ cs;
      listed = h;
      own =
          subst (λ (w : ℕ). has_connection w (c ∷ cs) ≡ true) (ap connection_of served)
            (client_at-own c cs i (get_elem? (c ∷ cs) i) refl);
      name = sym (ap username_in served);
      word = sym (ap password_in served);
    }

choose-IsOwn :
    (token : Str) (s : Server) (ws : ℕ) (username password : Option Str)
    → (choose token s).1 ≡ serve ws username password
    → IsOwn token s ws username password
unfolding choose get_next_websocket
choose-IsOwn token s ws username password served = elim (Bool-cases (elem token s.token_locks)) [
  | inl lock ↦
      serve_next-IsOwn token s (get token s.token_clients) ws username password refl
        (rw lock at served)
  | inr no_lock ↦ absurd (not_served (rw no_lock at served))
]
  where
    not_served : missing_lock ≡ serve ws username password → ⊥
    not_served e = subst is_missing e tt
      where
        is_missing : Service → Type 0
        is_missing missing_lock = Unit
        is_missing missing_token = Unit
        is_missing (serve w u p) = ⊥
        is_missing (refuse reason) = ⊥

abbrev pub IsAmong : Server → List Server → Type 0
IsAmong s [] = ⊥
IsAmong s (v ∷ views) = (v ≡ s) ⊎ IsAmong s views

-- The wait ends at a server that was looked at.
wait_for_clients-IsAmong :
    (token : Str) (views : List Server) (s : Server)
    → wait_for_clients token views ≡ some s
    → IsAmong s views
unfolding wait_for_clients
wait_for_clients-IsAmong token [] s found = cc
wait_for_clients-IsAmong token (v ∷ views) s found =
    elim (Bool-cases (is_filled (get token v.token_clients))) [
      | inl here ↦ inl (some_injective (rw here at found))
      | inr later ↦ inr (wait_for_clients-IsAmong token views s (rw later at found))
    ]
  where
    some_injective : some v ≡ some s → v ≡ s
    some_injective e = cc

choose_after-IsOwn :
    (token : Str) (s : Server) (o : Option Server) (views : List Server) (ws : ℕ)
    (username password : Option Str)
    → wait_for_clients token views ≡ o
    → (choose_after token s o).1 ≡ serve ws username password
    → (later : Server) × IsAmong later views × IsOwn token later ws username password
choose_after-IsOwn token s none views ws username password found served =
    absurd (not_refused served)
  where
    not_refused : refuse 3 ≡ serve ws username password → ⊥
    not_refused e = subst is_refusal e tt
      where
        is_refusal : Service → Type 0
        is_refusal (refuse reason) = Unit
        is_refusal (serve w u p) = ⊥
        is_refusal missing_lock = ⊥
        is_refusal missing_token = ⊥
choose_after-IsOwn token s (some later) views ws username password found served = (
  later,
  wait_for_clients-IsAmong token views later found,
  choose-IsOwn token later ws username password served,
)

-- A request of a SOCKS client that is served goes over a connection that stood under its token when
-- the connection was chosen, in the server at the start or in one that the wait has looked at, and
-- is asked for just the username and the password that the token's options then have.
pub handle_request-IsOwn :
    (token : Str) (s : Server) (views : List Server) (ws : ℕ) (username password : Option Str)
    → (handle_request token s views).1 ≡ serve ws username password
    → (later : Server) × IsAmong later (s ∷ views) × IsOwn token later ws username password
unfolding handle_request
handle_request-IsOwn token s views ws username password served =
    elim (Bool-cases (contains token s.token_clients)) [
      | inl here ↦ (s, inl refl, choose-IsOwn token s ws username password (rw here at served))
      | inr waits ↦
          let (later, among, own) =
            choose_after-IsOwn token s (wait_for_clients token views) views ws username password
              refl (rw waits at served) in
          (later, inr among, own)
    ]
