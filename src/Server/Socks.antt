-- ===== src/Server/Socks.antt =====
-- `_handle_socks_request` of `WSSocksServer` up to the handshake, and the answers to HTTP requests.
use pywssocks.Base.{
  list_eq, nat_eq, ℕ, Bool, true, false, Option, none, some, List, [], ◌∷◌, if◌then◌else◌, ◌==◌,
}
use pywssocks.Base.Dict.{get, contains}
use pywssocks.Base.Sets.{elem}
use pywssocks.Text.{Str, codes}
use pywssocks.Message.Types.{Uuid}
use pywssocks.Server.State.{Server, TokenOptions}
use pywssocks.Server.Tokens.{get_next_websocket}

-- `token in self._token_clients and self._token_clients[token]`
abbrev pub is_filled : Option (List (Uuid × ℕ)) → Bool
is_filled none = false
is_filled (some []) = false
is_filled (some (c ∷ cs)) = true

-- The wait of up to ten seconds: `views` are the servers that the loop finds, one for each look.
unfoldable pub wait_for_clients : Str → List Server → Option Server
wait_for_clients token [] = none
wait_for_clients token (s ∷ views) =
    let rest = wait_for_clients token views in
    if is_filled (get token s.token_clients) then some s else rest

-- What becomes of a request: it is refused with a reason, or served over a connection with a
-- username and a password to ask for, or a KeyError is raised.
pub data Service : Type 0 where
  refuse : ℕ → Service
  serve : ℕ → Option Str → Option Str → Service
  missing_lock missing_token : Service

-- "Get auth from token options"
abbrev pub username_of : Option TokenOptions → Option Str
username_of none = none
username_of (some options) = options.username

abbrev pub password_of : Option TokenOptions → Option Str
password_of none = none
password_of (some options) = options.password

-- The warning names the port of the token.
abbrev pub no_client : Bool → Service
no_client true = refuse 3
no_client false = missing_token

abbrev pub serve_next : Str → Server × Option ℕ → Server × Service
serve_next token (s, none) = (s, no_client (contains token s.tokens))
serve_next token (s, some ws) =
    let options = get token s.token_options in
    (s, serve ws (username_of options) (password_of options))

-- "Use round-robin to get websocket connection"
unfoldable pub choose : Str → Server → Server × Service
choose token s =
    if elem token s.token_locks
    then serve_next token (get_next_websocket token s)
    else (s, missing_lock)

abbrev pub choose_after : Str → Server → Option Server → Server × Service
choose_after token s none = (s, refuse 3)
choose_after token s (some later) = choose token later

unfoldable pub handle_request : Str → Server → List Server → Server × Service
unfolding wait_for_clients choose
handle_request token s views =
    if contains token s.token_clients
    then choose token s
    else choose_after token s (wait_for_clients token views)

-- `_process_request`, by the path of the request: the WebSocket handshake goes on, or there is an
-- answer with a status.
pub data HttpAnswer : Type 0 where
  handshake : HttpAnswer
  respond : ℕ → HttpAnswer

unfoldable pub process_request : Str → HttpAnswer
process_request path =
    if path == codes "/socket"
    then handshake
    else if path == codes "/"
    then respond 200
    else respond 404
