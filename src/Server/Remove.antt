-- ===== src/Server/Remove.antt =====
-- The methods of `WSSocksServer` that remove tokens.
use pywssocks.Base.{
  list_eq, nat_eq, ℕ, Bool, true, false, Option, none, some, List, [], ◌∷◌, ◌++◌, if◌then◌else◌,
  ◌==◌, Result, ok, err, key_error,
}
use pywssocks.Base.Dict.{get, erase, contains}
use pywssocks.Base.Sets.{elem, discard}
use pywssocks.PortPool
use pywssocks.PortPool.{PortPool}
use pywssocks.Text.{Str}
use pywssocks.Message.Types.{Uuid}
use pywssocks.Server.State.{int_eq, ℤ, pos, negsuc, Server, cleanup_token, close_client}
use pywssocks.Server.Tokens.{schedule}

-- The loop over the clients of a token: each connection is closed by a task, and the client goes.
unfoldable pub drop_clients : List (Uuid × ℕ) → Server → Server
drop_clients [] s = s
drop_clients ((client_id, ws) ∷ rest) s =
    drop_clients rest
      (schedule (close_client ws) (record s { clients = erase client_id s.clients }))

abbrev pub drop_listed : Str → Option (List (Uuid × ℕ)) → Server → Server
drop_listed token none s = s
drop_listed token (some clients) s =
    let s' = drop_clients clients s in record s' { token_clients = erase token s'.token_clients }

-- "Close all client connections for this token".
unfoldable pub drop_token_clients : Str → Server → Server
unfolding drop_clients
drop_token_clients token s = drop_listed token (get token s.token_clients) s

-- What both methods do to a connector token.
unfoldable pub drop_connector : Str → Server → Server
unfolding drop_token_clients
drop_connector token s =
    let s' = drop_token_clients token (schedule (cleanup_token token) s) in
    record s' { connector_tokens = erase token s'.connector_tokens }

unfoldable pub remove_connector_token : Str → Server → Server × Bool
unfolding drop_connector
remove_connector_token token s =
    if contains token s.connector_tokens then (drop_connector token s, true) else (s, false)

-- The loop over the internal tokens of a reverse token.
unfoldable pub drop_internal : List Str → Server → Server
unfolding drop_token_clients
drop_internal [] s = s
drop_internal (token ∷ rest) s =
    let s' = drop_token_clients token s in
    drop_internal rest (record s' {
      tokens = erase token s'.tokens;
      token_indexes = erase token s'.token_indexes;
      token_options = erase token s'.token_options;
    })

abbrev pub drop_internal_of : Str → Option (List Str) → Server → Server
drop_internal_of token none s = s
drop_internal_of token (some internal) s =
    let s' = drop_internal internal s in
    record s' { internal_tokens = erase token s'.internal_tokens }

-- The loop over a snapshot of the connector tokens. Each of them is a connector token when its
-- turn comes, so that the call of `remove_token` takes its first branch.
unfoldable pub drop_connectors_of : Str → List (Str × Str) → Server → Server
unfolding drop_connector
drop_connectors_of token [] s = s
drop_connectors_of token ((connector_token, rt) ∷ rest) s =
    drop_connectors_of token rest (if rt == token then drop_connector connector_token s else s)

-- `self._socks_port_pool.put(port)`: a negative number is never held.
abbrev pub put_port : ℤ → PortPool → PortPool
put_port (pos port) pool = PortPool.put port pool
put_port (negsuc _) pool = pool

-- `l.remove(token)` on a list, where the ValueError is caught.
unfoldable pub remove_first : Str → List Str → List Str
remove_first token [] = []
remove_first token (t ∷ l) = let rest = remove_first token l in if t == token then l else t ∷ rest

-- "Clean up token related data", and what follows it.
unfoldable pub forget_token : Str → ℤ → Server → Server
unfolding remove_first
forget_token token port s = record s {
  tokens = erase token s.tokens;
  token_locks = discard token s.token_locks;
  token_indexes = erase token s.token_indexes;
  token_options = erase token s.token_options;
  pending_tokens = remove_first token s.pending_tokens;
  cancelled = if contains port s.socks_tasks then s.cancelled ++ (port ∷ []) else s.cancelled;
  socks_tasks = erase port s.socks_tasks;
  pool = put_port port s.pool;
}

-- `port = self._tokens[token]` comes after the internal tokens are gone: a token that is one of its
-- own raises KeyError here.
abbrev pub forget_listed : Str → Option ℤ → Server → Server × Result Bool
forget_listed token none s = (s, err key_error)
forget_listed token (some port) s = (forget_token token port s, ok true)

unfoldable pub drop_reverse : Str → Server → Server × Result Bool
unfolding forget_token drop_internal drop_connectors_of drop_token_clients
drop_reverse token s =
    let s' = drop_internal_of token (get token s.internal_tokens) s in
    let s'' = drop_connectors_of token s'.connector_tokens s' in
    let left = drop_token_clients token (schedule (cleanup_token token) s'') in
    forget_listed token (get token left.tokens) left

-- The loop over the forward clients: each connection is closed by a task.
unfoldable pub close_forward : List (Uuid × ℕ) → Server → Server
close_forward [] s = s
close_forward ((client_id, ws) ∷ rest) s = close_forward rest (schedule (close_client ws) s)

unfoldable pub drop_forward : Str → Server → Server
unfolding close_forward
drop_forward token s =
    let s' = close_forward s.forward_clients s in
    record s' { forward_clients = []; forward_tokens = discard token s'.forward_tokens }

unfoldable pub remove_other : Str → Server → Server × Result Bool
unfolding drop_reverse drop_forward
remove_other token s =
    if contains token s.tokens
    then drop_reverse token s
    else if elem token s.forward_tokens
    then (drop_forward token s, ok true)
    else (s, ok false)

unfoldable pub remove_token : Str → Server → Server × Result Bool
unfolding drop_connector remove_other
remove_token token s =
    if contains token s.connector_tokens
    then (drop_connector token s, ok true)
    else remove_other token s
