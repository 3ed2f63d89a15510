-- ===== src/Server/Tokens.antt =====
-- The methods of `WSSocksServer` that add tokens, and the choice of a client.
use pywssocks.Base.{
  list_eq, nat_eq, ℕ, ◌+◌, ◌%◌, Bool, false, not, Option, none, some, List, [], ◌∷◌, ◌++◌,
  if◌then◌else◌, ◌==◌, length, get_elem?,
}
use pywssocks.Base.Dict.{get, insert, contains}
use pywssocks.Base.Sets.{add}
use pywssocks.PortPool
use pywssocks.PortPool.{PortPool}
use pywssocks.Text.{Str}
use pywssocks.Message.Types.{Uuid}
use pywssocks.Server.State.{ℤ, pos, negsuc, Server, Task, pending_token, TokenOptions}

-- `self._loop.create_task(task)`, where the loop runs.
abbrev pub schedule : Task → Server → Server
schedule task s = record s {
  scheduled = if s.loop then s.scheduled ++ (task ∷ []) else s.scheduled;
}

-- A token that is not given is made up from random characters: `made`.
abbrev pub or_made : Option Str → Str → Str
or_made none made = made
or_made (some token) made = token

-- `not reverse_token or reverse_token not in self._tokens`
abbrev pub is_reverse : Option Str → Server → Bool
is_reverse none s = false
is_reverse (some []) s = false
is_reverse (some (c ∷ t)) s = contains (c ∷ t) s.tokens

abbrev pub text_of : Option Str → Str
text_of none = []
text_of (some t) = t

unfoldable pub add_connector_token : Str → Option Str → Option Str → Server → Server × Option Str
add_connector_token made connector_token reverse_token s =
    let token = or_made connector_token made in
    if not (is_reverse reverse_token s)
    then (s, none)
    else if contains token s.connector_tokens
    then (s, none)
    else (
      record s { connector_tokens = insert token (text_of reverse_token) s.connector_tokens },
      some token,
    )

-- The end of `add_reverse_token`, for a new token and its port.
unfoldable pub register : Str → ℤ → TokenOptions → Server → Server
register token port options s =
    if s.loop
    then record s {
      tokens = insert token port s.tokens;
      token_locks = add token s.token_locks;
      token_options = insert token options s.token_options;
      scheduled = s.scheduled ++ (pending_token token ∷ []);
    }
    else record s {
      tokens = insert token port s.tokens;
      token_locks = add token s.token_locks;
      token_options = insert token options s.token_options;
      pending_tokens = s.pending_tokens ++ (token ∷ []);
    }

-- What the pool gave. `if not port` refuses port 0 like None.
abbrev pub granted : PortPool × Option ℕ → Str → TokenOptions → Server → Server × Option (Str × ℤ)
granted (pool, none) token options s = (record s { pool = pool }, none)
granted (pool, some port) token options s =
    if port == 0
    then (record s { pool = pool }, none)
    else (register token (pos port) options (record s { pool = pool }), some (token, pos port))

unfoldable pub add_new_token :
    (List ℕ → ℕ) → Str → Option ℕ → TokenOptions → Server → Server × Option (Str × ℤ)
unfolding register
add_new_token choice token port options s =
    if options.allow_manage_connector
    then (register token (negsuc 0) options s, some (token, negsuc 0))
    else granted (PortPool.get choice port s.pool) token options s

-- The token's port, if it has one.
abbrev pub known : Str → Option ℤ → Option (Str × ℤ)
known token none = none
known token (some port) = some (token, port)

unfoldable pub add_reverse_token :
    (List ℕ → ℕ) → Str → Option Str → Option ℕ → TokenOptions → Server → Server × Option (Str × ℤ)
unfolding add_new_token
add_reverse_token choice made token port options s =
    let t = or_made token made in
    if contains t s.tokens
    then (s, known t (get t s.tokens))
    else add_new_token choice t port options s

unfoldable pub add_forward_token : Str → Option Str → Server → Server × Str
add_forward_token made token s =
    let t = or_made token made in (record s { forward_tokens = add t s.forward_tokens }, t)

abbrev pub index_or_zero : Option ℕ → ℕ
index_or_zero none = 0
index_or_zero (some i) = i

-- `clients[i][1]`, and `clients[0][1]` where that raises; the list is not empty.
abbrev pub client_at : ℕ → Uuid × ℕ → Option (Uuid × ℕ) → ℕ
client_at i first none = first.1
client_at i first (some client) = client.1

unfoldable pub next_of : Str → Option (List (Uuid × ℕ)) → Server → Server × Option ℕ
next_of token none s = (s, none)
next_of token (some []) s = (s, none)
next_of token (some (c ∷ cs)) s =
    let i = (index_or_zero (get token s.token_indexes) + 1) % length (c ∷ cs) in
    (
      record s { token_indexes = insert token i s.token_indexes },
      some (client_at i c (get_elem? (c ∷ cs) i)),
    )

-- `_get_next_websocket`, for a token that has a lock.
unfoldable pub get_next_websocket : Str → Server → Server × Option ℕ
unfolding next_of
get_next_websocket token s = next_of token (get token s.token_clients) s
