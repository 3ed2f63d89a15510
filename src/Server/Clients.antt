-- ===== src/Server/Clients.antt =====
-- What `_handle_websocket` and `_cleanup_connection` of `WSSocksServer` change of its maps when a
-- client comes and goes.
use pywssocks.Base.{
  list_eq, nat_eq, ℕ, ◌+◌, ◌/◌, ◌%◌, Bool, false, Option, none, some, List, [], ◌∷◌, ◌++◌,
  if◌then◌else◌, ◌==◌, ltb, take, drop,
}
use pywssocks.Base.Dict.{Dict, get, insert, erase}
use pywssocks.Base.Sets.{elem, add}
use pywssocks.Text.{Str, Bytes}
use pywssocks.Message.Types.{Uuid, AuthMessage}
use pywssocks.Server.State.{int_eq, ℤ, pos, negsuc, Server, TokenOptions}
use pywssocks.Server.Pending.{start_socks_server}

abbrev hex_digit : ℕ → ℕ
hex_digit n = if ltb n 10 then 48 + n else 87 + n

abbrev hex : Bytes → Str
hex [] = []
hex (b ∷ bs) = hex_digit (b / 16) ∷ hex_digit (b % 16) ∷ hex bs

-- `str(uuid)`: eight, four, four, four and twelve digits.
unfoldable pub uuid_text : Uuid → Str
uuid_text u =
    hex (take 4 u)
    ++ (45
        ∷ (hex (take 2 (drop 4 u))
            ++ (45
                ∷ (hex (take 2 (drop 6 u))
                    ++ (45 ∷ (hex (take 2 (drop 8 u)) ++ (45 ∷ hex (drop 10 u))))))))

abbrev pub list_or_empty {ℓ} : {A : Type ℓ} → Option (List A) → List A
list_or_empty none = []
list_or_empty (some l) = l

-- `self._token_clients[token].append(client)`, after the list is made where it is missing.
unfoldable pub add_client : Str → Uuid × ℕ → Server → Server
add_client token client s = record s {
  token_clients =
      insert token (list_or_empty (get token s.token_clients) ++ (client ∷ [])) s.token_clients;
}

-- `self._token_options.get(token, TokenOptions()).allow_manage_connector`
abbrev pub may_manage : Option TokenOptions → Bool
may_manage none = false
may_manage (some options) = options.allow_manage_connector

-- `self._token_options[a] = self._token_options[b]`, where `b` is there.
abbrev pub copy_options : Str → Option TokenOptions → Dict Str TokenOptions → Dict Str TokenOptions
copy_options internal none d = d
copy_options internal (some options) d = insert internal options d

-- The token of its own that the client of a managing token gets.
unfoldable pub add_internal : Str → Str → Server → Server
add_internal token internal s = record s {
  internal_tokens =
      insert token (list_or_empty (get token s.internal_tokens) ++ (internal ∷ []))
        s.internal_tokens;
  token_indexes = insert internal 0 s.token_indexes;
  token_options = copy_options internal (get token s.token_options) s.token_options;
  tokens = insert internal (negsuc 0) s.tokens;
  token_locks = add internal s.token_locks;
}

-- The token under which a reverse client stands.
abbrev pub own_token : Str → Uuid → Server → Str
own_token token instance_id s =
    if may_manage (get token s.token_options) then uuid_text instance_id else token

unfoldable pub join_reverse : Str → Uuid → Uuid × ℕ → Server → Server
unfolding add_client add_internal
join_reverse token instance_id client s =
    if may_manage (get token s.token_options)
    then add_client (uuid_text instance_id) client (add_internal token (uuid_text instance_id) s)
    else add_client token client s

-- `socks_port > 0`
abbrev pub is_positive : ℤ → Bool
is_positive (pos n) = ltb 0 n
is_positive (negsuc n) = false

-- The SOCKS server of the port is started unless it runs. The wait for it changes nothing here.
unfoldable pub ensure_socks_server : Str → ℤ → Server → Server
unfolding start_socks_server
ensure_socks_server token port s = if is_positive port then start_socks_server token port s else s

-- A reverse client of a token with this port.
unfoldable pub register_reverse : Str → ℤ → Uuid → Uuid × ℕ → Server → Server
unfolding join_reverse ensure_socks_server
register_reverse token port instance_id (client_id, ws) s =
    let s' = ensure_socks_server token port (join_reverse token instance_id (client_id, ws) s) in
    record s' { clients = insert client_id ws s'.clients }

unfoldable pub register_forward : Uuid × ℕ → Server → Server
register_forward (client_id, ws) s = record s {
  forward_clients = insert client_id ws s.forward_clients;
}

unfoldable pub register_connector : Str → Uuid × ℕ → Server → Server
unfolding add_client
register_connector token (client_id, ws) s =
    let s' = add_client token (client_id, ws) s in
    record s' { clients = insert client_id ws s'.clients }

-- `[(cid, ws) for cid, ws in clients if cid != client_id]`
unfoldable pub without : Uuid → List (Uuid × ℕ) → List (Uuid × ℕ)
without client_id [] = []
without client_id ((cid, ws) ∷ l) =
    let rest = without client_id l in if cid == client_id then rest else (cid, ws) ∷ rest

-- The list of a token without the client; an empty list goes, and the index with it.
abbrev pub set_clients : Str → List (Uuid × ℕ) → Server → Server
set_clients token [] s = record s {
  token_clients = erase token s.token_clients;
  token_indexes = erase token s.token_indexes;
}
set_clients token (c ∷ cs) s = record s { token_clients = insert token (c ∷ cs) s.token_clients }

abbrev pub leave_list : Str → Uuid → Option (List (Uuid × ℕ)) → Server → Server
leave_list token client_id none s = s
leave_list token client_id (some l) s = set_clients token (without client_id l) s

-- `_cleanup_connection`, less the broadcasts: an empty token ends it at once. A client id is never
-- empty.
unfoldable pub leave : Uuid → Str → Server → Server
unfolding without
leave client_id [] s = s
leave client_id (c ∷ t) s =
    let s' = leave_list (c ∷ t) client_id (get (c ∷ t) s.token_clients) s in
    record s' { clients = erase client_id s'.clients }

-- What a client is to the server, by its authentication message.
pub data Kind : Type 0 where
  reverse_client : ℤ → Kind
  forward_client unknown : Kind
  connector_client : Str → Kind

abbrev pub reverse_kind : Option ℤ → Kind
reverse_kind none = unknown
reverse_kind (some port) = reverse_client port

abbrev pub connector_kind : Option Str → Kind
connector_kind none = unknown
connector_kind (some reverse_token) = connector_client reverse_token

unfoldable pub kind : AuthMessage → Server → Kind
kind m s =
    if m.reverse
    then reverse_kind (get m.token s.tokens)
    else if elem m.token s.forward_tokens
    then forward_client
    else connector_kind (get m.token s.connector_tokens)

unfoldable pub register_client : AuthMessage → Uuid × ℕ → Kind → Server → Server
unfolding register_reverse register_forward register_connector
register_client m client (reverse_client port) s =
    register_reverse m.token port m.instance_id client s
register_client m client forward_client s = register_forward client s
register_client m client (connector_client reverse_token) s = register_connector m.token client s
register_client m client unknown s = s

-- `internal_token or token`
abbrev pub leaving_token : AuthMessage → Kind → Server → Str
leaving_token m (reverse_client port) s = own_token m.token m.instance_id s
leaving_token m forward_client s = m.token
leaving_token m (connector_client reverse_token) s = m.token
leaving_token m unknown s = m.token
