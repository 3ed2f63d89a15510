-- ===== src/Client/Url.antt =====
-- `_convert_ws_path` and `_build_ws_url_with_auth` of `WSSocksClient`.
use pywssocks.Base.{
  list_eq, nat_eq, ℕ, Bool, true, not, ◌&&◌, ◌||◌, Option, none, some, List, [], ◌∷◌, if◌then◌else◌,
  ◌==◌, leb, length,
}
use pywssocks.Base.Dict.{Dict, get, insert, contains}
use pywssocks.Text.{Str, codes}
use pywssocks.Message.Types.{Uuid}
use pywssocks.Server.Clients.{uuid_text}
use pywssocks.Client.State.{Client}

-- What `urlparse` gives and `urlunparse` takes.
pub record Url : Type 0 where
  pub scheme : Str
  pub netloc : Str
  pub path : Str
  pub params : Str
  pub query : Str
  pub fragment : Str

-- A value in `new_params`: a text, or a list of texts.
pub data Param : Type 0 where
  single : Str → Param
  several : List Str → Param

-- The functions of urllib and hashlib. A list in what `parse_qs` gives is never empty: it is the
-- first value with the others. `sha256` is the hex digest of a text.
pub record Urls : Type 0 where
  pub urlparse : Str → Url
  pub urlunparse : Url → Str
  pub parse_qs : Str → Dict Str (Str × List Str)
  pub urlencode : Dict Str Param → Str
  pub sha256 : Str → Str

-- "Convert http(s) to ws(s)"
abbrev pub ws_scheme : Str → Str
ws_scheme scheme =
    if scheme == codes "http"
    then codes "ws"
    else if scheme == codes "https"
    then codes "wss"
    else scheme

-- "Add default path if not present or only has trailing slash"
abbrev pub socket_path : Str → Str
socket_path path = if path == [] || path == codes "/" then codes "/socket" else path

unfoldable pub convert_ws_path : Urls → Str → Str
convert_ws_path urls url =
    let parsed = urls.urlparse url in
    urls.urlunparse
      (record parsed { scheme = ws_scheme parsed.scheme; path = socket_path parsed.path })

-- One of 0-9, a-f and A-F.
abbrev pub is_hex : ℕ → Bool
is_hex n = leb 48 n && leb n 57 || leb 97 n && leb n 102 || leb 65 n && leb n 70

unfoldable pub all_hex : Str → Bool
all_hex [] = true
all_hex (c ∷ s) = is_hex c && all_hex s

-- A token in the URL, or else that of the client.
unfoldable pub token_hash : Urls → Str → Option (Str × List Str) → Str
unfolding all_hex
token_hash urls token none = urls.sha256 token
token_hash urls token (some (url_token, others)) =
    if length url_token == 64 && all_hex url_token then url_token else urls.sha256 url_token

abbrev pub param_of : Str × List Str → Param
param_of (v, []) = single v
param_of (v, w ∷ ws) = several (v ∷ w ∷ ws)

-- "Merge with existing params (except token which we've already handled)"
unfoldable pub merge_params : Dict Str (Str × List Str) → Dict Str Param → Dict Str Param
merge_params [] new_params = new_params
merge_params ((key, values) ∷ rest) new_params =
    merge_params rest
      (if contains key new_params then new_params else insert key (param_of values) new_params)

abbrev pub auth_params : Str → Bool → Uuid → Dict Str Param
auth_params hash reverse instance_id =
    (codes "token", single hash)
    ∷ (codes "reverse", single (if reverse then codes "true" else codes "false"))
    ∷ (codes "instance", single (uuid_text instance_id))
    ∷ []

-- The parameters of the new query.
unfoldable pub new_query_params : Urls → Uuid → Client → Dict Str Param
unfolding token_hash merge_params
new_query_params urls instance_id c =
    let query_params = urls.parse_qs (urls.urlparse c.ws_url).query in
    merge_params query_params (
      auth_params (token_hash urls c.token (get (codes "token") query_params)) c.reverse
        instance_id)

unfoldable pub build_ws_url_with_auth : Urls → Uuid → Client → Str
unfolding new_query_params
build_ws_url_with_auth urls instance_id c =
    let parsed = urls.urlparse c.ws_url in
    if not (parsed.path == codes "/socket")
    then c.ws_url
    else urls.urlunparse
        (record parsed { query = urls.urlencode (new_query_params urls instance_id c) })
