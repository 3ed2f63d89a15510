-- ===== src/Client/Login.antt =====
-- The URL that the client builds, read by the server.
use pywssocks.Base.{
  list_eq, nat_eq, ◌≡◌, ◌≢◌, refl, ◌∙◌, ap, sym, Bool, true, false, Option, none, some, List, [],
  ◌∷◌, if◌then◌else◌, ◌==◌, arith, eq_refl, eq_iff, Bool-cases, ◌⊎◌, inl, inr,
}
use pywssocks.Base.Dict.{Dict, get, insert, contains, get-insert}
use pywssocks.Base.Sets.{elem}
use pywssocks.Text.{Str, Bytes, codes}
use pywssocks.Message.Types.{Uuid}
use pywssocks.Server.State.{Server}
use pywssocks.Server.Membership.{uuid_text_not_empty}
use pywssocks.Server.Clients.{uuid_text}
use pywssocks.Server.Hub.{Wire}
use pywssocks.Server.Admission.{
  find_token, all_tokens, auth_message, greeting, resolved, is_true, Greeting,
}
use pywssocks.Client.State.{Client}
use pywssocks.Client.Url.{
  Url, Urls, Param, single, build_ws_url_with_auth, new_query_params, merge_params, token_hash,
  auth_params, param_of,
}

-- A value that is there is not replaced.
merge_keeps :
    (key : Str) (p : Param) (values : Dict Str (Str × List Str)) (new : Dict Str Param)
    → get key new ≡ some p
    → get key (merge_params values new) ≡ some p
unfolding merge_params
merge_keeps key p [] new h = h
merge_keeps key p ((k, v) ∷ rest) new h =
    let next = if contains k new then new else insert k (param_of v) new in
    merge_keeps key p rest next (kept (Bool-cases (contains k new)))
  where
    kept :
        ((contains k new ≡ true) ⊎ (contains k new ≡ false))
        → get key (if contains k new then new else insert k (param_of v) new) ≡ some p
    kept (inl there) = rw there h
    kept (inr fresh) =
        rw fresh (ground (arith, get-insert k key (param_of v) new, eq_iff k key, fresh, h))

-- The digest of a token tells it apart from the other tokens and their digests.
pub record IsClear (digest : Str → Str) (token : Str) (ts : List Str) : Type 0 where
  pub not_empty : digest token ≢ []
  pub no_token : (t : Str) → elem t ts ≡ true → t ≢ token → (digest token == t) ≡ false
  pub no_digest : (t : Str) → elem t ts ≡ true → t ≢ token → (digest token == digest t) ≡ false

abbrev pub rebuilt : Urls → Uuid → Client → Url
rebuilt urls instance_id c = record (urls.urlparse c.ws_url) {
  query = urls.urlencode (new_query_params urls instance_id c);
}

-- urllib reads back what it has written: the URL, and each value that is a text and not empty.
pub record IsReadable (urls : Urls) (instance_id : Uuid) (c : Client) : Type 0 where
  pub url_back :
      urls.urlparse (urls.urlunparse (rebuilt urls instance_id c)) ≡ rebuilt urls instance_id c
  pub value_back :
      (key v : Str)
      → get key (new_query_params urls instance_id c) ≡ some (single v)
      → v ≢ []
      → get key (urls.parse_qs (urls.urlencode (new_query_params urls instance_id c)))
        ≡ some (v, [])

IsClear-tail :
    (digest : Str → Str) (token t : Str) (ts : List Str)
    → IsClear digest token (t ∷ ts)
    → IsClear digest token ts
unfolding elem
IsClear-tail digest token t ts clear = record {
  not_empty = clear.not_empty;
  no_token = λ u there other. clear.no_token u (ground (arith, there)) other;
  no_digest = λ u there other. clear.no_digest u (ground (arith, there)) other;
}

-- The token is found by its digest, wherever it stands among the tokens.
find_token-finds :
    (digest : Str → Str) (token : Str) (ts : List Str)
    → elem token ts ≡ true
    → IsClear digest token ts
    → find_token digest (digest token) ts ≡ some token
unfolding find_token elem
find_token-finds digest token [] there clear = cc
find_token-finds digest token (t ∷ ts) there clear = elim (Bool-cases (t == token)) [
  | inl same ↦
      let e = (eq_iff t token).0 same in
      ground
        (arith, e, sym (ap digest e), eq_refl (digest token), ap (λ u. digest token == digest u) e)
  | inr other ↦
      let differs : t ≢ token = different other in
      ground (
        arith,
        clear.no_token t (ground (arith, eq_refl t)) differs,
        clear.no_digest t (ground (arith, eq_refl t)) differs,
        find_token-finds digest token ts (ground (arith, there, other))
            (IsClear-tail digest token t ts clear),
      )
]
  where
    different : (t == token) ≡ false → t ≢ token
    different h e = ground (arith, h, e, eq_iff t token)

abbrev reverse_text : Bool → Str
reverse_text reverse = if reverse then codes "true" else codes "false"

reverse_text_not_empty : (reverse : Bool) → reverse_text reverse ≢ []
reverse_text_not_empty true h = cc
reverse_text_not_empty false h = cc

is_true-reverse_text : (reverse : Bool) → is_true (some (reverse_text reverse)) ≡ reverse
is_true-reverse_text true = refl
is_true-reverse_text false = refl

resolved_token :
    (reverse : Bool) (instance_id : Uuid) (token : Str)
    → token ≢ []
    → resolved reverse instance_id (some token)
      ≡ some (record { token = token; reverse = reverse; instance_id = instance_id })
resolved_token reverse instance_id [] given = absurd (given refl)
resolved_token reverse instance_id (c ∷ t) given = refl

hashed :
    (urls : Urls) (instance_id : Uuid) (c : Client)
    → get (codes "token") (urls.parse_qs (urls.urlparse c.ws_url).query) ≡ none
    → (key : Str) (v : Str)
    → get key (auth_params (urls.sha256 c.token) c.reverse instance_id) ≡ some (single v)
    → get key (new_query_params urls instance_id c) ≡ some (single v)
unfolding new_query_params token_hash
hashed urls instance_id c plain key v h =
    merge_keeps key (single v) (urls.parse_qs (urls.urlparse c.ws_url).query) _ (rw plain h)

-- The server reads the three parameters of a query.
greeting-reads :
    (parse_uuid : Str → Option Uuid) (fresh instance_id : Uuid) (qs : Dict Str (Str × List Str))
    (first : Option Bytes) (hash reverse : Str)
    → get (codes "token") qs ≡ some (hash, [])
    → get (codes "reverse") qs ≡ some (reverse, [])
    → get (codes "instance") qs ≡ some (uuid_text instance_id, [])
    → parse_uuid (uuid_text instance_id) ≡ some instance_id
    → greeting parse_uuid fresh qs first ≡ Greeting.query hash (some reverse) instance_id
unfolding greeting
greeting-reads parse_uuid fresh instance_id qs first hash reverse t r i parses =
    rw (t, r, i, parses) refl

built :
    (urls : Urls) (instance_id : Uuid) (c : Client)
    → (urls.urlparse c.ws_url).path ≡ codes "/socket"
    → build_ws_url_with_auth urls instance_id c ≡ urls.urlunparse (rebuilt urls instance_id c)
unfolding build_ws_url_with_auth
built urls instance_id c path = rw path refl

params_given :
    (hash : Str) (reverse : Bool) (instance_id : Uuid)
    → (get (codes "token") (auth_params hash reverse instance_id) ≡ some (single hash))
      × (get (codes "reverse") (auth_params hash reverse instance_id)
          ≡ some (single (reverse_text reverse)))
      × (get (codes "instance") (auth_params hash reverse instance_id)
          ≡ some (single (uuid_text instance_id)))
unfolding get
params_given hash reverse instance_id = (refl, refl, refl)

-- What the server reads for a parameter of the client.
value_read :
    (urls : Urls) (instance_id : Uuid) (c : Client) (key v : Str)
    → (urls.urlparse c.ws_url).path ≡ codes "/socket"
    → get (codes "token") (urls.parse_qs (urls.urlparse c.ws_url).query) ≡ none
    → IsReadable urls instance_id c
    → get key (auth_params (urls.sha256 c.token) c.reverse instance_id) ≡ some (single v)
    → v ≢ []
    → get key (urls.parse_qs (urls.urlparse (build_ws_url_with_auth urls instance_id c)).query)
      ≡ some (v, [])
value_read urls instance_id c key v path plain readable h n =
    rw (built urls instance_id c path, readable.url_back)
      (readable.value_back key v (hashed urls instance_id c plain key v h) n)

auth_message-query :
    (arrange : List Str → List Str) (digest : Str → Str) (wire : Wire) (token : Str)
    (reverse : Bool) (instance_id : Uuid) (s : Server)
    → token ≢ []
    → elem token (arrange (all_tokens s)) ≡ true
    → IsClear digest token (arrange (all_tokens s))
    → auth_message arrange digest wire
        (Greeting.query (digest token) (some (reverse_text reverse)) instance_id)
        s
      ≡ some (record { token = token; reverse = reverse; instance_id = instance_id })
unfolding auth_message
auth_message-query arrange digest wire token reverse instance_id s given there clear =
    rw (find_token-finds digest token (arrange (all_tokens s)) there clear) (
      ap (λ b. resolved b instance_id (some token)) (is_true-reverse_text reverse)
      ∙ resolved_token reverse instance_id token given)

module _ (urls : Urls) (wire : Wire) (arrange : List Str → List Str)
    (parse_uuid : Str → Option Uuid) where
  -- A client whose URL has the path /socket and no token of its own introduces itself by the URL that
  -- it builds: the server takes it for an authentication message with the client's token, direction
  -- and instance id, wherever the token stands among the tokens that the server knows. The token is
  -- not empty, its digest tells it apart from the others, and urllib reads back what it has written.
  pub build_ws_url_with_auth-auth_message :
      (c : Client) (s : Server) (instance_id fresh : Uuid) (first : Option Bytes)
      → (urls.urlparse c.ws_url).path ≡ codes "/socket"
      → get (codes "token") (urls.parse_qs (urls.urlparse c.ws_url).query) ≡ none
      → IsReadable urls instance_id c
      → c.token ≢ []
      → elem c.token (arrange (all_tokens s)) ≡ true
      → IsClear urls.sha256 c.token (arrange (all_tokens s))
      → parse_uuid (uuid_text instance_id) ≡ some instance_id
      → auth_message arrange urls.sha256 wire
          (greeting parse_uuid fresh
            (urls.parse_qs (urls.urlparse (build_ws_url_with_auth urls instance_id c)).query)
            first)
          s
        ≡ some (record { token = c.token; reverse = c.reverse; instance_id = instance_id })
  build_ws_url_with_auth-auth_message c s instance_id fresh first path plain readable given there
        clear parses =
      let given_params = params_given (urls.sha256 c.token) c.reverse instance_id in
      let value = λ (key v : Str). value_read urls instance_id c key v path plain readable in
      ap (λ (g : Greeting). auth_message arrange urls.sha256 wire g s)
        (greeting-reads parse_uuid fresh instance_id _ first (urls.sha256 c.token)
          (reverse_text c.reverse)
          (value (codes "token") (urls.sha256 c.token) given_params.0 clear.not_empty)
          (value (codes "reverse") (reverse_text c.reverse) given_params.1
            (reverse_text_not_empty c.reverse))
          (value (codes "instance") (uuid_text instance_id) given_params.2
            (uuid_text_not_empty instance_id))
          parses)
      ∙ auth_message-query arrange urls.sha256 wire c.token c.reverse instance_id s given there
          clear
