-- ===== src/Client/Tests.antt =====
-- A small client that logs in and adds a connector token.
use pywssocks.Base.{
  list_eq, nat_eq, arith, ◌≡◌, refl, true, none, some, [], ◌∷◌, ◌==◌, if◌then◌else◌, ok,
}
use pywssocks.Base.Dict.{get}
use pywssocks.Base.Sets.{elem}
use pywssocks.Text.{codes, Bytes}
use pywssocks.Message.Types.{Message, Uuid}
use pywssocks.Message.Lawful.{runtime, runtime-IsLawful}
use pywssocks.Server.State.{int_eq}
use pywssocks.Server.Clients.{uuid_text}
use pywssocks.Server.Admission.{auth_message, greeting, all_tokens}
use pywssocks.Server.Hub.{Hub, Wire, Outcome}
use pywssocks.Server.Dispatch.{find_client_token, turn, client_message, bytes}
use pywssocks.Server.Authority.{IsFoundManager}
use pywssocks.Client.State.{Client}
use pywssocks.Client.Url.{Urls, build_ws_url_with_auth, new_query_params, merge_params, token_hash}
use pywssocks.Client.Dispatcher.{message_dispatcher, binary}
use pywssocks.Client.Requests.{begin_add_connector, finish_add_connector}
use pywssocks.Client.Management.{add_connector-manage}
use pywssocks.Client.Login.{IsReadable, IsClear, build_ws_url_with_auth-auth_message}
use pywssocks.Client.Small.{client, relay, server, wire, first_id}

-- A URL is its query, and the one query with values is that of the client.
abbrev urls : Urls
urls = record {
  urlparse = λ url. record {
    scheme = [];
    netloc = [];
    path = codes "/socket";
    params = [];
    query = url;
    fragment = [];
  };
  urlunparse = λ u. u.query;
  parse_qs = λ q.
      if q == codes "q"
      then (codes "token", (35 ∷ codes "b", []))
        ∷ (codes "reverse", (codes "true", []))
        ∷ (codes "instance", (uuid_text first_id, []))
        ∷ []
      else [];
  urlencode = λ d. codes "q";
  sha256 = λ t. 35 ∷ t;
}

readable : IsReadable urls first_id client
unfolding get new_query_params token_hash merge_params
readable = record { url_back = refl; value_back = λ key v h n. ground (arith, h) }

clear : IsClear urls.sha256 (codes "b") (all_tokens server)
unfolding elem
clear = record {
  not_empty = λ e. ground (arith, e);
  no_token = λ t there other. ground (arith, there, other);
  no_digest = λ t there other. ground (arith, there, other);
}

build_ws_url_with_auth-auth_message_example :
    auth_message
      (λ ts. ts)
      urls.sha256
      wire
      (greeting
        (λ t. some first_id)
        []
        (urls.parse_qs (urls.urlparse (build_ws_url_with_auth urls first_id client)).query)
        none)
      server
    ≡ some (record { token = codes "b"; reverse = true; instance_id = first_id })
unfolding get elem
build_ws_url_with_auth-auth_message_example =
    build_ws_url_with_auth-auth_message urls wire (λ ts. ts) (λ t. some first_id) client server
      first_id [] none refl refl readable (λ e. ground (arith, e)) refl clear refl

server-IsFoundManager : IsFoundManager (2 ∷ []) (codes "b") server
unfolding find_client_token get
server-IsFoundManager = record { found = refl; allowed = refl }

abbrev channel : Uuid
channel = 1 ∷ 2 ∷ 3 ∷ 4 ∷ 5 ∷ 6 ∷ 7 ∷ 8 ∷ 9 ∷ 10 ∷ 11 ∷ 12 ∷ 13 ∷ 14 ∷ 15 ∷ 16 ∷ []

abbrev lawful : Wire
lawful = record wire { runtime = runtime }

abbrev hub : Hub
hub = record {
  server = server;
  cache = record { channel_id_to_client = []; channel_id_to_connector = []; token_cache = [] };
  relay = relay;
  sent = [];
  delivered = [];
  next_queue = 0;
  closed = [];
  handlers = [];
}

add_connector-manage_example :
    (c' : Client) × (request : Bytes) × (h' : Hub) × (reply : Bytes) × (answer : Message)
    × (begin_add_connector lawful channel (codes "c") client ≡ (c', none))
    × (c'.sent ≡ (8, request) ∷ [])
    × (turn lawful (client_message lawful (λ t. true) 5 (2 ∷ [])) (bytes request) hub
        ≡ (h', Outcome.going))
    × (get (codes "c") h'.server.connector_tokens ≡ some (codes "b"))
    × (h'.sent ≡ (5, reply) ∷ [])
    × (get (uuid_text channel) c'.relay.message_queues ≡ some 0)
    × ((message_dispatcher runtime (λ t. true) 8 (binary reply ∷ []) c').delivered
        ≡ (0, answer) ∷ [])
    × ((d : Client)
        → ((finish_add_connector channel (some answer) d).1 ≡ ok (codes "c"))
          × (get
                (uuid_text channel)
                (finish_add_connector channel (some answer) d).0.relay.message_queues
              ≡ none))
unfolding get
add_connector-manage_example =
    add_connector-manage lawful (λ t. true) (λ t. true) client hub 8 5 channel (2 ∷ []) (codes "b")
      99 [] runtime-IsLawful refl (record { ascii = ground arith; fits = omega arith }) refl refl
      refl refl server-IsFoundManager refl refl
