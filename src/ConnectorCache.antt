-- ===== src/ConnectorCache.antt =====
-- pywssocks/server.py: `ConnectorCache`, which maps the channels of connectors to the connections
-- at their two ends. Connections are numbered; the lock makes each method one step.
pub mod Lookup
use pywssocks.Base.{list_eq, ℕ, Option, none, some, List, [], ◌∷◌, ◌++◌}
use pywssocks.Base.Dict.{Dict, get, insert, erase}
use pywssocks.Text.{Str}
use pywssocks.Message.Types.{Uuid}

pub record ConnectorCache : Type 0 where
  pub channel_id_to_client : Dict Uuid ℕ
  pub channel_id_to_connector : Dict Uuid ℕ
  pub token_cache : Dict Str (List Uuid)

abbrev pub empty : ConnectorCache
empty = record { channel_id_to_client = []; channel_id_to_connector = []; token_cache = [] }

-- The channels that are listed under a token.
abbrev pub listed : Option (List Uuid) → List Uuid
listed none = []
listed (some ids) = ids

unfoldable pub add_channel : Uuid → ℕ → ℕ → Str → ConnectorCache → ConnectorCache
add_channel channel_id connector_ws client_ws token c = record {
  channel_id_to_client = insert channel_id client_ws c.channel_id_to_client;
  channel_id_to_connector = insert channel_id connector_ws c.channel_id_to_connector;
  token_cache = insert token (listed (get token c.token_cache) ++ (channel_id ∷ [])) c.token_cache;
}

-- Both `del`s are guarded by `in`, so an unknown channel is no error.
unfoldable pub remove_channel : Uuid → ConnectorCache → ConnectorCache
remove_channel channel_id c = record c {
  channel_id_to_client = erase channel_id c.channel_id_to_client;
  channel_id_to_connector = erase channel_id c.channel_id_to_connector;
}

unfoldable pub get_client : Uuid → ConnectorCache → Option ℕ
get_client channel_id c = get channel_id c.channel_id_to_client

unfoldable pub get_connector : Uuid → ConnectorCache → Option ℕ
get_connector channel_id c = get channel_id c.channel_id_to_connector

-- The loop of `cleanup_token`.
pub remove_all : List Uuid → ConnectorCache → ConnectorCache
remove_all [] c = c
remove_all (channel_id ∷ ids) c = remove_all ids (remove_channel channel_id c)

abbrev cleanup_listed : Str → Option (List Uuid) → ConnectorCache → ConnectorCache
cleanup_listed token none c = c
cleanup_listed token (some ids) c = record (remove_all ids c) {
  token_cache = erase token c.token_cache;
}

unfoldable pub cleanup_token : Str → ConnectorCache → ConnectorCache
unfolding remove_all
cleanup_token token c = cleanup_listed token (get token c.token_cache) c
