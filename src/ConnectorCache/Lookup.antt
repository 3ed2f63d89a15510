-- ===== src/ConnectorCache/Lookup.antt =====
-- What the cache answers after each of its methods.
use pywssocks.Base.{
  list_eq, ℕ, ◌≡◌, refl, ◌∙◌, Option, none, some, List, [], ◌∷◌, ◌++◌, arith, ◌==◌, eq_iff,
  if◌then◌else◌, Option-cases, inl, inr,
}
use pywssocks.Base.Dict.{get, get-insert, get-erase}
use pywssocks.Base.Sets.{elem}
use pywssocks.Text.{Str}
use pywssocks.Message.Types.{Uuid}
use pywssocks.ConnectorCache.{
  ConnectorCache, add_channel, remove_channel, get_client, get_connector, remove_all, cleanup_token,
  listed,
}

-- The two ends of a channel, as far as they are known.
abbrev pub ends : Uuid → ConnectorCache → Option ℕ × Option ℕ
ends channel_id c = (get_client channel_id c, get_connector channel_id c)

-- The channels that `cleanup_token` would drop.
abbrev pub channels : Str → ConnectorCache → List Uuid
channels token c = listed (get token c.token_cache)

-- After `add_channel` the channel has the given ends and stands last under its token; every other
-- channel has the ends, and every other token the channels, that it had.
pub ends-add_channel :
    (i j : Uuid) (connector client : ℕ) (token t : Str) (c : ConnectorCache)
    → let c' = add_channel i connector client token c in
      (ends j c' ≡ (if i == j then (some client, some connector) else ends j c))
      × (channels t c' ≡ (if token == t then channels token c ++ (i ∷ []) else channels t c))
unfolding add_channel get_client get_connector
ends-add_channel i j connector client token t c = (
  ground (
    arith,
    get-insert i j client c.channel_id_to_client,
    get-insert i j connector c.channel_id_to_connector,
  ),
  ground (arith, get-insert token t (channels token c ++ (i ∷ [])) c.token_cache),
)

-- After `remove_channel` the channel has no ends; every other channel has those that it had.
pub ends-remove_channel :
    (i j : Uuid) (c : ConnectorCache)
    → ends j (remove_channel i c) ≡ (if i == j then (none, none) else ends j c)
unfolding remove_channel get_client get_connector
ends-remove_channel i j c =
    ground (arith, get-erase i j c.channel_id_to_client, get-erase i j c.channel_id_to_connector)

ends-remove_all :
    (ids : List Uuid) (j : Uuid) (c : ConnectorCache)
    → ends j (remove_all ids c) ≡ (if elem j ids then (none, none) else ends j c)
unfolding remove_all elem
ends-remove_all [] j c = refl
ends-remove_all (i ∷ ids) j c =
    ends-remove_all ids j (remove_channel i c) ∙ ground (arith, ends-remove_channel i j c)

-- `cleanup_token` drops the ends of just the channels that were added under the token, and the
-- token's list; the lists of the other tokens stay.
pub ends-cleanup_token :
    (token t : Str) (j : Uuid) (c : ConnectorCache)
    → let c' = cleanup_token token c in
      (ends j c' ≡ (if elem j (channels token c) then (none, none) else ends j c))
      × (channels t c' ≡ (if token == t then [] else channels t c))
unfolding cleanup_token elem get_client get_connector
ends-cleanup_token token t j c = elim (Option-cases (get token c.token_cache)) [
  | inl e ↦ rw (e, cleanup_token) (refl, ground (arith, eq_iff token t))
  | inr (ids, e) ↦
      rw (e, cleanup_token)
        (ends-remove_all ids j c, ground (arith, get-erase token t c.token_cache))
]
