-- ===== src/Client/Socks.antt =====
-- `_handle_socks_request` of `WSSocksClient` up to the handshake, and the choice of its TLS context.
use pywssocks.Base.{
  list_eq, nat_eq, ℕ, Bool, ◌&&◌, Option, none, some, List, [], ◌∷◌, if◌then◌else◌, ◌==◌,
}
use pywssocks.Text.{Str, codes}

-- The wait of up to ten seconds: `views` are the values of `self._websocket` that the loop finds. No
-- connection in them refuses the request.
unfoldable pub wait_for_websocket : List (Option ℕ) → Option ℕ
wait_for_websocket [] = none
wait_for_websocket (some ws ∷ views) = some ws
wait_for_websocket (none ∷ views) = wait_for_websocket views

pub data SslContext : Type 0 where
  no_tls unverified verified : SslContext

-- `_ssl_context`, by the scheme of the URL.
unfoldable pub ssl_context : Str → Bool → SslContext
ssl_context scheme ignore_ssl =
    if scheme == codes "ws"
    then no_tls
    else if scheme == codes "wss" && ignore_ssl
    then unverified
    else verified
