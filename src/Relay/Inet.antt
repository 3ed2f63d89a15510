-- ===== src/Relay/Inet.antt =====
-- What relay.py takes from Python's socket module to read and write IPv4 and IPv6 addresses.
use pywssocks.Base.{◌≡◌, ◌≢◌, Option, none, some, length}
use pywssocks.Text.{Str, Bytes}

-- `inet_ntoa`, `inet_aton`, and `inet_ntop` and `inet_pton` for AF_INET6; `none` is an OSError.
pub record Inet : Type 0 where
  pub ntoa : Bytes → Option Str
  pub aton : Str → Option Bytes
  pub ntop6 : Bytes → Option Str
  pub pton6 : Str → Option Bytes

-- As documented: four bytes have a dotted text, which stands for them and nothing but four bytes.
pub record IsInet (inet : Inet) : Type 0 where
  pub dotted :
      (b : Bytes) → length b ≡ 4 → (s : Str) × (inet.ntoa b ≡ some s) × (inet.aton s ≡ some b)
  pub four : (s : Str) (b : Bytes) → inet.aton s ≡ some b → length b ≡ 4
  pub only_four : (b : Bytes) → length b ≢ 4 → inet.ntoa b ≡ none
