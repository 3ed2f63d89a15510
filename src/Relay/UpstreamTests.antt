-- ===== src/Relay/UpstreamTests.antt =====
-- Upstream connections and the end of a channel at small inputs.
use pywssocks.Base.{
  arith, list_eq, nat_eq, ℕ, ◌<◌, ◌≡◌, ◌≢◌, refl, Bool, true, false, none, some, [], ◌∷◌, ◌++◌,
}
use pywssocks.Base.Dict.{contains, get}
use pywssocks.Text.{Str, Bytes, codes}
use pywssocks.Message.Types.{tcp}
use pywssocks.Message.Canonical.{IsText}
use pywssocks.Relay.Inet.{Inet}
use pywssocks.Relay.Echo.{domain}
use pywssocks.Relay.Session.{Session, End}
use pywssocks.Relay.Handshake.{recv_request, connect_request}
use pywssocks.Relay.Upstream.{request_target, connect_via_socks5}
use pywssocks.Relay.Tunnel.{request_target-recv_request, connect_via_socks5-connects}
use pywssocks.Relay.Channels.{Relay, disconnect_channel, delayed_queue_cleanup}
use pywssocks.Relay.Disconnection.{IsOver, Same, running, disconnect_channel-IsOver}

-- No text stands for an address.
abbrev inet : Inet
inet = record { ntoa = λ b. none; aton = λ s. none; ntop6 = λ b. none; pton6 = λ s. none }

abbrev name : Str
name = codes "a.org"

name-IsText : IsText name
name-IsText = record { ascii = ground arith; fits = omega arith }

abbrev proxy : Session
proxy = record {
  incoming = (5 ∷ 0 ∷ []) ∷ (5 ∷ 0 ∷ 0 ∷ 1 ∷ 0 ∷ 0 ∷ 0 ∷ 0 ∷ 0 ∷ 0 ∷ 42 ∷ []) ∷ [];
  sent = [];
  forwarded = [];
  queues = [];
  closed = false;
}

request_target-recv_request_example :
    (b : Bytes) × (request_target inet name 80 proxy ≡ (record proxy { sent = b }, End.done tt))
    × ((t : Session)
        → t.incoming ≡ b ∷ []
        → (recv_request inet (9 ∷ []) t).1
          ≡ End.done (connect_request tcp (9 ∷ []) (some name) (some 80)))
request_target-recv_request_example =
    request_target-recv_request inet name 80 (9 ∷ []) proxy (domain refl name-IsText) refl
      (omega arith)

connect_via_socks5-connects_example : connect_via_socks5 inet none none name 80 proxy ≡ (
  record proxy {
    incoming = (42 ∷ []) ∷ [];
    sent = 5 ∷ 1 ∷ 0 ∷ 5 ∷ 1 ∷ 0 ∷ 3 ∷ 5 ∷ (name ++ (0 ∷ 80 ∷ []));
  },
  End.done tt,
)
connect_via_socks5-connects_example =
    connect_via_socks5-connects inet name 80 none none 0 0 0 0 0 0 0 (42 ∷ []) proxy refl refl refl
      name-IsText (omega arith) refl

-- Two channels, each with a queue and a task; the task of the first still runs.
abbrev relay : Relay
relay = record {
  message_queues = (1 ∷ [], 10) ∷ (2 ∷ [], 20) ∷ [];
  udp_client_addrs = [];
  tcp_tasks = (1 ∷ [], 11) ∷ (2 ∷ [], 21) ∷ [];
  udp_tasks = [];
  connection_success_map = (1 ∷ [], true) ∷ [];
  cancelled = [];
  cleanups = [];
}

abbrev none_done : ℕ → Bool
none_done task = false

abbrev seconds : ℕ
seconds = 5

disconnect_channel-IsOver_example :
    IsOver (1 ∷ []) (disconnect_channel none_done (1 ∷ []) seconds relay)
    × (seconds ≡ 0
        → get (1 ∷ []) (disconnect_channel none_done (1 ∷ []) seconds relay).message_queues ≡ none)
    × (0 < seconds
        → get (1 ∷ []) (disconnect_channel none_done (1 ∷ []) seconds relay).message_queues
          ≡ get (1 ∷ []) relay.message_queues)
    × (get
          (1 ∷ [])
          (delayed_queue_cleanup
            (1 ∷ [])
            (disconnect_channel none_done (1 ∷ []) seconds relay)).message_queues
        ≡ none)
    × (0 < seconds
        → contains (1 ∷ []) relay.message_queues ≡ true
        → (disconnect_channel none_done (1 ∷ []) seconds relay).cleanups
          ≡ relay.cleanups ++ ((1 ∷ []) ∷ []))
    × ((disconnect_channel none_done (1 ∷ []) seconds relay).cancelled
        ≡ relay.cancelled
          ++ running none_done (get (1 ∷ []) relay.tcp_tasks)
          ++ running none_done (get (1 ∷ []) relay.udp_tasks))
    × ((c' : Str)
        → (1 ∷ []) ≢ c'
        → Same c' relay (disconnect_channel none_done (1 ∷ []) seconds relay))
disconnect_channel-IsOver_example = disconnect_channel-IsOver none_done (1 ∷ []) seconds relay
