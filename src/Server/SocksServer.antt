-- ===== src/Server/SocksServer.antt =====
-- `_run_socks_server` of `WSSocksServer`, as a user of the socket manager.
use pywssocks.Base.{
  nat_eq, ℕ, ◌≡◌, refl, ap, Bool, Option, none, some, List, [], ◌∷◌, arith, eq_iff,
}
use pywssocks.SocketManager.{SocketManager, get_socket, release_socket, acquire}
use pywssocks.SocketManager.Sharing.{
  refs_of, counted, refs-get_socket, refs-release_socket, get_socket_raises,
}

-- What `sock_accept` gives: a client's socket, the end of the listening socket, or another
-- exception.
pub data Accepted : Type 0 where
  client : ℕ → Accepted
  socket_closed failed : Accepted

-- The sockets for which a handler is started, up to the end of the listening socket.
unfoldable pub accept_loop : List Accepted → List ℕ
accept_loop [] = []
accept_loop (client sock ∷ rest) = sock ∷ accept_loop rest
accept_loop (socket_closed ∷ rest) = []
accept_loop (failed ∷ rest) = accept_loop rest

-- Without a socket the loop is not entered. `during` is what others do with the manager meanwhile.
abbrev pub with_socket :
    (SocketManager → SocketManager)
    → List Accepted
    → SocketManager × Option ℕ
    → SocketManager × List ℕ
with_socket during accepted (m, none) = (m, [])
with_socket during accepted (m, some sock) = (during m, accept_loop accepted)

-- The `finally`, which gives the socket back whether there was one or not.
unfoldable pub run_socks_server :
    ℕ
    → Bool
    → (SocketManager → SocketManager)
    → List Accepted
    → ℕ
    → SocketManager
    → SocketManager × List ℕ
unfolding accept_loop
run_socks_server port bound during accepted now m =
    let (m', handlers) = with_socket during accepted (get_socket port bound m) in
    (release_socket port now m', handlers)

-- `_run_socks_server` gives back what it takes: whether or not it gets a socket, and whatever others
-- do meanwhile, as far as it leaves the counts, every port has as many users of its socket after it
-- as before.
pub run_socks_server-refs_of :
    (port now j : ℕ) (bound : Bool) (during : SocketManager → SocketManager)
    (accepted : List Accepted) (m : SocketManager)
    → ((i : ℕ) (n : SocketManager) → refs_of i (during n) ≡ refs_of i n)
    → refs_of j (run_socks_server port bound during accepted now m).0 ≡ refs_of j m
unfolding run_socks_server
run_socks_server-refs_of port now j bound during accepted m keeps =
    balanced (get_socket port bound m) refl (refs-get_socket j port bound m)
      (get_socket_raises port bound m)
  where
    balanced :
        (r : SocketManager × Option ℕ)
        → get_socket port bound m ≡ r
        → refs_of j (get_socket port bound m).0 ≡ counted j (acquire port bound) m (refs_of j m)
        → ((get_socket port bound m).1 ≡ none → refs_of port m ≡ 0)
        → refs_of j (release_socket port now (with_socket during accepted r).0) ≡ refs_of j m
    balanced (m', none) got counts raises = ground (
      arith,
      refs-release_socket j port now m',
      raises (ap (λ (x : SocketManager × Option ℕ). x.1) got),
      rw got at counts,
      eq_iff port j,
    )
    balanced (m', some sock) got counts raises =
        ground (arith, refs-release_socket j port now (during m'), keeps j m', rw got at counts)
