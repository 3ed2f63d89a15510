-- ===== src/Server/Pending.antt =====
-- `_handle_pending_token` of `WSSocksServer`: the start of a token's SOCKS server without a client.
use pywssocks.Base.{
  list_eq, nat_eq, ◌≡◌, ◌≢◌, refl, ◌∙◌, sym, Bool, true, false, Option, none, some, if◌then◌else◌,
  ◌==◌, arith, eq_iff, eq_refl, Bool-cases, inl, inr, Result, ok, err, key_error, Exception, List,
  [], ◌∷◌,
}
use pywssocks.Base.Dict.{get, insert, contains, get-insert}
use pywssocks.Base.Sets.{elem}
use pywssocks.Text.{Str}
use pywssocks.Server.State.{int_eq, ℤ, pos, Server}
use pywssocks.Server.Ports.{IsValid}

-- A task is recorded under the port, with its token.
unfoldable pub start_socks_server : Str → ℤ → Server → Server
start_socks_server token port s =
    if contains port s.socks_tasks
    then s
    else record s { socks_tasks = insert port token s.socks_tasks }

-- `if socks_port:` refuses port 0; the look-up of the lock comes after it.
unfoldable pub pending_port : Str → Option ℤ → Server → Result Server
unfolding start_socks_server
pending_port token none s = ok s
pending_port token (some port) s =
    if port == pos 0
    then ok s
    else if elem token s.token_locks
    then ok (start_socks_server token port s)
    else err key_error

unfoldable pub handle_pending_token : Bool → Str → Server → Result Server
unfolding pending_port
handle_pending_token socks_wait_client token s =
    if socks_wait_client then ok s else pending_port token (get token s.tokens) s

-- The end of one call in the loop of `serve`: an exception ends the loop.
abbrev pub after_pending :
    Server → Result Server → (Server → Server × Option Exception) → Server × Option Exception
after_pending s (ok s') next = next s'
after_pending s (err e) next = (s, some e)

-- The loop over the pending tokens, and the reset of the list after it.
unfoldable pub start_pending : Bool → List Str → Server → Server × Option Exception
unfolding handle_pending_token
start_pending socks_wait_client [] s = (record s { pending_tokens = [] }, none)
start_pending socks_wait_client (token ∷ tokens) s =
    after_pending s (handle_pending_token socks_wait_client token s)
      (start_pending socks_wait_client tokens)

-- The start of `serve`, up to the WebSocket server.
unfoldable pub start_serving : Bool → Server → Server × Option Exception
unfolding start_pending
start_serving socks_wait_client s =
    start_pending socks_wait_client s.pending_tokens (record s { loop = true })

-- Where the server does not wait for clients, a valid server starts a SOCKS server for a token's
-- port other than 0 without an error; then the port has a task, the tasks of other ports are as they
-- were, a port that had a task keeps it, and a second call changes nothing.
pub handle_pending_token-starts_once :
    (token : Str) (port : ℤ) (s : Server)
    → IsValid s
    → get token s.tokens ≡ some port
    → port ≢ pos 0
    → (s' : Server) × (handle_pending_token false token s ≡ ok s')
      × (contains port s'.socks_tasks ≡ true)
      × ((p : ℤ) → port ≢ p → get p s'.socks_tasks ≡ get p s.socks_tasks)
      × (contains port s.socks_tasks ≡ true → s' ≡ s)
      × (handle_pending_token false token s' ≡ ok s')
unfolding handle_pending_token pending_port start_socks_server
handle_pending_token-starts_once token port s v h real =
    elim (Bool-cases (contains port s.socks_tasks)) [
      | inl runs ↦ (
        s,
        rw (h, nonzero, v.locked token port h, runs) refl,
        runs,
        λ p other. refl,
        λ e. refl,
        rw (h, nonzero, v.locked token port h, runs) refl,
      )
      | inr starts ↦ (
        record s { socks_tasks = insert port token s.socks_tasks },
        rw (h, nonzero, v.locked token port h, starts) refl,
        now_runs,
        λ p other. ground (arith, get-insert port p token s.socks_tasks, eq_iff port p),
        λ e. absurd (false_true (sym starts ∙ e)),
        rw (h, nonzero, v.locked token port h, now_runs) refl,
      )
    ]
  where
    nonzero : (port == pos 0) ≡ false
    nonzero = ground (arith, eq_iff port (pos 0))

    now_runs : contains port (insert port token s.socks_tasks) ≡ true
    now_runs = ground (arith, get-insert port port token s.socks_tasks, eq_refl port)

    false_true : false ≡ true → ⊥
    false_true e = cc
