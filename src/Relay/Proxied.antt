-- ===== src/Relay/Proxied.antt =====
-- How a connection through an upstream HTTP proxy ends.
use pywssocks.Base.{
  list_eq, nat_eq, ℕ, zero, suc, ◌+◌, ◌≤◌, ◌<◌, ◌≡◌, refl, ◌∙◌, ap, Bool, true, false, not, Option,
  none, some, List, [], ◌∷◌, ◌++◌, ◌==◌, length, take, drop, Result, ok, err, failure, arith,
  length-drop, ◌⊎◌, inl, inr, Bool-cases, Exception,
}
use pywssocks.Text.{Str, Bytes}
use pywssocks.Server.State.{ℤ, pos, int_eq}
use pywssocks.Relay.Session.{
  Session, End, Act, after, push, received, unread, attempt, recv, sendall,
}
use pywssocks.Relay.Upstream.{fail_if}
use pywssocks.Relay.Http.{
  HttpText, connect_text, encoded, read_response, with_chunk, total, read_headers, has_blank_line,
  starts_blank, second_part, split_space, first_line, check_status, check_part, check_code,
  close_on_failure, connect_via_http,
}

-- A step that goes on or raises.
abbrev pub Ends {ℓ} : {A : Type ℓ} → Session × End A → Type ℓ
Ends {A = A} r = ((a : A) × (r.1 ≡ End.done a)) ⊎ ((e : Exception) × (r.1 ≡ End.raised e))

total-push : (b : Bytes) (rest : List Bytes) → total (push b rest) ≡ length b + total rest
total-push [] rest = omega arith
total-push (x ∷ b) rest = refl

-- One turn of the loop, for any reader of what is left.
chunk-Ends :
    (n fuel : ℕ) (response : Bytes) (s : Session) (next : Bytes → Act Bytes) (pieces : List Bytes)
    → ((r : Bytes) (t : Session) → total t.incoming + 1 < fuel → Ends (next r t))
    → total pieces + 1 < suc fuel
    → Ends (
        with_chunk response
          (record s { incoming = unread (suc n) pieces }, End.done (received (suc n) pieces))
          next)
chunk-Ends n fuel response s next [] ends enough = inr (_, refl)
chunk-Ends n fuel response s next ([] ∷ rest) ends enough = inr (_, refl)
chunk-Ends n fuel response s next ((c ∷ p) ∷ rest) ends enough =
    ends (response ++ (c ∷ take n p)) (record s { incoming = push (drop n p) rest })
      (omega (arith, total-push (drop n p) rest, length-drop n p, enough))

-- Enough fuel is given where a byte costs one.
read_response-Ends :
    (fuel : ℕ) (response : Bytes) (s : Session)
    → total s.incoming + 1 < fuel
    → Ends (read_response fuel response s)
unfolding read_response recv
read_response-Ends zero response s enough = absurd (omega (arith, enough))
read_response-Ends (suc fuel) response s enough =
    either
      (chunk-Ends 1023 fuel response s (read_response fuel) s.incoming (read_response-Ends fuel)
        enough)
      (Bool-cases (has_blank_line response))
  where
    either :
        Ends (with_chunk response (recv 1024 s) (read_response fuel))
        → ((has_blank_line response ≡ true) ⊎ (has_blank_line response ≡ false))
        → Ends (read_response (suc fuel) response s)
    either more (inl whole) = rw whole (inl (response, refl))
    either more (inr part) = rw part more

after-Ends {ℓ} :
    {A : Type ℓ} {B : Type 0} (r : Session × End A) (next : A → Act B)
    → Ends r
    → ((a : A) (s : Session) → Ends (next a s))
    → Ends (after r next)
after-Ends (s, End.done a) next h ends = ends a s
after-Ends (s, End.raised x) next h ends = inr (x, refl)
after-Ends (s, End.returned) next (inl (a, e)) ends = cc
after-Ends (s, End.returned) next (inr (x, e)) ends = cc

attempt-Ends {ℓ} : {A : Type ℓ} (r : Result A) (s : Session) → Ends (attempt r s)
attempt-Ends (ok a) s = inl (a, refl)
attempt-Ends (err e) s = inr (e, refl)

check_status-Ends :
    (http : HttpText) (response : Bytes) (s : Session) → Ends (check_status http response s)
unfolding check_status
check_status-Ends http response s =
    part_ends (second_part (split_space (first_line (http.decode_ignoring response))).1)
  where
    test_ends : (b : Bool) → Ends (fail_if b "Proxy CONNECT failed" s)
    test_ends true = inr (_, refl)
    test_ends false = inl (tt, refl)

    code_ends : (o : Option ℤ) → Ends (check_code o s)
    code_ends none = inr (_, refl)
    code_ends (some n) = test_ends (not (n == pos 200))

    part_ends : (o : Option Str) → Ends (check_part http o s)
    part_ends none = inr (_, refl)
    part_ends (some part) = code_ends (http.int part)

-- What `_connect_via_http` comes to: the connection stands, or the failure is raised and the socket
-- is closed.
abbrev pub HasEnded : Session × End (Unit {0}) → Type 0
HasEnded r =
    (r.1 ≡ End.done tt) ⊎ ((r.1 ≡ End.raised (failure "HTTP CONNECT failed")) × (r.0.closed ≡ true))

close_on_failure-HasEnded : (r : Session × End (Unit {0})) → Ends r → HasEnded (close_on_failure r)
close_on_failure-HasEnded (s, End.done tt) h = inl refl
close_on_failure-HasEnded (s, End.raised e) h = inr (refl, refl)
close_on_failure-HasEnded (s, End.returned) (inl (a, e)) = cc
close_on_failure-HasEnded (s, End.returned) (inr (x, e)) = cc

-- Whatever the upstream proxy sends, in whatever pieces, the connection through it comes to an end
-- once the pieces are read: it stands, or the failure is raised and the socket is closed.
pub connect_via_http-HasEnded :
    (http : HttpText) (username password : Option Str) (target_addr : Str) (target_port : ℕ)
    (s : Session)
    → HasEnded (connect_via_http http username password target_addr target_port s)
unfolding connect_via_http sendall
connect_via_http-HasEnded http username password target_addr target_port s =
    close_on_failure-HasEnded _ (
      after-Ends (attempt (connect_text http username password target_addr target_port) s) _
        (attempt-Ends (connect_text http username password target_addr target_port) s)
        λ text t.
          after-Ends (attempt (encoded text) t) _ (attempt-Ends (encoded text) t) λ request u.
            after-Ends (read_headers (record u { sent = u.sent ++ request })) _
              (read_response-Ends (total u.incoming + 2) [] (record u { sent = u.sent ++ request })
                (omega arith))
              λ response v. check_status-Ends http response v)

take_whole : (n : ℕ) (b : Bytes) → length b ≤ n → take n b ≡ b
take_whole zero [] h = refl
take_whole zero (c ∷ b) h = absurd (omega (arith, h))
take_whole (suc n) [] h = refl
take_whole (suc n) (c ∷ b) h = ap (λ r. c ∷ r) (take_whole n b (omega (arith, h)))

drop_whole : (n : ℕ) (b : Bytes) → length b ≤ n → drop n b ≡ []
drop_whole zero [] h = refl
drop_whole zero (c ∷ b) h = absurd (omega (arith, h))
drop_whole (suc n) [] h = refl
drop_whole (suc n) (c ∷ b) h = drop_whole n b (omega (arith, h))

-- A response that comes in one piece is read with that piece.
read_response-piece :
    (n : ℕ) (c : ℕ) (b : Bytes) (rest : List Bytes) (s : Session)
    → has_blank_line (c ∷ b) ≡ true
    → length b ≤ 1023
    → s.incoming ≡ (c ∷ b) ∷ rest
    → read_response (suc (suc n)) [] s ≡ (record s { incoming = rest }, End.done (c ∷ b))
unfolding read_response recv has_blank_line
read_response-piece n c b rest s whole small given =
    rw (given, take_whole 1023 b small, drop_whole 1023 b small, whole) refl

read_headers-piece :
    (c : ℕ) (b : Bytes) (rest : List Bytes) (s : Session)
    → has_blank_line (c ∷ b) ≡ true
    → length b ≤ 1023
    → s.incoming ≡ (c ∷ b) ∷ rest
    → read_headers s ≡ (record s { incoming = rest }, End.done (c ∷ b))
read_headers-piece c b rest s whole small given =
    ap (λ (n : ℕ). read_response n [] s) (omega arith)
    ∙ read_response-piece (total s.incoming) c b rest s whole small given

starts_blank-append : (a b : Bytes) → starts_blank a ≡ true → starts_blank (a ++ b) ≡ true
starts_blank-append [] b h = cc
starts_blank-append (w ∷ []) b h = ground (arith, h)
starts_blank-append (w ∷ x ∷ []) b h = ground (arith, h)
starts_blank-append (w ∷ x ∷ y ∷ []) b h = ground (arith, h)
starts_blank-append (w ∷ x ∷ y ∷ z ∷ a) b h = h

has_blank_line-append : (a b : Bytes) → has_blank_line a ≡ true → has_blank_line (a ++ b) ≡ true
unfolding has_blank_line
has_blank_line-append [] b h = cc
has_blank_line-append (c ∷ a) b h = elim (Bool-cases (starts_blank (c ∷ a))) [
  | inl here ↦ ground (arith, starts_blank-append (c ∷ a) b here)
  | inr later ↦ ground (arith, later, h, has_blank_line-append a b)
]

module _ (http : HttpText) (username password : Option Str) (target_addr : Str)
    (target_port : ℕ) where
  -- Where the proxy answers with a header in one piece of at most 1024 bytes and the status 200, the
  -- connection stands and the proxy was sent the request. The whole piece is taken: what the target
  -- has sent in it behind the header is lost, and only the pieces that follow are left to be read.
  pub connect_via_http_drops_first_data :
      (c : ℕ) (header early text request : Str) (part : Str) (rest : List Bytes) (s : Session)
      → s.incoming ≡ ((c ∷ header) ++ early) ∷ rest
      → length (header ++ early) ≤ 1023
      → has_blank_line (c ∷ header) ≡ true
      → second_part (split_space (first_line (http.decode_ignoring ((c ∷ header) ++ early)))).1
        ≡ some part
      → http.int part ≡ some (pos 200)
      → connect_text http username password target_addr target_port ≡ ok text
      → encoded text ≡ ok request
      → connect_via_http http username password target_addr target_port s
        ≡ (record s { incoming = rest; sent = s.sent ++ request }, End.done tt)
  unfolding connect_via_http sendall check_status
  connect_via_http_drops_first_data c header early text request part rest s given small whole status
        code built sends =
      let t = record s { sent = s.sent ++ request } in
      rw
        (
          built,
          sends,
          read_headers-piece c (header ++ early) rest t
              (has_blank_line-append (c ∷ header) early whole) small given,
          status,
          code,
        )
        refl
