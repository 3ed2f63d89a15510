-- ===== src/Relay/Http.antt =====
-- `_connect_via_http` of relay.py, from where the connection to the upstream proxy stands. The
-- session's client is the proxy here.
use pywssocks.Base.{
  list_eq, nat_eq, ℕ, zero, suc, ◌+◌, ◌/◌, ◌%◌, Bool, true, false, not, ◌&&◌, ◌||◌, Option, none,
  some, List, [], ◌∷◌, ◌++◌, if◌then◌else◌, ltb, ◌==◌, length, take, Result, ok, err, failure,
  value_error, unicode_encode_error, or_raise,
}
use pywssocks.Text.{Str, Bytes, encode, codes}
use pywssocks.Message.Pack.{truthy, text_or_empty}
use pywssocks.Server.State.{ℤ, pos, int_eq}
use pywssocks.Relay.Session.{Session, End, Act, ◌>>=◌, ◌>>◌, attempt, recv, sendall}
use pywssocks.Relay.Upstream.{fail, fail_if}

-- What the code takes from Python: base64, `decode` with errors="ignore", and `int` of a text.
pub record HttpText : Type 0 where
  pub b64encode : Bytes → Str
  pub decode_ignoring : Bytes → Str
  pub int : Str → Option ℤ

-- `str(n)`; `fuel` bounds the digits, and n + 1 is enough.
unfoldable pub digits : ℕ → ℕ → Str
digits zero n = []
digits (suc fuel) n =
    let rest = digits fuel (n / 10) in
    if ltb n 10 then (48 + n) ∷ [] else rest ++ ((48 + n % 10) ∷ [])

abbrev pub decimal : ℕ → Str
decimal n = digits (n + 1) n

abbrev pub line_end : Str
line_end = 13 ∷ 10 ∷ []

-- "target_addr:target_port"
abbrev pub authority : Str → ℕ → Str
authority target_addr target_port = target_addr ++ (58 ∷ decimal target_port)

abbrev pub encoded : Str → Result Bytes
encoded s = or_raise (encode s) unicode_encode_error

-- "Add proxy authentication if provided"
abbrev pub credentials_line : HttpText → Option Str → Option Str → Result Str
credentials_line http username password =
    if truthy username && truthy password
    then with_bytes (encoded (text_or_empty username ++ (58 ∷ text_or_empty password)))
    else ok []
  where
    with_bytes : Result Bytes → Result Str
    with_bytes (ok b) = ok (codes "Proxy-Authorization: Basic " ++ (http.b64encode b ++ line_end))
    with_bytes (err e) = err e

-- "Build HTTP CONNECT request"
unfoldable pub connect_text : HttpText → Option Str → Option Str → Str → ℕ → Result Str
connect_text http username password target_addr target_port =
    between (credentials_line http username password)
  where
    between : Result Str → Result Str
    between (ok credentials) = ok (
        codes "CONNECT "
        ++ (authority target_addr target_port
            ++ (codes " HTTP/1.1"
                ++ (line_end
                    ++ (codes "Host: "
                        ++ (authority target_addr target_port
                            ++ (line_end ++ (credentials ++ line_end))))))))
    between (err e) = err e

-- `b"\r\n\r\n" in response`
abbrev pub starts_blank : Bytes → Bool
starts_blank b = take 4 b == 13 ∷ 10 ∷ 13 ∷ 10 ∷ []

unfoldable pub has_blank_line : Bytes → Bool
has_blank_line [] = false
has_blank_line (c ∷ b) = starts_blank (c ∷ b) || has_blank_line b

-- What is done with a chunk: none is the end of the connection.
abbrev pub with_chunk : Bytes → Session × End Bytes → (Bytes → Act Bytes) → Session × End Bytes
with_chunk response (s, End.done []) rest =
    (s, End.raised (failure "Connection closed while reading proxy response"))
with_chunk response (s, End.done (c ∷ chunk)) rest = rest (response ++ (c ∷ chunk)) s
with_chunk response (s, End.returned) rest = (s, End.returned)
with_chunk response (s, End.raised e) rest = (s, End.raised e)

-- "Read response (read until we get \r\n\r\n)". Each turn reads at least a byte or ends; without
-- fuel the loop returns early, as it never does otherwise.
unfoldable pub read_response : ℕ → Bytes → Act Bytes
read_response zero response s = (s, End.returned)
read_response (suc fuel) response s =
    if has_blank_line response
    then (s, End.done response)
    else with_chunk response (recv 1024 s) (read_response fuel)

-- The bytes that are still to come.
abbrev pub total : List Bytes → ℕ
total [] = 0
total (piece ∷ pieces) = length piece + total pieces

abbrev pub read_headers : Act Bytes
read_headers s = read_response (total s.incoming + 2) [] s

-- `response_str.split("\r\n")[0]`
unfoldable pub first_line : Str → Str
first_line [] = []
first_line (c ∷ s) = let rest = first_line s in if take 2 (c ∷ s) == line_end then [] else c ∷ rest

-- Up to the first space, and what is behind it, if there is a space.
unfoldable pub split_space : Str → Str × Option Str
split_space [] = ([], none)
split_space (c ∷ s) =
    let (word, rest) = split_space s in if c == 32 then ([], some s) else (c ∷ word, rest)

-- `parts[1]`, if there is a second part of `status_line.split(" ", 2)`.
abbrev pub second_part : Option Str → Option Str
second_part none = none
second_part (some rest) = some (split_space rest).0

-- "Parse response status line"
abbrev pub check_code : Option ℤ → Act (Unit {0})
check_code none = attempt (err (value_error "invalid literal for int()"))
check_code (some status_code) = fail_if (not (status_code == pos 200)) "Proxy CONNECT failed"

abbrev pub check_part : HttpText → Option Str → Act (Unit {0})
check_part http none = fail "Invalid proxy response"
check_part http (some part) = check_code (http.int part)

unfoldable pub check_status : HttpText → Bytes → Act (Unit {0})
unfolding split_space first_line
check_status http response =
    check_part http (second_part (split_space (first_line (http.decode_ignoring response))).1)

-- The `except`.
abbrev pub close_on_failure : Session × End (Unit {0}) → Session × End (Unit {0})
close_on_failure (s, End.raised e) =
    (record s { closed = true }, End.raised (failure "HTTP CONNECT failed"))
close_on_failure (s, End.done u) = (s, End.done u)
close_on_failure (s, End.returned) = (s, End.returned)

unfoldable pub connect_via_http : HttpText → Option Str → Option Str → Str → ℕ → Act (Unit {0})
unfolding connect_text read_response check_status
connect_via_http http username password target_addr target_port s = close_on_failure (
    (do
      text ← attempt (connect_text http username password target_addr target_port)
      request ← attempt (encoded text)
      sendall request
      response ← read_headers
      check_status http response)
      s)
