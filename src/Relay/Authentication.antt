-- ===== src/Relay/Authentication.antt =====
-- No request leaves `_handle_socks_request` without the username and the password, where they are set.
use pywssocks.Base.{
  list_eq, nat_eq, ℕ, ◌≡◌, ◌≢◌, refl, ◌∙◌, ap, sym, true, false, not, ◌&&◌, Option, some, [], ◌∷◌,
  ◌++◌, ◌==◌, eq_iff, append-nil, ◌≤◌, length, Option-cases, Result, ok, err, arith, inl, inr,
  or_raise, unicode_decode_error,
}
use pywssocks.Base.Sets.{elem}
use pywssocks.Text.{Str, Bytes, decode}
use pywssocks.Message.Types.{Message, Uuid, Runtime}
use pywssocks.Message.Pack.{truthy}
use pywssocks.Message.Parse.{index, decoded}
use pywssocks.Relay.Inet.{Inet}
use pywssocks.Relay.Session.{Session, End, ◌>>=◌, ◌>>◌, attempt, recv, sendall, return_early}
use pywssocks.Relay.Handshake.{
  unpack_two, recv_byte, recv_text, is_wrong, check_password, choose_method, authenticate,
  serve_client, on_exception, clean_up, handle_socks_request,
}
use pywssocks.Relay.Consumed.{
  joined, Consumes, Keeps, Keeps-done, bind-Consumes, bind-Keeps, recv-Consumes, recv-Keeps,
  sendall-Consumes, sendall-Keeps, attempt-Consumes, weaken-Consumes, attempt-Keeps,
  return_early-Consumes, return_early-Keeps, if-Keeps, if-Consumes,
}

single : (n : ℕ) (b : Bytes) → index b 0 ≡ ok n → length b ≤ 1 → b ≡ n ∷ []
single n [] h small = cc
single n (x ∷ []) h small = cc
single n (x ∷ y ∷ b) h small = absurd (omega (arith, small))

recv_byte-Consumes : Consumes recv_byte (λ n c. c ≡ n ∷ [])
recv_byte-Consumes =
    bind-Consumes _ (λ n c. c ≡ n ∷ []) (recv 1) _ (recv-Consumes 1)
      (λ b c e.
        weaken-Consumes _ _ _ (attempt-Consumes (index b 0))
          (λ n c' e'. rw (e.0, e'.1, append-nil b) (single n b e'.0 e.1)))

recv_byte-Keeps : Keeps recv_byte
recv_byte-Keeps = bind-Keeps (recv 1) _ (recv-Keeps 1) (λ b. attempt-Keeps (index b 0))

decoded_ok : (b : Bytes) (s : Str) → decoded b ≡ ok s → decode b ≡ some s
decoded_ok b s h = elim (Option-cases (decode b)) [
  | inl bad ↦ absurd (not_err (sym (ap raise_unless bad) ∙ h))
  | inr (s', good) ↦ good ∙ ap some (inner (sym (ap raise_unless good) ∙ h))
]
  where
    raise_unless : Option Str → Result Str
    raise_unless o = or_raise o unicode_decode_error

    not_err : {s : Str} → err unicode_decode_error ≡ ok s → ⊥
    not_err e = cc

    inner : {s t : Str} → ok s ≡ ok t → s ≡ t
    inner e = cc

-- A length byte and a text behind it.
abbrev IsField : Str → Bytes → Type 0
IsField s c = (n : ℕ) × (b : Bytes) × (c ≡ n ∷ b) × (decode b ≡ some s)

recv_text-Consumes : Consumes recv_text IsField
recv_text-Consumes = bind-Consumes _ IsField recv_byte _ recv_byte-Consumes (λ n c e.
    bind-Consumes _ _ (recv n) _ (recv-Consumes n) (λ b c' e'.
      weaken-Consumes _ _ _ (attempt-Consumes (decoded b))
        (λ s c'' e''. (n, b, rw (e, e'.0, e''.1, append-nil b) refl, decoded_ok b s e''.0))))

recv_text-Keeps : Keeps recv_text
recv_text-Keeps =
    bind-Keeps recv_byte _ recv_byte-Keeps
      (λ n. bind-Keeps (recv n) _ (recv-Keeps n) (λ b. attempt-Keeps (decoded b)))

-- What a client has to send before its request: a greeting, methods of which one is 2, the version
-- of the subnegotiation, and the username and the password behind their length bytes.
pub record IsPresented (username password : Str) (c : Bytes) : Type 0 where
  greeting : Bytes
  methods : Bytes
  n : ℕ
  name : Bytes
  m : ℕ
  word : Bytes
  whole : c ≡ greeting ++ (methods ++ (0x01 ∷ n ∷ (name ++ (m ∷ word))))
  offered : elem 0x02 methods ≡ true
  name_is : decode name ≡ some username
  word_is : decode word ≡ some password

abbrev IsLogin : Str → Str → Bytes → Type 0
IsLogin u p c =
    (n : ℕ) × (name : Bytes) × (m : ℕ) × (word : Bytes) × (c ≡ 0x01 ∷ n ∷ (name ++ (m ∷ word)))
    × (decode name ≡ some u)
    × (decode word ≡ some p)

right :
    (u p name word : Str) → is_wrong (some u) (some p) name word ≡ false → (name ≡ u) × (word ≡ p)
right u p name word h = ground (arith, eq_iff name u, eq_iff word p)

fields-IsLogin :
    (u p : Str) (version : ℕ) (name word : Str) (c c1 c2 c3 : Bytes)
    → c ≡ version ∷ []
    → not (version == 0x01) ≡ false
    → IsField name c1
    → IsField word c2
    → c3 ≡ []
    → is_wrong (some u) (some p) name word ≡ false
    → IsLogin u p (c ++ (c1 ++ (c2 ++ c3)))
fields-IsLogin u p version name word c c1 c2 c3 e v (n, b, e1, d1) (m, w, e2, d2) e3 r =
    let (name_ok, word_ok) = right u p name word r in
    (
      n,
      b,
      m,
      w,
      rw (e, one version v, e1, e2, e3, append-nil w) refl,
      d1 ∙ ap some name_ok,
      d2 ∙ ap some word_ok,
    )
  where
    one : (version : ℕ) → not (version == 0x01) ≡ false → version ≡ 0x01
    one version v = ground (arith, eq_iff version 0x01)

check_password-Consumes :
    (u p : Str) → Consumes (check_password (some u) (some p)) (λ x c. IsLogin u p c)
unfolding check_password
check_password-Consumes u p =
    bind-Consumes _ (λ x c. IsLogin u p c) recv_byte _ recv_byte-Consumes
      (λ version c e.
        if-Consumes (not (version == 0x01)) return_early _ _ (λ y. return_early-Consumes _)
          (λ v. bind-Consumes _ _ recv_text _ recv_text-Consumes (λ name c1 f1.
            bind-Consumes _ _ recv_text _ recv_text-Consumes (λ word c2 f2.
              if-Consumes (is_wrong (some u) (some p) name word) _ _ _
                (λ y.
                  bind-Consumes _ _ (sendall _) _ (sendall-Consumes _)
                    (λ z c3 e3. return_early-Consumes _))
                (λ r.
                  weaken-Consumes _ _ _ (sendall-Consumes _)
                    (λ z c3 e3. fields-IsLogin u p version name word c c1 c2 c3 e v f1 f2 e3 r))))))

refused-Keeps : (b : Bytes) → Keeps (sendall b >> return_early {A = Unit {0}})
refused-Keeps b =
    bind-Keeps (sendall b) (λ z. return_early) (sendall-Keeps b)
      (λ z. return_early-Keeps (Unit {0}))

refused-Consumes :
    (b : Bytes) (P : Unit {0} → Bytes → Type 0)
    → Consumes (sendall b >> return_early {A = Unit {0}}) P
refused-Consumes b P =
    bind-Consumes _ P (sendall b) (λ z. return_early) (sendall-Consumes b)
      (λ z c e. return_early-Consumes _)

check_password-Keeps : (u p : Option Str) → Keeps (check_password u p)
unfolding check_password
check_password-Keeps u p = bind-Keeps recv_byte _ recv_byte-Keeps (λ version.
    if-Keeps (not (version == 0x01)) return_early _ (return_early-Keeps (Unit {0})) (
      bind-Keeps recv_text _ recv_text-Keeps (λ name.
        bind-Keeps recv_text _ recv_text-Keeps
          (λ word. if-Keeps (is_wrong u p name word) _ _ (refused-Keeps _) (sendall-Keeps _)))))

choose_method-Keeps : (u p : Option Str) (methods : Bytes) → Keeps (choose_method u p methods)
unfolding choose_method
choose_method-Keeps u p methods =
    if-Keeps (truthy u && truthy p) _ _
      (if-Keeps (not (elem 0x02 methods)) _ _ (refused-Keeps (0x05 ∷ 0xff ∷ [])) (
        bind-Keeps (sendall (0x05 ∷ 0x02 ∷ [])) (λ z. check_password u p)
          (sendall-Keeps (0x05 ∷ 0x02 ∷ [])) (λ z. check_password-Keeps u p)))
      (sendall-Keeps (0x05 ∷ 0x00 ∷ []))

authenticate-Keeps : (u p : Option Str) → Keeps (authenticate u p)
unfolding authenticate
authenticate-Keeps u p = bind-Keeps (recv 2) _ (recv-Keeps 2) (λ greeting.
    bind-Keeps (attempt (unpack_two greeting)) (λ versions. recv versions.1 >>= choose_method u p)
      (attempt-Keeps (unpack_two greeting))
      (λ versions.
        bind-Keeps (recv versions.1) (choose_method u p) (recv-Keeps versions.1)
          (choose_method-Keeps u p)))

choose_method-Consumes :
    (u p : Str) (methods : Bytes)
    → truthy (some u) && truthy (some p) ≡ true
    → Consumes
        (choose_method (some u) (some p) methods)
        (λ x c. (elem 0x02 methods ≡ true) × IsLogin u p c)
unfolding choose_method
choose_method-Consumes u p methods set =
    if-Consumes (truthy (some u) && truthy (some p)) _ (sendall (0x05 ∷ 0x00 ∷ [])) _
      (λ y.
        if-Consumes (not (elem 0x02 methods)) _ _ _ (λ y. refused-Consumes _ _)
          (λ o.
            bind-Consumes _ _ (sendall (0x05 ∷ 0x02 ∷ [])) (λ z. check_password (some u) (some p))
              (sendall-Consumes _)
              (λ z c e.
                weaken-Consumes _ _ _ (check_password-Consumes u p)
                  (λ w c' l. (ground arith, rw e l)))))
      (λ n. absurd (false_true (sym n ∙ set)))
  where
    false_true : false ≡ true → ⊥
    false_true e = cc

authenticate-Consumes :
    (u p : Str)
    → truthy (some u) && truthy (some p) ≡ true
    → Consumes (authenticate (some u) (some p)) (λ x c. IsPresented u p c)
unfolding authenticate
authenticate-Consumes u p set =
    bind-Consumes _ (λ x c. IsPresented u p c) (recv 2) _ (recv-Consumes 2)
      (λ greeting c e.
        bind-Consumes _ _ (attempt (unpack_two greeting))
          (λ versions. recv versions.1 >>= choose_method (some u) (some p))
          (attempt-Consumes (unpack_two greeting))
          (λ versions c0 e0.
            bind-Consumes _ _ (recv versions.1) (choose_method (some u) (some p))
              (recv-Consumes versions.1)
              (λ methods c1 e1.
                weaken-Consumes _ _ _ (choose_method-Consumes u p methods set)
                  (λ w c3 (o, (n, name, m, word, e3, d1, d2)). record {
                    greeting = greeting;
                    methods = methods;
                    n = n;
                    name = name;
                    m = m;
                    word = word;
                    whole = rw (e.0, e0.1, e1.0, e3) refl;
                    offered = o;
                    name_is = d1;
                    word_is = d2;
                  }))))

ended-forwarded :
    (connect_id : Uuid) (r : Session × End Uuid)
    → (clean_up connect_id (on_exception r)).0.forwarded ≡ r.0.forwarded
ended-forwarded connect_id (s, End.done a) = refl
ended-forwarded connect_id (s, End.returned) = refl
ended-forwarded connect_id (s, End.raised e) = refl

-- Where a username and a password are set, neither of them empty, a message goes through the
-- WebSocket only if the client has sent a list of methods with 0x02 in it and then, as the SOCKS
-- password subnegotiation has it, just this username and this password.
pub request-IsPresented :
    (runtime : Runtime) (inet : Inet) (u p : Str) (connect_id : Uuid) (bound_port : ℕ)
    (answer : Option Message) (s : Session)
    → truthy (some u) && truthy (some p) ≡ true
    → (handle_socks_request runtime inet
        (some u)
        (some p)
        connect_id
        bound_port
        answer
        s).0.forwarded
      ≢ s.forwarded
    → (c : Bytes) × (rest : Bytes) × (joined s.incoming ≡ c ++ rest) × IsPresented u p c
unfolding handle_socks_request serve_client Consumes Keeps
request-IsPresented runtime inet u p connect_id bound_port answer s set sent =
    let (x, finished) =
      Keeps-done (authenticate (some u) (some p)) _ s (authenticate-Keeps (some u) (some p))
        (λ same. sent (ended-forwarded connect_id _ ∙ same)) in
    let (c, read, shown) = authenticate-Consumes u p set s x finished in (c, _, read, shown)
