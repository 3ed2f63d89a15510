-- ===== src/Relay/Consumed.antt =====
-- What a handler of relay.py has read from its client when a step ends well, and what it left alone.
use pywssocks.Base.{
  ℕ, zero, suc, ◌≡◌, refl, ◌∙◌, ap, sym, Bool, true, false, List, [], ◌∷◌, ◌++◌, append_assoc,
  if◌then◌else◌, take, drop, Result, ok, err, arith, ◌≤◌, ◌≢◌, length, length-take_le, subst,
}
use pywssocks.Text.{Bytes}
use pywssocks.Relay.Session.{
  Session, End, Act, after, ◌>>=◌, return_early, attempt, push, received, unread, recv, sendall,
}

-- The bytes that a client sends, in one sequence.
abbrev pub joined : List Bytes → Bytes
joined [] = []
joined (piece ∷ rest) = piece ++ joined rest

joined-push : (b : Bytes) (l : List Bytes) → joined (push b l) ≡ b ++ joined l
joined-push [] l = refl
joined-push (x ∷ b) l = refl

take-drop : (n : ℕ) (b : Bytes) → b ≡ take n b ++ drop n b
take-drop zero b = refl
take-drop (suc n) [] = refl
take-drop (suc n) (x ∷ b) = ap (λ r. x ∷ r) (take-drop n b)

joined-received : (n : ℕ) (l : List Bytes) → joined l ≡ received n l ++ joined (unread n l)
joined-received n [] = refl
joined-received n (piece ∷ rest) = rw (joined-push (drop n piece) rest) (
    ap (λ b. b ++ joined rest) (take-drop n piece)
    ∙ append_assoc (take n piece) (drop n piece) (joined rest))

-- Where the step is done, it has read `c`, and `P` holds of its value and `c`.
unfoldable pub Consumes : {A : Type 0} → Act A → (A → Bytes → Type 0) → Type 0
Consumes {A = A} step P =
    (s : Session) (a : A)
    → (step s).1 ≡ End.done a
    → (c : Bytes) × (joined s.incoming ≡ c ++ joined (step s).0.incoming) × P a c

-- The step sends nothing through the WebSocket.
unfoldable pub Keeps : {A : Type 0} → Act A → Type 0
Keeps step = (s : Session) → (step s).0.forwarded ≡ s.forwarded

module _ {A B : Type 0} where
  pub bind-Consumes :
      (P : A → Bytes → Type 0) (R : B → Bytes → Type 0) (step : Act A) (rest : A → Act B)
      → Consumes step P
      → ((a : A) (c : Bytes) → P a c → Consumes (rest a) (λ b c'. R b (c ++ c')))
      → Consumes (step >>= rest) R
  unfolding Consumes
  bind-Consumes P R step rest first next s b h = ended (step s) refl h
    where
      ended :
          (r : Session × End A)
          → step s ≡ r
          → (after r rest).1 ≡ End.done b
          → (c : Bytes) × (joined s.incoming ≡ c ++ joined (after r rest).0.incoming) × R b c
      ended (t, End.done a) e h =
          let (c, read, p) = first s a (ap (λ r. r.1) e) in
          let (c', read', r) = next a c p t b h in
          (
            c ++ c',
            read
                ∙ ap (λ r. c ++ joined r.0.incoming) e
                ∙ ap (λ x. c ++ x) read'
                ∙ sym (append_assoc c c' _),
            r,
          )
      ended (t, End.returned) e h = cc
      ended (t, End.raised x) e h = cc

  pub bind-Keeps :
      (step : Act A) (rest : A → Act B)
      → Keeps step
      → ((a : A) → Keeps (rest a))
      → Keeps (step >>= rest)
  unfolding Keeps
  bind-Keeps step rest first next s = ended (step s) refl
    where
      ended : (r : Session × End A) → step s ≡ r → (after r rest).0.forwarded ≡ s.forwarded
      ended (t, End.done a) e = next a t ∙ sym (ap (λ r. r.0.forwarded) e) ∙ first s
      ended (t, End.returned) e = sym (ap (λ r. r.0.forwarded) e) ∙ first s
      ended (t, End.raised x) e = sym (ap (λ r. r.0.forwarded) e) ∙ first s

  -- Where such a step is followed by a message to the WebSocket, the step is done.
  pub Keeps-done :
      (step : Act A) (rest : A → Act B) (s : Session)
      → Keeps step
      → ((step >>= rest) s).0.forwarded ≢ s.forwarded
      → (a : A) × ((step s).1 ≡ End.done a)
  unfolding Keeps
  Keeps-done step rest s keeps sent = ended (step s) (keeps s) sent
    where
      ended :
          (r : Session × End A)
          → r.0.forwarded ≡ s.forwarded
          → (after r rest).0.forwarded ≢ s.forwarded
          → (a : A) × (r.1 ≡ End.done a)
      ended (t, End.done a) k h = (a, refl)
      ended (t, End.returned) k h = absurd (h k)
      ended (t, End.raised x) k h = absurd (h k)

length-received : (n : ℕ) (l : List Bytes) → length (received n l) ≤ n
length-received n [] = omega arith
length-received n (piece ∷ rest) = length-take_le n piece

pub recv-Consumes : (n : ℕ) → Consumes (recv n) (λ b c. (c ≡ b) × (length b ≤ n))
unfolding Consumes recv
recv-Consumes n s b h =
    let same = done_is h in
    (
      received n s.incoming,
      joined-received n s.incoming,
      (same, subst (λ x. length x ≤ n) same (length-received n s.incoming)),
    )
  where
    done_is : {x y : Bytes} → End.done x ≡ End.done y → x ≡ y
    done_is e = cc

pub recv-Keeps : (n : ℕ) → Keeps (recv n)
unfolding Keeps recv
recv-Keeps n s = refl

pub sendall-Consumes : (b : Bytes) → Consumes (sendall b) (λ u c. c ≡ [])
unfolding Consumes sendall
sendall-Consumes b s u h = ([], refl, refl)

pub sendall-Keeps : (b : Bytes) → Keeps (sendall b)
unfolding Keeps sendall
sendall-Keeps b s = refl

pub return_early-Keeps : (A : Type 0) → Keeps {A = A} return_early
unfolding Keeps
return_early-Keeps A s = refl

module _ {A : Type 0} where
  pub weaken-Consumes :
      (P Q : A → Bytes → Type 0) (step : Act A)
      → Consumes step P
      → ((a : A) (c : Bytes) → P a c → Q a c)
      → Consumes step Q
  unfolding Consumes
  weaken-Consumes P Q step f more s a h = let (c, read, p) = f s a h in (c, read, more a c p)

  pub attempt-Consumes : (r : Result A) → Consumes (attempt r) (λ a c. (r ≡ ok a) × (c ≡ []))
  unfolding Consumes
  attempt-Consumes (ok b) s a h = ([], refl, (cc, refl))
  attempt-Consumes (err e) s a h = cc

  pub attempt-Keeps : (r : Result A) → Keeps (attempt r)
  unfolding Keeps
  attempt-Keeps (ok b) s = refl
  attempt-Keeps (err e) s = refl

  pub return_early-Consumes : (P : A → Bytes → Type 0) → Consumes return_early P
  unfolding Consumes
  return_early-Consumes P s a h = cc

  pub if-Keeps : (b : Bool) (f g : Act A) → Keeps f → Keeps g → Keeps (if b then f else g)
  if-Keeps true f g kf kg = kf
  if-Keeps false f g kf kg = kg

  pub if-Consumes :
      (b : Bool) (f g : Act A) (P : A → Bytes → Type 0)
      → (b ≡ true → Consumes f P)
      → (b ≡ false → Consumes g P)
      → Consumes (if b then f else g) P
  if-Consumes true f g P cf cg = cf refl
  if-Consumes false f g P cf cg = cg refl
