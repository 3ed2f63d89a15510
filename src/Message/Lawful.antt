-- ===== src/Message/Lawful.antt =====
-- gzip and json by concrete functions that keep the laws of the format: compression does nothing, and
-- a JSON text is written in numbers.
use pywssocks.Base.{ℕ, zero, suc, ◌+◌, ◌≡◌, refl, ap, Option, none, some, [], ◌∷◌, arith, All}
use pywssocks.Text.{Str, Bytes, IsAscii}
use pywssocks.Message.Types.{Runtime, Json, Fields}
use pywssocks.Message.Pack.{log_object, partners_object}
use pywssocks.Message.Canonical.{IsLawful}

-- A text of numbers in unary: each a run of 1s behind which stands a 2, and a 0 at the end.
unary : ℕ → Str → Str
unary zero rest = 2 ∷ rest
unary (suc n) rest = 1 ∷ unary n rest

write : Str → Str → Str
write [] rest = 0 ∷ rest
write (c ∷ s) rest = unary c (write s rest)

abbrev push : ℕ → Option (Str × Str) → Option (Str × Str)
push n none = none
push n (some (s, rest)) = some (n ∷ s, rest)

read : ℕ → Str → Option (Str × Str)
read n [] = none
read n (zero ∷ rest) = some ([], rest)
read n (suc zero ∷ rest) = read (suc n) rest
read n (suc (suc c) ∷ rest) = push n (read zero rest)

read-unary : (k n m : ℕ) (rest : Str) → m ≡ k + n → read k (unary n rest) ≡ push m (read zero rest)
unfolding read unary
read-unary k zero m rest h = ap (λ i. push i (read zero rest)) (omega arith)
read-unary k (suc n) m rest h = read-unary (suc k) n m rest (omega arith)

read-write : (s rest : Str) → read zero (write s rest) ≡ some (s, rest)
unfolding write
read-write [] rest = unfold read in refl
read-write (c ∷ s) rest = rw (read-unary 0 c c (write s rest) (omega arith), read-write s rest)

unary-IsAscii : (n : ℕ) (rest : Str) → All IsAscii rest → All IsAscii (unary n rest)
unfolding unary
unary-IsAscii zero rest h = (omega arith, h)
unary-IsAscii (suc n) rest h = (omega arith, unary-IsAscii n rest h)

write-IsAscii : (s rest : Str) → All IsAscii rest → All IsAscii (write s rest)
unfolding write
write-IsAscii [] rest h = (omega arith, h)
write-IsAscii (c ∷ s) rest h = unary-IsAscii c (write s rest) (write-IsAscii s rest h)

-- Tells the two kinds of objects of the protocol apart, and writes nothing else.
pub dumps : Json → Str
dumps (Json.obj (Fields.field _ (Json.str l) (Fields.field _ (Json.str m) Fields.end))) =
    3 ∷ write l (write m [])
dumps (Json.obj (Fields.field _ (Json.int n) Fields.end)) = 4 ∷ write (n ∷ []) []
dumps _ = []

both_texts : Option (Str × Str) → Option Json
both_texts none = none
both_texts (some (l, rest)) = elim (read zero rest) [
  | none ↦ none
  | some (m, _) ↦ some (log_object (Json.str l) (Json.str m))
]

count_of : Option (Str × Str) → Option Json
count_of (some (n ∷ [], _)) = some (partners_object (Json.int n))
count_of _ = none

pub loads : Str → Option Json
unfolding both_texts count_of
loads (suc (suc (suc zero)) ∷ text) = both_texts (read zero text)
loads (suc (suc (suc (suc zero))) ∷ text) = count_of (read zero text)
loads _ = none

pub unzip : Bytes → Option Bytes
unzip [] = none
unzip (x ∷ b) = some b

abbrev pub runtime : Runtime
runtime = record { compress = λ b. 31 ∷ b; decompress = unzip; dumps = dumps; loads = loads }

dumps-IsAscii : (j : Json) → All IsAscii (dumps j)
unfolding dumps
dumps-IsAscii (Json.obj (Fields.field k (Json.str l) (Fields.field q (Json.str m) Fields.end))) =
    (omega arith, write-IsAscii l (write m []) (write-IsAscii m [] tt))
dumps-IsAscii (Json.obj (Fields.field k (Json.int n) Fields.end)) =
    (omega arith, write-IsAscii (n ∷ []) [] tt)
dumps-IsAscii _ = tt

pub runtime-IsLawful : IsLawful runtime
unfolding dumps loads unzip
runtime-IsLawful = record {
  decompress-compress = λ b. refl;
  dumps_ascii = dumps-IsAscii;
  loads-log = λ l m hl hm. rw (read-write l (write m [])) (rw (read-write m [], both_texts));
  loads-partners = λ n. rw (read-write (n ∷ []) []);
}
