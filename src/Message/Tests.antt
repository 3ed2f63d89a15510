-- ===== src/Message/Tests.antt =====
-- Runs of the format, and a runtime for which the assumptions on gzip and json hold.
use pywssocks.Base.{◌≡◌, refl, true, false, none, some, [], ◌∷◌, arith, All, ok, err, value_error}
use pywssocks.Text.{Bytes, IsAscii, codes, encode, decode}
use pywssocks.Message.Types.{Message, AuthMessage, Uuid, udp}
use pywssocks.Message.Pack.{pack_message, pack_body, pack_auth, pack_text, pack_byte}
use pywssocks.Message.Parse.{parse_message, parse_payload, parse_auth}
use pywssocks.Message.Canonical.{canonical}
use pywssocks.Message.RoundTrip.{parse-pack}
use pywssocks.Message.Limits.{connect_response_unreadable, pack-IsAscii}
use pywssocks.Message.Lawful.{runtime, runtime-IsLawful}

abbrev uuid : Uuid
uuid = 1 ∷ 2 ∷ 3 ∷ 4 ∷ 5 ∷ 6 ∷ 7 ∷ 8 ∷ 9 ∷ 10 ∷ 11 ∷ 12 ∷ 13 ∷ 14 ∷ 15 ∷ 16 ∷ []

abbrev datagram : Message
datagram = Message.payload (record {
  protocol = udp;
  channel_id = uuid;
  content = 104 ∷ 105 ∷ [];
  compression = 1;
  address = none;
  port = none;
  target_addr = some (codes "dns.test");
  target_port = some 53;
})

abbrev hello : AuthMessage
hello = record { token = codes "ab"; reverse = true; instance_id = uuid }

parse-pack_example :
    (b : Bytes) × (pack_message runtime datagram ≡ ok b)
    × (parse_message runtime b ≡ ok (canonical datagram))
parse-pack_example = parse-pack runtime datagram runtime-IsLawful (omega arith)

connect_response_unreadable_example :
    (b : Bytes) × (pack_message runtime
        (Message.connect_response (record { success = false; channel_id = uuid; error = none }))
      ≡ ok b)
    × (parse_message runtime b ≡ err (value_error "Invalid connect response error length"))
connect_response_unreadable_example = connect_response_unreadable runtime uuid refl

abbrev hello_bytes : Bytes
hello_bytes = 1 ∷ 1 ∷ 2 ∷ 97 ∷ 98 ∷ 1 ∷ uuid

pack_hello : pack_message runtime (Message.auth hello) ≡ ok hello_bytes
unfolding pack_message pack_body pack_auth pack_text pack_byte encode
pack_hello = refl

parse_hello : parse_message runtime hello_bytes ≡ ok (Message.auth hello)
unfolding parse_message parse_payload parse_auth decode
parse_hello = refl

pack-IsAscii_example : All IsAscii (codes "ab")
pack-IsAscii_example = pack-IsAscii runtime hello hello_bytes pack_hello parse_hello
