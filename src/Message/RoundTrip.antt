-- ===== src/Message/RoundTrip.antt =====
-- `parse_message` reads back what `pack_message` wrote.
mod Requests
mod Responses
mod Payloads
use pywssocks.Base.{
  ℕ, suc, ◌≡◌, refl, ap, ◌∙◌, Bool, ◌∷◌, arith, ltb, le→ltb, length, Result, ok, err, ◌>>=◌, sym,
  nat_eq, ◌==◌, List,
}
use pywssocks.Text.{Bytes}
use pywssocks.Message.Types.{Message, Runtime, LogMessage, PartnersMessage, Json}
use pywssocks.Message.Pack.{pack_body, pack_message}
use pywssocks.Message.Parse.{parse_payload, parse_message}
use pywssocks.Message.Canonical.{IsLawful, IsPackable, canonical}
use pywssocks.Message.Fields.{ReadsBack}
use Requests.{auth-ReadsBack, connect-ReadsBack, connector-ReadsBack}
use Responses.{
  auth_response-ReadsBack, connect_response-ReadsBack, disconnect-ReadsBack,
  connector_response-ReadsBack,
}
use Payloads.{data-ReadsBack, log-ReadsBack, partners-ReadsBack}

-- The version and the type in front of a branch.
parse-pack_body :
    (r : Runtime) (m : Message) (c : ℕ) (parse : Bytes → Result Message) (m' : Message)
    → ((b : Bytes) → parse_payload r c b ≡ parse b)
    → ReadsBack (pack_body r m) c parse m'
    → (b : Bytes) × (pack_message r m ≡ ok b) × (parse_message r b ≡ ok m')
unfolding pack_message parse_message
parse-pack_body r m c parse m' dispatch (b, packed, parsed) = (
  0x01 ∷ c ∷ b,
  rw packed,
  rw (le→ltb (suc (suc (length b))) 2 (omega arith)) (dispatch b ∙ parsed),
)

-- A message within the limits of the format is packed without an error, and parsing the bytes gives
-- its canonical form.
pub parse-pack :
    (r : Runtime) (m : Message)
    → IsLawful r
    → IsPackable r m
    → (b : Bytes) × (pack_message r m ≡ ok b) × (parse_message r b ≡ ok (canonical m))
unfolding pack_body parse_payload
parse-pack r (Message.auth m) laws h =
    parse-pack_body r _ _ _ _ (λ b. refl) (auth-ReadsBack m h.0 h.1)
parse-pack r (Message.auth_response m) laws h =
    parse-pack_body r _ _ _ _ (λ b. refl) (auth_response-ReadsBack m h)
parse-pack r (Message.connect m) laws h =
    parse-pack_body r _ _ _ _ (λ b. refl) (connect-ReadsBack m h.0 h.1)
parse-pack r (Message.connect_response m) laws h =
    parse-pack_body r _ _ _ _ (λ b. refl) (connect_response-ReadsBack m h.0 h.1)
parse-pack r (Message.payload m) laws h =
    parse-pack_body r _ _ _ _ (λ b. refl) (data-ReadsBack r laws m h.0 h.1 h.2 h.3 h.4)
parse-pack r (Message.disconnect m) laws h =
    parse-pack_body r _ _ _ _ (λ b. refl) (disconnect-ReadsBack m h.0 h.1)
parse-pack r (Message.connector m) laws h =
    parse-pack_body r _ _ _ _ (λ b. refl) (connector-ReadsBack m h.0 h.1 h.2)
parse-pack r (Message.connector_response m) laws h =
    parse-pack_body r _ _ _ _ (λ b. refl) (connector_response-ReadsBack m h.0 h.1 h.2 h.3)
parse-pack r (Message.log m) laws (l, s, el, es, hl, hs, fits) =
    parse-pack_body r _ _ _ _ (λ b. refl) (log-ReadsBack r laws m l s el es hl hs fits)
parse-pack r (Message.partners m) laws (n, e, fits) =
    parse-pack_body r _ _ _ _ (λ b. refl) (partners-ReadsBack r laws m n e fits)
