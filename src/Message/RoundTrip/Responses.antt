-- ===== src/Message/RoundTrip/Responses.antt =====
-- Reading back the responses and the disconnect message.
use pywssocks.Base.{
  append_assoc, Bool-cases, String, if◌then◌else◌, ℕ, suc, ◌+◌, ◌-◌, ◌≡◌, ◌⊎◌, inl, inr, refl, Bool,
  true, false, Option, none, some, [], ◌∷◌, ◌++◌, arith, lt→ltb, le→ltb, length, length-append, ok,
  drop-append, take-append, take-all, nat_eq,
}
use pywssocks.Text.{Str}
use pywssocks.Message.Types.{
  AuthResponseMessage, ConnectResponseMessage, DisconnectMessage, ConnectorResponseMessage, Message,
  Uuid,
}
use pywssocks.Message.Pack.{
  pack_auth_response, pack_connect_response, pack_disconnect, pack_connector_response, truthy,
  text_or_empty,
}
use pywssocks.Message.Parse.{
  bool_of, parse_auth_response, parse_connect_response, parse_disconnect, parse_connector_response,
  parse_text,
}
use pywssocks.Message.Canonical.{IsText, IsUuid, IsReason, canonical}
use pywssocks.Message.Fields.{
  ReadsBack, pack_text-IsText, decoded-IsText, slice_field, index_field, parse_text_last,
}

auth_response_cases :
    (success : Bool) (error : Option Str)
    → IsText (text_or_empty error)
    → let m : AuthResponseMessage = record { success = success; error = error } in
      ReadsBack
        (pack_auth_response m)
        0x02
        parse_auth_response
        (canonical (Message.auth_response m))
unfolding pack_auth_response parse_auth_response
auth_response_cases true error h = (1 ∷ [], refl, refl)
auth_response_cases false none h = (0 ∷ [], refl, refl)
auth_response_cases false (some []) h = (0 ∷ [], refl, refl)
auth_response_cases false (some (c ∷ s)) h = (
  0 ∷ length (c ∷ s) ∷ (c ∷ s),
  rw (pack_text-IsText (c ∷ s) h),
  rw (
    le→ltb (suc (suc (suc (length s)))) 1 (omega arith),
    lt→ltb 1 (suc (suc (suc (length s)))) (omega arith),
    parse_text_last (0 ∷ []) (c ∷ s) 1 _ h refl,
  ),
)

pub auth_response-ReadsBack :
    (m : AuthResponseMessage)
    → IsText (text_or_empty m.error)
    → ReadsBack
        (pack_auth_response m)
        0x02
        parse_auth_response
        (canonical (Message.auth_response m))
auth_response-ReadsBack m h = auth_response_cases m.success m.error h

connect_response_cases :
    (success : Bool) (u : Uuid) (error : Option Str)
    → IsUuid u
    → IsReason success error
    → let m : ConnectResponseMessage = record {
      success = success;
      channel_id = u;
      error = error;
    } in
      ReadsBack
        (pack_connect_response m)
        0x05
        parse_connect_response
        (canonical (Message.connect_response m))
unfolding pack_connect_response parse_connect_response
connect_response_cases true u error hu h = (
  1 ∷ (u ++ []),
  refl,
  rw (
    le→ltb (suc (length (u ++ []))) 17 (omega (arith, length-append u [])),
    slice_field (1 ∷ []) u [] 1 17 refl (omega arith),
  ),
)
connect_response_cases false u none hu h = absurd h
connect_response_cases false u (some s) hu h =
    let rest = length s ∷ s in
    (
      0 ∷ (u ++ rest),
      rw (pack_text-IsText s h),
      rw (
        le→ltb (suc (length (u ++ rest))) 17 (omega (arith, length-append u rest)),
        le→ltb (suc (length (u ++ rest))) 18 (omega (arith, length-append u rest)),
        slice_field (0 ∷ []) u rest 1 17 refl (omega arith),
        parse_text_last (0 ∷ u) s 17 _ h (omega arith),
      ),
    )

pub connect_response-ReadsBack :
    (m : ConnectResponseMessage)
    → IsUuid m.channel_id
    → IsReason m.success m.error
    → ReadsBack
        (pack_connect_response m)
        0x05
        parse_connect_response
        (canonical (Message.connect_response m))
connect_response-ReadsBack m hu h = connect_response_cases m.success m.channel_id m.error hu h

parse-disconnect_short :
    (u : Uuid)
    → IsUuid u
    → parse_disconnect (u ++ []) ≡ ok (Message.disconnect (record { channel_id = u; error = none }))
unfolding parse_disconnect
parse-disconnect_short u hu = rw (
  le→ltb (length (u ++ [])) 16 (omega (arith, length-append u [])),
  le→ltb 16 (length (u ++ [])) (omega (arith, length-append u [])),
  take-append 16 u [] (omega arith),
)

disconnect_cases :
    (u : Uuid) (error : Option Str)
    → IsUuid u
    → IsText (text_or_empty error)
    → let m : DisconnectMessage = record { channel_id = u; error = error } in
      ReadsBack (pack_disconnect m) 0x06 parse_disconnect (canonical (Message.disconnect m))
unfolding pack_disconnect
disconnect_cases u none hu h = (u ++ [], refl, parse-disconnect_short u hu)
disconnect_cases u (some []) hu h = (u ++ [], refl, parse-disconnect_short u hu)
disconnect_cases u (some (c ∷ s)) hu h =
    let text = c ∷ s in
    let rest = length text ∷ text in
    let n = length-append u rest in
    (
      u ++ rest,
      rw (pack_text-IsText text h),
      unfold parse_disconnect in
          rw (
            le→ltb (length (u ++ rest)) 16 (omega (arith, n)),
            lt→ltb 16 (length (u ++ rest)) (omega (arith, n)),
            index_field u (length text) text 16 (omega arith),
            le→ltb (length (u ++ rest)) (17 + length text) (omega (arith, n)),
            lt→ltb 0 (length text) (omega arith),
            drop-append 17 1 u rest (omega arith),
            take-all (17 + length text - 17) text (omega arith),
            decoded-IsText text h,
            take-append 16 u rest (omega arith),
          ),
    )

pub disconnect-ReadsBack :
    (m : DisconnectMessage)
    → IsUuid m.channel_id
    → IsText (text_or_empty m.error)
    → ReadsBack (pack_disconnect m) 0x06 parse_disconnect (canonical (Message.disconnect m))
disconnect-ReadsBack m hu h = disconnect_cases m.channel_id m.error hu h

module _ (u : Uuid) (hu : IsUuid u) where
  -- A response with a text behind the flag, read as the error or as the token.
  parse-connector_text :
      (flag : ℕ) (s : Str)
      → IsText s
      → parse_connector_response (u ++ (flag ∷ length s ∷ s))
        ≡ ok (
            Message.connector_response (record {
              success = bool_of flag;
              channel_id = u;
              error = if bool_of flag then none else some s;
              connector_token = if bool_of flag then some s else none;
            }))
  unfolding parse_connector_response
  parse-connector_text flag s h =
      let rest = flag ∷ length s ∷ s in
      let n = length-append u rest in
      rw
        (
          le→ltb (length (u ++ rest)) 17 (omega (arith, n)),
          le→ltb (length (u ++ rest)) 18 (omega (arith, n)),
          lt→ltb 17 (length (u ++ rest)) (omega (arith, n)),
          index_field u flag (length s ∷ s) 16 (omega arith),
          take-append 16 u rest (omega arith),
          text_behind "Invalid connector response message length",
          text_behind "Invalid connector response token length",
        )
        (elim (Bool-cases (bool_of flag)) [ inl e ↦ rw e | inr e ↦ rw e ])
    where
      text_behind : (message : String) → parse_text (u ++ (flag ∷ length s ∷ s)) 17 message ≡ ok s
      text_behind message = rw (← append_assoc u (flag ∷ []) (length s ∷ s)) (
          parse_text_last (u ++ (flag ∷ [])) s 17 message h
            (omega (arith, length-append u (flag ∷ []))))

  parse-connector_bare :
      parse_connector_response (u ++ (1 ∷ []))
      ≡ ok (
          Message.connector_response
            (record { success = true; channel_id = u; error = none; connector_token = none }))
  unfolding parse_connector_response
  parse-connector_bare =
      let n = length-append u (1 ∷ []) in
      rw (
        le→ltb (length (u ++ (1 ∷ []))) 17 (omega (arith, n)),
        le→ltb 17 (length (u ++ (1 ∷ []))) (omega (arith, n)),
        index_field u 1 [] 16 (omega arith),
        take-append 16 u (1 ∷ []) (omega arith),
      )

  connector_response_cases :
      (success : Bool) (error token : Option Str)
      → IsText (text_or_empty error)
      → IsText (text_or_empty token)
      → (success ≡ true) ⊎ (truthy error ≡ true)
      → let m : ConnectorResponseMessage = record {
        success = success;
        channel_id = u;
        error = error;
        connector_token = token;
      } in
        ReadsBack
          (pack_connector_response m)
          0x08
          parse_connector_response
          (canonical (Message.connector_response m))
  unfolding pack_connector_response
  connector_response_cases true error none he ht h = (u ++ (1 ∷ []), refl, parse-connector_bare)
  connector_response_cases true error (some []) he ht h =
      (u ++ (1 ∷ []), refl, parse-connector_bare)
  connector_response_cases true error (some (c ∷ s)) he ht h = (
    u ++ (1 ∷ length (c ∷ s) ∷ (c ∷ s)),
    rw (pack_text-IsText (c ∷ s) ht),
    parse-connector_text 1 (c ∷ s) ht,
  )
  connector_response_cases false none token he ht h = absurd (ground arith)
  connector_response_cases false (some []) token he ht h = absurd (ground arith)
  connector_response_cases false (some (c ∷ s)) token he ht h = (
    u ++ (0 ∷ length (c ∷ s) ∷ (c ∷ s)),
    rw (pack_text-IsText (c ∷ s) he),
    parse-connector_text 0 (c ∷ s) he,
  )

pub connector_response-ReadsBack :
    (m : ConnectorResponseMessage)
    → IsUuid m.channel_id
    → IsText (text_or_empty m.error)
    → IsText (text_or_empty m.connector_token)
    → (m.success ≡ true) ⊎ (truthy m.error ≡ true)
    → ReadsBack
        (pack_connector_response m)
        0x08
        parse_connector_response
        (canonical (Message.connector_response m))
connector_response-ReadsBack m hu =
    connector_response_cases m.channel_id hu m.success m.error m.connector_token
