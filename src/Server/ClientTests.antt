-- ===== src/Server/ClientTests.antt =====
-- Clients that come and go, at a small server.
use pywssocks.Base.{list_eq, nat_eq, ◌≡◌, ◌≢◌, refl, true, false, some, [], ◌∷◌}
use pywssocks.Base.Dict.{get}
use pywssocks.Message.Types.{AuthMessage}
use pywssocks.Server.State.{int_eq, pos, negsuc}
use pywssocks.Server.Clients.{
  kind, register_client, leave, leaving_token, uuid_text, reverse_client,
}
use pywssocks.Server.Admission.{welcome}
use pywssocks.Server.Dispatch.{has_client}
use pywssocks.Server.Membership.{clients_of}
use pywssocks.Server.Visits.{
  HasJoined, SameMembers, is_listed, register-leave, internal_token_stays,
}
use pywssocks.Server.Welcome.{Admission, welcome-Admission}
use pywssocks.Server.Small.{a, b, server, server-IsValid, hub, wire}

abbrev newcomer : AuthMessage
newcomer = record { token = a; reverse = true; instance_id = [] }

welcome-Admission_example :
    Admission wire newcomer
      (3 ∷ [])
      11
      hub
      (welcome wire newcomer (3 ∷ []) 11 (kind newcomer server) hub).0
welcome-Admission_example = welcome-Admission wire newcomer (3 ∷ []) 11 hub server-IsValid

register-leave_example :
    let s' = register_client newcomer (3 ∷ [], 11) (reverse_client (pos 1080)) server in
    HasJoined (3 ∷ []) 11 (leaving_token newcomer (reverse_client (pos 1080)) server) server s'
    × SameMembers server
        (leave (3 ∷ []) (leaving_token newcomer (reverse_client (pos 1080)) server) s')
unfolding is_listed get
register-leave_example =
    register-leave newcomer (3 ∷ []) 11 (reverse_client (pos 1080)) server refl full refl refl
  where
    full : a ≢ []
    full e = cc

abbrev manager : AuthMessage
manager = record { token = b; reverse = true; instance_id = 16 ∷ [] }

internal_token_stays_example :
    let s' =
      leave
        (3 ∷ [])
        (uuid_text (16 ∷ []))
        (register_client manager (3 ∷ [], 11) (reverse_client (negsuc 0)) server) in
    (get (uuid_text (16 ∷ [])) s'.tokens ≡ some (negsuc 0))
    × (has_client (3 ∷ []) (clients_of (uuid_text (16 ∷ [])) s') ≡ false)
unfolding get
internal_token_stays_example = internal_token_stays manager (3 ∷ []) 11 (negsuc 0) server refl
