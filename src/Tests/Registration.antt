-- ===== src/Tests/Registration.antt =====
-- Registering.
use rservr.Base.{
  ℕ, ◌^◌, ◌<◌, ◌≡◌, ◌↔◌, ◌⊎◌, refl, List, [], ◌∷◌, Bool, true, false, Option, some, arith,
}
use rservr.Flags.{
  ◌&◌, check_all, type_resource_client_all, type_control_client_all, type_all_clients, type_none,
}
use rservr.Server.{Server, Client}
use rservr.Server.Clients.{get_client_id}
use rservr.Server.Register.{
  accepted, check_request, granted, without_monitor, set_registered_client_type,
}
use rservr.Server.Register.Permits.{GivesUp, Takes}
use rservr.Server.Register.Effects.{registrations, renamed, accepted_registers}
use rservr.Tests.{lamp, newcomer, house}

found : get_client_id house 4 ≡ some newcomer
unfolding get_client_id rservr.Base.find
found = refl

succeeds : (set_registered_client_type 4 lamp type_resource_client_all false house).0 ≡ true
unfolding set_registered_client_type get_client_id rservr.Base.find rservr.Server.Register.finish
    check_request check_all without_monitor
succeeds = refl

fails : (set_registered_client_type 4 [] type_control_client_all false house).0 ≡ false
unfolding set_registered_client_type get_client_id rservr.Base.find rservr.Server.Register.finish
    check_request check_all without_monitor rservr.Flags.check_any
fails = refl

accepted_registers_example :
    let asked = without_monitor newcomer.max_permissions type_resource_client_all in
    let (done, back, after) =
      set_registered_client_type 4 lamp type_resource_client_all false house in
    (check_all newcomer.max_permissions (asked & type_all_clients) ≡ true)
    × (GivesUp lamp asked ⊎ Takes newcomer lamp asked)
    × (back ≡ granted newcomer asked)
    × (registrations after ≡ renamed 4 (granted newcomer asked) lamp (registrations house))
accepted_registers_example =
    accepted_registers 4 lamp type_resource_client_all false house newcomer found succeeds
