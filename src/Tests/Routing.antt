-- ===== src/Tests/Routing.antt =====
-- Commands on their way, services and monitors.
use rservr.Base.{
  ℕ, ◌≡◌, ◌≢◌, ◌↔◌, ◌⊎◌, refl, List, [], ◌∷◌, Bool, true, false, Option, some, ◌&&◌, arith, any,
  drop_where, is_empty, if◌then◌else◌,
}
use rservr.Flags.{type_control_client_all, type_resource_client_all, event_rejected}
use rservr.Server.{Server, delivered}
use rservr.Server.Clients.{get_client_id}
use rservr.Server.Services.{get_service_client_handle}
use rservr.Server.Route.{allow, permission_rules, origin_allowed, send_client_command}
use rservr.Server.Route.Rules.{Permitted, permission_rules_iff}
use rservr.Server.Route.Judged.{Refuses}
use rservr.Server.Route.Outcomes.{IsLost, Reaches, send_client_command_cases}
use rservr.Tests.{control, server_client, house, switch_on, outside}

-- The control client's command is written to the resource client.
send_client_command_test : (send_client_command outside 2 switch_on house).0 ≡ true
unfolding send_client_command get_client_id rservr.Base.find origin_allowed rservr.Base.text_eq
    rservr.Server.Route.to_receiver rservr.Server.Route.find_receiver
    rservr.Server.Clients.get_client_id_name get_service_client_handle
    rservr.Server.Route.to_service rservr.Server.Route.judge permission_rules rservr.Flags.check_all
    rservr.Server.Route.request_rule rservr.Server.Route.deliver
send_client_command_test = refl

found : get_client_id house 2 ≡ some control
unfolding get_client_id rservr.Base.find
found = refl

send_client_command_cases_example :
    let r = send_client_command outside 2 switch_on house in
    ((origin_allowed house control switch_on ≡ false) × Refuses house switch_on event_rejected r)
    ⊎ ((origin_allowed house control switch_on ≡ true)
        × (IsLost switch_on house r ⊎ Reaches outside control switch_on house r))
send_client_command_cases_example =
    send_client_command_cases outside 2 switch_on house control (omega arith) found

permission_rules_iff_example :
    (permission_rules type_control_client_all type_resource_client_all true switch_on ≡ allow)
    ↔ Permitted type_control_client_all type_resource_client_all true switch_on
permission_rules_iff_example =
    permission_rules_iff type_control_client_all type_resource_client_all true switch_on

served : get_client_id house 3 ≡ some server_client
unfolding get_client_id rservr.Base.find
served = refl
