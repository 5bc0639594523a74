-- ===== src/Tests/Removing.antt =====
-- Clients leave, and the tables stay sound.
use rservr.Base.{
  ℕ, suc, ◌≡◌, ◌⊎◌, refl, List, [], ◌∷◌, Bool, true, false, Option, none, some, find, length,
}
use rservr.Server.{Server, Client}
use rservr.Server.Clients.{has_handle, get_client_id}
use rservr.Server.Removal.{remove_client_common, remove_all}
use rservr.Server.Removal.Loop.{remove_all_ends}
use rservr.Base.{All}
use rservr.Server.Removal.Everyone.{disconnect_all_clients}
use rservr.Server.Sound.Everyone.{IsRunning, disconnect_all_clients-clears}
use rservr.Server.Interface.{indicate_ready}
use rservr.Server.Sound.{IsSound}
use rservr.Server.Sound.Changes.{Present}
use rservr.Server.Sound.Requests.{is_ready, ends, rests, goes, Run-IsSound}
use rservr.Server.Interface.{Settings, register_client}
use rservr.Server.Names.{HasUniqueNames}
use rservr.Base.{keep, drop_where}
use rservr.Server.Monitors.{exits_as, send_exit_update}
use rservr.Server.Monitors.Updates.{notices, send_exit_update_tells}
use rservr.Tests.{lamp}
use rservr.Server.Names.Requests.{Run-HasUniqueNames}
use rservr.Server.Sound.Requests.{registers}
use rservr.Flags.{type_control_client_all}
use rservr.Base.{is_empty, text_eq, if◌then◌else◌, arith, ◌≤◌, count, Text}
use rservr.Terminal.{no_control}
use rservr.Tests.{ada}
use rservr.Tests.{server_client, newcomer, house, session}

sound : IsSound house
unfolding rservr.Base.any
sound = ((refl, tt), (refl, tt), (refl, tt))

house-IsRunning : All IsRunning house.clients
house-IsRunning = (refl, (refl, (refl, (refl, tt))))

disconnect_all_clients-clears_example :
    let after = (disconnect_all_clients session (house, no_control)).0 in
    (after.clients ≡ [])
    × (after.exiting ≡ true)
    × (IsSound house
        → All IsRunning house.clients
        → (after.services ≡ []) × (after.event_monitors ≡ []) × (after.exit_monitors ≡ []))
disconnect_all_clients-clears_example = disconnect_all_clients-clears session house no_control

nothing_left : (disconnect_all_clients session (house, no_control)).0.services ≡ []
nothing_left = ((disconnect_all_clients-clears session house no_control).2 sound house-IsRunning).0

present : Present house newcomer
unfolding get_client_id find
present = refl

-- Without the server client no service is left.
remove_client_common_test :
    (remove_client_common session false server_client (house, no_control)).1.services ≡ []
unfolding remove_client_common rservr.Server.Removal.destroy rservr.Server.Removal.prepare
    rservr.Server.Removal.release rservr.Server.Services.remove_handle_services
    rservr.Base.drop_where rservr.Server.Monitors.clear_client_monitoring
    rservr.Server.Clients.notify_register_attempt rservr.Server.Clients.notify_target
remove_client_common_test = refl

remove_all_ends_example :
    let after = remove_all session false (has_handle 3) (house, no_control) in
    (find (has_handle 3) after.0.clients ≡ none) ⊎ (after.0.exiting ≡ true)
remove_all_ends_example = remove_all_ends session false (has_handle 3) (house, no_control)

abbrev ready : Server
ready = (indicate_ready (some newcomer) house).1

abbrev without_lamp : Server
without_lamp = (remove_client_common session true server_client (ready, no_control)).1

Run-IsSound_example : IsSound without_lamp
Run-IsSound_example =
    Run-IsSound house without_lamp
      (goes house ready without_lamp (is_ready newcomer house present) (
        goes ready without_lamp without_lamp (ends session true server_client ready no_control)
          (rests without_lamp)))
      sound

-- A server with one client that has no name yet.
abbrev start : Server
start = record house {
  clients = newcomer ∷ [];
  services = [];
  event_monitors = [];
  exit_monitors = [];
}

abbrev settings : Settings
settings = record { max_services = 16; entity_label = λ label. true; address_label = λ label. true }

unique_at_start : HasUniqueNames start
unfolding count
unique_at_start name filled = ground arith

newcomer_at_start : Present start newcomer
unfolding get_client_id rservr.Base.find
newcomer_at_start = refl

abbrev named_ada : Server
named_ada = (register_client settings (some newcomer) ada type_control_client_all false start).2

Run-HasUniqueNames_example : HasUniqueNames named_ada
Run-HasUniqueNames_example =
    Run-HasUniqueNames start named_ada
      (goes start named_ada named_ada
        (registers settings newcomer ada type_control_client_all false start newcomer_at_start)
        (rests named_ada))
      unique_at_start

send_exit_update_tells_example :
    let after = send_exit_update 3 lamp house in
    (after.exit_monitors ≡ drop_where (exits_as 3 lamp) house.exit_monitors)
    × (after.sent ≡ notices (keep (exits_as 3 lamp) house.exit_monitors) house.sent)
send_exit_update_tells_example = send_exit_update_tells 3 lamp house sound
