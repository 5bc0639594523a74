-- ===== src/Tests/Limits.antt =====
-- Limits of a server, and commands that wait within them.
use rservr.Base.{
  ◌≡◌, ◌≤◌, ◌<◌, ◌+◌, ◌↔◌, false, List, refl, [], ◌∷◌, true, false, none, some, length, arith,
}
use rservr.Flags.{type_admin_client}
use rservr.Server.Settings.{Settings, Limit, queue_limit, limit_named, set_limit, get_limit}
use rservr.Server.Settings.Limits.{kept_value, set_to_itself, get_limit-set_limit}
use rservr.Server.Settings.Admission.{
  Compare, Waiting, Step, client_queues, server_queues, executes, run_steps, queue_client_command,
  requeue_server_command, requeued, IsAdded, run_steps_bounds,
}
use rservr.Tests.{switch_on, for_server}

abbrev settings : Settings
settings = record {
  max_client_error = 64;
  max_client_invalid = 32;
  max_client_commands = 512;
  max_commands = 2;
  max_clients = 64;
  max_services = 256;
  max_permissions = type_admin_client;
  max_new_client = type_admin_client;
  min_priority = 127;
}

queued_known : limit_named "max_queued" ≡ some queue_limit
unfolding limit_named
queued_known = refl

get_limit-set_limit_example :
    ((limit : Limit)
      → limit_named "max_queued" ≡ some limit
      → ((set_limit "max_queued" (some 100) settings).0 ≡ true)
        × (get_limit "max_queued" (set_limit "max_queued" (some 100) settings).1
            ≡ some (kept_value limit 100))
        × ((set_limit "max_queued" (get_limit "max_queued" settings) settings).1
            ≡ set_to_itself limit settings))
    × (limit_named "max_queued" ≡ none
        → (set_limit "max_queued" (some 100) settings ≡ (false, settings))
          × (get_limit "max_queued" settings ≡ none))
    × (set_limit "max_queued" none settings ≡ (false, settings))
get_limit-set_limit_example = get_limit-set_limit "max_queued" 100 settings

abbrev first_come : Compare
first_come = λ counter a b. true

abbrev empty_queue : Waiting
empty_queue = record { heap = []; counter = 5 }

abbrev steps : List Step
steps = client_queues (2, switch_on) ∷ server_queues (3, for_server) ∷ executes 1 ∷ []

run_steps_bounds_example :
    let after = run_steps first_come settings steps empty_queue in
    let offered = queue_client_command first_come settings (2, for_server) after in
    let requeues = requeue_server_command first_come (2, for_server) after in
    (length after.heap ≤ 2 + requeued steps)
    × (5 ≤ after.counter)
    × ((offered.0 ≡ true) ↔ (length after.heap < 2))
    × (offered.0 ≡ true
        → IsAdded (2, record for_server { wait_start = after.counter }) after offered.1
          × (offered.1.counter ≡ after.counter + 1))
    × (offered.0 ≡ false → offered.1 ≡ after)
    × (requeues.0 ≡ true)
    × IsAdded (2, for_server) after requeues.1
    × (requeues.1.counter ≡ after.counter)
run_steps_bounds_example =
    run_steps_bounds first_come settings steps empty_queue (2, for_server) (omega arith)
