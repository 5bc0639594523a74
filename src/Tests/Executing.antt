-- ===== src/Tests/Executing.antt =====
-- The cache of commands is executed.
use rservr.Base.{
  ℕ, ◌≤◌, ◌≡◌, ◌≢◌, ◌↔◌, ◌⊎◌, refl, List, [], ◌∷◌, Bool, true, false, Option, some, arith, is_some,
  length, drop_where, ◌==◌,
}
use rservr.Server.{Server, Client, Command}
use rservr.Server.Clients.{get_client_id}
use rservr.Server.Execute.{
  Evaluate, execute_here, execute_single, remove_first, internal_round, internal_execute,
}
use rservr.Server.Execute.Steps.{Known, internal_round_takes}
use rservr.Server.Execute.Loop.{internal_execute_ends}
use rservr.Server.Execute.Origin.{ForServer, OriginPasses, execute_here_cases}
use rservr.Server.Route.{forgive_error, count_error, count_invalid}
use rservr.Flags.{check_all}
use rservr.Tests.{control, house, switch_on, for_server, outside}

-- A command that asks the server to exit.
abbrev exits : Evaluate
exits handle cmd s = record s { exiting = true }

abbrev queue : List (ℕ × Command)
queue = (2, for_server) ∷ (2, switch_on) ∷ []

-- A cancelled command takes the one behind it along.
cancelled_test : (internal_round outside exits (0, switch_on) queue house).0 ≡ (2, switch_on) ∷ []
unfolding internal_round rservr.Server.Execute.after_single execute_single
    rservr.Server.Clients.decrement_client_waiting get_client_id rservr.Base.find drop_where
cancelled_test = refl

found : get_client_id house 2 ≡ some control
unfolding get_client_id rservr.Base.find
found = refl

internal_round_takes_example :
    let r = execute_single outside exits (2, for_server) queue house in
    let after = internal_round outside exits (2, for_server) queue house in
    (after.1 ≡ r.2)
    × (((r.0 ≡ true) × (after.0 ≡ queue))
        ⊎ ((r.0 ≡ false)
            × ((Known house 2 × (after.0 ≡ remove_first queue))
                ⊎ ((is_some (get_client_id house 2) ≡ false)
                    × (after.0 ≡ remove_first (drop_where (λ e. e.0 == 2) queue))))))
internal_round_takes_example = internal_round_takes outside exits 2 for_server queue house

internal_execute_ends_example :
    let r = internal_execute outside exits 2 queue house in (r.0 ≡ []) ⊎ (r.1.exiting ≡ true)
internal_execute_ends_example = internal_execute_ends outside exits 2 queue house (omega arith)

execute_here_cases_example :
    let r = execute_here exits (2, for_server) queue house in
    (r.1 ≡ queue)
    × (check_all control.client_type for_server.permissions ≡ false → (r.0 ≡ false) × (r.2 ≡ house))
    × (check_all control.client_type for_server.permissions ≡ true
        → (r.0 ≡ true)
          × (OriginPasses house control for_server
              → ForServer for_server
              → r.2 ≡ exits 2 for_server (forgive_error 2 house))
          × (OriginPasses house control for_server
              → ¬ ForServer for_server
              → r.2 ≡ count_error 2 house)
          × (¬ OriginPasses house control for_server → r.2 ≡ count_invalid 2 house))
execute_here_cases_example = execute_here_cases exits 2 for_server queue house control found
