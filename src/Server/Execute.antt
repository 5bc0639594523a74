-- ===== src/Server/Execute.antt =====
-- libs/server/execute-thread.cpp and libs/server/api-server.cpp (`validate_and_execute`): the
-- commands in the cache are executed from its front. What a server command does through the
-- server's interface (`evaluate_server`) is the parameter `evaluate`. The cache lives apart from the
-- tables, and a command that is evaluated does not reach it. Locks are taken to be granted, and the
-- thread that executes to be running.
pub mod Steps
pub mod Loop
pub mod Origin
use rservr.Base.{
  ℕ, zero, suc, List, [], ◌∷◌, Bool, true, false, Option, none, some, ◌&&◌, ◌||◌, not, ◌==◌,
  if◌then◌else◌, Text, text_eq, is_empty, length, drop_where,
}
use rservr.Flags.{check_all, type_none, command_server}
use rservr.Server.{Server, Client, Command}
use rservr.Server.Clients.{get_client_id, decrement_client_waiting}
use rservr.Server.Services.{get_service_client_handle}
use rservr.Server.Route.{Outside, send_client_command, count_error, count_invalid, forgive_error}

-- What a command does to the server, for the client with the handle.
abbrev pub Evaluate : Type 0
Evaluate = ℕ → Command → Server → Server

abbrev one_if : Bool → ℕ
one_if true = 1
one_if false = 0

-- The origin is looked at only if `(client_type == type_none) ^ orig_entity.size()` is 0, that is,
-- only if the two numbers are equal.
unfoldable pub foreign_origin : Server → Client → Command → Bool
foreign_origin s c cmd =
    (one_if (c.client_type == type_none) == length cmd.orig_entity)
    && (not (text_eq c.client_name cmd.orig_entity)
        && not (get_service_client_handle s cmd.orig_entity == c.handle))

unfoldable pub validate_and_execute : Evaluate → ℕ → Command → Server → Bool × Server
validate_and_execute evaluate handle cmd s = elim (get_client_id s handle) [
  | none ↦ (false, s)
  | some c ↦
      if foreign_origin s c cmd
      then (false, count_invalid handle s)
      else if not (check_all cmd.execute_type command_server)
      then (false, count_error handle s)
      else if not (is_empty cmd.target_address)
      then (false, count_error handle s)
      else if not (is_empty cmd.target_entity)
      then (false, count_error handle s)
      else (true, evaluate handle cmd (forgive_error handle s))
]

-- set_effective_handle: the client, if it may have the command executed.
unfoldable pub set_effective_handle : Server → ℕ → Command → Option Client
set_effective_handle s handle cmd = elim (get_client_id s handle) [
  | none ↦ none
  | some c ↦ if check_all c.client_type cmd.permissions then some c else none
]

abbrev Entry : Type 0
Entry = ℕ × Command

-- What `execute_single` gives: its result, the cache and the server.
abbrev pub Single : Type 0
Single = Bool × List (ℕ × Command) × Server

-- A command that is not for the server itself goes on to its receiver.
unfoldable pub forward : Outside → Entry → List Entry → Server → Single
forward out (handle, cmd) rest s =
    let (outcome, after) = send_client_command out handle cmd s in (outcome, rest, after)

unfoldable pub execute_here : Evaluate → Entry → List Entry → Server → Single
execute_here evaluate (handle, cmd) rest s = elim (set_effective_handle s handle cmd) [
  | none ↦ (false, rest, s)
  | some c ↦ (true, rest, (validate_and_execute evaluate handle cmd s).1)
]

-- The first command of the cache, of which there is one. The client of the command no longer
-- waits for it; with no such client all of its commands are removed.
unfoldable pub execute_single : Outside → Evaluate → Entry → List Entry → Server → Single
execute_single out evaluate (handle, cmd) rest s =
    let (found, counted) = decrement_client_waiting s handle in
    if not found
    then (false, drop_where (λ e. e.0 == handle) ((handle, cmd) ∷ rest), counted)
    else if not (check_all cmd.execute_type command_server)
    then forward out (handle, cmd) rest counted
    else execute_here evaluate (handle, cmd) rest counted

abbrev pub remove_first : List Entry → List Entry
remove_first [] = []
remove_first (e ∷ es) = es

-- One round of the loop of `internal_execute`.
unfoldable pub after_single : ℕ → Single → List Entry × Server
after_single old_size (outcome, cache, s) =
    ((if not outcome || (length cache == old_size) then remove_first cache else cache), s)

unfoldable pub internal_round :
    Outside → Evaluate → Entry → List Entry → Server → List Entry × Server
internal_round out evaluate e rest s =
    after_single (suc (length rest)) (execute_single out evaluate e rest s)

-- The loop, with as many rounds as the fuel allows; a request to exit ends it.
unfoldable pub internal_execute : Outside → Evaluate → ℕ → List Entry → Server → List Entry × Server
internal_execute out evaluate zero cache s = (cache, s)
internal_execute out evaluate (suc fuel) [] s = ([], s)
internal_execute out evaluate (suc fuel) (e ∷ rest) s =
    let more =
      internal_execute out evaluate fuel (internal_round out evaluate e rest s).0
        (internal_round out evaluate e rest s).1 in
    if s.exiting then (e ∷ rest, s) else more
