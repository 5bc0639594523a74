-- ===== src/Client/Commands.antt =====
-- libs/client/command-queue.cpp: the commands that a client has prepared. A handle is the address
-- of the command, and 0 the null pointer. The queue of prepared commands has no limit.
pub mod Finding
pub mod Map
pub mod Runs
pub mod Forwarded
pub mod Sending
pub mod Scopes
use rservr.Base.{
  ℕ, zero, suc, ◌-◌, List, [], ◌∷◌, ◌++◌, Bool, true, false, not, ◌&&◌, ◌||◌, Option, none, some,
  Text, is_empty, ◌==◌, if◌then◌else◌, find, drop_where, update_first,
}
use rservr.Flags.{check_all, command_no_remote, command_response}
use rservr.Address.{copy_next_scope, insert_existing_scope, set_to_server_scope}

-- `command_transmit`, as far as the client library reads or writes it.
pub record Prepared : Type 0 where
  pub handle : ℕ
  pub orig_entity : Text
  pub orig_address : Text
  pub target_entity : Text
  pub target_address : Text
  pub execute_type : ℕ
  pub priority : ℕ
  pub orig_reference : ℕ
  pub target_reference : ℕ
  pub remote_reference : ℕ
  pub creator_pid : ℕ
  pub no_send : Bool
  pub silent_auto_response : Bool

-- The process's own name, and what transmission answers.
pub record Sender : Type 0 where
  pub entity_name : Text
  pub command_sendable : Prepared → Bool
  pub send_output : Prepared → Bool

abbrev pub priority_immediate : ℕ
priority_immediate = 0

unfoldable pub find_command_handle : ℕ → Prepared → Bool
find_command_handle handle c = c.handle == handle

unfoldable pub queue_new_command : Prepared → List Prepared → List Prepared
queue_new_command c q = q ++ (record c { priority = priority_immediate } ∷ [])

unfoldable pub remove_command : ℕ → List Prepared → Bool × List Prepared
remove_command handle q =
    if handle == 0 then (false, q) else (true, drop_where (find_command_handle handle) q)

-- What the operations share that change a command in its place, or refuse to.
unfoldable pub settle : ℕ → Option Prepared → List Prepared → Bool × List Prepared
settle handle none q = (false, q)
settle handle (some c) q = (true, update_first (find_command_handle handle) (λ x. c) q)

unfoldable pub look : Option Prepared → (Prepared → Option Prepared) → Option Prepared
look none f = none
look (some c) f = f c

unfoldable pub change_command :
    ℕ → (Prepared → Option Prepared) → List Prepared → Bool × List Prepared
unfolding settle look
change_command handle f q = settle handle (look (find (find_command_handle handle) q) f) q

-- A command as it is handed to the output.
unfoldable pub addressed : Sender → ℕ → Bool → Prepared → Prepared
addressed s reference silent c = record c {
  orig_reference = reference;
  remote_reference = if c.remote_reference == 0 then reference else c.remote_reference;
  orig_entity = if is_empty c.orig_entity then s.entity_name else c.orig_entity;
  silent_auto_response =
      if is_empty c.orig_address || not silent then silent else c.silent_auto_response;
}

-- Whether it may be sent at all.
unfoldable pub may_transmit : Prepared → Bool
may_transmit c =
    not c.no_send
    && not (check_all c.execute_type command_no_remote && not (is_empty c.target_address))

-- The command that is left in the queue.
unfoldable pub after_transmit : Sender → ℕ → Bool → Prepared → Prepared
unfolding addressed
after_transmit s reference silent c = record (addressed s reference silent c) {
  remote_reference = c.remote_reference;
}

-- Whether the output took a command, the queue, and the command that the output was given.
transmit_found :
    Sender → ℕ → Bool → Option Prepared → List Prepared → Bool × List Prepared × Option Prepared
unfolding find_command_handle may_transmit addressed after_transmit
transmit_found s reference silent none q = (false, q, none)
transmit_found s reference silent (some c) q =
    let given = addressed s reference silent c in
    let kept = after_transmit s reference silent c in
    let left = update_first (find_command_handle c.handle) (λ x. kept) q in
    if not (may_transmit c)
    then (false, q, none)
    else if not (s.command_sendable given)
    then (false, left, none)
    else (s.send_output given, left, some given)

unfoldable pub transmit_command :
    Sender → ℕ → ℕ → Bool → List Prepared → Bool × List Prepared × Option Prepared
unfolding transmit_found
transmit_command s handle reference silent q =
    transmit_found s reference silent (find (find_command_handle handle) q) q

extracted : (Prepared → Text) → Option Prepared → Option Text
extracted extract none = none
extracted extract (some c) = if not c.no_send then none else some (extract c)

unfoldable pub extract_command : (Prepared → Text) → ℕ → List Prepared → Option Text
unfolding extracted
extract_command extract handle q =
    if handle == 0 then none else extracted extract (find (find_command_handle handle) q)

-- Only the first command that passes the test leaves.
unfoldable pub drop_first : (Prepared → Bool) → List Prepared → List Prepared
drop_first p [] = []
drop_first p (c ∷ q) = if p c then q else c ∷ drop_first p q

released : ℕ → Option Prepared → List Prepared → Option Prepared × List Prepared
unfolding drop_first
released handle none q = (none, q)
released handle (some c) q =
    if not c.no_send then (none, q) else (some c, drop_first (find_command_handle handle) q)

unfoldable pub forward_command : ℕ → List Prepared → Option Prepared × List Prepared
unfolding released
forward_command handle q =
    if handle == 0 then (none, q) else released handle (find (find_command_handle handle) q) q

unfoldable pub set_response_entity : ℕ → Text → List Prepared → Bool × List Prepared
set_response_entity handle entity q =
    if handle == 0
    then (false, q)
    else change_command handle
        (λ c. if c.no_send then none else some (record c { orig_entity = entity })) q

-- Neither commands that stay on their server nor responses are given an address.
unfoldable pub keeps_address : Prepared → Bool
keeps_address c =
    check_all c.execute_type command_no_remote || check_all c.execute_type command_response

with_scope : Text → Prepared → Prepared
with_scope address c =
    let (entity, route) = insert_existing_scope c.target_entity c.target_address address in
    record c { target_entity = entity; target_address = route }

unfoldable pub insert_remote_scope : ℕ → Text → List Prepared → Bool × List Prepared
unfolding with_scope keeps_address
insert_remote_scope handle address q =
    if handle == 0
    then (false, q)
    else change_command handle
        (λ c. if c.no_send || keeps_address c then none else some (with_scope address c)) q

unfoldable pub change_priority : ℕ → ℕ → List Prepared → Bool × List Prepared
change_priority handle priority q =
    if handle == 0
    then (false, q)
    else change_command handle (λ c. some (record c { priority = priority })) q

to_server_of : Text → Text → Prepared → Option Prepared
to_server_of client address c =
    let (done, entity, route) = set_to_server_scope client address in
    if done then some (record c { target_entity = entity; target_address = route }) else none

unfoldable pub set_server_address : ℕ → Text → Text → List Prepared → Bool × List Prepared
unfolding to_server_of keeps_address
set_server_address handle client address q =
    if handle == 0
    then (false, q)
    else change_command handle
        (λ c. if c.no_send || keeps_address c then none else to_server_of client address c) q

-- `strncpy`: at most so many bytes.
unfoldable pub take_bytes : ℕ → Text → Text
take_bytes zero t = []
take_bytes (suc n) [] = []
take_bytes (suc n) (b ∷ t) = b ∷ take_bytes n t

next_address : ℕ → Option Prepared → Option Text
unfolding take_bytes
next_address size none = none
next_address size (some c) =
    if not c.no_send then none else some (take_bytes size (copy_next_scope c.target_address))

unfoldable pub next_remote_address : ℕ → ℕ → List Prepared → Option Text
unfolding next_address
next_remote_address handle size q =
    if handle == 0 then none else next_address size (find (find_command_handle handle) q)
