-- ===== src/Server/Clients.antt =====
-- libs/server/client-list.cpp: looking clients up and changing one of them, and
-- libs/server/local-client.cpp: the names of a client.
pub mod Laws
use rservr.Base.{
  ℕ, ◌-◌, ◌+◌, List, [], ◌∷◌, ◌++◌, Bool, true, false, Option, none, some, ◌&&◌, not, ◌==◌, ltb,
  if◌then◌else◌, Text, text_eq, is_empty, is_some, find, any, update_first,
}
use rservr.Server.{Server, Client, emit, register_attempt, register_signal}

-- find_by_handle
abbrev pub has_handle : ℕ → Client → Bool
has_handle handle c = c.handle == handle

-- find_by_name
abbrev pub has_name : Text → Client → Bool
has_name name c = text_eq c.client_name name

unfoldable pub get_client_id : Server → ℕ → Option Client
get_client_id s handle = find (has_handle handle) s.clients

unfoldable pub get_client_id_name : Server → Text → Option Client
get_client_id_name s name = find (has_name name) s.clients

-- A write through the pointer `&get_element(position)`.
unfoldable pub change_client : ℕ → (Client → Client) → Server → Server
change_client handle f s = record s { clients = update_first (has_handle handle) f s.clients }

abbrev decremented : Client → Client
decremented c =
    if ltb 0 c.total_waiting then record c { total_waiting = c.total_waiting - 1 } else c

unfoldable pub decrement_client_waiting : Server → ℕ → Bool × Server
decrement_client_waiting s handle =
    if is_some (get_client_id s handle)
    then (true, change_client handle decremented s)
    else (false, s)

unfoldable pub clear_client_waiting : Server → ℕ → Bool × Server
clear_client_waiting s handle =
    if is_some (get_client_id s handle)
    then (true, change_client handle (λ c. record c { total_waiting = 0 }) s)
    else (false, s)

-- `notify_register_attempt` (api-server.cpp) sends nothing without a client or a reference.
unfoldable pub notify_register_attempt : Option Client → ℕ → Bool → Server → Server
notify_register_attempt none reference success s = s
notify_register_attempt (some c) reference success s =
    if reference == 0 then s else emit (register_attempt c.handle reference success) s

-- `continue_register_notify` (api-server.cpp)
unfoldable pub continue_register_notify : Bool → Server → Server
continue_register_notify outcome s =
    if s.register_process == 0
    then s
    else emit (register_signal s.register_process outcome) (record s { register_process = 0 })

-- if (register_notify_state() && no fresh client is left) continue_register_notify(true)
unfoldable pub continue_if_settled : Server → Server
continue_if_settled s =
    if s.notify_status && not (any (λ c. c.fresh_client) s.clients)
    then continue_register_notify true s
    else s

-- The client to notify of a registration: looked up only with a handle and a reference.
unfoldable pub notify_target : Server → ℕ → ℕ → Option Client
notify_target s notify reference =
    if notify == 0 then none else if reference == 0 then none else get_client_id s notify

unfoldable pub manual_update : Client → ℕ → Server → Server
manual_update c handle s =
    let target = notify_target s c.notify c.reference in
    let s1 =
      change_client handle (λ d. record d { notify = 0; reference = 0; fresh_client = false }) s in
    notify_register_attempt target c.reference true (continue_if_settled s1)

unfoldable pub manual_update_readiness : Server → ℕ → Bool × Server
manual_update_readiness s handle = elim (get_client_id s handle) [
  | none ↦ (false, s)
  | some c ↦ (true, manual_update c handle s)
]

-- client_id::logging_name
unfoldable pub logging_name : Client → Text
logging_name c = if is_empty c.client_name then c.primary_service else c.client_name

-- client_id::set_primary_service
unfoldable pub set_primary_service : Text → Client → Client
set_primary_service name c =
    if is_empty name
    then record c { primary_service = [] }
    else if is_empty c.primary_service
    then record c { primary_service = b'(' ∷ name ++ (b')' ∷ []) }
    else c
