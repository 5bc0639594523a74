-- ===== src/Flags.antt =====
-- libs/protocol/api-command.cpp and libs/include/protocol/api-command.h: the bit masks of entity
-- types, commands, events and security levels, and the tests on masks. A mask is the number that
-- its bits spell; `~` is taken in the 32 bits of an `int` or a `uint32_t`.
pub mod Bits
pub mod Tests
use Prim.Native.Nat.{bit_and, bit_or}
use rservr.Base.{ℕ, ◌-◌, ◌^◌, ◌==◌, Bool, ◌||◌, not, if◌then◌else◌}

infixl 47 ◌&◌
infixl 46 ◌\/◌
abbrev pub ◌&◌ : ℕ → ℕ → ℕ
a & b = bit_and a b

abbrev pub ◌\/◌ : ℕ → ℕ → ℕ
a \/ b = bit_or a b

-- ~x
abbrev pub bit_not : ℕ → ℕ
bit_not x = 2 ^ 32 - 1 - x

-- check_*_any
unfoldable pub check_any : ℕ → ℕ → Bool
check_any check req = not ((check & req) == 0) || (req == 0)

-- check_*_all
unfoldable pub check_all : ℕ → ℕ → Bool
check_all check req = (bit_not (check & req) & req) == 0

-- check_*_none
unfoldable pub check_none : ℕ → ℕ → Bool
check_none check req = (check & req) == 0

-- entity_type
abbrev pub type_none : ℕ
type_none = 0

abbrev pub type_server : ℕ
type_server = 2 ^ 0

abbrev pub type_any_client : ℕ
type_any_client = 2 ^ 1

abbrev pub type_active_client : ℕ
type_active_client = 2 ^ 2

abbrev pub type_admin_client : ℕ
type_admin_client = 2 ^ 3

abbrev pub type_service_client : ℕ
type_service_client = 2 ^ 4

abbrev pub type_monitor_client : ℕ
type_monitor_client = 2 ^ 5

abbrev pub type_resource_client : ℕ
type_resource_client = 2 ^ 6

abbrev pub type_control_client : ℕ
type_control_client = 2 ^ 7

abbrev pub type_detached_client : ℕ
type_detached_client = 2 ^ 8

abbrev pub type_server_control : ℕ
type_server_control = 2 ^ 9

abbrev pub type_monitor_client_all : ℕ
type_monitor_client_all = type_monitor_client \/ type_any_client

abbrev pub type_admin_client_all : ℕ
type_admin_client_all =
    type_admin_client \/ type_active_client \/ type_server_control \/ type_monitor_client_all

abbrev pub type_resource_client_all : ℕ
type_resource_client_all =
    type_resource_client \/ type_active_client \/ type_service_client \/ type_monitor_client_all

abbrev pub type_control_client_all : ℕ
type_control_client_all =
    type_control_client \/ type_active_client \/ type_service_client \/ type_monitor_client_all

abbrev pub type_all_clients : ℕ
type_all_clients =
    type_admin_client \/ type_monitor_client \/ type_service_client \/ type_resource_client
    \/ type_control_client

abbrev pub type_client_flags : ℕ
type_client_flags =
    type_all_clients \/ type_any_client \/ type_active_client \/ type_server_control
    \/ type_detached_client

abbrev pub type_allow_message : ℕ
type_allow_message = type_admin_client \/ type_resource_client \/ type_control_client

abbrev pub type_allow_response : ℕ
type_allow_response = type_any_client

abbrev pub type_require_name : ℕ
type_require_name = type_admin_client \/ type_control_client

abbrev pub type_deny_name_mask : ℕ
type_deny_name_mask =
    type_admin_client \/ type_control_client \/ type_resource_client \/ type_monitor_client

abbrev pub type_deny_name : ℕ
type_deny_name = type_monitor_client

abbrev pub type_only_builtin_response : ℕ
type_only_builtin_response = type_control_client

abbrev pub type_terminal_equal : ℕ
type_terminal_equal = type_allow_message \/ type_server_control

abbrev pub type_active : ℕ
type_active = type_server \/ type_any_client

-- command_type
abbrev pub command_none : ℕ
command_none = 0

abbrev pub command_builtin : ℕ
command_builtin = 2 ^ 0

abbrev pub command_plugin : ℕ
command_plugin = 2 ^ 1

abbrev pub command_server : ℕ
command_server = 2 ^ 2

abbrev pub command_privileged : ℕ
command_privileged = 2 ^ 3

abbrev pub command_no_remote : ℕ
command_no_remote = 2 ^ 4

abbrev pub command_bypass : ℕ
command_bypass = 2 ^ 5

abbrev pub command_request : ℕ
command_request = 2 ^ 6

abbrev pub command_response : ℕ
command_response = 2 ^ 7

abbrev pub command_remote : ℕ
command_remote = 2 ^ 8

abbrev pub command_null : ℕ
command_null = 2 ^ 9

abbrev pub command_all : ℕ
command_all = command_server \/ command_request \/ command_response \/ command_null

-- command_event
abbrev pub event_none : ℕ
event_none = 0

abbrev pub event_error : ℕ
event_error = 2 ^ 0

abbrev pub event_bad_target : ℕ
event_bad_target = 2 ^ 1

abbrev pub event_rejected : ℕ
event_rejected = 2 ^ 2

abbrev pub event_bad_permissions : ℕ
event_bad_permissions = 2 ^ 3

abbrev pub event_retry : ℕ
event_retry = 2 ^ 4

abbrev pub event_wait : ℕ
event_wait = 2 ^ 5

abbrev pub event_discarded : ℕ
event_discarded = 2 ^ 6

abbrev pub event_unavailable : ℕ
event_unavailable = 2 ^ 7

abbrev pub event_exit_mask : ℕ
event_exit_mask = 255

abbrev pub event_no_connection : ℕ
event_no_connection = 2 ^ 8

abbrev pub event_sent : ℕ
event_sent = 2 ^ 9

abbrev pub event_unsent : ℕ
event_unsent = 2 ^ 10

abbrev pub event_received_server : ℕ
event_received_server = 2 ^ 11

abbrev pub event_received_client : ℕ
event_received_client = 2 ^ 12

abbrev pub event_partial : ℕ
event_partial = 2 ^ 13

abbrev pub event_complete : ℕ
event_complete = 2 ^ 14

abbrev pub event_modified : ℕ
event_modified = 2 ^ 15

abbrev pub event_register : ℕ
event_register = 2 ^ 16

abbrev pub event_no_success : ℕ
event_no_success = event_exit_mask \/ event_unsent \/ event_no_connection

-- server_directive
abbrev pub directed_disconnect : ℕ
directed_disconnect = 2 ^ 0

abbrev pub directed_terminate : ℕ
directed_terminate = 2 ^ 1

-- security_level
abbrev pub security_0 : ℕ
security_0 = type_client_flags

abbrev pub security_1 : ℕ
security_1 = security_0 & bit_not type_server_control

abbrev pub security_2 : ℕ
security_2 = security_1 & bit_not type_detached_client

abbrev pub security_3 : ℕ
security_3 = security_2 & bit_not type_admin_client

abbrev pub security_4 : ℕ
security_4 = security_3 & bit_not type_monitor_client

abbrev pub security_5 : ℕ
security_5 = security_4 & bit_not type_control_client

abbrev pub security_6 : ℕ
security_6 = security_5 & bit_not type_resource_client

abbrev pub security_mask_admin : ℕ
security_mask_admin = security_1

abbrev pub security_mask_detached : ℕ
security_mask_detached =
    (type_control_client_all \/ type_resource_client_all) & bit_not type_monitor_client

-- monitor_event
abbrev pub monitor_none : ℕ
monitor_none = 0

abbrev pub monitor_add : ℕ
monitor_add = 2 ^ 0

abbrev pub monitor_remove : ℕ
monitor_remove = 2 ^ 1

abbrev pub monitor_rejection : ℕ
monitor_rejection = 2 ^ 2

abbrev pub monitor_change : ℕ
monitor_change = 2 ^ 3

abbrev pub monitor_attached_clients : ℕ
monitor_attached_clients = 2 ^ 5

abbrev pub monitor_registered_clients : ℕ
monitor_registered_clients = 2 ^ 6

abbrev pub monitor_registered_services : ℕ
monitor_registered_services = 2 ^ 7

abbrev pub monitor_terminal_status : ℕ
monitor_terminal_status = 2 ^ 8

abbrev pub monitor_server : ℕ
monitor_server = 2 ^ 9

abbrev pub monitor_clients : ℕ
monitor_clients = 2 ^ 10

abbrev pub monitor_set_mask : ℕ
monitor_set_mask =
    monitor_attached_clients \/ monitor_registered_clients \/ monitor_registered_services
    \/ monitor_terminal_status \/ monitor_server \/ monitor_clients

-- logging_mode
abbrev pub logging_none : ℕ
logging_none = 0

abbrev pub logging_minimal : ℕ
logging_minimal = 2 ^ 0

abbrev pub logging_normal : ℕ
logging_normal = 2 ^ 1

abbrev pub logging_extended : ℕ
logging_extended = 2 ^ 2

abbrev pub logging_debug : ℕ
logging_debug = 2 ^ 3

abbrev pub logging_all : ℕ
logging_all = logging_minimal \/ logging_normal \/ logging_extended \/ logging_debug

-- io_device
abbrev pub device_none : ℕ
device_none = 0

abbrev pub device_input : ℕ
device_input = 2 ^ 0

abbrev pub device_output : ℕ
device_output = 2 ^ 1

abbrev pub device_error : ℕ
device_error = 2 ^ 2

abbrev pub device_log : ℕ
device_log = 2 ^ 3

abbrev pub device_terminal : ℕ
device_terminal = 2 ^ 4

-- response_type
abbrev pub response_normal : ℕ
response_normal = 2 ^ 0

abbrev pub response_error : ℕ
response_error = 2 ^ 1

abbrev pub response_rejected : ℕ
response_rejected = 2 ^ 2

abbrev pub response_wait : ℕ
response_wait = 2 ^ 3

abbrev pub response_group : ℕ
response_group = 2 ^ 4

abbrev pub response_start : ℕ
response_start = 2 ^ 5

abbrev pub response_partial : ℕ
response_partial = 2 ^ 6

abbrev pub response_end : ℕ
response_end = 2 ^ 7

-- `if (rResponse & mask) converted |= event`
add_event : ℕ → ℕ → ℕ → ℕ → ℕ
add_event response mask event converted =
    if (response & mask) == 0 then converted else converted \/ event

unfoldable pub convert_response : ℕ → ℕ
unfolding add_event
convert_response response = add_event response response_wait event_wait (
    add_event response response_rejected event_rejected (
      add_event response response_error event_error (
        add_event response (response_partial \/ response_group \/ response_start) event_partial
          (add_event response (response_normal \/ response_end) event_complete event_none))))
