-- ===== src/Server/Settings.antt =====
-- libs/server/api-server.cpp: the limits, permissions and lowest priority that are set for a server.
-- Environment variables and logging are left out.
pub mod Limits
pub mod Admission
use Prim.Native.String.{String}
use text.Mathlib.Text.{◌==◌ as str_eq}
use rservr.Base.{ℕ, ◌-◌, Bool, true, false, Option, none, some, ltb, if◌then◌else◌}
use rservr.Flags.{◌&◌, security_1, security_2, security_mask_admin}

-- param.h
abbrev pub allow_server_requeue : ℕ
allow_server_requeue = 64

-- `server_parameters` and the permissions of `exposed_server`.
pub record Settings : Type 0 where
  pub max_client_error : ℕ
  pub max_client_invalid : ℕ
  pub max_client_commands : ℕ
  pub max_commands : ℕ
  pub max_clients : ℕ
  pub max_services : ℕ
  pub max_permissions : ℕ
  pub max_new_client : ℕ
  pub min_priority : ℕ

-- The six limits, by their names.
pub data Limit : Type 0 where
  error_limit invalid_limit command_limit queue_limit client_limit service_limit : Limit

unfoldable pub limit_named : String → Option Limit
limit_named name =
    if str_eq name "max_error"
    then some error_limit
    else if str_eq name "max_invalid"
    then some invalid_limit
    else if str_eq name "max_commands"
    then some command_limit
    else if str_eq name "max_queued"
    then some queue_limit
    else if str_eq name "max_clients"
    then some client_limit
    else if str_eq name "max_services"
    then some service_limit
    else none

unfoldable pub change_limit : Limit → ℕ → Settings → Settings
change_limit error_limit limit s = record s { max_client_error = limit }
change_limit invalid_limit limit s = record s { max_client_invalid = limit }
change_limit command_limit limit s = record s { max_client_commands = limit }
change_limit queue_limit limit s =
    let raised = if ltb limit allow_server_requeue then allow_server_requeue else limit in
    record s { max_commands = raised - allow_server_requeue }
change_limit client_limit limit s = record s { max_clients = limit }
change_limit service_limit limit s = record s { max_services = limit }

unfoldable pub read_limit : Limit → Settings → ℕ
read_limit error_limit s = s.max_client_error
read_limit invalid_limit s = s.max_client_invalid
read_limit command_limit s = s.max_client_commands
read_limit queue_limit s = s.max_commands
read_limit client_limit s = s.max_clients
read_limit service_limit s = s.max_services

changed_limit : Option Limit → Option ℕ → Settings → Bool × Settings
unfolding change_limit
changed_limit none value s = (false, s)
changed_limit (some limit) none s = (false, s)
changed_limit (some limit) (some value) s = (true, change_limit limit value s)

-- A value below 0 is `none`. No name, which is refused first, is the name of no limit either.
unfoldable pub set_limit : String → Option ℕ → Settings → Bool × Settings
unfolding changed_limit limit_named
set_limit name value s = changed_limit (limit_named name) value s

found_limit : Option Limit → Settings → Option ℕ
unfolding read_limit
found_limit none s = none
found_limit (some limit) s = some (read_limit limit s)

-- -1 is `none`.
unfoldable pub get_limit : String → Settings → Option ℕ
unfolding found_limit limit_named
get_limit name s = found_limit (limit_named name) s

unfoldable pub set_max_permissions : ℕ → Settings → Settings
set_max_permissions permissions s = record s { max_permissions = permissions }

unfoldable pub set_max_new_client : ℕ → Settings → Settings
set_max_new_client permissions s = record s { max_new_client = permissions & security_mask_admin }

unfoldable pub lock_permissions : Settings → Settings
lock_permissions s = record s {
  max_permissions = s.max_permissions & security_1;
  max_new_client = s.max_new_client & security_2;
}

unfoldable pub set_min_priority : ℕ → Settings → Settings
set_min_priority priority s = record s { min_priority = priority }
