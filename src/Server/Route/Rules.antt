-- ===== src/Server/Route/Rules.antt =====
-- The permission rules of `send_client_command` (libs/server/client-list.cpp) as one statement.
use rservr.Base.{ℕ, ◌≡◌, ◌⊎◌, ◌↔◌, Bool, true, false, ◌||◌, arith}
use rservr.Flags.{
  ◌&◌, check_all, check_any, check_none, type_active_client, type_admin_client, type_service_client,
  type_control_client, type_server_control, type_allow_message, type_allow_response,
  type_only_builtin_response, command_builtin, command_plugin, command_bypass, command_request,
  command_response, command_null,
}
use rservr.Server.{Command}
use rservr.Server.Route.{allow, permission_rules, request_rule, response_rule}

-- Both carry messages of the same kinds.
abbrev pub Like : ℕ → ℕ → Type 0
Like sender receiver = (sender & type_allow_message) ≡ (receiver & type_allow_message)

-- A request, or a command without content, goes to its like, or from a control client to a service
-- that is no admin client.
abbrev pub MayRequest : ℕ → ℕ → Bool → Type 0
MayRequest sender receiver service =
    Like sender receiver
    ⊎ ((service ≡ true)
        × (check_all sender type_control_client ≡ true)
        × (check_all receiver type_admin_client ≡ false))

-- A response goes to its like, or to a control client from one that is no admin client. A sender
-- with no type that is limited to built-in responses must be allowed to answer, and its answer is
-- any; a sender with such a type answers with a built-in response, without being asked for more. The
-- comments in the code put the first demand on the limited senders.
abbrev pub MayRespond : ℕ → ℕ → ℕ → Type 0
MayRespond sender receiver execute_type =
    (Like sender receiver
      ⊎ ((check_all receiver type_control_client ≡ true)
          × (check_all sender type_admin_client ≡ false)))
    × (((check_none sender type_only_builtin_response ≡ true)
          × (check_any sender type_allow_response ≡ true))
        ⊎ ((check_none sender type_only_builtin_response ≡ false)
            × (check_all execute_type command_builtin ≡ true)))

abbrev pub is_request : ℕ → Bool
is_request execute_type =
    check_all execute_type command_null || check_all execute_type command_request

-- What a command other than a bypass may do, by its kind.
abbrev pub MaySend : ℕ → ℕ → Bool → ℕ → Type 0
MaySend sender receiver service execute_type =
    ((check_all execute_type command_plugin ≡ true)
      × (check_all sender type_active_client ≡ true)
      × (check_all receiver type_active_client ≡ true))
    ⊎ ((check_all execute_type command_plugin ≡ false)
        × (((is_request execute_type ≡ true) × MayRequest sender receiver service)
            ⊎ ((is_request execute_type ≡ false)
                × (check_all execute_type command_response ≡ true)
                × MayRespond sender receiver execute_type)))

abbrev pub Permitted : ℕ → ℕ → Bool → Command → Type 0
Permitted sender receiver service cmd =
    (check_all receiver cmd.permissions ≡ true)
    × (((check_all cmd.execute_type command_bypass ≡ true)
          × (check_any sender type_active_client ≡ true)
          × (check_any receiver type_active_client ≡ true))
        ⊎ ((check_all cmd.execute_type command_bypass ≡ false)
            × ((service ≡ false)
                ⊎ ((check_all sender type_service_client || check_all sender type_server_control)
                    ≡ true))
            × MaySend sender receiver service cmd.execute_type))

request_iff :
    (sender receiver : ℕ) (service : Bool)
    → (request_rule sender receiver service ≡ allow) ↔ MayRequest sender receiver service
unfolding request_rule
request_iff sender receiver service = ground arith

response_iff :
    (sender receiver execute_type : ℕ)
    → (response_rule sender receiver execute_type ≡ allow) ↔ MayRespond sender receiver execute_type
unfolding response_rule
response_iff sender receiver execute_type = ground arith

-- A command is let through exactly when the receiver covers the permissions that it asks for and
-- either it bypasses the rules between active clients, or it reaches a service only from a service
-- client or a client with server control, and is a plug-in command between active clients, a
-- request that may be made, or a response that may be given. Of the responses, those from a sender
-- that is not limited to built-in ones need the right to answer, and those from a limited sender
-- need only be built-in, which is what the code does and not what its comments say.
pub permission_rules_iff :
    (sender receiver : ℕ) (service : Bool) (cmd : Command)
    → (permission_rules sender receiver service cmd ≡ allow) ↔ Permitted sender receiver service cmd
unfolding permission_rules
permission_rules_iff sender receiver service cmd =
    ground
      (arith, request_iff sender receiver service, response_iff sender receiver cmd.execute_type)
