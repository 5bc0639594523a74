-- ===== src/BitData/Tables.antt =====
-- The tables of names of programs/other/rsvbits/bit-data.cpp, as `initialize_lists` leaves them.
use Prim.Native.String.{String}
use rservr.Base.{List, [], ◌∷◌}
use rservr.Flags.{
  command_builtin, command_bypass, command_no_remote, command_none, command_null, command_plugin,
  command_privileged, command_remote, command_request, command_response, command_server,
  device_error, device_input, device_log, device_output, device_terminal, event_bad_permissions,
  event_bad_target, event_complete, event_discarded, event_error, event_modified,
  event_no_connection, event_partial, event_received_client, event_received_server, event_register,
  event_rejected, event_retry, event_sent, event_unavailable, event_unsent, event_wait,
  logging_debug, logging_extended, logging_minimal, logging_normal, monitor_add,
  monitor_attached_clients, monitor_change, monitor_clients, monitor_registered_clients,
  monitor_registered_services, monitor_rejection, monitor_remove, monitor_server,
  monitor_terminal_status, response_end, response_error, response_group, response_normal,
  response_partial, response_rejected, response_start, response_wait, type_active_client,
  type_admin_client, type_any_client, type_control_client, type_detached_client,
  type_monitor_client, type_resource_client, type_server, type_server_control, type_service_client,
}
use rservr.BitData.{load}

unfoldable pub bits_entity_type : List String
unfolding load
bits_entity_type =
    load
      (("type_server", type_server)
        ∷ ("type_any_client", type_any_client)
        ∷ ("type_active_client", type_active_client)
        ∷ ("type_admin_client", type_admin_client)
        ∷ ("type_service_client", type_service_client)
        ∷ ("type_monitor_client", type_monitor_client)
        ∷ ("type_resource_client", type_resource_client)
        ∷ ("type_control_client", type_control_client)
        ∷ ("type_detached_client", type_detached_client)
        ∷ ("type_server_control", type_server_control)
        ∷ [])
      ("type_none" ∷ [])

unfoldable pub bits_command_event : List String
unfolding load
bits_command_event =
    load
      (("event_error", event_error)
        ∷ ("event_bad_target", event_bad_target)
        ∷ ("event_rejected", event_rejected)
        ∷ ("event_bad_permissions", event_bad_permissions)
        ∷ ("event_retry", event_retry)
        ∷ ("event_wait", event_wait)
        ∷ ("event_discarded", event_discarded)
        ∷ ("event_unavailable", event_unavailable)
        ∷ ("event_no_connection", event_no_connection)
        ∷ ("event_sent", event_sent)
        ∷ ("event_unsent", event_unsent)
        ∷ ("event_received_server", event_received_server)
        ∷ ("event_received_client", event_received_client)
        ∷ ("event_partial", event_partial)
        ∷ ("event_complete", event_complete)
        ∷ ("event_modified", event_modified)
        ∷ ("event_register", event_register)
        ∷ [])
      ("event_none" ∷ [])

unfoldable pub bits_response_type : List String
unfolding load
bits_response_type =
    load
      (("response_normal", response_normal)
        ∷ ("response_error", response_error)
        ∷ ("response_rejected", response_rejected)
        ∷ ("response_wait", response_wait)
        ∷ ("response_group", response_group)
        ∷ ("response_start", response_start)
        ∷ ("response_partial", response_partial)
        ∷ ("response_end", response_end)
        ∷ [])
      ("response_ignore" ∷ [])

unfoldable pub bits_command_type : List String
unfolding load
bits_command_type =
    load
      (("command_builtin", command_builtin)
        ∷ ("command_plugin", command_plugin)
        ∷ ("command_server", command_server)
        ∷ ("command_privileged", command_privileged)
        ∷ ("command_no_remote", command_no_remote)
        ∷ ("command_bypass", command_bypass)
        ∷ ("command_request", command_request)
        ∷ ("command_response", command_response)
        ∷ ("command_remote", command_remote)
        ∷ ("command_null", command_null)
        ∷ ("command_none", command_none)
        ∷ [])
      ("command_none" ∷ [])

unfoldable pub bits_logging_mode : List String
unfolding load
bits_logging_mode =
    load
      (("logging_minimal", logging_minimal)
        ∷ ("logging_normal", logging_normal)
        ∷ ("logging_extended", logging_extended)
        ∷ ("logging_debug", logging_debug)
        ∷ [])
      ("logging_none" ∷ [])

unfoldable pub bits_io_device : List String
unfolding load
bits_io_device =
    load
      (("device_input", device_input)
        ∷ ("device_output", device_output)
        ∷ ("device_error", device_error)
        ∷ ("device_log", device_log)
        ∷ ("device_terminal", device_terminal)
        ∷ [])
      ("device_none" ∷ [])

unfoldable pub bits_monitor_event : List String
unfolding load
bits_monitor_event =
    load
      (("monitor_add", monitor_add)
        ∷ ("monitor_remove", monitor_remove)
        ∷ ("monitor_rejection", monitor_rejection)
        ∷ ("monitor_change", monitor_change)
        ∷ ("monitor_attached_clients", monitor_attached_clients)
        ∷ ("monitor_registered_clients", monitor_registered_clients)
        ∷ ("monitor_registered_services", monitor_registered_services)
        ∷ ("monitor_terminal_status", monitor_terminal_status)
        ∷ ("monitor_server", monitor_server)
        ∷ ("monitor_clients", monitor_clients)
        ∷ [])
      ("monitor_none" ∷ [])
