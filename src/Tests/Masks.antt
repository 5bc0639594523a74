-- ===== src/Tests/Masks.antt =====
-- Masks of bits.
use rservr.Base.{◌≡◌, refl, true, false}
use rservr.Flags.{
  ◌&◌, check_all, check_any, type_admin_client_all, type_control_client, type_resource_client_all,
  type_service_client, type_client_flags, type_active_client, convert_response, response_normal,
  event_complete,
}

check_all_test : check_all type_admin_client_all type_control_client ≡ false
unfolding check_all
check_all_test = refl

check_any_test : check_any type_admin_client_all type_control_client ≡ false
unfolding check_any
check_any_test = refl

convert_response_test : convert_response response_normal ≡ event_complete
unfolding convert_response
convert_response_test = refl

covered :
    (check_all type_client_flags type_resource_client_all ≡ true)
    × (check_all type_resource_client_all type_service_client ≡ true)
    × (check_all (type_client_flags & type_resource_client_all) type_active_client ≡ true)
unfolding check_all
covered = (refl, refl, refl)
