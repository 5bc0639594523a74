-- ===== src/Server/Services.antt =====
-- libs/server/service-list.cpp: the table of registered services. The server's own pointers to its
-- tables are never null. Regular expressions are the C library's: `matches` stands for the test of
-- a `regex_check`.
pub mod Laws
use rservr.Base.{
  ℕ, ◌+◌, List, [], ◌∷◌, ◌++◌, Bool, true, false, Option, none, some, ◌&&◌, not, ◌==◌, ltb,
  if◌then◌else◌, Text, text_eq, is_empty, find, any, keep, drop_where, map,
}
use rservr.Address.{next_client_scope, next_address_scope}
use rservr.Server.{
  Server, Client, Service, emit, client_exit, service_registered, service_deregistered,
}
use rservr.Server.Clients.{change_client, set_primary_service}

-- find_by_name
abbrev pub named : Text → Service → Bool
named name e = text_eq e.service_name name

-- find_by_handle
abbrev pub owned_by : ℕ → Service → Bool
owned_by handle e = e.owner == handle

-- find_local_by_handle
abbrev pub local_of : ℕ → Service → Bool
local_of handle e = is_empty e.service_location && (e.owner == handle)

-- find_by_location
unfoldable pub located : Text → Service → Bool
located location e = text_eq (next_address_scope (next_client_scope e.service_location).1) location

unfoldable pub add_client_service : Client → Text → Text → Text → Server → Server
unfolding change_client set_primary_service
add_client_service c name type location s =
    let e : Service = record {
      owner = c.handle;
      service_name = name;
      service_type = type;
      service_location = location;
    } in
    change_client c.handle (set_primary_service name)
      (emit (service_registered c.process_id e) (record s { services = s.services ++ (e ∷ []) }))

-- The loop over the matches of a removal: an exit and a deregistration for each.
unfoldable pub announce : Client → List Service → Server → Server
announce c [] s = s
announce c (e ∷ es) s =
    announce c es
      (emit (service_deregistered c.process_id e) (emit (client_exit c.handle e.service_name) s))

-- The matches, and the removal of their positions.
unfoldable pub remove_services : (Service → Bool) → Client → Server → Server
unfolding announce
remove_services match c s =
    let announced = announce c (keep match s.services) s in
    record announced { services = drop_where match s.services }

-- The name of the first local service that the client still owns, or the empty text.
unfoldable pub remaining_service : ℕ → List Service → Text
remaining_service handle services = elim (find (local_of handle) services) [
  | none ↦ []
  | some e ↦ e.service_name
]

unfoldable pub remove_indiv_service : Client → Text → Server → Bool × Server
unfolding remove_services remaining_service change_client set_primary_service
remove_indiv_service c name s =
    let match : Service → Bool = λ e. named name e && owned_by c.handle e in
    if any match s.services
    then (let s1 = remove_services match c s in
        (
          true,
          change_client c.handle (set_primary_service (remaining_service c.handle s1.services)) s1,
        ))
    else (false, s)

unfoldable pub remove_handle_services : Client → Server → Server
unfolding remove_services change_client set_primary_service
remove_handle_services c s =
    change_client c.handle (set_primary_service []) (remove_services (owned_by c.handle) c s)

unfoldable pub remove_remote_services : Client → Text → Server → Bool × Server
unfolding remove_services located
remove_remote_services c location s =
    let match : Service → Bool = λ e. located location e && owned_by c.handle e in
    if any match s.services then (true, remove_services match c s) else (false, s)

-- 0 is the null handle.
unfoldable pub get_service_client_handle : Server → Text → ℕ
get_service_client_handle s name = elim (find (named name) s.services) [
  | none ↦ 0
  | some e ↦ e.owner
]

unfoldable pub get_service_address : Server → Text → Option Text
get_service_address s name = elim (find (named name) s.services) [
  | none ↦ none
  | some e ↦ some e.service_location
]

abbrev standard_delimiter : Text
standard_delimiter = b'*' ∷ []

abbrev service_line : Service → Text
service_line e =
    e.service_name
    ++ (standard_delimiter ++ (e.service_type ++ (standard_delimiter ++ e.service_location)))

unfoldable pub find_services : (Text → Bool) → (Text → Bool) → Server → List Text
find_services name_matches type_matches s =
    map service_line
      (keep (λ e. name_matches e.service_name && type_matches e.service_type) s.services)
