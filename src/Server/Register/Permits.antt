-- ===== src/Server/Register/Permits.antt =====
-- What `set_registered_client_type` (libs/server/client-list.cpp) accepts and grants.
use rservr.Base.{ℕ, ◌^◌, ◌<◌, ◌≡◌, ◌≢◌, ◌↔◌, ◌⊎◌, true, false, Text, is_empty, arith}
use rservr.Flags.{
  ◌&◌, check_all, check_any, type_none, type_all_clients, type_deny_name_mask, type_deny_name,
  type_require_name,
}
use rservr.Flags.Bits.{bit-le-one, bit-bit_and}
use rservr.Flags.Tests.{check_all_iff}
use rservr.Server.{Client}
use rservr.Server.Register.{accepted, check_request, granted, adjusted}

-- Giving up a registration.
abbrev pub GivesUp : Text → ℕ → Type 0
GivesUp name type = (type ≡ type_none) × (is_empty name ≡ true)

-- Taking one: by a client that has none, with a name unless it is no admin and no control client,
-- and without a name if, of the types that matter here, it is a monitor alone.
abbrev pub Takes : Client → Text → ℕ → Type 0
Takes c name type =
    (type ≢ type_none)
    × (c.client_type ≡ type_none)
    × (is_empty name ≡ true → check_any type type_require_name ≡ false)
    × (is_empty name ≡ false → (type & type_deny_name_mask) ≢ type_deny_name)

-- A request is accepted exactly when the client may have each client type that it asks for and it
-- either gives its registration up or takes one by the rules on names.
pub check_request_iff :
    (c : Client) (name : Text) (type : ℕ)
    → (check_request c name type ≡ accepted) ↔ (
        (check_all c.max_permissions (type & type_all_clients) ≡ true)
        × (GivesUp name type ⊎ Takes c name type))
unfolding check_request
check_request_iff c name type = ground arith

-- A client whose permissions are a mask of 32 bits is granted only a type that its permissions
-- cover in full, whatever it asked for.
pub granted_covered :
    (c : Client) (type : ℕ)
    → c.max_permissions < 2 ^ 32
    → check_all c.max_permissions (granted c type) ≡ true
unfolding granted
granted_covered c type small = (check_all_iff c.max_permissions (granted c type) small).1 λ i h r.
    omega
      (arith, r, bit-bit_and (adjusted c type) c.max_permissions i, bit-le-one c.max_permissions i)
