-- ===== src/Address.antt =====
-- libs/protocol/conversion.cpp: addresses that name a route through other servers, written
-- `client?address|client?address|...`, the nearest server first. The separators are the constants
-- of libs/protocol/constants.cpp. A copy by `strdup` is taken to succeed.
pub mod Hops
pub mod Routes
pub mod Labels
use mathlib.Core.List.{reverse}
use rservr.Base.{
  ℕ, List, [], ◌∷◌, ◌++◌, Bool, true, false, Option, none, some, ◌==◌, if◌then◌else◌, Text,
  is_empty,
}

abbrev pub client_scope_char : ℕ
client_scope_char = b'?'

abbrev pub address_scope_char : ℕ
address_scope_char = b'|'

-- `strsep` on a text that is there: the part before the separator, and what follows it, if any.
push_char : ℕ → Text × Option Text → Text × Option Text
push_char c (w, rest) = (c ∷ w, rest)

unfoldable pub strsep : ℕ → Text → Text × Option Text
unfolding push_char
strsep sep [] = ([], none)
strsep sep (c ∷ s) = if c == sep then ([], some s) else push_char c (strsep sep s)

-- The pieces that a loop of `strsep` calls finds; there is always a first one.
split_rest : Text × Option Text → List Text → List Text
split_rest (w, none) more = w ∷ []
split_rest (w, some s) more = w ∷ more

start_piece : ℕ → List Text → List Text
start_piece c [] = (c ∷ []) ∷ []
start_piece c (p ∷ ps) = (c ∷ p) ∷ ps

unfoldable pub split : ℕ → Text → List Text
unfolding start_piece
split sep [] = [] ∷ []
split sep (c ∷ s) = if c == sep then [] ∷ split sep s else start_piece c (split sep s)

-- The client and the address after the call.
take_client_scope : Text × Option Text → Text × Text
take_client_scope (w, some rest) = (w, rest)
take_client_scope (w, none) = ([], w)

unfoldable pub next_client_scope : Text → Text × Text
unfolding take_client_scope strsep
next_client_scope address = take_client_scope (strsep client_scope_char address)

after_scope : Text × Option Text → Text
after_scope (w, some rest) = rest
after_scope (w, none) = []

unfoldable pub next_address_scope : Text → Text
unfolding after_scope strsep
next_address_scope address = after_scope (strsep address_scope_char address)

unfoldable pub copy_next_scope : Text → Text
unfolding strsep
copy_next_scope address = (strsep address_scope_char address).0

-- The result, and the address after the call.
keep_first_address : Text → Text × Option Text → Bool × Text
keep_first_address address (w, none) = (false, address)
keep_first_address address (w, some rest) = (true, (strsep address_scope_char rest).0)

unfoldable pub only_last_address : Text → Bool × Text
unfolding keep_first_address strsep
only_last_address [] = (true, [])
only_last_address (c ∷ s) = keep_first_address (c ∷ s) (strsep client_scope_char (c ∷ s))

unfoldable pub insert_remote_address : Text → Text → Text
insert_remote_address current address =
    if is_empty current then address else address ++ (address_scope_char ∷ current)

unfoldable pub insert_remote_client : Text → Text → Text
insert_remote_client current client = client ++ (client_scope_char ∷ current)

-- The client and the address after the call.
unfoldable pub insert_separate_scope : Text → Text → Text → Text → Text × Text
unfolding insert_remote_address insert_remote_client
insert_separate_scope client address next_client next_address =
    (next_client, insert_remote_client (insert_remote_address address next_address) client)

unfoldable pub prepend_existing_scope : Text → Text → Text
unfolding insert_remote_address
prepend_existing_scope address next_address =
    if is_empty next_address then address else insert_remote_address address next_address

-- The `strsep` loop of `insert_existing_scope` over the pieces, last piece first; a piece without a
-- client separator ends it.
insert_hops : Text × Text → List Text → Text × Text
insert_hops here [] = here
insert_hops here (piece ∷ more) =
    let (client, address) = strsep client_scope_char piece in
    elim address [
      | none ↦ here
      | some a ↦ insert_hops (insert_separate_scope here.0 here.1 client a) more
    ]

unfoldable pub insert_existing_scope : Text → Text → Text → Text × Text
unfolding insert_hops split strsep insert_separate_scope
insert_existing_scope client address scope =
    insert_hops (client, address) (reverse (split address_scope_char scope))

prepend_all : Text → List Text → Text
unfolding prepend_existing_scope
prepend_all address [] = address
prepend_all address (piece ∷ more) = prepend_all (prepend_existing_scope address piece) more

-- The pieces come last piece first; the last one loses its client.
server_scope : List Text → Bool × Text
unfolding prepend_all next_client_scope
server_scope [] = (false, [])
server_scope (last ∷ more) = (true, prepend_all [] ((next_client_scope last).1 ∷ more))

-- The result, the client and the address after the call.
unfoldable pub set_to_server_scope : Text → Text → Bool × Text × Text
unfolding server_scope split
set_to_server_scope client [] = (true, [], [])
set_to_server_scope client (c ∷ s) =
    let (done, address) = server_scope (reverse (split address_scope_char (c ∷ s))) in
    (done, client, address)
