-- ===== src/Address/Hops.antt =====
-- Splitting off the next hop undoes putting it in front.
use rservr.Base.{ℕ, ◌≡◌, ◌≢◌, refl, [], ◌∷◌, ◌++◌, none, some, true, ==_refl, Text, All, arith}
use rservr.Address.{
  client_scope_char, address_scope_char, strsep, next_client_scope, next_address_scope,
  keep_first_address, only_last_address, insert_remote_address, insert_remote_client,
  insert_separate_scope,
}

-- The text holds no `sep`.
abbrev pub Free : ℕ → Text → Type 0
Free sep = All (λ c. c ≢ sep)

pub strsep-append :
    (sep : ℕ) (w rest : Text) → Free sep w → strsep sep (w ++ (sep ∷ rest)) ≡ (w, some rest)
unfolding strsep
strsep-append sep [] rest h = ground (arith, ==_refl sep)
strsep-append sep (c ∷ w) rest h = ground (arith, strsep-append sep w rest h.1)

pub strsep-Free : (sep : ℕ) (w : Text) → Free sep w → strsep sep w ≡ (w, none)
unfolding strsep
strsep-Free sep [] h = refl
strsep-Free sep (c ∷ w) h = ground (arith, strsep-Free sep w h.1)

-- A client put in front of an address, and that has no separator in its name, is split off again.
pub next_client_scope-insert_remote_client :
    (address client : Text)
    → Free client_scope_char client
    → next_client_scope (insert_remote_client address client) ≡ (client, address)
unfolding next_client_scope insert_remote_client
next_client_scope-insert_remote_client address client h =
    rw (strsep-append client_scope_char client address h)

-- An address put in front of a route, and that has no separator in it, is split off again.
pub next_address_scope-insert_remote_address :
    (current address : Text)
    → Free address_scope_char address
    → next_address_scope (insert_remote_address current address) ≡ current
unfolding next_address_scope insert_remote_address
next_address_scope-insert_remote_address [] address h =
    rw (strsep-Free address_scope_char address h)
next_address_scope-insert_remote_address (c ∷ s) address h =
    rw (strsep-append address_scope_char address (c ∷ s) h)

-- A command that is passed on to the next server, and that the receiver sends back the same way,
-- comes back to the client and the address that it left from, if the client's name holds no client
-- separator and the next address no address separator.
pub insert_separate_scope_returns :
    (client address next_client next_address : Text)
    → Free client_scope_char client
    → Free address_scope_char next_address
    → let sent = (insert_separate_scope client address next_client next_address).1 in
      ((next_client_scope sent).0 ≡ client)
      × (next_address_scope (next_client_scope sent).1 ≡ address)
unfolding insert_separate_scope
insert_separate_scope_returns client address next_client next_address hc ha =
    let first =
      next_client_scope-insert_remote_client (insert_remote_address address next_address) client
        hc in
    rw first (refl, next_address_scope-insert_remote_address address next_address ha)

-- Of a route behind its first client, only the nearest address is kept, if that client's name holds
-- no client separator and that address no address separator.
pub only_last_address-insert_remote_client :
    (current client address : Text)
    → Free client_scope_char client
    → Free address_scope_char address
    → (only_last_address (insert_remote_client (insert_remote_address current address) client)
        ≡ (true, address))
unfolding only_last_address insert_remote_client insert_remote_address
only_last_address-insert_remote_client [] [] address hc ha =
    rw (strsep-Free address_scope_char address ha)
only_last_address-insert_remote_client [] (c ∷ s) address hc ha =
    rw (strsep-append client_scope_char (c ∷ s) address hc, keep_first_address)
      (rw (strsep-Free address_scope_char address ha))
only_last_address-insert_remote_client (x ∷ xs) [] address hc ha =
    rw (strsep-append address_scope_char address (x ∷ xs) ha)
only_last_address-insert_remote_client (x ∷ xs) (c ∷ s) address hc ha =
    rw
      (
        strsep-append client_scope_char (c ∷ s) (address ++ (address_scope_char ∷ x ∷ xs)) hc,
        keep_first_address,
      )
      (rw (strsep-append address_scope_char address (x ∷ xs) ha))
