-- ===== src/Tests/Addresses.antt =====
-- Routes and labels.
use rservr.Base.{◌≡◌, ◌↔◌, ◌⊎◌, refl, [], ◌∷◌, ◌++◌, true, some, map, arith}
use rservr.Address.{
  client_scope_char, address_scope_char, next_client_scope, insert_existing_scope,
  set_to_server_scope,
}
use rservr.Address.Routes.{
  join, hop, through, insert_existing_scope-through, set_to_server_scope-join,
}
use rservr.Address.Labels.{check_address_label}
use rservr.Address.Labels.Shape.{IsPlain, IsRoute, check_address_label_iff}
use rservr.Tests.{ada, bob, host}

next_client_scope_test : next_client_scope (b'a' ∷ b'?' ∷ b'h' ∷ []) ≡ (b'a' ∷ [], host)
unfolding next_client_scope
next_client_scope_test = refl

set_to_server_scope_test :
    set_to_server_scope bob (b'x' ∷ b'?' ∷ b'h' ∷ b'|' ∷ b'a' ∷ b'?' ∷ b'h' ∷ [])
    ≡ (true, bob, b'x' ∷ b'?' ∷ b'h' ∷ b'|' ∷ b'h' ∷ [])
unfolding set_to_server_scope
set_to_server_scope_test = refl

insert_existing_scope-through_example :
    insert_existing_scope ada host
      (join address_scope_char (map hop ((host, host) ∷ (host, host) ∷ [])))
    ≡ through (ada, host) ((host, host) ∷ (host, host) ∷ [])
insert_existing_scope-through_example =
    insert_existing_scope-through ada host (host, host) ((host, host) ∷ [])
      (
        ((omega arith, tt), (omega arith, tt), (omega arith, tt)),
        (((omega arith, tt), (omega arith, tt), (omega arith, tt)), tt),
      )

set_to_server_scope-join_example :
    set_to_server_scope bob
      (join address_scope_char ((host ∷ []) ++ ((host ++ (client_scope_char ∷ host)) ∷ [])))
    ≡ (true, bob, join address_scope_char ((host ∷ []) ++ (host ∷ [])))
set_to_server_scope-join_example =
    set_to_server_scope-join bob host host (host ∷ []) (omega arith, tt)
      (omega arith, (omega arith, (omega arith, tt))) ((omega arith, tt), tt) (refl, tt) refl

check_address_label_iff_example :
    (check_address_label (λ s. true) (some (b'a' ∷ b'?' ∷ host)) ≡ true)
    ↔ (IsPlain (b'a' ∷ b'?' ∷ host) ⊎ IsRoute (b'a' ∷ b'?' ∷ host))
check_address_label_iff_example =
    check_address_label_iff (λ s. true) b'a' (b'?' ∷ host) (omega arith) (omega arith) refl
