-- ===== src/Server/Execute/Origin.antt =====
-- Which commands `execute_here` has executed: behind the permissions of the client
-- (`set_effective_handle`, libs/server/execute-thread.cpp) and behind `validate_and_execute`
-- (libs/server/api-server.cpp).
use rservr.Base.{
  ℕ, ◌≡◌, ◌≢◌, ◌⊎◌, ap, inl, inr, refl, List, ◌∷◌, [], true, false, ◌==◌, some, is_empty, length,
  text_eq, text_eq_refl, eq_of_text_eq, Bool-cases, arith, Text,
}
use rservr.Flags.{check_all, type_none, command_server}
use rservr.Server.{Server, Client, Command}
use rservr.Server.Clients.{get_client_id}
use rservr.Server.Services.{get_service_client_handle}
use rservr.Server.Route.{forgive_error, count_error, count_invalid}
use rservr.Server.Execute.{
  Evaluate, foreign_origin, set_effective_handle, validate_and_execute, execute_here,
}

-- A command for the server itself: neither a target nor an address.
abbrev pub ForServer : Command → Type 0
ForServer cmd =
    (check_all cmd.execute_type command_server ≡ true)
    × (is_empty cmd.target_address ≡ true)
    × (is_empty cmd.target_entity ≡ true)

-- The client's own name, or a service of its.
abbrev pub OwnsOrigin : Server → Client → Command → Type 0
OwnsOrigin s c cmd =
    (c.client_name ≡ cmd.orig_entity) ⊎ (get_service_client_handle s cmd.orig_entity ≡ c.handle)

-- A registered client's originator is looked at only if it is empty, and another client's only if it
-- has one character.
abbrev pub OriginPasses : Server → Client → Command → Type 0
OriginPasses s c cmd =
    ((c.client_type ≢ type_none) × (is_empty cmd.orig_entity ≡ false))
    ⊎ ((c.client_type ≡ type_none) × (length cmd.orig_entity ≢ 1))
    ⊎ OwnsOrigin s c cmd

passes :
    (s : Server) (c : Client) (cmd : Command)
    → OriginPasses s c cmd
    → foreign_origin s c cmd ≡ false
unfolding foreign_origin
passes s c cmd (inl (registered, filled)) = ground arith
passes s c cmd (inr (inl (unknown, size))) = ground arith
passes s c cmd (inr (inr (inl own))) =
    ground (arith, own, text_eq_refl c.client_name, ap (text_eq c.client_name) own)
passes s c cmd (inr (inr (inr serves))) = ground (arith, serves)

foreign :
    (s : Server) (c : Client) (cmd : Command)
    → foreign_origin s c cmd ≡ false
    → OriginPasses s c cmd
unfolding foreign_origin
foreign s c cmd h = elim (Bool-cases (text_eq c.client_name cmd.orig_entity)) [
  | inl same ↦ inr (inr (inl (eq_of_text_eq c.client_name cmd.orig_entity same)))
  | inr other ↦ elim (Bool-cases (get_service_client_handle s cmd.orig_entity == c.handle)) [
    | inl serves ↦ inr (inr (inr (ground (arith, serves))))
    | inr not_its ↦ elim (Bool-cases (c.client_type == type_none)) [
      | inl unknown ↦ inr (
          inl (
            ground (arith, unknown),
            (λ size. absurd (ground (arith, h, other, not_its, unknown, size))),
          ))
      | inr registered ↦ inl (
        (λ same. absurd (ground (arith, registered, same))),
        filled cmd.orig_entity (foreign_length registered other not_its),
      )
    ]
  ]
]
  where
    filled : (t : Text) → length t ≢ 0 → is_empty t ≡ false
    filled [] h = absurd (h refl)
    filled (x ∷ t) h = refl

    foreign_length :
        (c.client_type == type_none) ≡ false
        → text_eq c.client_name cmd.orig_entity ≡ false
        → (get_service_client_handle s cmd.orig_entity == c.handle) ≡ false
        → length cmd.orig_entity ≢ 0
    foreign_length registered other not_its size = ground arith

validated :
    (evaluate : Evaluate) (handle : ℕ) (cmd : Command) (s : Server) (c : Client)
    → get_client_id s handle ≡ some c
    → let after = (validate_and_execute evaluate handle cmd s).1 in
      (OriginPasses s c cmd → ForServer cmd → after ≡ evaluate handle cmd (forgive_error handle s))
      × (OriginPasses s c cmd → ¬ ForServer cmd → after ≡ count_error handle s)
      × (¬ OriginPasses s c cmd → after ≡ count_invalid handle s)
unfolding validate_and_execute
validated evaluate handle cmd s c e =
    rw (e, validate_and_execute)
      (
        (λ known here. rw (passes s c cmd known, here.0, here.1, here.2) refl),
        (λ known strange. rw (passes s c cmd known) (ground (arith, strange))),
        (λ strange. elim (Bool-cases (foreign_origin s c cmd)) [
          | inl f ↦ rw f refl
          | inr f ↦ absurd (strange (foreign s c cmd f))
        ]),
      )

-- For a client of the table, a command for the server fails and changes nothing if the client lacks
-- a permission that it asks for. Otherwise it succeeds, and it is evaluated, with one error of the
-- client forgiven, exactly if it is for the server itself and its originator passes: a registered
-- client's under any name but the empty one, an unregistered client's under any name but one of a
-- single character, and either's under the client's own name or that of a service of its. Without
-- that an invalid command or an error of the client is counted, and nothing else happens. The other
-- commands of the cache stay.
pub execute_here_cases :
    (evaluate : Evaluate) (handle : ℕ) (cmd : Command) (rest : List (ℕ × Command)) (s : Server)
    (c : Client)
    → get_client_id s handle ≡ some c
    → let r = execute_here evaluate (handle, cmd) rest s in
      (r.1 ≡ rest)
      × (check_all c.client_type cmd.permissions ≡ false → (r.0 ≡ false) × (r.2 ≡ s))
      × (check_all c.client_type cmd.permissions ≡ true
          → (r.0 ≡ true)
            × (OriginPasses s c cmd
                → ForServer cmd
                → r.2 ≡ evaluate handle cmd (forgive_error handle s))
            × (OriginPasses s c cmd → ¬ ForServer cmd → r.2 ≡ count_error handle s)
            × (¬ OriginPasses s c cmd → r.2 ≡ count_invalid handle s))
unfolding execute_here set_effective_handle validate_and_execute
execute_here_cases evaluate handle cmd rest s c e =
    let granted = check_all c.client_type cmd.permissions in
    let checked = validated evaluate handle cmd s c e in
    elim (Bool-cases granted) [
      | inr lacks ↦
          rw (e, execute_here, set_effective_handle)
            (rw (lacks, execute_here)
              (refl, (λ h. (refl, refl)), (λ h. absurd (ground (arith, h)))))
      | inl held ↦
          rw (e, execute_here, set_effective_handle)
            (rw (held, execute_here)
              (
                refl,
                (λ h. absurd (ground (arith, h))),
                (λ h. (refl, checked.0, checked.1, checked.2)),
              ))
    ]
