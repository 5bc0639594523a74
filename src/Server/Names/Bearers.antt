-- ===== src/Server/Names/Bearers.antt =====
-- How many clients and services bear a name, after a registration of a client or a service
-- (libs/server/client-list.cpp and service-list.cpp).
use rservr.Base.{
  ℕ, ◌+◌, ◌≤◌, ◌≡◌, refl, ap, subst, List, [], ◌∷◌, ◌++◌, Bool, true, false, some, if◌then◌else◌,
  Text, text_eq, eq_of_text_eq, is_empty, arith, count, count-append_one, count_none, map,
  Bool-cases, Option-cases, inl, inr, update_first,
}
use rservr.Server.{Server, Client, Service}
use rservr.Server.Clients.{has_name, get_client_id, change_client, set_primary_service}
use rservr.Server.Services.{named, add_client_service}
use rservr.Server.Naming.{check_names}
use rservr.Server.Register.{set_registered_client_type}
use rservr.Server.Register.Effects.{
  registrations, renamed, set_registered-none, refused_keeps_registrations, accepted_registers,
}
use rservr.Server.Sound.{Tables}
use rservr.Server.Sound.Kept.{tables-set_registered_client_type}
use rservr.Server.Names.{
  clients_named, services_named, HasUniqueNames, Fewer-change_client, keeps_name,
}

abbrev named_row : Text → ℕ × ℕ × Text → Bool
named_row name r = text_eq r.2 name

count-rows :
    (name : Text) (cs : List Client)
    → clients_named name cs
      ≡ count (named_row name) (map (λ c. (c.handle, c.client_type, c.client_name)) cs)
unfolding count
count-rows name [] = refl
count-rows name (c ∷ cs) = omega (arith, count-rows name cs)

-- Renaming one row adds one bearer of the new name at most.
count-renamed :
    (name new_name : Text) (handle type : ℕ) (rows : List (ℕ × ℕ × Text))
    → count (named_row name) (renamed handle type new_name rows)
      ≤ count (named_row name) rows + (if text_eq new_name name then 1 else 0)
unfolding count update_first
count-renamed name new_name handle type [] = omega arith
count-renamed name new_name handle type (r ∷ rows) =
    ground (arith, count-renamed name new_name handle type rows)

abbrev pub bearers : Text → Server → ℕ
bearers name s = clients_named name s.clients + services_named name s.services

-- Only the new name may have one bearer more.
abbrev pub Adds : Text → Server → Server → Type 0
Adds new_name s t =
    (name : Text) → bearers name t ≤ bearers name s + (if text_eq new_name name then 1 else 0)

by_rows :
    (name : Text) (s t : Server) (more : ℕ)
    → count (named_row name) (registrations t) ≤ count (named_row name) (registrations s) + more
    → clients_named name t.clients ≤ clients_named name s.clients + more
by_rows name s t more h = omega (arith, h, count-rows name s.clients, count-rows name t.clients)

pub renames :
    (handle : ℕ) (new_name : Text) (type : ℕ) (disable : Bool) (s : Server)
    → Adds new_name s (set_registered_client_type handle new_name type disable s).2
renames handle new_name type disable s name = omega (
  arith,
  clients,
  ap (λ (t : Tables). services_named name t.1)
      (tables-set_registered_client_type handle new_name type disable s),
)
  where
    after : Server
    after = (set_registered_client_type handle new_name type disable s).2

    clients :
        clients_named name after.clients
        ≤ clients_named name s.clients + (if text_eq new_name name then 1 else 0)
    clients =
        by_rows name s after (if text_eq new_name name then 1 else 0)
          (elim (Bool-cases (set_registered_client_type handle new_name type disable s).0) [
            | inl done ↦ elim (Option-cases (get_client_id s handle)) [
              | inl e ↦ absurd (
                  cc (
                    done,
                    ap (λ (r : Bool × ℕ × Server). r.0)
                        (set_registered-none handle new_name type disable s e),
                  ))
              | inr (c, e) ↦
                  let rows = (accepted_registers handle new_name type disable s c e done).3 in
                  omega (
                    arith,
                    ap (count (named_row name)) rows,
                    count-renamed name new_name handle _ (registrations s),
                  )
            ]
            | inr refused ↦ omega (
              arith,
              ap (count (named_row name))
                  (refused_keeps_registrations handle new_name type disable s refused),
            )
          ])

-- A name that is free has no bearer.
pub free_name :
    (s : Server) (name : Text)
    → check_names s (some name) ≡ true
    → (clients_named name s.clients ≡ 0) × (services_named name s.services ≡ 0)
unfolding check_names
free_name s name h = (
  count_none (has_name name) s.clients (ground arith),
  count_none (named name) s.services (ground arith),
)

pub HasUniqueNames-Adds :
    (new_name : Text) (s t : Server)
    → (is_empty new_name ≡ false → bearers new_name s ≡ 0)
    → Adds new_name s t
    → HasUniqueNames s
    → HasUniqueNames t
HasUniqueNames-Adds new_name s t free change h name filled =
    elim (Bool-cases (text_eq new_name name)) [
      | inl e ↦
          let same = eq_of_text_eq new_name name e in
          let none_had = subst (λ n. bearers n s ≡ 0) same (free (rw same filled)) in
          omega (arith, none_had, (rw e at (change name)))
      | inr e ↦ omega (arith, h name filled, (rw e at (change name)))
    ]

pub serves_named :
    (c : Client) (name type location : Text) (s : Server)
    → Adds name s (add_client_service c name type location s)
unfolding add_client_service change_client
serves_named c name type location s other =
    let e : Service = record {
      owner = c.handle;
      service_name = name;
      service_type = type;
      service_location = location;
    } in
    let grown : Server = record s { services = s.services ++ (e ∷ []) } in
    omega (
      arith,
      (Fewer-change_client c.handle (set_primary_service name) grown (keeps_name name) other).0,
      count-append_one (named other) s.services e,
    )
