-- ===== src/Server/Register/Effects.antt =====
-- What `set_registered_client_type` (libs/server/client-list.cpp) does to the table.
use rservr.Base.{
  ℕ, ◌≡◌, ◌⊎◌, refl, inl, inr, ◌∙◌, Bool, true, false, not, ◌==◌, Text, arith, Option, none, some,
  map, List, Option-cases, if◌then◌else◌, Bool-cases, update_first, [], ◌∷◌,
}
use rservr.Flags.{◌&◌, check_all, type_none, type_all_clients}
use rservr.Server.Register.Permits.{GivesUp, Takes, check_request_iff}
use rservr.Server.{Server, Client}
use rservr.Server.Clients.{
  has_handle, get_client_id, change_client, notify_target, notify_register_attempt,
  continue_if_settled, continue_register_notify,
}
use rservr.Server.Clients.Laws.{map-update_first, handle_of_get}
use rservr.Server.Register.{
  Refusal, accepted, silent, notified, check_request, granted, without_monitor, settle, take_type,
  finish, set_registered_client_type,
}

-- Each client with its type and its name.
abbrev pub registrations : Server → List (ℕ × ℕ × Text)
registrations s = map (λ c. (c.handle, c.client_type, c.client_name)) s.clients

pub registrations-change :
    (handle : ℕ) (f : Client → Client) (s : Server)
    → ((c : Client)
        → (◌≡◌ {A = ℕ × ℕ × Text}
            ((f c).handle, (f c).client_type, (f c).client_name)
            (c.handle, c.client_type, c.client_name)))
    → registrations (change_client handle f s) ≡ registrations s
unfolding change_client
registrations-change handle f s k =
    map-update_first (λ c. (c.handle, c.client_type, c.client_name)) handle f s.clients k

pub clients-notify_register_attempt :
    (target : Option Client) (reference : ℕ) (success : Bool) (s : Server)
    → (notify_register_attempt target reference success s).clients ≡ s.clients
unfolding notify_register_attempt
clients-notify_register_attempt none reference success s = refl
clients-notify_register_attempt (some c) reference success s = ground arith

pub clients-continue_if_settled : (s : Server) → (continue_if_settled s).clients ≡ s.clients
unfolding continue_if_settled continue_register_notify
clients-continue_if_settled s = ground arith

abbrev cleared : ℕ → Server → Server
cleared handle s = change_client handle (λ d. record d { notify = 0; reference = 0 }) s

pub set_registered-none :
    (handle : ℕ) (name : Text) (type : ℕ) (disable : Bool) (s : Server)
    → get_client_id s handle ≡ none
    → set_registered_client_type handle name type disable s ≡ (false, type, s)
unfolding set_registered_client_type
set_registered-none handle name type disable s e = rw (e, set_registered_client_type)

set_registered-some :
    (handle : ℕ) (name : Text) (type : ℕ) (disable : Bool) (s : Server) (c : Client)
    → get_client_id s handle ≡ some c
    → set_registered_client_type handle name type disable s ≡ (
        let asked = without_monitor c.max_permissions type in
        finish
          (check_request c name asked)
          c
          (notify_target s c.notify c.reference)
          name
          asked
          disable
          (cleared handle s))
unfolding set_registered_client_type
set_registered-some handle name type disable s c e = rw (e, set_registered_client_type)

finish_refused :
    (r : Refusal) (c : Client) (target : Option Client) (name : Text) (type : ℕ) (disable : Bool)
    (s : Server)
    → (finish r c target name type disable s).0 ≡ false
    → registrations (finish r c target name type disable s).2 ≡ registrations s
unfolding finish
finish_refused accepted c target name type disable s h = cc
finish_refused silent c target name type disable s h = refl
finish_refused notified c target name type disable s h =
    rw (clients-notify_register_attempt target c.reference false s)

-- A request that is refused leaves the type and the name of every client as they were.
pub refused_keeps_registrations :
    (handle : ℕ) (name : Text) (type : ℕ) (disable : Bool) (s : Server)
    → (set_registered_client_type handle name type disable s).0 ≡ false
    → registrations (set_registered_client_type handle name type disable s).2 ≡ registrations s
refused_keeps_registrations handle name type disable s h =
    elim (Option-cases (get_client_id s handle)) [
      | inl e ↦ rw (set_registered-none handle name type disable s e)
      | inr (c, e) ↦
          let whole = set_registered-some handle name type disable s c e in
          rw whole (
            finish_refused _ c _ name _ disable (cleared handle s) (rw whole at h)
            ∙ registrations-change handle (λ d. record d { notify = 0; reference = 0 }) s
                (λ d. refl))
    ]

abbrev Row : Type 0
Row = ℕ × ℕ × Text

-- The row of a client gets a new type and name.
abbrev pub renamed : ℕ → ℕ → Text → List (ℕ × ℕ × Text) → List (ℕ × ℕ × Text)
renamed handle type name = update_first (λ r. r.0 == handle) (λ r. (r.0, type, name))

map-renamed :
    (handle type : ℕ) (name : Text) (cs : List Client)
    → map
        (λ c. (c.handle, c.client_type, c.client_name))
        (update_first
          (has_handle handle)
          (λ d. record d { client_type = type; client_name = name })
          cs)
      ≡ renamed handle type name (map (λ c. (c.handle, c.client_type, c.client_name)) cs)
unfolding update_first
map-renamed handle type name [] = refl
map-renamed handle type name (c ∷ cs) = ground (arith, map-renamed handle type name cs)

registrations-ready :
    (c : Client) (target : Option Client) (s : Server)
    → registrations (
        notify_register_attempt target c.reference true
          (continue_if_settled (change_client c.handle (λ d. record d { fresh_client = false }) s)))
      ≡ registrations s
registrations-ready c target s =
    let s1 = change_client c.handle (λ d. record d { fresh_client = false }) s in
    rw
      (
        clients-notify_register_attempt target c.reference true (continue_if_settled s1),
        clients-continue_if_settled s1,
      )
      (registrations-change c.handle (λ d. record d { fresh_client = false }) s (λ d. refl))

fresh_settled :
    (c : Client) (target : Option Client) (disable : Bool) (s : Server)
    → registrations (
        if not c.fresh_client
        then s
        else if disable
        then (let back : ℕ = elim target [ none ↦ 0 | some t ↦ t.handle ] in
            change_client c.handle (λ d. record d { notify = back; reference = c.reference }) s)
        else notify_register_attempt target c.reference true (
            continue_if_settled
              (change_client c.handle (λ d. record d { fresh_client = false }) s)))
      ≡ registrations s
fresh_settled c target disable s = elim (Bool-cases c.fresh_client) [
  | inl e ↦ rw e (elim (Bool-cases disable) [
    | inl d ↦ rw d (registrations-change c.handle _ s (λ b. refl))
    | inr d ↦ rw d (registrations-ready c target s)
  ])
  | inr e ↦ rw e
]

registrations-settle :
    (c : Client) (target : Option Client) (disable : Bool) (type : ℕ) (s : Server)
    → registrations (settle c target disable type s) ≡ registrations s
unfolding settle
registrations-settle c target disable type s = elim (Bool-cases (type == type_none)) [
  | inl e ↦ rw e
  | inr e ↦ rw e (fresh_settled c target disable s)
]

registrations-take_type :
    (c : Client) (target : Option Client) (name : Text) (type : ℕ) (disable : Bool) (s : Server)
    → registrations (take_type c target name type disable s)
      ≡ renamed c.handle (granted c type) name (registrations s)
unfolding take_type
registrations-take_type c target name type disable s =
    elim (Bool-cases (granted c type == type_none)) [
      | inl e ↦ rw e (registrations-settle c target disable (granted c type) _ ∙ rename c.handle)
      | inr e ↦ rw e (registrations-settle c target disable (granted c type) _ ∙ rename c.handle)
    ]
  where
    rename :
        (handle : ℕ)
        → registrations (
            change_client handle
              (λ d. record d { client_type = granted c type; client_name = name })
              s)
          ≡ renamed handle (granted c type) name (registrations s)
    rename handle = unfold change_client in map-renamed handle (granted c type) name s.clients

finish_accepted :
    (r : Refusal) (c : Client) (target : Option Client) (name : Text) (type : ℕ) (disable : Bool)
    (s : Server)
    → (finish r c target name type disable s).0 ≡ true
    → (r ≡ accepted)
      × ((finish r c target name type disable s).1 ≡ granted c type)
      × (registrations (finish r c target name type disable s).2
          ≡ renamed c.handle (granted c type) name (registrations s))
unfolding finish
finish_accepted accepted c target name type disable s h =
    (refl, refl, registrations-take_type c target name type disable s)
finish_accepted silent c target name type disable s h = cc
finish_accepted notified c target name type disable s h = cc

-- A request that succeeds came from a client of the table and passed the rules on permissions and
-- names (for its type less the monitor bit, where monitoring is disabled). The caller gets the
-- granted type back, and exactly that client has it, under the name, with every other client's
-- type and name unchanged.
pub accepted_registers :
    (handle : ℕ) (name : Text) (type : ℕ) (disable : Bool) (s : Server) (c : Client)
    → get_client_id s handle ≡ some c
    → (set_registered_client_type handle name type disable s).0 ≡ true
    → let asked = without_monitor c.max_permissions type in
      let (done, back, after) = set_registered_client_type handle name type disable s in
      (check_all c.max_permissions (asked & type_all_clients) ≡ true)
      × (GivesUp name asked ⊎ Takes c name asked)
      × (back ≡ granted c asked)
      × (registrations after ≡ renamed handle (granted c asked) name (registrations s))
accepted_registers handle name type disable s c e h =
    let whole = set_registered-some handle name type disable s c e in
    let asked = without_monitor c.max_permissions type in
    let (r, back, rows) =
      finish_accepted (check_request c name asked) c (notify_target s c.notify c.reference) name
        asked disable (cleared handle s) (rw whole at h) in
    let rules = (check_request_iff c name asked).0 r in
    rw whole (
      rules.0,
      rules.1,
      back,
      rows
          ∙ rw (
            handle_of_get s handle c e,
            registrations-change handle (λ d. record d { notify = 0; reference = 0 }) s (λ d. refl),
          ),
    )
