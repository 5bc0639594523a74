-- ===== src/Server/Route/Outcomes.antt =====
-- What becomes of a command in `send_client_command` (libs/server/client-list.cpp), and when.
use rservr.Base.{
  ℕ, ◌≡◌, ◌≢◌, ◌⊎◌, refl, inl, inr, [], ◌∷◌, Bool, true, false, ◌==◌, some, text_eq, is_empty,
  arith, Bool-cases, Option-cases, if◌then◌else◌, none, ◌&&◌, or_else,
}
use rservr.Flags.{event_bad_target, event_rejected}
use rservr.Address.{client_scope_char, prepend_existing_scope}
use rservr.Server.{Server, Client, Command}
use rservr.Server.Clients.{get_client_id, change_client}
use rservr.Server.Services.{get_service_address}
use rservr.Server.Route.{
  Outside, origin_allowed, find_receiver, to_service_server, to_service, to_receiver,
  send_client_command,
}
use rservr.Server.Route.Judged.{Refuses, IsJudged, IsLooked, judge_cases, reparse_cases}

-- The command as it is judged: the one that was sent, but for a service under an address that leads
-- on from the service's, or, if it asks for the service's server with `?` alone, turned to that.
abbrev pub addressed : Server → Command → Bool → Command
addressed s cmd service =
    let address = or_else (get_service_address s cmd.target_entity) [] in
    if service
    then (if text_eq cmd.target_address (client_scope_char ∷ [])
        then to_service_server s cmd
        else record cmd { target_address = prepend_existing_scope cmd.target_address address })
    else cmd

-- Whether it asks for the server of a service that is this server's own.
abbrev pub asks_server : Server → Command → Bool → Bool
asks_server s cmd service =
    service
    && text_eq cmd.target_address (client_scope_char ∷ [])
    && is_empty (to_service_server s cmd).target_address

-- With a receiver: the addressed command is judged, or looked up again if it asks for the server.
abbrev pub Reaches : Outside → Client → Command → Server → Bool × Server → Type 0
Reaches out sender cmd s r =
    (receiver : Client) × (service : Bool) × (find_receiver s cmd.target_entity
      ≡ some (receiver, service))
    × (((asks_server s cmd service ≡ false)
          × IsJudged out sender receiver service (addressed s cmd service) s r)
        ⊎ ((asks_server s cmd service ≡ true) × IsLooked out sender (addressed s cmd service) s r))

to_service_cases :
    (out : Outside) (sender receiver : Client) (cmd : Command) (s : Server)
    → let r = to_service out sender receiver cmd s in
      let c = addressed s cmd true in
      ((asks_server s cmd true ≡ false) × IsJudged out sender receiver true c s r)
      ⊎ ((asks_server s cmd true ≡ true) × IsLooked out sender c s r)
unfolding to_service
to_service_cases out sender receiver cmd s =
    let turned = to_service_server s cmd in
    elim (Bool-cases (text_eq cmd.target_address (client_scope_char ∷ []))) [
      | inl e ↦ elim (Bool-cases (is_empty turned.target_address)) [
        | inl f ↦ rw (e, f) (inr (refl, reparse_cases out sender turned s))
        | inr f ↦ rw (e, f) (inl (refl, judge_cases out sender receiver true turned s))
      ]
      | inr e ↦ rw e (inl (refl, judge_cases out sender receiver true _ s))
    ]

-- Nobody is called by the target.
abbrev pub IsLost : Command → Server → Bool × Server → Type 0
IsLost cmd s r = (find_receiver s cmd.target_entity ≡ none) × Refuses s cmd event_bad_target r

to_receiver_cases :
    (out : Outside) (sender : Client) (cmd : Command) (s : Server)
    → let r = to_receiver out sender cmd s in IsLost cmd s r ⊎ Reaches out sender cmd s r
unfolding to_receiver change_client
to_receiver_cases out sender cmd s = elim (Option-cases (find_receiver s cmd.target_entity)) [
  | inl e ↦ rw (e, to_receiver) (inl (refl, (refl, refl, refl)))
  | inr ((receiver, true), e) ↦
      rw (e, to_receiver) (inr (receiver, true, refl, to_service_cases out sender receiver cmd s))
  | inr ((receiver, false), e) ↦
      rw (e, to_receiver)
        (inr (receiver, false, refl, inl (refl, judge_cases out sender receiver false cmd s)))
]

-- A command of a client in the table: if the sender may not use the originator's name, or if nobody
-- is called by the target's, that very command is answered once as a refusal. Otherwise it goes to
-- the client or the owner of the service that the target names, unchanged to a client, and
-- addressed anew, with its originator kept, to a service. If the rules allow it, it is delivered
-- once when it can be written to the receiver, and when it cannot, it waits once more with a higher
-- penalty. It is refused with one answer only if the rules deny it or if, when it cannot be written,
-- the receiver's output is over, the penalty is used up, or it cannot be queued. What asks for this
-- server by a service is looked up again instead: it waits as the server command that was found,
-- or is refused with one answer if none was, if that is not one for the server alone, or if it
-- cannot be queued.
pub send_client_command_cases :
    (out : Outside) (handle : ℕ) (cmd : Command) (s : Server) (sender : Client)
    → handle ≢ 0
    → get_client_id s handle ≡ some sender
    → let r = send_client_command out handle cmd s in
      ((origin_allowed s sender cmd ≡ false) × Refuses s cmd event_rejected r)
      ⊎ ((origin_allowed s sender cmd ≡ true) × (IsLost cmd s r ⊎ Reaches out sender cmd s r))
unfolding send_client_command change_client
send_client_command_cases out handle cmd s sender nonzero e =
    elim (Bool-cases (origin_allowed s sender cmd)) [
      | inl ok ↦
          rw (e, not_zero, send_client_command)
            (rw ok (inr (refl, to_receiver_cases out sender cmd s)))
      | inr bad ↦ rw (e, not_zero, send_client_command) (rw bad (inl (refl, (refl, refl, refl))))
    ]
  where
    not_zero : (handle == 0) ≡ false
    not_zero = ground arith
