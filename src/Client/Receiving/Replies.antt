-- ===== src/Client/Receiving/Replies.antt =====
-- The way of a request from one client to another, and of the response back.
use rservr.Base.{
  ℕ, ◌≡◌, ◌≢◌, ◌∙◌, ◌<◌, ap, List, Bool, true, some, Text, ◌==◌, if◌then◌else◌, arith,
}
use rservr.Flags.{check_all, command_request, command_response}
use rservr.Client.Commands.{Prepared, Sender, addressed, transmit_command}
use rservr.Client.Commands.Finding.{view}
use rservr.Client.Commands.Sending.{given}
use rservr.Client.Messages.{Messages, Info, Incoming}
use rservr.Client.Messages.Keeping.{
  message_from, new_message, validate_message, answer_to, copy_response,
}
use rservr.Client.Status.{update_status}
use rservr.Client.Status.Events.{entry, HasDistinctKeys, update_status_lem, reported}
use rservr.Client.Receiving.{
  Local, Around, requirement_fail, info_of, update_command_status, update_local_command_status,
  update_remote_command_status,
}

-- The references that an answer to a request carries.
answered :
    (name : Text) (h address : ℕ) (request : Incoming) (g blank : Prepared) (m : Messages)
    → validate_message h m ≡ some (new_message (info_of name address g) command_request request)
    → g.remote_reference ≢ 0
    → let (done, r) = copy_response h m blank in
      (done ≡ true)
      × (r.target_reference ≡ g.orig_reference)
      × (r.remote_reference ≡ g.remote_reference)
      × (r.target_entity ≡ g.orig_entity)
      × (r.target_address ≡ g.orig_address)
      × (r.creator_pid ≡ g.creator_pid)
unfolding copy_response answer_to new_message message_from info_of
answered name h address request g blank m there set = rw (there, answer_to) (ground (arith, set))

-- A fresh request carries its reference twice.
requested :
    (s : Sender) (h reference : ℕ) (silent : Bool) (q : List Prepared) (c g : Prepared)
    → view q h ≡ some c
    → c.remote_reference ≡ 0
    → (transmit_command s h reference silent q).2 ≡ some g
    → (g.orig_reference ≡ reference)
      × (g.remote_reference ≡ reference)
      × (g.creator_pid ≡ c.creator_pid)
unfolding addressed
requested s h reference silent q c g here fresh out =
    let (may, is_g, stays) = given s h reference silent q c g here out in
    ground (arith, is_g, fresh)

-- What a response carries is not changed when it is sent.
returned :
    (s : Sender) (h reference : ℕ) (silent : Bool) (q : List Prepared) (x back : Prepared)
    → view q h ≡ some x
    → x.remote_reference ≢ 0
    → (transmit_command s h reference silent q).2 ≡ some back
    → (back.target_reference ≡ x.target_reference)
      × (back.remote_reference ≡ x.remote_reference)
      × (back.creator_pid ≡ x.creator_pid)
unfolding addressed
returned s h reference silent q x back here set out =
    let (may, is_back, stays) = given s h reference silent q x back here out in
    ground (arith, is_back, set)

-- What an update from this process's own command does.
updated :
    (out : Around) (current : ℕ) (info : Info) (reference event : ℕ) (s : Local)
    → check_all current command_response ≡ true
    → info.creator_pid ≡ out.getpid
    → (update_command_status out current info reference event s).1.statuses
      ≡ (update_status out.answers reference event s.statuses).1
unfolding update_command_status requirement_fail
updated out current info reference event s response own = ground (arith, response, own)

-- The event has reached the entry of the reference, and no other.
abbrev pub HasReached : Around → ℕ → Local → ℕ → Local → Type 0
HasReached out event s reference after =
    (k : ℕ)
    → entry after.statuses k ≡ (
        if k == reference
        then reported out.answers reference event (entry s.statuses reference)
        else entry s.statuses k)

module _ (out : Around) (current event : ℕ) (s : Local) (distinct : HasDistinctKeys s.statuses)
    (response : check_all current command_response ≡ true) (reference : ℕ) where
  reaches :
      (info : Info) (other : ℕ)
      → other ≡ reference
      → info.creator_pid ≡ out.getpid
      → HasReached out event s reference (update_command_status out current info other event s).1
  reaches info other same own k =
      ap (λ l. entry l k) (updated out current info other event s response own)
      ∙ (ap (λ n. entry (update_status out.answers n event s.statuses).1 k) same
          ∙ update_status_lem out.answers reference event s.statuses k distinct)

-- A request that is sent with a new reference, received by another client and kept as a message
-- there, answered with what `copy_response` gives, and the response sent back: when it arrives at
-- the process that sent the request, its event is reported to the functors of that reference and
-- to no others, by its local and by its remote reference.
pub response_returns :
    (out : Around) (current event : ℕ) (s : Local) (asker answerer : Sender)
    (h k hb reference reference_back a ab : ℕ) (silent silent_back : Bool) (name name_back : Text)
    (q qb : List Prepared) (c g blank x back : Prepared) (m : Messages) (request : Incoming)
    → HasDistinctKeys s.statuses
    → check_all current command_response ≡ true
    → 0 < reference
    → view q h ≡ some c
    → c.remote_reference ≡ 0
    → c.creator_pid ≡ out.getpid
    → (transmit_command asker h reference silent q).2 ≡ some g
    → validate_message k m ≡ some (new_message (info_of name a g) command_request request)
    → view qb hb ≡ some x
    → x.target_reference ≡ (copy_response k m blank).1.target_reference
    → x.remote_reference ≡ (copy_response k m blank).1.remote_reference
    → x.creator_pid ≡ (copy_response k m blank).1.creator_pid
    → (transmit_command answerer hb reference_back silent_back qb).2 ≡ some back
    → ((copy_response k m blank).1.target_entity ≡ g.orig_entity)
      × HasReached out event s reference
          (update_local_command_status out current (info_of name_back ab back) event s).1
      × HasReached out event s reference
          (update_remote_command_status out current (info_of name_back ab back) event s).1
unfolding update_local_command_status update_remote_command_status info_of
response_returns out current event s asker answerer h k hb reference reference_back a ab silent
      silent_back name name_back q qb c g blank x back m request distinct response real here fresh
      own sent kept there is_target is_remote is_creator sent_back =
    let (orig, remote, creator) = requested asker h reference silent q c g here fresh sent in
    let (done, target, remote_too, entity, address, pid) =
      answered name k a request g blank m kept (λ e. omega (arith, remote, e, real)) in
    let x_remote : x.remote_reference ≡ reference = is_remote ∙ (remote_too ∙ remote) in
    let (b_target, b_remote, b_creator) =
      returned answerer hb reference_back silent_back qb x back there
        (λ e. omega (arith, x_remote, e, real)) sent_back in
    let mine : back.creator_pid ≡ out.getpid = b_creator ∙ (is_creator ∙ (pid ∙ (creator ∙ own))) in
    (
      entity,
      reaches out current event s distinct response reference (info_of name_back ab back)
          back.target_reference (b_target ∙ (is_target ∙ (target ∙ orig))) mine,
      reaches out current event s distinct response reference (info_of name_back ab back)
          back.remote_reference (b_remote ∙ x_remote) mine,
    )
