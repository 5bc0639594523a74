-- ===== src/Client/Receiving/Remote.antt =====
-- `register_remote` queues a copy and a message about it, or neither.
use rservr.Base.{
  ℕ, ◌≡◌, ◌∙◌, ◌<◌, refl, ap, inl, inr, List, [], ◌∷◌, ◌++◌, Bool, true, false, not, ◌||◌, ◌==◌,
  Option, none, some, if-cases, ◌&&◌, if◌then◌else◌, if-false, if-true, Bool-cases, drop_where,
  find, arith,
}
use rservr.Client.Commands.{Prepared, find_command_handle, queue_new_command, remove_command}
use rservr.Client.Commands.Finding.{view, view-append_one}
use rservr.Client.Messages.{
  Info, Messages, auto_pause_check, message_queue_unpause, message_queue_timed_pause,
  message_queue_pause,
}
use rservr.Client.Messages.Keeping.{is_full, add_new_message, new_message}
use rservr.Flags.{command_remote}
use rservr.Client.Receiving.{
  Local, Around, remote_copy, passed_on, shown, pending_at, requirement_fail, register_remote,
}

drop-append_one :
    (q : List Prepared) (c : Prepared)
    → view q c.handle ≡ none
    → drop_where (find_command_handle c.handle) (q ++ (c ∷ [])) ≡ q
unfolding find find_command_handle drop_where
drop-append_one [] c fresh = ground arith
drop-append_one (x ∷ q) c fresh = ground (arith, fresh, drop-append_one q c)

queued_and_removed :
    (q : List Prepared) (c : Prepared)
    → view q c.handle ≡ none
    → 0 < c.handle
    → (remove_command c.handle (queue_new_command c q)).1 ≡ q
unfolding remove_command queue_new_command
queued_and_removed q c fresh real =
    ap (λ (r : Bool × List Prepared). r.1) (if-false (c.handle == 0) _ _ (ground (arith, real)))
    ∙ drop-append_one q (record c { priority = 0 }) fresh

checked_messages :
    (out : Around) (m : Messages) → (auto_pause_check out.machine m).messages ≡ m.messages
unfolding auto_pause_check message_queue_unpause message_queue_timed_pause message_queue_pause
checked_messages out m = ground arith

abbrev with_message : Info → ℕ → Messages → Messages
with_message info handle m = record m {
  messages = m.messages ++ (new_message info command_remote (pending_at handle) ∷ []);
}

added_full :
    (out : Around) (info : Info) (handle : ℕ) (m : Messages)
    → is_full m ≡ true
    → add_new_message out.machine info command_remote (pending_at handle) m
      ≡ (false, record m { index = 0 })
unfolding add_new_message
added_full out info handle m full = if-true (is_full m) _ _ full

added_room :
    (out : Around) (info : Info) (handle : ℕ) (m : Messages)
    → is_full m ≡ false
    → add_new_message out.machine info command_remote (pending_at handle) m
      ≡ (true, auto_pause_check out.machine (with_message info handle m))
unfolding add_new_message
added_room out info handle m room = if-false (is_full m) _ _ room

queued_view :
    (q : List Prepared) (c : Prepared) (k : ℕ)
    → view q c.handle ≡ none
    → view (queue_new_command c q) k
      ≡ (if k == c.handle then some (record c { priority = 0 }) else view q k)
unfolding queue_new_command
queued_view q c k fresh = view-append_one q (record c { priority = 0 }) k fresh

-- Whether a command is passed on: the client may receive it, it blocks no such commands, the command
-- is complete, and its message has room.
abbrev pub is_passed : Around → ℕ → Option Prepared → Local → Bool
is_passed out current none s = false
is_passed out current (some c) s =
    not (requirement_fail current command_remote)
    && not s.blocking.block_remote_flag
    && out.command_ready c
    && not (is_full s.messages)

-- Nothing new waits.
abbrev pub IsDeclined : Local → Bool × Local → Type 0
IsDeclined s r =
    (r.0 ≡ false) × (r.1.prepared ≡ s.prepared) × (r.1.messages.messages ≡ s.messages.messages)

-- A copy waits under the handle, each other command as before, and a message about it at the end.
abbrev pub IsPassed : ℕ → Info → Option Prepared → ℕ → Local → Bool × Local → Type 0
IsPassed current info command handle s r =
    (c : Prepared) × (command ≡ some c)
    × (r.0 ≡ true)
    × ((k : ℕ)
        → view r.1.prepared k ≡ (
            if k == handle
            then some (record (remote_copy current c) { handle = handle; priority = 0 })
            else view s.prepared k))
    × (r.1.messages.messages
        ≡ s.messages.messages ++ (new_message info command_remote (pending_at handle) ∷ []))

-- With a new handle, a command is passed on exactly when there is one, the client may receive it and
-- does not block such commands, the command is complete, and the messages have room. Then its copy,
-- marked as not to be sent from here, waits under the handle, every other prepared command is as it
-- was, and a message that holds the handle is the last one. Otherwise the prepared commands and the
-- messages are the same as before.
pub register_remote_cases :
    (out : Around) (current handle : ℕ) (info : Info) (command : Option Prepared) (s : Local)
    → view s.prepared handle ≡ none
    → 0 < handle
    → let r = register_remote out current handle info command s in
      (is_passed out current command s ≡ false → IsDeclined s r)
      × (is_passed out current command s ≡ true → IsPassed current info command handle s r)
unfolding register_remote shown passed_on
register_remote_cases out current handle info none s fresh real =
    ((λ e. (refl, refl, refl)), (λ e. cc))
register_remote_cases out current handle info (some c) s fresh real =
    let copy = record (remote_copy current c) { handle = handle } in
    let fails = requirement_fail current command_remote in
    let End : Bool × Local → Type 0 = λ r.
      (is_passed out current (some c) s ≡ false → IsDeclined s r)
      × (is_passed out current (some c) s ≡ true → IsPassed current info (some c) handle s r) in
    let declined : is_passed out current (some c) s ≡ false → End (false, s) =
      λ no. ((λ e. (refl, refl, refl)), (λ e. absurd (ground (arith, no, e)))) in
    if-cases End (fails || s.blocking.block_remote_flag) _ _ (λ e. declined (ground (arith, e)))
      (λ e.
        if-cases End (not (out.command_ready c)) _ _ (λ f. declined (ground (arith, f)))
          (λ f. elim (Bool-cases (is_full s.messages)) [
            | inl full ↦ rw (added_full out info handle s.messages full) (
              (λ no. (refl, queued_and_removed s.prepared copy fresh real, refl)),
              (λ yes. absurd (ground (arith, yes, full))),
            )
            | inr room ↦ rw (added_room out info handle s.messages room) (
              (λ no. absurd (ground (arith, no, room, e, f))),
              (λ yes. (
                c,
                refl,
                refl,
                (λ k. queued_view s.prepared copy k fresh),
                checked_messages out (with_message info handle s.messages),
              )),
            )
          ]))
