-- ===== src/Client/Streams/Queued.antt =====
-- What is queued after reading from a stream, and what is left after writing to one.
use rservr.Base.{
  ℕ, ◌≡◌, refl, List, Bool, true, false, not, ◌&&◌, Option, none, some, Text, ◌==◌, if◌then◌else◌,
  if-cases, arith,
}
use rservr.Address.Labels.{check_entity_label}
use rservr.Client.Commands.{Prepared, queue_new_command}
use rservr.Client.Commands.Finding.{view, view-append_one}
use rservr.Client.Streams.{
  MultiResult, result_success, result_fail, result_invalid, Reading, Place, arrived, queued_as,
  received, refused, read_stream, receive_stream_command, filtered_receive_stream_command,
}

-- The command under its new handle, as it arrives, among those that waited already.
abbrev pub IsQueued :
    Place → ℕ → Option Text → Text → Prepared → List Prepared → List Prepared → Type 0
IsQueued here handle name address c q left =
    (k : ℕ)
    → view left k ≡ (
        if k == handle
        then some (record (arrived here name address c) { handle = handle; priority = 0 })
        else view q k)

queued_as-IsQueued :
    (here : Place) (handle : ℕ) (name : Option Text) (address : Text) (c : Prepared)
    (q : List Prepared)
    → view q handle ≡ none
    → IsQueued here handle name address c q (queued_as handle (arrived here name address c) q)
unfolding queued_as queue_new_command
queued_as-IsQueued here handle name address c q fresh k =
    view-append_one q (record (arrived here name address c) { handle = handle; priority = 0 }) k
      fresh

-- Accepted: a complete command is queued, and of an incomplete one only the null pointer is told.
abbrev pub IsAccepted :
    Place
    → ℕ
    → Reading
    → Prepared
    → Option Text
    → Text
    → List Prepared
    → MultiResult × ℕ × List Prepared
    → Type 0
IsAccepted here handle read c name address q r =
    (r.0 ≡ result_success)
    × (read.command_ready ≡ false → (r.1 ≡ 0) × (r.2 ≡ q))
    × (read.command_ready ≡ true → (r.1 ≡ handle) × IsQueued here handle name address c q r.2)

module _ (here : Place) (handle was : ℕ) (read : Reading) (name : Option Text) (address : Text)
    (q : List Prepared) (fresh : view q handle ≡ none) where
  abbrev pub Accepts : Prepared → MultiResult × ℕ × List Prepared → Type 0
  Accepts c r = IsAccepted here handle read c name address q r

  -- Whether the address is a valid label, and the mode of the input could be set.
  abbrev pub is_read : Bool
  is_read = check_entity_label here.entity_matches (some address) && read.mode_set

  abbrev unheard : MultiResult × ℕ × List Prepared
  unheard = (result_fail, was, q)

  received-Accepts : (c : Prepared) → Accepts c (received here handle read c name address q)
  unfolding received
  received-Accepts c =
      if-cases (Accepts c) (not read.command_ready) _ _
        (λ e. (refl, (λ f. (refl, refl)), (λ f. absurd (ground (arith, e, f)))))
        (λ e. (
          refl,
          (λ f. absurd (ground (arith, e, f))),
          (λ f. (refl, queued_as-IsQueued here handle name address c q fresh)),
        ))

  -- With an invalid address, or a mode that could not be set, reading a command from a stream fails in
  -- both ways. If no command could be read, the result is invalid when the input has ended, and a
  -- failure when not, in both ways. Nothing changes then. If one was read, it is accepted from an
  -- input with a buffer of its own whether the input has ended or not; from the shared input it is
  -- accepted while the input has not ended, and otherwise the result is invalid and nothing changes.
  -- To be accepted is a success: a complete command waits under the new handle, as it arrives, among
  -- those that waited already, and for an incomplete one nothing is queued and the null pointer told.
  pub receive_stream_command_cases :
      let shared = receive_stream_command here handle was read name address q in
      let filtered = filtered_receive_stream_command here handle was read name address q in
      (is_read ≡ false → (shared ≡ (result_fail, was, q)) × (filtered ≡ (result_fail, was, q)))
      × (is_read ≡ true
          → read.parsed ≡ none
          → let r : MultiResult × ℕ × List Prepared =
              ((if read.terminated then result_invalid else result_fail), was, q) in
            (shared ≡ r) × (filtered ≡ r))
      × ((c : Prepared)
          → is_read ≡ true
          → read.parsed ≡ some c
          → Accepts c filtered
            × (read.terminated ≡ false → Accepts c shared)
            × (read.terminated ≡ true → shared ≡ (result_invalid, was, q)))
  unfolding receive_stream_command filtered_receive_stream_command refused
  receive_stream_command_cases = (
    (λ no. (ground (arith, no), ground (arith, no))),
    (λ yes e. rw (opened yes, set yes, e, read_stream, refused) (refl, refl)),
    (λ c yes e.
        rw (opened yes, set yes, e, read_stream, refused)
          (
            received-Accepts c,
            (λ more. rw more (received-Accepts c)),
            (λ over. rw (over, refused) refl),
          )),
  )
    where
      opened : is_read ≡ true → check_entity_label here.entity_matches (some address) ≡ true
      opened h = ground arith

      set : is_read ≡ true → read.mode_set ≡ true
      set h = ground arith

reads :
    (there : Place) (new was : ℕ) (read : Reading) (name : Option Text) (address : Text)
    (r : List Prepared) (c : Prepared)
    → check_entity_label there.entity_matches (some address) ≡ true
    → read.mode_set ≡ true
    → read.command_ready ≡ true
    → read.parsed ≡ some c
    → filtered_receive_stream_command there new was read name address r
      ≡ (result_success, new, queued_as new (arrived there name address c) r)
unfolding filtered_receive_stream_command read_stream received
reads there new was read name address r c label mode ready parsed =
    rw (label, mode, parsed, read_stream) (rw ready refl)
