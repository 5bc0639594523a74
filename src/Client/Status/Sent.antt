-- ===== src/Client/Status/Sent.antt =====
-- `send_command_functors`: a reference for each command that was sent, and nothing for the others.
use rservr.Base.{
  ℕ, ◌+◌, ◌^◌, ◌%◌, ◌<◌, ◌≡◌, ◌∙◌, sym, refl, ap, subst, List, [], ◌∷◌, ◌++◌, Bool, true, false,
  not, none, ◌==◌, arith, if-cases, if-true, if-false, if◌then◌else◌, ◌&&◌,
}
use rservr.Client.Status.{
  Status, Statuses, Sending, Conditions, manual_message_number, may_send, enter_reference, withdraw,
  send_command_functors,
}
use rservr.Client.Commands.{transmit_command}
use rservr.Client.Status.Events.{entry, entry-none, HasDistinctKeys}
use rservr.Client.Status.References.{
  AreBelow, fresh_of_below, append_one-HasDistinctKeys, enter_reference_lem, withdraw_lem,
}

-- Each reference with an entry was given out once, and the next one is not null.
pub record IsNumbered (l : Statuses) (next : ℕ) : Type 0 where
  pub distinct : HasDistinctKeys l
  pub below : AreBelow next l
  pub positive : 0 < next

below_next : (n m : ℕ) (l : Statuses) → n < m → AreBelow n l → AreBelow m l
below_next n m [] h below = tt
below_next n m (x ∷ l) h below = (omega (arith, below.0, h), below_next n m l h below.1)

below_last :
    (n : ℕ) (s : Status) (l : Statuses) → AreBelow n l → AreBelow (n + 1) (l ++ ((n, s) ∷ []))
below_last n s [] below = (omega arith, tt)
below_last n s (x ∷ l) below = (omega (arith, below.0), below_last n s l below.1)

unfoldable pub entered : ℕ → List ℕ → ℕ × Status
entered n functors = (n, record { local_callbacks = functors; local_status = 0 })

-- Whether the process may send now, and transmission under the new reference succeeds.
abbrev pub is_sent : Conditions → ℕ → Sending → Bool
is_sent out h st =
    may_send out h && (transmit_command out.sender h st.next_reference false st.prepared).0

-- What one call of `send_command_functors` leaves.
abbrev pub IsSent : Conditions → ℕ → Sending → List ℕ → ℕ × Sending → Type 0
IsSent out h st functors r =
    (is_sent out h st ≡ true
      → (r.0 ≡ st.next_reference)
        × (entry st.statuses r.0 ≡ none)
        × (r.1.statuses ≡ st.statuses ++ (entered r.0 functors ∷ [])))
    × (is_sent out h st ≡ false → (r.0 ≡ 0) × (r.1.statuses ≡ st.statuses))
    × (r.1.prepared ≡ (
        if may_send out h
        then (transmit_command out.sender h st.next_reference false st.prepared).1
        else st.prepared))
    × IsNumbered r.1.statuses r.1.next_reference

-- While the numbers do not run out: if the process may send and the transmission succeeds, sending
-- answers the next reference, which no entry has, and adds one entry for it, with the functors and
-- no event; in every other case it answers 0 and leaves the entries as they were, also when an entry
-- was made first. The prepared commands are those that the transmission leaves, or the same if it
-- was not tried. No reference has two entries.
pub send_command_functors-IsSent :
    (out : Conditions) (h : ℕ) (functors : List ℕ) (st : Sending)
    → IsNumbered st.statuses st.next_reference
    → st.next_reference + 1 < 2 ^ 32
    → IsSent out h st functors (send_command_functors out h functors st)
unfolding send_command_functors manual_message_number entered
send_command_functors-IsSent out h functors st numbered room =
    let n = st.next_reference in
    let l = st.statuses in
    let made : ℕ × Status = (n, record { local_callbacks = functors; local_status = 0 }) in
    let fresh = fresh_of_below n l numbered.below in
    let is_entered = enter_reference_lem l n functors numbered.distinct fresh in
    let undone =
      ap (withdraw out.answers n) is_entered ∙ withdraw_lem out.answers l n made.1 fresh in
    let next : (n + 1) % 2 ^ 32 ≡ n + 1 = omega arith in
    if-cases (IsSent out h st functors) (not (may_send out h)) _ _
      (λ e. (
        (λ yes. absurd (ground (arith, yes, e))),
        (λ no. (refl, refl)),
        sym (if-false (may_send out h) _ _ (ground (arith, e))),
        numbered,
      ))
      (λ e.
        if-cases (IsSent out h st functors) (n == 0) _ _
          (λ z. absurd (ground (arith, numbered.positive)))
          (λ nz.
            if-cases (IsSent out h st functors)
              (not (transmit_command out.sender h n false st.prepared).0) _ _
              (λ unsent. (
                (λ yes. absurd (ground (arith, yes, unsent))),
                (λ no. (refl, undone)),
                sym (if-true (may_send out h) _ _ (ground (arith, e))),
                subst (λ m. IsNumbered (withdraw out.answers n (enter_reference n functors l)) m)
                    (sym next)
                    (subst (λ x. IsNumbered x (n + 1)) (sym undone)
                      (record {
                        distinct = numbered.distinct;
                        below = below_next n (n + 1) l (omega arith) numbered.below;
                        positive = omega arith;
                      })),
              ))
              (λ sent. (
                (λ yes. (refl, entry-none l n fresh, is_entered)),
                (λ no. absurd (ground (arith, no, sent, e))),
                sym (if-true (may_send out h) _ _ (ground (arith, e))),
                subst (λ m. IsNumbered (enter_reference n functors l) m) (sym next)
                    (subst (λ x. IsNumbered x (n + 1)) (sym is_entered)
                      (record {
                        distinct = append_one-HasDistinctKeys l made numbered.distinct fresh;
                        below = below_last n made.1 l numbered.below;
                        positive = omega arith;
                      })),
              ))))
