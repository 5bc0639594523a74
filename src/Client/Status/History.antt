-- ===== src/Client/Status/History.antt =====
-- Many events, one after the other, for one reference.
use rservr.Base.{
  ℕ, ◌≡◌, ◌∙◌, sym, refl, ap, inl, inr, List, [], ◌∷◌, Bool, true, false, not, ◌&&◌, none, some,
  ◌==◌, ==_refl, Bool-cases, Option-cases, any, drop_where, update_first, is_empty, arith, if-true,
  if-false, if◌then◌else◌,
}
use rservr.Flags.{◌\/◌, event_unavailable}
use rservr.Client.Status.{
  Status, Answers, Statuses, find_by_key, update_one, remove_single, update_found, update_status,
  status_of, find_command_status,
}
use rservr.Client.Status.Events.{
  entry, entry-key, HasDistinctKeys, update_status_lem, left_entry, reported, leaves,
}

any-remove_single :
    (l : Statuses) (r k : ℕ)
    → any (find_by_key k) l ≡ false
    → any (find_by_key k) (remove_single r l) ≡ false
unfolding any find_by_key remove_single
any-remove_single [] r k h = refl
any-remove_single (x ∷ l) r k h = ground (arith, any-remove_single l r k)

pub any-update_first_key :
    (l : Statuses) (r k : ℕ) (s : Status)
    → any (find_by_key k) (update_first (find_by_key r) (λ e. (r, s)) l) ≡ any (find_by_key k) l
unfolding any find_by_key update_first
any-update_first_key [] r k s = refl
any-update_first_key (x ∷ l) r k s = ground (arith, any-update_first_key l r k s)

remove_single-HasDistinctKeys :
    (l : Statuses) (r : ℕ) → HasDistinctKeys l → HasDistinctKeys (remove_single r l)
unfolding remove_single
remove_single-HasDistinctKeys [] r h = h
remove_single-HasDistinctKeys (x ∷ l) r h =
    ground (arith, remove_single-HasDistinctKeys l r h.1, any-remove_single l r x.0 h.0)

pub update_first-HasDistinctKeys :
    (l : Statuses) (r : ℕ) (s : Status)
    → HasDistinctKeys l
    → HasDistinctKeys (update_first (find_by_key r) (λ e. (r, s)) l)
unfolding update_first find_by_key
update_first-HasDistinctKeys [] r s h = h
update_first-HasDistinctKeys (x ∷ l) r s h = ground (
  arith,
  update_first-HasDistinctKeys l r s h.1,
  any-update_first_key l r x.0 s,
  ap (λ k. any (find_by_key k) l),
)

module _ (answers : Answers) (reference : ℕ) where
  pub update_status-HasDistinctKeys :
      (event : ℕ) (l : Statuses)
      → HasDistinctKeys l
      → HasDistinctKeys (update_status answers reference event l).1
  unfolding update_status update_found
  update_status-HasDistinctKeys event l h = elim (Option-cases (entry l reference)) [
    | inl e ↦ rw (e, update_found) h
    | inr (x, e) ↦
        rw (e, update_found)
          (ground (
            arith,
            e,
            entry-key l reference x e,
            h,
            remove_single-HasDistinctKeys l reference h,
            update_first-HasDistinctKeys l reference (update_one answers reference event x.1).1 h,
          ))
  ]

  unfoldable pub report_all : List ℕ → Statuses → Statuses
  report_all [] l = l
  report_all (event ∷ events) l = report_all events (update_status answers reference event l).1

  stays_gone :
      (events : List ℕ) (l : Statuses)
      → HasDistinctKeys l
      → entry l reference ≡ none
      → entry (report_all events l) reference ≡ none
  unfolding report_all
  stays_gone [] l distinct h = h
  stays_gone (event ∷ events) l distinct h =
      stays_gone events _ (update_status-HasDistinctKeys event l distinct)
        (update_status_lem answers reference event l reference distinct ∙ rw h (ground arith))

-- The events of a status, added to it one by one.
unfoldable pub accumulate : ℕ → List ℕ → ℕ
accumulate status [] = status
accumulate status (event ∷ events) = accumulate (status \/ event) events

module _ (answers : Answers) (reference : ℕ) where
  -- The functors that no event has made leave, the status being what was reported before.
  unfoldable pub remaining : ℕ → List ℕ → List ℕ → List ℕ
  remaining status callbacks [] = callbacks
  remaining status callbacks (event ∷ events) =
      remaining (status \/ event) (drop_where (leaves answers reference event status) callbacks)
        events

  -- Whether it had functors, and all of them have left.
  abbrev pub all_left : Status → List ℕ → Bool
  all_left s events =
      not (is_empty s.local_callbacks)
      && is_empty (remaining s.local_status s.local_callbacks events)

  remaining_empty : (events : List ℕ) (status : ℕ) → remaining status [] events ≡ []
  unfolding remaining drop_where
  remaining_empty [] status = refl
  remaining_empty (event ∷ events) status = remaining_empty events (status \/ event)

staying_empty : (p : ℕ → Bool) (l : List ℕ) → is_empty l ≡ true → is_empty (drop_where p l) ≡ true
unfolding drop_where
staying_empty p [] h = refl
staying_empty p (x ∷ l) h = cc

next_entry :
    (answers : Answers) (reference event : ℕ) (l : Statuses) (s : Status)
    → HasDistinctKeys l
    → entry l reference ≡ some (reference, s)
    → entry (update_status answers reference event l).1 reference
      ≡ left_entry answers reference event s
next_entry answers reference event l s distinct here =
    update_status_lem answers reference event l reference distinct
    ∙ (if-true (reference == reference) _ _ (==_refl reference)
        ∙ ap (reported answers reference event) here)

no_element : (l : List ℕ) → is_empty l ≡ true → l ≡ []
no_element [] h = refl
no_element (x ∷ l) h = cc

report_all-entry :
    (answers : Answers) (reference : ℕ) (events : List ℕ) (l : Statuses) (s : Status)
    → HasDistinctKeys l
    → entry l reference ≡ some (reference, s)
    → entry (report_all answers reference events l) reference ≡ (
        if all_left answers reference s events
        then none
        else some (
          reference,
          record {
            local_callbacks = remaining answers reference s.local_status s.local_callbacks events;
            local_status = accumulate s.local_status events;
          },
        ))
unfolding report_all accumulate remaining
report_all-entry answers reference [] l s distinct here =
    here ∙ sym (if-false (all_left answers reference s []) _ _ (ground arith))
report_all-entry answers reference (event ∷ events) l s distinct here =
    let after = (update_status answers reference event l).1 in
    let staying = drop_where (leaves answers reference event s.local_status) s.local_callbacks in
    let s' : Status = record {
      local_callbacks = staying;
      local_status = s.local_status \/ event;
    } in
    let step = next_entry answers reference event l s distinct here in
    let tidy = update_status-HasDistinctKeys answers reference event l distinct in
    let rest = remaining answers reference (s.local_status \/ event) staying events in
    let now = not (is_empty s.local_callbacks) && is_empty staying in
    let ended : is_empty staying ≡ true → is_empty rest ≡ true = λ e.
      ap (λ m. is_empty (remaining answers reference (s.local_status \/ event) m events))
        (no_element staying e)
      ∙ ap is_empty (remaining_empty answers reference events (s.local_status \/ event)) in
    let kept = staying_empty (leaves answers reference event s.local_status) s.local_callbacks in
    elim (Bool-cases now) [
      | inl gone ↦
          stays_gone answers reference events after tidy
            (step ∙ if-true now none (some (reference, s')) gone)
          ∙ sym (
              if-true (all_left answers reference s (event ∷ events)) _ _
                (ground (arith, gone, ended)))
      | inr still ↦
          let same : all_left answers reference s' events
              ≡ all_left answers reference s (event ∷ events) =
            ground (arith, still, kept) in
          report_all-entry answers reference events after s' tidy
            (step ∙ if-false now none (some (reference, s')) still)
          ∙ ap
              (λ (b : Bool).
                if b
                then none
                else some (
                  reference,
                  record {
                    local_callbacks = rest;
                    local_status = accumulate (s.local_status \/ event) events;
                  },
                ))
              same
    ]

-- After any events for a reference with an entry: if it had functors and each of them has answered
-- one of the events by leaving, the entry is gone and its status is unavailable; otherwise the entry
-- holds the functors that have not left, and its status is all these events, added to the former
-- one.
pub find_command_status-report_all :
    (answers : Answers) (reference : ℕ) (events : List ℕ) (l : Statuses) (s : Status)
    → HasDistinctKeys l
    → entry l reference ≡ some (reference, s)
    → let gone = all_left answers reference s events in
      let after = report_all answers reference events l in
      let left : Status = record {
        local_callbacks = remaining answers reference s.local_status s.local_callbacks events;
        local_status = accumulate s.local_status events;
      } in
      (entry after reference ≡ (if gone then none else some (reference, left)))
      × (find_command_status reference after
          ≡ (if gone then event_unavailable else accumulate s.local_status events))
unfolding find_command_status status_of
find_command_status-report_all answers reference events l s distinct here =
    let history = report_all-entry answers reference events l s distinct here in
    (history, ground (arith, history))
