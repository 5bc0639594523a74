-- ===== src/Client/Messages/Responses.antt =====
-- The responses to a command among the messages.
use rservr.Base.{
  ℕ, zero, suc, ◌+◌, ◌≡◌, ◌≢◌, ◌<◌, ◌∙◌, sym, refl, ap, List, [], ◌∷◌, Bool, true, false, some,
  ◌==◌, if◌then◌else◌, is_empty, count, drop_where, find, arith, Bool-cases, Option-cases, inl, inr,
  if-true, if-false,
}
use rservr.Client.Messages.{Message, Messages, Machine, message_queue_unpause, auto_unpause_check}
use rservr.Client.Messages.Keeping.{
  remove_at, element_at, position_of, remove_current_message, find_by_reference, check_responses,
  rotated, rotate_response, remove_responses,
}

position_here :
    (p : Message → Bool) (x : Message) (l : List Message)
    → position_of p (x ∷ l) ≡ some zero
    → p x ≡ true
unfolding position_of
position_here p x l h = elim (Option-cases (position_of p l)) [
  | inl f ↦ ground (arith, f)
  | inr (j, f) ↦ ground (arith, f)
]

position_later :
    (p : Message → Bool) (x : Message) (l : List Message) (j : ℕ)
    → position_of p (x ∷ l) ≡ some (suc j)
    → (p x ≡ false) × (position_of p l ≡ some j)
unfolding position_of
position_later p x l j h = elim (Option-cases (position_of p l)) [
  | inl f ↦ ground (arith, f)
  | inr (k, f) ↦ ground (arith, f)
]

no_position : (p : Message → Bool) (i : ℕ) → ¬ (position_of p [] ≡ some i)
unfolding position_of
no_position p i h = cc

-- The position found is that of the first element that passes the test.
element_position :
    (p : Message → Bool) (l : List Message) (i : ℕ)
    → position_of p l ≡ some i
    → (x : Message) × (element_at l i ≡ some x) × (p x ≡ true) × (find p l ≡ some x)
unfolding element_at find
element_position p [] i h = absurd (no_position p i h)
element_position p (x ∷ l) zero h =
    (x, refl, position_here p x l h, rw (position_here p x l h) refl)
element_position p (x ∷ l) (suc i) h =
    let (no_match, there) = position_later p x l i h in
    let (y, at, match, found) = element_position p l i there in (y, at, match, rw no_match found)

-- What is removed there is one element, the one found.
count-remove_at :
    (q : Message → Bool) (l : List Message) (i : ℕ) (x : Message)
    → element_at l i ≡ some x
    → count q (remove_at l i) + (if q x then 1 else 0) ≡ count q l
unfolding element_at remove_at count
count-remove_at q [] i x h = cc
count-remove_at q (y ∷ l) zero x h = ground (arith, h)
count-remove_at q (y ∷ l) (suc i) x h = ground (arith, count-remove_at q l i x h)

count_found :
    (p : Message → Bool) (l : List Message) → 0 < count p l → (i : ℕ) × (position_of p l ≡ some i)
unfolding position_of count
count_found p [] h = absurd (omega arith)
count_found p (x ∷ l) h = elim (Bool-cases (p x)) [
  | inl e ↦ (0, rw e refl)
  | inr e ↦ let (i, f) = count_found p l (ground (arith, h, e)) in (suc i, ground (arith, e, f))
]

count-drop_where_same : (p : Message → Bool) (l : List Message) → count p (drop_where p l) ≡ 0
unfolding count drop_where
count-drop_where_same p [] = refl
count-drop_where_same p (x ∷ l) = ground (arith, count-drop_where_same p l)

count-drop_where_apart :
    (p q : Message → Bool) (l : List Message)
    → ((x : Message) → p x ≡ true → q x ≡ false)
    → count q (drop_where p l) ≡ count q l
unfolding count drop_where
count-drop_where_apart p q [] apart = refl
count-drop_where_apart p q (x ∷ l) apart =
    ground (arith, count-drop_where_apart p q l apart, apart x)

unpaused_messages :
    (out : Machine) (m : Messages) → (auto_unpause_check out m).messages ≡ m.messages
unfolding auto_unpause_check message_queue_unpause
unpaused_messages out m = ground arith

not_empty : (l : List Message) (i : ℕ) (x : Message) → element_at l i ≡ some x → is_empty l ≡ false
unfolding element_at
not_empty [] i x h = cc
not_empty (y ∷ l) i x h = refl

rotated_to :
    (reference : ℕ) (m : Messages) (i : ℕ) (x : Message)
    → position_of (find_by_reference reference) m.messages ≡ some i
    → element_at m.messages i ≡ some x
    → rotate_response reference m ≡ (some x, record m { index = i })
unfolding rotate_response rotated
rotated_to reference m i x f at =
    if-false (is_empty m.messages) _ _ (not_empty m.messages i x at)
    ∙ (ap (λ o. rotated o m) f ∙ ap (λ o. (o, record m { index = i })) at)

taken :
    (out : Machine) (reference : ℕ) (m : Messages) (i : ℕ) (x : Message)
    → rotate_response reference m ≡ (some x, record m { index = i })
    → (remove_current_message out (rotate_response reference m).1).1.messages
      ≡ remove_at m.messages i
unfolding remove_current_message
taken out reference m i x turned =
    ap (λ r. (remove_current_message out r.1).1.messages) turned
    ∙ unpaused_messages out (record m { messages = remove_at m.messages i; index = 0 })

-- While a response to a command waits, the first of them can be rotated to the front and taken:
-- it is a response to that command, it is then the current message, and taking it leaves all the
-- other messages, one response fewer.
pub rotate_response-takes :
    (out : Machine) (reference : ℕ) (m : Messages)
    → 0 < check_responses reference m
    → (x : Message) × ((rotate_response reference m).0 ≡ some x)
      × (find_by_reference reference x ≡ true)
      × (find (find_by_reference reference) m.messages ≡ some x)
      × ((q : Message → Bool)
          → count q (remove_current_message out (rotate_response reference m).1).1.messages
              + (if q x then 1 else 0)
            ≡ count q m.messages)
      × (check_responses reference (remove_current_message out (rotate_response reference m).1).1
            + 1
          ≡ check_responses reference m)
unfolding check_responses
rotate_response-takes out reference m some_response =
    let p = find_by_reference reference in
    let (i, f) = count_found p m.messages some_response in
    let (x, at, match, found) = element_position p m.messages i f in
    let turned = rotated_to reference m i x f at in
    let counted : (q : Message → Bool)
        → count q (remove_current_message out (rotate_response reference m).1).1.messages
            + (if q x then 1 else 0)
          ≡ count q m.messages =
      λ q.
        ap (λ n. n + (if q x then 1 else 0)) (ap (count q) (taken out reference m i x turned))
        ∙ count-remove_at q m.messages i x at in
    (
      x,
      ap (λ r. r.0) turned,
      match,
      found,
      counted,
      ap (λ n. count p (remove_current_message out (rotate_response reference m).1).1.messages + n)
            (sym (if-true (p x) 1 0 match))
          ∙ counted p,
    )

-- Once its responses are removed a command has none, and the responses to any other command are
-- counted as before.
pub remove_responses-check_responses :
    (out : Machine) (reference other : ℕ) (m : Messages)
    → 0 < reference
    → (check_responses reference (remove_responses out reference m).1 ≡ 0)
      × (other ≢ reference
          → check_responses other (remove_responses out reference m).1 ≡ check_responses other m)
unfolding check_responses remove_responses find_by_reference
remove_responses-check_responses out reference other m positive =
    let p = find_by_reference reference in
    let gone = record m { messages = drop_where p m.messages; index = 0 } in
    let left =
      if-false (reference == 0) (false, m) (true, auto_unpause_check out gone) (ground arith) in
    let same = ap (λ (r : Bool × Messages). r.1.messages) left ∙ unpaused_messages out gone in
    (
      ap (count p) same ∙ count-drop_where_same p m.messages,
      (λ ne.
          ap (count (find_by_reference other)) same
          ∙ count-drop_where_apart p (find_by_reference other) m.messages
              (λ x match. ground (arith, match, ne))),
    )
