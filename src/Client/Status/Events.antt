-- ===== src/Client/Status/Events.antt =====
-- `update_status`: the events that are reported to a reference and its functors.
use rservr.Base.{
  ℕ, ◌≡◌, ◌∙◌, sym, refl, ap, inl, inr, List, [], ◌∷◌, ◌++◌, Bool, true, false, not, ◌&&◌, ◌||◌,
  Option, none, some, ◌==◌, if◌then◌else◌, Bool-cases, Option-cases, find, any, drop_where,
  update_first, is_empty, arith,
}
use mathlib.Core.List.{append-nil, append_assoc}
use rservr.Flags.{◌\/◌}
use rservr.Client.Status.{
  Status, Answers, Statuses, find_by_key, call_functors, update_one, remove_single, update_found,
  update_status,
}

abbrev pub entry : Statuses → ℕ → Option (ℕ × Status)
entry l reference = find (find_by_key reference) l

-- No reference has two entries.
abbrev pub HasDistinctKeys : Statuses → Type 0
HasDistinctKeys [] = Unit {0}
HasDistinctKeys (e ∷ l) = (any (find_by_key e.0) l ≡ false) × HasDistinctKeys l

pub entry-key : (l : Statuses) (k : ℕ) (e : ℕ × Status) → entry l k ≡ some e → e.0 ≡ k
unfolding find find_by_key
entry-key [] k e h = cc
entry-key (x ∷ l) k e h = ground (arith, entry-key l k e)

pub entry-none : (l : Statuses) (k : ℕ) → any (find_by_key k) l ≡ false → entry l k ≡ none
unfolding any find
entry-none [] k h = refl
entry-none (x ∷ l) k h = ground (arith, entry-none l k)

pub entry-remove_single :
    (l : Statuses) (r k : ℕ)
    → HasDistinctKeys l
    → entry (remove_single r l) k ≡ (if k == r then none else entry l k)
unfolding find find_by_key remove_single
entry-remove_single [] r k distinct = ground arith
entry-remove_single (x ∷ l) r k distinct =
    ground (arith, entry-remove_single l r k, entry-none l x.0, ap (entry l))

pub entry-update_first :
    (l : Statuses) (r k : ℕ) (s : Status)
    → entry (update_first (find_by_key r) (λ e. (r, s)) l) k
      ≡ (if k == r then (if any (find_by_key r) l then some (r, s) else none) else entry l k)
unfolding find find_by_key update_first any
entry-update_first [] r k s = ground arith
entry-update_first (x ∷ l) r k s = ground (arith, entry-update_first l r k s)

any_of_entry :
    (l : Statuses) (k : ℕ) (e : ℕ × Status) → entry l k ≡ some e → any (find_by_key k) l ≡ true
unfolding find any
any_of_entry [] k e h = cc
any_of_entry (x ∷ l) k e h = ground (arith, any_of_entry l k e)

pair-eq {ℓ κ} :
    {A : Type ℓ} {B : Type κ} {a c : A} {b d : B} → a ≡ c → b ≡ d → ◌≡◌ {A = A × B} (a, b) (c, d)
pair-eq p q = λ i. (p i, q i)

is_empty-append_cons : (l m : List ℕ) (x : ℕ) → is_empty (l ++ (x ∷ m)) ≡ false
is_empty-append_cons [] m x = refl
is_empty-append_cons (y ∷ l) m x = refl

-- After the first of the functors that are left is gone, the flag says what the rest will.
flag_after :
    (kept rest staying : List ℕ) (removed : Bool)
    → (is_empty rest ≡ true → staying ≡ [])
    → (removed || is_empty (kept ++ rest) || not (is_empty rest) && is_empty (kept ++ staying))
      ≡ (removed || is_empty (kept ++ staying))
flag_after kept [] staying removed h = rw (h refl) (ground arith)
flag_after kept (x ∷ rest) staying removed h = ground (arith, is_empty-append_cons kept rest x)

module _ (answers : Answers) (reference event : ℕ) where
  -- The functors that answer that they are done leave, and the others stay in order.
  abbrev pub leaves : ℕ → ℕ → Bool
  leaves status f = answers f reference event status

  none_left :
      (rest : List ℕ) (status : ℕ) → is_empty rest ≡ true → drop_where (leaves status) rest ≡ []
  unfolding drop_where
  none_left [] status h = refl
  none_left (x ∷ rest) status h = cc

  pub call_functors_lem :
      (status : ℕ) (kept rest : List ℕ) (removed : Bool)
      → call_functors answers reference event status kept rest removed ≡ (
        kept ++ drop_where (leaves status) rest,
        removed || not (is_empty rest) && is_empty (kept ++ drop_where (leaves status) rest),
      )
  unfolding call_functors drop_where
  call_functors_lem status kept [] removed = pair-eq (sym (append-nil kept)) (ground arith)
  call_functors_lem status kept (f ∷ rest) removed =
      elim (Bool-cases (answers f reference event status)) [
        | inl done ↦ rw done (
            call_functors_lem status kept rest (removed || is_empty (kept ++ rest))
            ∙ pair-eq refl (
                flag_after kept rest (drop_where (leaves status) rest) removed
                  (none_left rest status)))
        | inr more ↦ rw more (
            call_functors_lem status (kept ++ (f ∷ [])) rest (removed || false)
            ∙ pair-eq (append_assoc kept (f ∷ []) (drop_where (leaves status) rest)) (
                ground (
                  arith,
                  append_assoc kept (f ∷ []) (drop_where (leaves status) rest),
                  is_empty-append_cons kept (drop_where (leaves status) rest) f,
                )))
      ]

  -- What is left of an entry after the event.
  abbrev pub left_entry : Status → Option (ℕ × Status)
  left_entry s =
      let staying = drop_where (leaves s.local_status) s.local_callbacks in
      if not (is_empty s.local_callbacks) && is_empty staying
      then none
      else some
          (reference, record { local_callbacks = staying; local_status = s.local_status \/ event })

  abbrev pub reported : Option (ℕ × Status) → Option (ℕ × Status)
  reported none = none
  reported (some e) = left_entry e.1

  -- An event that is reported is added to the events of its reference and given to the functors
  -- there; those that answer that they are done leave, and with the last of them the entry does. A
  -- reference without functors keeps its entry, and no other reference is touched.
  pub update_status_lem :
      (l : Statuses) (k : ℕ)
      → HasDistinctKeys l
      → entry (update_status answers reference event l).1 k
        ≡ (if k == reference then reported (entry l reference) else entry l k)
  unfolding update_status update_found update_one
  update_status_lem l k distinct = elim (Option-cases (entry l reference)) [
    | inl e ↦ rw (e, update_found) (ground (arith, e, ap (entry l)))
    | inr (x, e) ↦
        rw (e, update_found)
          (rw (call_functors_lem x.1.local_status [] x.1.local_callbacks false) (
            ground (
              arith,
              e,
              entry-key l reference x e,
              any_of_entry l reference x e,
              entry-remove_single l reference k,
              entry-update_first l reference k (record {
                local_callbacks = drop_where (leaves x.1.local_status) x.1.local_callbacks;
                local_status = x.1.local_status \/ event;
              }),
              ap (entry l),
            )))
  ]
