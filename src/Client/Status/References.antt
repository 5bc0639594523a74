-- ===== src/Client/Status/References.antt =====
-- The reference numbers of sent commands, and the entries made for them.
use rservr.Base.{
  ℕ, ◌<◌, ◌≡◌, ◌∙◌, refl, ap, List, [], ◌∷◌, ◌++◌, false, ◌||◌, some, ◌==◌, ==_refl, if◌then◌else◌,
  find, any, drop_where, update_first, arith, if-true, if-cases, All,
}
use rservr.Client.Status.{
  Status, Answers, Statuses, find_by_key, new_status, update_one, remove_single, update_found,
  update_status, unique_keys, register_reference, register_functor, registered, with_functors,
  deregister_reference, enter_reference, withdraw,
}
use rservr.Client.Status.Events.{entry, HasDistinctKeys}

-- Every reference was given out before the next one.
abbrev pub AreBelow : ℕ → Statuses → Type 0
AreBelow n l = All (λ (e : ℕ × Status). e.0 < n) l

pub fresh_of_below : (n : ℕ) (l : Statuses) → AreBelow n l → any (find_by_key n) l ≡ false
unfolding any find_by_key
fresh_of_below n [] h = refl
fresh_of_below n (x ∷ l) h = ground (arith, fresh_of_below n l h.1)

drop_where_none :
    (l : Statuses) (k : ℕ) → any (find_by_key k) l ≡ false → drop_where (find_by_key k) l ≡ l
unfolding any drop_where
drop_where_none [] k h = refl
drop_where_none (x ∷ l) k h = ground (arith, drop_where_none l k)

any-append_one :
    (l : Statuses) (k : ℕ) (e : ℕ × Status)
    → any (find_by_key k) (l ++ (e ∷ [])) ≡ (any (find_by_key k) l || find_by_key k e)
unfolding any
any-append_one [] k e = ground arith
any-append_one (x ∷ l) k e = ground (arith, any-append_one l k e)

pub append_one-HasDistinctKeys :
    (l : Statuses) (e : ℕ × Status)
    → HasDistinctKeys l
    → any (find_by_key e.0) l ≡ false
    → HasDistinctKeys (l ++ (e ∷ []))
unfolding any find_by_key
append_one-HasDistinctKeys [] e distinct fresh = (refl, tt)
append_one-HasDistinctKeys (x ∷ l) e distinct fresh =
    ground (arith, any-append_one l x.0 e, append_one-HasDistinctKeys l e distinct.1)

unique_keys_lem : (l : Statuses) → HasDistinctKeys l → unique_keys l ≡ l
unfolding unique_keys
unique_keys_lem [] h = refl
unique_keys_lem (x ∷ l) h =
    ap (◌∷◌ x)
      (ap (drop_where (find_by_key x.0)) (unique_keys_lem l h.1) ∙ drop_where_none l x.0 h.0)

-- A new reference stands at the end.
register_reference_new :
    (l : Statuses) (n : ℕ)
    → HasDistinctKeys l
    → any (find_by_key n) l ≡ false
    → register_reference n l ≡ l ++ ((n, new_status) ∷ [])
unfolding register_reference
register_reference_new l n distinct fresh =
    unique_keys_lem (l ++ ((n, new_status) ∷ []))
      (append_one-HasDistinctKeys l (n, new_status) distinct fresh)

update_last :
    (l : Statuses) (n : ℕ) (s t : Status)
    → any (find_by_key n) l ≡ false
    → update_first (find_by_key n) (λ x. (n, t)) (l ++ ((n, s) ∷ [])) ≡ l ++ ((n, t) ∷ [])
unfolding any find_by_key update_first
update_last [] n s t fresh = ground arith
update_last (x ∷ l) n s t fresh = ground (arith, update_last l n s t)

entry_last :
    (l : Statuses) (n k : ℕ) (s : Status)
    → any (find_by_key n) l ≡ false
    → entry (l ++ ((n, s) ∷ [])) k ≡ (if k == n then some (n, s) else entry l k)
unfolding any find_by_key find
entry_last [] n k s fresh = ground arith
entry_last (x ∷ l) n k s fresh = ground (arith, entry_last l n k s)

pub enter_reference_lem :
    (l : Statuses) (n : ℕ) (functors : List ℕ)
    → HasDistinctKeys l
    → any (find_by_key n) l ≡ false
    → enter_reference n functors l
      ≡ l ++ ((n, record { local_callbacks = functors; local_status = 0 }) ∷ [])
unfolding enter_reference register_functor registered with_functors
enter_reference_lem l n [] distinct fresh = register_reference_new l n distinct fresh
enter_reference_lem l n (f ∷ functors) distinct fresh =
    rw (register_reference_new l n distinct fresh) (
      rw (entry_last l n n new_status fresh ∙ if-true (n == n) _ _ (==_refl n), registered)
        (update_last l n new_status (record { local_callbacks = f ∷ functors; local_status = 0 })
          fresh))

-- What a refused command leaves behind in the list: nothing.
drop_last :
    (l : Statuses) (n : ℕ) (s : Status)
    → any (find_by_key n) l ≡ false
    → drop_where (find_by_key n) (l ++ ((n, s) ∷ [])) ≡ l
unfolding any find_by_key drop_where
drop_last [] n s fresh = ground arith
drop_last (x ∷ l) n s fresh = ground (arith, drop_last l n s)

remove_last :
    (l : Statuses) (n : ℕ) (s : Status)
    → any (find_by_key n) l ≡ false
    → remove_single n (l ++ ((n, s) ∷ [])) ≡ l
unfolding any find_by_key remove_single
remove_last [] n s fresh = ground arith
remove_last (x ∷ l) n s fresh = ground (arith, remove_last l n s)

pub withdraw_lem :
    (answers : Answers) (l : Statuses) (n : ℕ) (s : Status)
    → any (find_by_key n) l ≡ false
    → withdraw answers n (l ++ ((n, s) ∷ [])) ≡ l
unfolding withdraw deregister_reference update_status update_found
withdraw_lem answers l n s fresh =
    rw (entry_last l n n s fresh ∙ if-true (n == n) _ _ (==_refl n), update_found)
      (if-cases (λ r. drop_where (find_by_key n) r ≡ l) (update_one answers n 1024 s).0 _ _
        (λ e. ap (drop_where (find_by_key n)) (remove_last l n s fresh) ∙ drop_where_none l n fresh)
        (λ e.
          ap (drop_where (find_by_key n)) (update_last l n s (update_one answers n 1024 s).1 fresh)
          ∙ drop_last l n (update_one answers n 1024 s).1 fresh))
