-- ===== src/Client/Commands/Finding.antt =====
-- Looking for a prepared command by its handle, after each way in which a queue changes.
use rservr.Base.{
  ℕ, ◌≤◌, ◌≡◌, ◌∙◌, refl, ap, inl, inr, List, [], ◌∷◌, ◌++◌, Option, none, some, ◌==◌,
  if◌then◌else◌, Option-cases, find, count, drop_where, update_first, is_some, or_else, arith,
}
use rservr.Client.Commands.{Prepared, find_command_handle, change_command, settle, look, drop_first}

-- What a handle stands for.
abbrev pub view : List Prepared → ℕ → Option Prepared
view q handle = find (find_command_handle handle) q

pub view-handle : (q : List Prepared) (k : ℕ) (c : Prepared) → view q k ≡ some c → c.handle ≡ k
unfolding find find_command_handle
view-handle [] k c h = cc
view-handle (x ∷ q) k c h = ground (arith, view-handle q k c)

pub view-append_one :
    (q : List Prepared) (c : Prepared) (k : ℕ)
    → view q c.handle ≡ none
    → view (q ++ (c ∷ [])) k ≡ (if k == c.handle then some c else view q k)
unfolding find find_command_handle
view-append_one [] c k fresh = ground arith
view-append_one (x ∷ q) c k fresh = ground (arith, view-append_one q c k)

pub view-drop_where :
    (q : List Prepared) (h k : ℕ)
    → view (drop_where (find_command_handle h) q) k ≡ (if k == h then none else view q k)
unfolding find find_command_handle drop_where
view-drop_where [] h k = ground arith
view-drop_where (x ∷ q) h k = ground (arith, view-drop_where q h k)

pub view-update_first :
    (q : List Prepared) (h k : ℕ) (c : Prepared)
    → c.handle ≡ h
    → view (update_first (find_command_handle h) (λ x. c) q) k
      ≡ (if (k == h) then (if is_some (view q h) then some c else none) else view q k)
unfolding find find_command_handle update_first
view-update_first [] h k c e = ground arith
view-update_first (x ∷ q) h k c e = ground (arith, view-update_first q h k c e)

view-none : (q : List Prepared) (h : ℕ) → count (find_command_handle h) q ≤ 0 → view q h ≡ none
unfolding find find_command_handle count
view-none [] h zero_count = refl
view-none (x ∷ q) h zero_count = ground (arith, view-none q h)

pub view-drop_first :
    (q : List Prepared) (h k : ℕ)
    → count (find_command_handle h) q ≤ 1
    → view (drop_first (find_command_handle h) q) k ≡ (if k == h then none else view q k)
unfolding find find_command_handle drop_first count
view-drop_first [] h k one = ground arith
view-drop_first (x ∷ q) h k one =
    ground (arith, view-drop_first q h k, view-none q h, ap (λ n. view q n))

-- The command that a change leaves at its handle.
abbrev pub changed : (Prepared → Option Prepared) → Option Prepared → Option Prepared
changed f none = none
changed f (some c) = some (or_else (f c) c)

-- A change that keeps the handle is made there and nowhere else, and reports whether it was made.
pub view-change_command :
    (f : Prepared → Option Prepared) (q : List Prepared) (h k : ℕ)
    → ((c x : Prepared) → f c ≡ some x → x.handle ≡ c.handle)
    → (view (change_command h f q).1 k ≡ (if k == h then changed f (view q h) else view q k))
      × ((change_command h f q).0 ≡ is_some (look (view q h) f))
unfolding change_command settle look
view-change_command f q h k keeps = elim (Option-cases (view q h)) [
  | inl e ↦ rw (e, settle, look) (ground (arith, e, ap (view q)), refl)
  | inr (c, e) ↦
      let at_h = view-handle q h c e in
      elim (Option-cases (f c)) [
        | inl no_change ↦ rw (e, look) (rw (no_change, settle) (ground (arith, e, no_change), refl))
        | inr (x, is_x) ↦
            let kept = keeps c x is_x in
            rw (e, look)
              (rw (is_x, settle)
                (ground (arith, e, is_x, view-update_first q h k x (kept ∙ at_h)), refl))
      ]
]

pub count_of_view :
    (q : List Prepared) (k : ℕ) → view q k ≡ none → count (find_command_handle k) q ≡ 0
unfolding find find_command_handle count
count_of_view [] k h = refl
count_of_view (x ∷ q) k h = ground (arith, count_of_view q k)

pub count-update_first_handle :
    (q : List Prepared) (h k : ℕ) (c : Prepared)
    → c.handle ≡ h
    → count (find_command_handle k) (update_first (find_command_handle h) (λ x. c) q)
      ≡ count (find_command_handle k) q
unfolding find_command_handle update_first count
count-update_first_handle [] h k c e = refl
count-update_first_handle (x ∷ q) h k c e = ground (arith, count-update_first_handle q h k c e)

pub count-drop_first :
    (q : List Prepared) (h k : ℕ)
    → count (find_command_handle k) (drop_first (find_command_handle h) q)
      ≤ count (find_command_handle k) q
unfolding find_command_handle drop_first count
count-drop_first [] h k = omega arith
count-drop_first (x ∷ q) h k = ground (arith, count-drop_first q h k)

pub count-change_command :
    (f : Prepared → Option Prepared) (q : List Prepared) (h k : ℕ)
    → ((c x : Prepared) → f c ≡ some x → x.handle ≡ c.handle)
    → count (find_command_handle k) (change_command h f q).1 ≡ count (find_command_handle k) q
unfolding change_command settle look
count-change_command f q h k keeps = elim (Option-cases (view q h)) [
  | inl e ↦ rw (e, settle, look) refl
  | inr (c, e) ↦
      let at_h = view-handle q h c e in
      elim (Option-cases (f c)) [
        | inl no_change ↦ rw (e, look) (rw (no_change, settle) refl)
        | inr (x, is_x) ↦
            rw (e, look)
              (rw (is_x, settle) (count-update_first_handle q h k x (keeps c x is_x ∙ at_h)))
      ]
]
