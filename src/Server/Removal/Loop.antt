-- ===== src/Server/Removal/Loop.antt =====
-- The loops of removal in libs/server/client-list.cpp end.
use rservr.Base.{
  ℕ, zero, suc, ◌≤◌, ◌≡◌, ◌⊎◌, ◌∙◌, refl, ap, inl, inr, List, [], ◌∷◌, Bool, true, false, none,
  some, length, find, any, update_first, arith, Bool-cases, if-cases, if-true, if-false,
  Option-cases,
}
use rservr.Server.{Server, Client}
use rservr.Server.Clients.{
  has_handle, set_primary_service, continue_if_settled, continue_register_notify,
}
use rservr.Server.Clients.Laws.{KeepsHandle}
use rservr.Server.Removal.{
  drop_first, destroy, prepare, remove_client_common, remove_matching, exit_if_empty, remove_all,
}
use rservr.Server.Removal.Tables.{prepare_tables, destroy_sends}
use rservr.Terminal.{Terminal, Session}

pub length-update_first :
    (p : Client → Bool) (f : Client → Client) (cs : List Client)
    → length (update_first p f cs) ≡ length cs
unfolding update_first
length-update_first p f [] = refl
length-update_first p f (c ∷ cs) = ground (arith, length-update_first p f cs)

pub any-update_first :
    (handle other : ℕ) (f : Client → Client) (cs : List Client)
    → KeepsHandle f
    → any (has_handle other) (update_first (has_handle handle) f cs) ≡ any (has_handle other) cs
unfolding any update_first
any-update_first handle other f [] k = refl
any-update_first handle other f (c ∷ cs) k =
    ground (arith, k c, any-update_first handle other f cs k)

length-drop_first :
    (p : Client → Bool) (cs : List Client)
    → any p cs ≡ true
    → suc (length (drop_first p cs)) ≡ length cs
unfolding drop_first any
length-drop_first p [] h = cc
length-drop_first p (c ∷ cs) h = ground (arith, length-drop_first p cs)

any_of_find :
    (p : Client → Bool) (cs : List Client) (c : Client)
    → find p cs ≡ some c
    → any (has_handle c.handle) cs ≡ true
unfolding find any
any_of_find p [] c h = cc
any_of_find p (d ∷ cs) c h = elim (Bool-cases (p d)) [
  | inl e ↦ found d (rw e at h)
  | inr e ↦ later d (any_of_find p cs c (rw e at h))
]
  where
    found : (b : Client) → some b ≡ some c → any (has_handle c.handle) (b ∷ cs) ≡ true
    found b e = unfold any in ground (arith, handle_of b e)
      where
        handle_of : (a : Client) → some a ≡ some c → a.handle ≡ c.handle
        handle_of a same = ap (λ o. elim o [ none ↦ 0 | some x ↦ x.handle ]) same

    later :
        (b : Client)
        → any (has_handle c.handle) cs ≡ true
        → any (has_handle c.handle) (b ∷ cs) ≡ true
    later b e = unfold any in ground (arith, e)

keeps_primary : KeepsHandle (set_primary_service [])
unfolding set_primary_service
keeps_primary c = refl

-- Removing a client of the table: the client is critical, the call fails and the server exits; or
-- it is not, the call succeeds and the table is one client shorter.
pub remove_client_common_cases :
    (session : Session) (mode : Bool) (c : Client) (s : Server) (t : Terminal)
    → any (has_handle c.handle) s.clients ≡ true
    → let r = remove_client_common session mode c (s, t) in
      ((c.critical ≡ true) × (r.0 ≡ false) × (r.1.exiting ≡ true))
      ⊎ ((c.critical ≡ false) × (r.0 ≡ true) × (suc (length r.1.clients) ≡ length s.clients))
unfolding remove_client_common
remove_client_common_cases session mode c s t present =
    if-cases
      (λ (r : Bool × Server × Terminal).
        ((c.critical ≡ true) × (r.0 ≡ false) × (r.1.exiting ≡ true))
        ⊎ ((c.critical ≡ false) × (r.0 ≡ true) × (suc (length r.1.clients) ≡ length s.clients)))
      c.critical _ _ (λ e. inl (e, refl, refl)) (λ e. inr (e, refl, one_less))
  where
    rest : Server
    rest = record (prepare mode c s) {
      clients = drop_first (has_handle c.handle) (prepare mode c s).clients;
    }

    changed : List Client
    changed =
        update_first (has_handle c.handle) (set_primary_service []) (
          update_first (has_handle c.handle) (λ d. record d { notify = 0; reference = 0 })
            s.clients)

    still : any (has_handle c.handle) changed ≡ true
    still =
        any-update_first c.handle c.handle (set_primary_service []) _ keeps_primary
        ∙ (any-update_first c.handle c.handle _ s.clients (λ d. refl) ∙ present)

    one_less : suc (length (destroy c rest).clients) ≡ length s.clients
    one_less =
        ap (λ x. suc (length x.clients)) (destroy_sends c rest)
        ∙ (ap (λ (l : List Client). suc (length (drop_first (has_handle c.handle) l)))
              (prepare_tables mode c s).3
            ∙ (length-drop_first (has_handle c.handle) changed still
                ∙ (length-update_first (has_handle c.handle) (set_primary_service []) _
                    ∙ length-update_first (has_handle c.handle) _ s.clients)))

no_clients : (match : Client → Bool) (cs : List Client) → length cs ≤ 0 → find match cs ≡ none
unfolding find
no_clients match [] h = refl
no_clients match (c ∷ cs) h = absurd (omega arith)

stops :
    (session : Session) (mode : Bool) (match : Client → Bool) (fuel : ℕ) (st : Server × Terminal)
    → find match st.0.clients ≡ none
    → remove_matching session mode match (suc fuel) st ≡ st
unfolding remove_matching
stops session mode match fuel st e = rw (e, remove_matching)

removes :
    (session : Session) (mode : Bool) (match : Client → Bool) (fuel : ℕ) (st : Server × Terminal)
    (c : Client)
    → find match st.0.clients ≡ some c
    → let r = remove_client_common session mode c st in
      ((r.0 ≡ true)
        → remove_matching session mode match (suc fuel) st
          ≡ remove_matching session mode match fuel (r.1, r.2))
      × ((r.0 ≡ false) → remove_matching session mode match (suc fuel) st ≡ (r.1, r.2))
unfolding remove_matching
removes session mode match fuel st c e =
    rw (e, remove_matching) ((λ h. if-true _ _ _ h), (λ h. if-false _ _ _ h))

-- With at least as many rounds as there are clients, the loop ends: no client that matches is left,
-- or the server exits.
pub remove_matching_ends :
    (session : Session) (mode : Bool) (match : Client → Bool) (fuel : ℕ) (st : Server × Terminal)
    → length st.0.clients ≤ fuel
    → let after = remove_matching session mode match fuel st in
      (find match after.0.clients ≡ none) ⊎ (after.0.exiting ≡ true)
unfolding remove_matching
remove_matching_ends session mode match zero st fits = inl (no_clients match st.0.clients fits)
remove_matching_ends session mode match (suc fuel) st fits =
    elim (Option-cases (find match st.0.clients)) [
      | inl e ↦ rw (stops session mode match fuel st e) (inl e)
      | inr (c, e) ↦
          elim (remove_client_common_cases session mode c st.0 st.1
            (any_of_find match st.0.clients c e)) [
              | inl (critical, stopped, exits) ↦
                  rw ((removes session mode match fuel st c e).1 stopped) (inr exits)
              | inr (common, gone, less) ↦
                  rw ((removes session mode match fuel st c e).0 gone)
                    (remove_matching_ends session mode match fuel _ (omega (arith, less)))
            ]
    ]

settled_keeps :
    (s : Server)
    → ((continue_if_settled s).clients ≡ s.clients) × ((continue_if_settled s).exiting ≡ s.exiting)
unfolding continue_if_settled continue_register_notify
settled_keeps s = ground arith

emptied_keeps :
    (s : Server)
    → ((exit_if_empty s).clients ≡ s.clients)
      × ((s.exiting ≡ true → (exit_if_empty s).exiting ≡ true))
unfolding exit_if_empty
emptied_keeps s = ground arith

-- A removal of all the clients that match leaves none of them in the table, unless the server
-- exits.
pub remove_all_ends :
    (session : Session) (mode : Bool) (match : Client → Bool) (st : Server × Terminal)
    → let after = remove_all session mode match st in
      (find match after.0.clients ≡ none) ⊎ (after.0.exiting ≡ true)
unfolding remove_all
remove_all_ends session mode match st =
    let looped : Server × Terminal = remove_matching session mode match (length st.0.clients) st in
    let settled = settled_keeps looped.0 in
    let emptied = emptied_keeps (continue_if_settled looped.0) in
    elim (remove_matching_ends session mode match (length st.0.clients) st (omega arith)) [
      | inl gone ↦ inl (ap (find match) (emptied.0 ∙ settled.0) ∙ gone)
      | inr exits ↦ inr (emptied.1 (settled.1 ∙ exits))
    ]
