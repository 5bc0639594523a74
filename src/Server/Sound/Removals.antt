-- ===== src/Server/Sound/Removals.antt =====
-- Removing a client (libs/server/client-list.cpp) leaves no reference to it.
use rservr.Base.{ℕ, ◌≡◌, ◌∙◌, sym, refl, ap, subst, List, [], Bool, false, ◌==◌, if-cases}
use rservr.Server.{Server, Client}
use rservr.Server.Clients.{has_handle, set_primary_service}
use rservr.Server.Clients.Laws.{map-update_first}
use rservr.Server.Services.{owned_by}
use rservr.Server.Monitors.{watches}
use rservr.Server.Removal.{drop_first, destroy, prepare, remove_client_common}
use rservr.Server.Removal.Tables.{prepare_tables, destroy_sends}
use rservr.Server.Sound.{handles, tables, Lives, AreSound, IsSound, All-drop_where, keeps_primary}
use rservr.Server.Sound.Changes.{IsSound-by_tables, Lives-drop_first}
use rservr.Terminal.{Terminal, Session}

-- What is left refers to clients other than the one removed.
prepared :
    (mode : Bool) (c : Client) (s : Server) (hs : List ℕ)
    → IsSound s
    → ((k : ℕ) → (k == c.handle) ≡ false → Lives (handles s.clients) k → Lives hs k)
    → let after = prepare mode c s in
      AreSound (hs, after.services, after.event_monitors, after.exit_monitors)
prepared mode c s hs h keeps =
    let (services, events, exits, others, same) = prepare_tables mode c s in
    let P : ℕ → Type 0 = Lives (handles s.clients) in
    rw (services, events, exits)
      (
        All-drop_where (λ e. P e.owner) (λ e. Lives hs e.owner) (owned_by c.handle) s.services
            (λ e l n. keeps e.owner n l) h.0,
        All-drop_where (λ m. P m.0) (λ m. Lives hs m.0) (watches c.handle) s.event_monitors
            (λ m l n. keeps m.0 n l) h.1,
        All-drop_where (λ m. P m.watcher) (λ m. Lives hs m.watcher) (λ m. m.watcher == c.handle)
            s.exit_monitors (λ m l n. keeps m.watcher n l) h.2,
      )

handles-prepare :
    (mode : Bool) (c : Client) (s : Server) → handles (prepare mode c s).clients ≡ handles s.clients
handles-prepare mode c s =
    ap handles (prepare_tables mode c s).3
    ∙ (map-update_first (λ d. d.handle) c.handle (set_primary_service []) _ (keeps_primary [])
        ∙ map-update_first (λ d. d.handle) c.handle _ s.clients (λ d. refl))

-- Removing a client, critical or not, keeps every reference between the tables valid.
pub remove_client_common-IsSound :
    (session : Session) (mode : Bool) (c : Client) (s : Server) (t : Terminal)
    → IsSound s
    → IsSound (remove_client_common session mode c (s, t)).1
unfolding remove_client_common
remove_client_common-IsSound session mode c s t h =
    if-cases (λ (r : Bool × Server × Terminal). IsSound r.1) c.critical _ _
      (λ e.
        prepared mode c s (handles (prepare mode c s).clients) h
          (λ k n l. subst (λ hs. Lives hs k) (sym (handles-prepare mode c s)) l))
      (λ e.
        IsSound-by_tables rest (destroy c rest) (ap tables (destroy_sends c rest))
          (prepared mode c s (handles rest.clients) h others))
  where
    rest : Server
    rest = record (prepare mode c s) {
      clients = drop_first (has_handle c.handle) (prepare mode c s).clients;
    }

    others :
        (k : ℕ)
        → (k == c.handle) ≡ false
        → Lives (handles s.clients) k
        → Lives (handles rest.clients) k
    others k n l =
        Lives-drop_first c.handle k (prepare mode c s).clients n
          (subst (λ hs. Lives hs k) (sym (handles-prepare mode c s)) l)
