-- ===== src/Server/Sound/Everyone.antt =====
-- Disconnecting all clients (libs/server/client-list.cpp) leaves empty tables.
use rservr.Base.{
  ℕ, ◌≡◌, ◌∙◌, sym, refl, ap, subst, List, [], ◌∷◌, Bool, true, false, ◌==◌, if-true, if-cases, All,
  any, is_some, arith,
}
use rservr.Server.{Server, Client}
use rservr.Server.Clients.{continue_register_notify}
use rservr.Server.Services.{owned_by}
use rservr.Server.Monitors.{watches}
use rservr.Server.Removal.{release, destroy, gives_terminal_back}
use rservr.Server.Removal.Tables.{releases, destroy_sends}
use rservr.Server.Removal.Everyone.{stop_clients, destroy_clients, disconnect_all_clients}
use rservr.Server.Sound.{handles, tables, Lives, AreSound, IsSound, All-drop_where}
use rservr.Terminal.{Terminal, Session, return_terminal_control}

-- The services and the monitors refer to these clients only.
abbrev ReferTo : List Client → Server → Type 0
ReferTo cs s = AreSound (handles cs, s.services, s.event_monitors, s.exit_monitors)

abbrev pub IsRunning : Client → Type 0
IsRunning c = is_some c.process_id ≡ true

survives_others : (h k : ℕ) (hs : List ℕ) → Lives (h ∷ hs) k → (k == h) ≡ false → Lives hs k
unfolding any
survives_others h k hs l n = ground (arith, l, n)

release-ReferTo :
    (c : Client) (cs : List Client) (s : Server)
    → ReferTo (c ∷ cs) s
    → ReferTo cs (release true c s)
release-ReferTo c cs s h =
    let gone = releases true c s in
    let P : ℕ → Type 0 = Lives (handles (c ∷ cs)) in
    let Q : ℕ → Type 0 = Lives (handles cs) in
    let keeps : (k : ℕ) → P k → (k == c.handle) ≡ false → Q k =
      λ k. survives_others c.handle k (handles cs) in
    subst (ReferTo cs) (sym gone) (
      All-drop_where (λ e. P e.owner) (λ e. Q e.owner) (owned_by c.handle) s.services
          (λ e l n. keeps e.owner l n) h.0,
      All-drop_where (λ m. P m.0) (λ m. Q m.0) (watches c.handle) s.event_monitors
          (λ m l n. keeps m.0 l n) h.1,
      All-drop_where (λ m. P m.watcher) (λ m. Q m.watcher) (λ m. m.watcher == c.handle)
          s.exit_monitors (λ m l n. keeps m.watcher l n) h.2,
    )

stop_clients-ReferTo :
    (session : Session) (cs : List Client) (s : Server) (t : Terminal)
    → All IsRunning cs
    → ReferTo cs s
    → ReferTo [] (stop_clients session cs (s, t)).0
unfolding stop_clients
stop_clients-ReferTo session [] s t running h = h
stop_clients-ReferTo session (c ∷ cs) s t running h =
    let back = (return_terminal_control session c.process_id t).1 in
    subst (λ (r : Server × Terminal). ReferTo [] r.0)
      (sym (
        if-true (is_some c.process_id) (stop_clients session cs (release true c s, back))
          (stop_clients session cs (s, t)) running.0))
      (stop_clients-ReferTo session cs (release true c s) back running.1 (release-ReferTo c cs s h))

destroy_clients-tables :
    (session : Session) (cs : List Client) (s : Server) (t : Terminal)
    → let after = (destroy_clients session cs (s, t)).0 in
      (tables after ≡ tables s) × (after.clients ≡ s.clients)
unfolding destroy_clients
destroy_clients-tables session [] s t = (refl, refl)
destroy_clients-tables session (c ∷ cs) s t =
    let (same, clients) =
      destroy_clients-tables session cs (destroy c s) (gives_terminal_back session c t) in
    let reported = destroy_sends c s in
    (same ∙ ap tables reported, clients ∙ ap (λ x. x.clients) reported)

notified_tables :
    (outcome : Bool) (s : Server) → tables (continue_register_notify outcome s) ≡ tables s
unfolding continue_register_notify
notified_tables outcome s =
    if-cases (λ (x : Server). tables x ≡ tables s) (s.register_process == 0) _ _ (λ e. refl)
      (λ e. refl)

module _ {A : Type 0} where
  none_refers : (f : A → ℕ) (l : List A) → All (λ x. Lives [] (f x)) l → l ≡ []
  unfolding any
  none_refers f [] h = refl
  none_refers f (x ∷ l) h = absurd (ground (arith, h.0))

-- After all clients are disconnected the table of clients is empty and the server exits; if every
-- client's process is known and the references between the tables are valid, no service and no
-- monitor is left either.
pub disconnect_all_clients-clears :
    (session : Session) (s : Server) (t : Terminal)
    → let after = (disconnect_all_clients session (s, t)).0 in
      (after.clients ≡ [])
      × (after.exiting ≡ true)
      × (IsSound s
          → All IsRunning s.clients
          → (after.services ≡ []) × (after.event_monitors ≡ []) × (after.exit_monitors ≡ []))
unfolding disconnect_all_clients
disconnect_all_clients-clears session s t =
    let told = continue_register_notify true s in
    let stopped = stop_clients session s.clients (told, t) in
    let (same, clients) =
      destroy_clients-tables session s.clients (record stopped.0 { clients = [] }) stopped.1 in
    (
      clients,
      refl,
      λ sound running.
          let left : ReferTo [] stopped.0 = stop_clients-ReferTo session s.clients told t running (
            subst AreSound
              (ap (λ ts. (handles s.clients, ts.1, ts.2, ts.3)) (sym (notified_tables true s)))
              sound) in
          (
            ap (λ ts. ts.1) same ∙ none_refers (λ e. e.owner) stopped.0.services left.0,
            ap (λ ts. ts.2) same ∙ none_refers (λ m. m.0) stopped.0.event_monitors left.1,
            ap (λ ts. ts.3) same ∙ none_refers (λ m. m.watcher) stopped.0.exit_monitors left.2,
          ),
    )
