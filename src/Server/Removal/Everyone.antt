-- ===== src/Server/Removal/Everyone.antt =====
-- libs/server/client-list.cpp: disconnect_all_clients and abort_all_clients. The directive that each
-- client is sent and the signal that ends a process are left out; `reset_list` destroys the clients
-- in the order of the list.
use rservr.Base.{List, [], ◌∷◌, true, false, none, is_some, if◌then◌else◌}
use rservr.Server.{Server, Client}
use rservr.Server.Clients.{continue_register_notify}
use rservr.Server.Removal.{release, destroy, gives_terminal_back}
use rservr.Terminal.{Terminal, Session, return_terminal_control}

-- The loop over the clients whose process is known.
unfoldable pub stop_clients : Session → List Client → Server × Terminal → Server × Terminal
stop_clients session [] st = st
stop_clients session (c ∷ cs) (s, t) =
    let rest =
      stop_clients session cs
        (release true c s, (return_terminal_control session c.process_id t).1) in
    let skipped = stop_clients session cs (s, t) in if is_some c.process_id then rest else skipped

-- `reset_list`, after the list itself is empty.
unfoldable pub destroy_clients : Session → List Client → Server × Terminal → Server × Terminal
destroy_clients session [] st = st
destroy_clients session (c ∷ cs) (s, t) =
    destroy_clients session cs (destroy c s, gives_terminal_back session c t)

unfoldable pub disconnect_all_clients : Session → Server × Terminal → Server × Terminal
unfolding stop_clients destroy_clients
disconnect_all_clients session (s, t) =
    let (stopped, t1) = stop_clients session s.clients (continue_register_notify true s, t) in
    let (gone, t2) = destroy_clients session s.clients (record stopped { clients = [] }, t1) in
    (record gone { exiting = true }, t2)

-- The killed clients have no process any more when they are destroyed.
unfoldable pub without_processes : List Client → List Client
without_processes [] = []
without_processes (c ∷ cs) = record c { process_id = none } ∷ without_processes cs

unfoldable pub abort_all_clients : Session → Server × Terminal → Server × Terminal
unfolding destroy_clients without_processes
abort_all_clients session (s, t) =
    destroy_clients session (without_processes s.clients)
      (record (continue_register_notify false s) { clients = [] }, t)
