-- ===== src/Server/Naming.antt =====
-- libs/server/name-check.cpp: a name is free if no client and no service has it.
use rservr.Base.{Bool, true, ◌&&◌, not, Option, none, some, any, Text}
use rservr.Server.{Server}
use rservr.Server.Clients.{has_name}
use rservr.Server.Services.{named}

-- With a null name no entry matches.
unfoldable pub check_names : Server → Option Text → Bool
check_names s none = true
check_names s (some name) = not (any (has_name name) s.clients) && not (any (named name) s.services)
