-- ===== src/Server/Clients/Laws.antt =====
-- A change of one client, seen by the lookups (libs/server/client-list.cpp).
use rservr.Base.{
  ℕ, ◌≡◌, ◌≢◌, refl, List, [], ◌∷◌, Option, none, some, find, update_first, arith, map,
}
use rservr.Server.{Server, Client}
use rservr.Server.Clients.{has_handle, get_client_id, change_client}

-- The change keeps the handle.
abbrev pub KeepsHandle : (Client → Client) → Type 0
KeepsHandle f = (c : Client) → (f c).handle ≡ c.handle

abbrev pub option_map {ℓ κ} : {A : Type ℓ} {B : Type κ} → (A → B) → Option A → Option B
option_map f none = none
option_map f (some a) = some (f a)

pub find-update_first_self :
    (handle : ℕ) (f : Client → Client) (cs : List Client)
    → KeepsHandle f
    → find (has_handle handle) (update_first (has_handle handle) f cs)
      ≡ option_map f (find (has_handle handle) cs)
unfolding find update_first
find-update_first_self handle f [] k = refl
find-update_first_self handle f (c ∷ cs) k =
    ground (arith, k c, find-update_first_self handle f cs k)

pub find-update_first_ne :
    (handle other : ℕ) (f : Client → Client) (cs : List Client)
    → KeepsHandle f
    → handle ≢ other
    → find (has_handle other) (update_first (has_handle handle) f cs) ≡ find (has_handle other) cs
unfolding find update_first
find-update_first_ne handle other f [] k h = refl
find-update_first_ne handle other f (c ∷ cs) k h =
    ground (arith, k c, find-update_first_ne handle other f cs k h)

-- The changed client is found changed.
pub get_client_id-change_client_self :
    (handle : ℕ) (f : Client → Client) (s : Server)
    → KeepsHandle f
    → get_client_id (change_client handle f s) handle ≡ option_map f (get_client_id s handle)
unfolding get_client_id change_client
get_client_id-change_client_self handle f s k = find-update_first_self handle f s.clients k

-- Every other client is found as it was.
pub get_client_id-change_client_ne :
    (handle other : ℕ) (f : Client → Client) (s : Server)
    → KeepsHandle f
    → handle ≢ other
    → get_client_id (change_client handle f s) other ≡ get_client_id s other
unfolding get_client_id change_client
get_client_id-change_client_ne handle other f s k h =
    find-update_first_ne handle other f s.clients k h

-- What a change keeps of every client, it keeps of the table.
pub map-update_first {ℓ} :
    {B : Type ℓ} (view : Client → B) (handle : ℕ) (f : Client → Client) (cs : List Client)
    → ((c : Client) → view (f c) ≡ view c)
    → map view (update_first (has_handle handle) f cs) ≡ map view cs
unfolding update_first
map-update_first view handle f [] k = refl
map-update_first view handle f (c ∷ cs) k = ground (arith, k c, map-update_first view handle f cs k)

pub find_handle :
    (handle : ℕ) (cs : List Client) (c : Client)
    → find (has_handle handle) cs ≡ some c
    → c.handle ≡ handle
unfolding find
find_handle handle [] c h = cc
find_handle handle (d ∷ cs) c h = ground (arith, find_handle handle cs c)

-- The client that a handle finds has that handle.
pub handle_of_get :
    (s : Server) (handle : ℕ) (c : Client) → get_client_id s handle ≡ some c → c.handle ≡ handle
unfolding get_client_id
handle_of_get s handle c h = find_handle handle s.clients c h
