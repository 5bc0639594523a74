-- ===== src/Address/Routes.antt =====
-- Routes of several hops: pieces joined by the address separator.
use mathlib.Core.List.{reverse, reverse-cons, reverse-append, append-nil, append_assoc}
use rservr.Base.{
  ℕ, ◌≡◌, refl, ap, List, [], ◌∷◌, ◌++◌, Option, true, false, ==_refl, Text, is_empty, All, arith,
  map, subst, ◌∙◌,
}
use rservr.Address.{
  client_scope_char, address_scope_char, split, next_client_scope, insert_remote_client,
  insert_separate_scope, prepend_existing_scope, insert_hops, insert_existing_scope, prepend_all,
  server_scope, set_to_server_scope,
}
use rservr.Address.Hops.{Free, strsep-append, next_client_scope-insert_remote_client}

abbrev pub join : ℕ → List Text → Text
join sep [] = []
join sep (p ∷ []) = p
join sep (p ∷ q ∷ ps) = p ++ (sep ∷ join sep (q ∷ ps))

split-Free : (sep : ℕ) (w : Text) → Free sep w → split sep w ≡ w ∷ []
unfolding split
split-Free sep [] h = refl
split-Free sep (c ∷ w) h = ground (arith, split-Free sep w h.1)

split-append : (sep : ℕ) (w s : Text) → Free sep w → split sep (w ++ (sep ∷ s)) ≡ w ∷ split sep s
unfolding split
split-append sep [] s h = ground (arith, ==_refl sep)
split-append sep (c ∷ w) s h = ground (arith, split-append sep w s h.1)

-- Splitting a route gives the pieces that were joined.
pub split-join :
    (sep : ℕ) (p : Text) (ps : List Text)
    → All (Free sep) (p ∷ ps)
    → split sep (join sep (p ∷ ps)) ≡ p ∷ ps
split-join sep p [] h = split-Free sep p h.0
split-join sep p (q ∷ ps) h =
    split-append sep p (join sep (q ∷ ps)) h.0
    ∙ ap (λ (l : List Text). p ∷ l) (split-join sep q ps h.1)

prepend_all-append :
    (address : Text) (ps : List Text) (p : Text)
    → prepend_all address (ps ++ (p ∷ [])) ≡ prepend_existing_scope (prepend_all address ps) p
unfolding prepend_all
prepend_all-append address [] p = refl
prepend_all-append address (q ∷ ps) p = prepend_all-append (prepend_existing_scope address q) ps p

abbrev pub Filled : Text → Type 0
Filled p = is_empty p ≡ false

prepend-join :
    (p : Text) (ps : List Text)
    → All Filled (p ∷ ps)
    → prepend_existing_scope (join address_scope_char ps) p ≡ join address_scope_char (p ∷ ps)
unfolding prepend_existing_scope
prepend-join p [] h = rw h.0
prepend-join p ((c ∷ q) ∷ []) h = rw h.0
prepend-join p ((c ∷ q) ∷ r ∷ ps) h = rw h.0
prepend-join p ([] ∷ ps) h = cc (h.1.0)

prepend_all-reverse :
    (ps : List Text) → All Filled ps → prepend_all [] (reverse ps) ≡ join address_scope_char ps
unfolding prepend_all
prepend_all-reverse [] h = refl
prepend_all-reverse (p ∷ ps) h =
    rw (reverse-cons p ps, prepend_all-append [] (reverse ps) p, prepend_all-reverse ps h.1)
      (prepend-join p ps h)

-- One hop as it is written.
abbrev pub hop : Text × Text → Text
hop (client, address) = client ++ (client_scope_char ∷ address)

-- Passing through the hops, last hop first.
abbrev pub through : Text × Text → List (Text × Text) → Text × Text
through here [] = here
through here ((client, address) ∷ hops) =
    let back = through here hops in insert_separate_scope back.0 back.1 client address

abbrev pub Clients : List (Text × Text) → Type 0
Clients =
    All
      (λ h. Free client_scope_char h.0 × Free address_scope_char h.0 × Free address_scope_char h.1)

insert_hops-hop :
    (here h : Text × Text) (more : List Text)
    → Free client_scope_char h.0
    → insert_hops here (hop h ∷ more)
      ≡ insert_hops (insert_separate_scope here.0 here.1 h.0 h.1) more
unfolding insert_hops
insert_hops-hop here (c, a) more free =
    let cut = strsep-append client_scope_char c a free in
    rw (cut, insert_hops)
      (ap (λ (r : Text × Option Text). insert_hops (insert_separate_scope here.0 here.1 r.0 a) more)
        cut)

insert_hops-through :
    (here : Text × Text) (hops : List (Text × Text)) (more : List Text)
    → Clients hops
    → insert_hops here (reverse (map hop hops) ++ more) ≡ insert_hops (through here hops) more
insert_hops-through here [] more free = refl
insert_hops-through here (h ∷ hops) more free =
    rw (reverse-cons (hop h) (map hop hops), append_assoc)
      (insert_hops-through here hops (hop h ∷ more) free.1
        ∙ insert_hops-hop (through here hops) h more free.0.0)

Free-append : (sep : ℕ) (s t : Text) → Free sep s → Free sep t → Free sep (s ++ t)
Free-append sep [] t hs ht = ht
Free-append sep (c ∷ s) t hs ht = (hs.0, Free-append sep s t hs.1 ht)

pieces-Free :
    (hops : List (Text × Text)) → Clients hops → All (Free address_scope_char) (map hop hops)
pieces-Free [] free = tt
pieces-Free ((c, a) ∷ hops) free = (
  Free-append address_scope_char c (client_scope_char ∷ a) free.0.1 (omega arith, free.0.2),
  pieces-Free hops free.1,
)

-- Reading the text of a route of hops, whose names and addresses hold no separator, passes the
-- client and the address through the hops from the last one to the first.
pub insert_existing_scope-through :
    (client address : Text) (h : Text × Text) (hops : List (Text × Text))
    → Clients (h ∷ hops)
    → insert_existing_scope client address (join address_scope_char (map hop (h ∷ hops)))
      ≡ through (client, address) (h ∷ hops)
unfolding insert_existing_scope insert_hops
insert_existing_scope-through client address h hops free =
    rw (split-join address_scope_char (hop h) (map hop hops) (pieces-Free (h ∷ hops) free)) (
      subst (λ l. insert_hops (client, address) l ≡ through (client, address) (h ∷ hops))
        (append-nil (reverse (map hop (h ∷ hops))))
        (insert_hops-through (client, address) (h ∷ hops) [] free))

set_to_server_scope_nonempty :
    (client address : Text)
    → Filled address
    → set_to_server_scope client address
      ≡ (let r = server_scope (reverse (split address_scope_char address)) in (r.0, client, r.1))
unfolding set_to_server_scope
set_to_server_scope_nonempty client [] h = cc
set_to_server_scope_nonempty client (c ∷ s) h = refl

join-Filled : (sep : ℕ) (p : Text) (ps : List Text) → Filled p → Filled (join sep (p ∷ ps))
join-Filled sep [] ps h = cc
join-Filled sep (c ∷ p) [] h = refl
join-Filled sep (c ∷ p) (q ∷ ps) h = refl

server_scope-append :
    (ps : List Text) (client address : Text)
    → Free client_scope_char client
    → All Filled ps
    → Filled address
    → server_scope (reverse (ps ++ ((client ++ (client_scope_char ∷ address)) ∷ [])))
      ≡ (true, join address_scope_char (ps ++ (address ∷ [])))
unfolding server_scope
server_scope-append ps client address free filled last =
    rw (reverse-append ps, next_client)
      (ap (λ (t : Text). (true, t)) (turned ∙ prepend_all-reverse (ps ++ (address ∷ [])) whole))
  where
    next_client : next_client_scope (client ++ (client_scope_char ∷ address)) ≡ (client, address)
    next_client =
        unfold insert_remote_client in next_client_scope-insert_remote_client address client free

    turned : prepend_all [] (address ∷ reverse ps) ≡ prepend_all [] (reverse (ps ++ (address ∷ [])))
    turned = rw (reverse-append ps)

    All-append : (l : List Text) → All Filled l → All Filled (l ++ (address ∷ []))
    All-append [] h = (last, tt)
    All-append (p ∷ l) h = (h.0, All-append l h.1)

    whole : All Filled (ps ++ (address ∷ []))
    whole = All-append ps filled

Filled-insert : (client address : Text) → Filled (client ++ (client_scope_char ∷ address))
Filled-insert [] address = refl
Filled-insert (c ∷ s) address = refl

-- Turning a route towards the server of its last hop drops the client of that hop, separator
-- included, and keeps the client that is sent to and every earlier hop. No piece of the route is
-- empty or holds an address separator, and neither is the last address empty; the last client's
-- name holds no client separator.
pub set_to_server_scope-join :
    (to client address : Text) (ps : List Text)
    → Free client_scope_char client
    → Free address_scope_char (client ++ (client_scope_char ∷ address))
    → All (Free address_scope_char) ps
    → All Filled ps
    → Filled address
    → set_to_server_scope to
        (join address_scope_char (ps ++ ((client ++ (client_scope_char ∷ address)) ∷ [])))
      ≡ (true, to, join address_scope_char (ps ++ (address ∷ [])))
set_to_server_scope-join to client address ps free bars frees filled last =
    let route = client ++ (client_scope_char ∷ address) in
    let pieces = split_last ps route frees bars in
    set_to_server_scope_nonempty to (join address_scope_char (ps ++ (route ∷ [])))
      (filled_last ps route filled (Filled-insert client address))
    ∙ rw (pieces, server_scope-append ps client address free filled last)
  where
    split_last :
        (l : List Text) (p : Text)
        → All (Free address_scope_char) l
        → Free address_scope_char p
        → split address_scope_char (join address_scope_char (l ++ (p ∷ []))) ≡ l ++ (p ∷ [])
    split_last [] p hl hp = split-join address_scope_char p [] (hp, tt)
    split_last (q ∷ l) p hl hp =
        split-join address_scope_char q (l ++ (p ∷ [])) (hl.0, All_snoc l hl.1)
      where
        All_snoc :
            (m : List Text)
            → All (Free address_scope_char) m
            → All (Free address_scope_char) (m ++ (p ∷ []))
        All_snoc [] h = (hp, tt)
        All_snoc (r ∷ m) h = (h.0, All_snoc m h.1)

    filled_last :
        (l : List Text) (p : Text)
        → All Filled l
        → Filled p
        → Filled (join address_scope_char (l ++ (p ∷ [])))
    filled_last [] p hl hp = hp
    filled_last (q ∷ l) p hl hp = join-Filled address_scope_char q (l ++ (p ∷ [])) hl.0
