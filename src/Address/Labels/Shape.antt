-- ===== src/Address/Labels/Shape.antt =====
-- The labels that `check_address_label` (libs/protocol/api-label-check.cpp) accepts.
use native.Mathlib.Decide.{ℕ_discrete}
use rservr.Base.{
  Bool-cases, ℕ, ◌+◌, ◌≤◌, ◌≡◌, ◌≢◌, ◌⊎◌, inl, inr, refl, List, [], ◌∷◌, ◌++◌, Bool, true, false,
  none, some, ◌==◌, ltb, Text, length, arith, ◌∙◌, sym, ◌↔◌, All,
}
use rservr.Address.{client_scope_char, address_scope_char}
use rservr.Address.Hops.{Free}
use rservr.Address.Labels.Scan.{Phase, in_name, in_client, in_address, accepts, scan-accepts}
use rservr.Address.Labels.{address_limit, scan, check_address_label, scope_limit}

-- A name or an address without separators.
abbrev pub IsPlain : Text → Type 0
IsPlain s = Free client_scope_char s × Free address_scope_char s

abbrev pub IsHop : Text × Text → Type 0
IsHop (c, a) = IsPlain c × IsPlain a × (length a ≤ address_limit)

-- What follows the first client separator of a route.
abbrev pub behind : Text → List (Text × Text) → Text
behind a [] = a
behind a ((c, b) ∷ hops) = a ++ (address_scope_char ∷ c ++ (client_scope_char ∷ behind b hops))

-- `client?address|client?address|...`
abbrev pub route : Text × Text → List (Text × Text) → Text
route (c, a) hops = c ++ (client_scope_char ∷ behind a hops)

abbrev pub IsRoute : Text → Type 0
IsRoute s =
    (h : Text × Text) × (hops : List (Text × Text)) × (s ≡ route h hops) × IsHop h × All IsHop hops

abbrev IsBehind : ℕ → Text → Type 0
IsBehind n s =
    (a : Text) × (hops : List (Text × Text)) × (s ≡ behind a hops)
    × IsPlain a
    × (length a + n ≤ address_limit)
    × All IsHop hops

abbrev Shape : Phase → Text → Type 0
Shape in_name s = IsPlain s ⊎ IsRoute s
Shape in_client s = IsRoute s
Shape (in_address n) s = IsBehind n s

enter_address : (c : ℕ) (s : Text) → c ≡ client_scope_char → IsBehind 0 s → IsRoute (c ∷ s)
enter_address c s e (a, hops, eq, plain, short, all_hops) =
    (([], a), hops, cc, ((tt, tt), plain, omega arith), all_hops)

longer_client :
    (c : ℕ) (s : Text)
    → c ≢ client_scope_char
    → c ≢ address_scope_char
    → IsRoute s
    → IsRoute (c ∷ s)
longer_client c s p q ((d, a), hops, eq, (plain, rest, short), all_hops) =
    ((c ∷ d, a), hops, cc, (((p, plain.0), (q, plain.1)), rest, short), all_hops)

longer_name :
    (c : ℕ) (s : Text)
    → c ≢ client_scope_char
    → c ≢ address_scope_char
    → IsPlain s ⊎ IsRoute s
    → IsPlain (c ∷ s) ⊎ IsRoute (c ∷ s)
longer_name c s p q (inl plain) = inl ((p, plain.0), (q, plain.1))
longer_name c s p q (inr r) = inr (longer_client c s p q r)

leave_address :
    (n c : ℕ) (s : Text)
    → n ≤ address_limit
    → c ≡ address_scope_char
    → IsRoute s
    → IsBehind n (c ∷ s)
leave_address n c s fits e (h, hops, eq, is_hop, all_hops) =
    ([], h ∷ hops, cc, (tt, tt), omega arith, (is_hop, all_hops))

longer_address :
    (n c : ℕ) (s : Text)
    → c ≢ client_scope_char
    → c ≢ address_scope_char
    → IsBehind (n + 1) s
    → IsBehind n (c ∷ s)
longer_address n c s p q (a, [], eq, plain, short, all_hops) =
    (c ∷ a, [], cc, ((p, plain.0), (q, plain.1)), omega arith, all_hops)
longer_address n c s p q (a, h ∷ hops, eq, plain, short, all_hops) =
    (c ∷ a, h ∷ hops, cc, ((p, plain.0), (q, plain.1)), omega arith, all_hops)

not_eq : {a b : ℕ} → a ≢ b → (a == b) ≡ false
not_eq h = ground arith

room :
    (n c : ℕ) (s : Text)
    → accepts (in_address n) (c ∷ s) ≡ true
    → (c == client_scope_char) ≡ false
    → (c == address_scope_char) ≡ false
    → (n + 1 ≤ address_limit) × (accepts (in_address (n + 1)) s ≡ true)
unfolding accepts
room n c s e p q = elim (Bool-cases (ltb address_limit (n + 1))) [
  | inl full ↦ cc (rw (p, q, full, accepts) at e)
  | inr free ↦ (ground arith, rw (p, q, free, accepts) at e)
]

abbrev Fits : Phase → Type 0
Fits (in_address n) = n ≤ address_limit
Fits _ = Unit

-- What the reader accepts is a route, or a name alone.
shape : (phase : Phase) (s : Text) → accepts phase s ≡ true → Fits phase → Shape phase s
unfolding accepts
shape in_name [] e f = inl (tt, tt)
shape in_client [] e f = cc
shape (in_address n) [] e f = ([], [], refl, (tt, tt), omega arith, tt)
shape in_name (c ∷ s) e f = elim (ℕ_discrete c client_scope_char) [
  | yes p ↦ inr (enter_address c s p (shape (in_address 0) s (ground arith) (omega arith)))
  | no p ↦ elim (ℕ_discrete c address_scope_char) [
    | yes q ↦ absurd (ground arith)
    | no q ↦ longer_name c s p q (shape in_name s (ground arith) tt)
  ]
]
shape in_client (c ∷ s) e f = elim (ℕ_discrete c client_scope_char) [
  | yes p ↦ enter_address c s p (shape (in_address 0) s (ground arith) (omega arith))
  | no p ↦ elim (ℕ_discrete c address_scope_char) [
    | yes q ↦ absurd (ground arith)
    | no q ↦ longer_client c s p q (shape in_client s (ground arith) tt)
  ]
]
shape (in_address n) (c ∷ s) e f = elim (ℕ_discrete c client_scope_char) [
  | yes p ↦ absurd (ground arith)
  | no p ↦ elim (ℕ_discrete c address_scope_char) [
    | yes q ↦ leave_address n c s f q (shape in_client s (ground arith) tt)
    | no q ↦
        let (more, rest) = room n c s e (not_eq p) (not_eq q) in
        longer_address n c s p q (shape (in_address (n + 1)) s rest more)
  ]
]

accepts_plain : (s : Text) → IsPlain s → accepts in_name s ≡ true
unfolding accepts
accepts_plain [] h = refl
accepts_plain (c ∷ s) h = ground (arith, accepts_plain s (h.0.1, h.1.1))

name_ends :
    (c s : Text)
    → IsPlain c
    → accepts in_name (c ++ (client_scope_char ∷ s)) ≡ accepts (in_address 0) s
unfolding accepts
name_ends [] s h = refl
name_ends (b ∷ c) s h = ground (arith, name_ends c s (h.0.1, h.1.1))

client_ends :
    (c s : Text)
    → IsPlain c
    → accepts in_client (c ++ (client_scope_char ∷ s)) ≡ accepts (in_address 0) s
unfolding accepts
client_ends [] s h = refl
client_ends (b ∷ c) s h = ground (arith, client_ends c s (h.0.1, h.1.1))

address_ends :
    (n : ℕ) (a s : Text)
    → IsPlain a
    → length a + n ≤ address_limit
    → accepts (in_address n) (a ++ (address_scope_char ∷ s)) ≡ accepts in_client s
unfolding accepts
address_ends n [] s h short = refl
address_ends n (b ∷ a) s h short =
    ground (arith, address_ends (n + 1) a s (h.0.1, h.1.1) (omega arith))

address_fits :
    (n : ℕ) (a : Text) → IsPlain a → length a + n ≤ address_limit → accepts (in_address n) a ≡ true
unfolding accepts
address_fits n [] h short = refl
address_fits n (b ∷ a) h short = ground (arith, address_fits (n + 1) a (h.0.1, h.1.1) (omega arith))

accepts-behind :
    (a : Text) (hops : List (Text × Text))
    → IsPlain a
    → length a ≤ address_limit
    → All IsHop hops
    → accepts (in_address 0) (behind a hops) ≡ true
accepts-behind a [] h short all_hops = address_fits 0 a h (omega arith)
accepts-behind a ((c, b) ∷ hops) h short all_hops =
    address_ends 0 a (c ++ (client_scope_char ∷ behind b hops)) h (omega arith)
    ∙ (client_ends c (behind b hops) all_hops.0.0
        ∙ accepts-behind b hops all_hops.0.1 all_hops.0.2 all_hops.1)

accepts-route : (s : Text) → IsRoute s → accepts in_name s ≡ true
accepts-route s ((c, a), hops, e, (plain, rest, short), all_hops) =
    rw e (name_ends c (behind a hops) plain ∙ accepts-behind a hops rest short all_hops)

first_step :
    (c : ℕ) (s : Text)
    → c ≢ client_scope_char
    → scan none 0 0 false 0 (c ∷ s) ≡ accepts in_name (c ∷ s)
unfolding scan accepts
first_step c s h = ground (arith, scan-accepts in_name none 0 0 false 1 s)

-- A text of at most 2048 bytes that the regular expression admits and that does not begin with the
-- client separator is an address label exactly when it holds no separator at all, or is a route of
-- hops `client?address` joined by `|`, no name or address of which holds a separator and no address
-- of which is longer than 256 bytes.
pub check_address_label_iff :
    (matches : Text → Bool) (c : ℕ) (s : Text)
    → c ≢ client_scope_char
    → length (c ∷ s) ≤ scope_limit
    → matches (c ∷ s) ≡ true
    → (check_address_label matches (some (c ∷ s)) ≡ true) ↔ (IsPlain (c ∷ s) ⊎ IsRoute (c ∷ s))
unfolding check_address_label
check_address_label_iff matches c s first fits admitted = (to, from)
  where
    checked : check_address_label matches (some (c ∷ s)) ≡ accepts in_name (c ∷ s)
    checked = unfold check_address_label in ground (arith, first_step c s first)

    to : check_address_label matches (some (c ∷ s)) ≡ true → IsPlain (c ∷ s) ⊎ IsRoute (c ∷ s)
    to e = shape in_name (c ∷ s) (sym checked ∙ e) tt

    from : IsPlain (c ∷ s) ⊎ IsRoute (c ∷ s) → check_address_label matches (some (c ∷ s)) ≡ true
    from (inl plain) = checked ∙ accepts_plain (c ∷ s) plain
    from (inr r) = checked ∙ accepts-route (c ∷ s) r
