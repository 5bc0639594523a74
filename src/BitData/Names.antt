-- ===== src/BitData/Names.antt =====
-- Masks to names and back.
use Prim.Native.String.{String}
use text.Mathlib.Text.{◌==◌ as str_eq}
use text.Mathlib.TextPositions.{eq_refl}
use rservr.Base.{
  ℕ, zero, suc, ◌+◌, ◌^◌, ◌<◌, ◌≡◌, ◌∙◌, refl, ap, subst, List, [], ◌∷◌, Bool, true, false, not,
  ◌&&◌, Option, none, some, length, or_else, any, All, if-true, arith,
}
use rservr.BitData.{
  set_bit, find_set_bits, label_at, named_bit, name_bits, set_bits, later_place, find_label,
  rest_of, convert_step, convert_loop, special_loop, convert_bits,
}
use rservr.BitData.Masks.{set_all, set_all-find_set_bits}

-- No name stands twice in a table.
unfoldable pub distinct : List String → Bool
distinct [] = true
distinct (x ∷ table) = not (any (λ y. str_eq x y) table) && distinct table

other_label :
    (x label : String) (table : List String) (k : ℕ)
    → any (λ y. str_eq x y) table ≡ false
    → label_at table k ≡ some label
    → str_eq x label ≡ false
unfolding any label_at
other_label x label [] k apart h = cc
other_label x label (y ∷ table) zero apart h = ground (arith, apart, h, ap (str_eq x))
other_label x label (y ∷ table) (suc k) apart h =
    other_label x label table k (ground (arith, apart)) h

find_label-label_at :
    (table : List String) (k : ℕ) (label : String)
    → distinct table ≡ true
    → label_at table k ≡ some label
    → find_label label table ≡ some k
unfolding distinct label_at find_label later_place
find_label-label_at [] k label once h = cc
find_label-label_at (x ∷ table) zero label once h =
    let same : x ≡ label = ap (λ o. or_else o x) h in
    if-true (str_eq x label) _ _ (subst (λ y. str_eq x y ≡ true) same (eq_refl x))
find_label-label_at (x ∷ table) (suc k) label once h =
    rw
      (
        other_label x label table k (ground (arith, once)) h,
        find_label-label_at table k label (ground (arith, once)) h,
      )
      refl

-- Every bit has a name.
abbrev pub AreNamed : List String → List ℕ → Type 0
AreNamed table bits = All (λ b. b + 1 < length table) bits

label_there :
    (table : List String) (k : ℕ)
    → k < length table
    → (label : String) × (label_at table k ≡ some label)
unfolding label_at
label_there [] k h = absurd (omega arith)
label_there (x ∷ table) zero h = (x, refl)
label_there (x ∷ table) (suc k) h = label_there table k (omega (arith, h))

-- The names of bits are turned back into the bits, and none is left.
converted :
    (table : List String) (bits : List ℕ) (fuel mask : ℕ)
    → distinct table ≡ true
    → AreNamed table bits
    → length bits < fuel
    → ((name_bits table bits).0 ≡ [])
      × (length (name_bits table bits).1 ≡ length bits)
      × (convert_loop table fuel 0 (name_bits table bits).1 mask ≡ ([], set_all mask bits))
unfolding name_bits named_bit convert_loop set_all convert_step rest_of label_at
converted table [] zero mask once named room = absurd (omega arith)
converted table [] (suc fuel) mask once named room = (refl, refl, refl)
converted table (b ∷ bits) zero mask once named room = absurd (omega arith)
converted table (b ∷ bits) (suc fuel) mask once named room =
    let (label, there) = label_there table (b + 1) named.0 in
    let (none_left, size, back) =
      converted table bits fuel (set_bit mask b) once named.1 (omega (arith, room)) in
    let next : ◌≡◌ {A = ℕ} (b + 1) (suc b) = omega arith in
    let found = find_label-label_at table (b + 1) label once there ∙ ap some next in
    rw (there, named_bit) (none_left, ap suc size, rw (found, convert_step) back)

-- What is left of no names.
nothing_special :
    (specials : List (String × ℕ)) (fuel mask : ℕ)
    → special_loop specials fuel 0 [] mask ≡ ([], mask)
unfolding special_loop label_at
nothing_special specials zero mask = refl
nothing_special specials (suc fuel) mask = refl

read_back :
    (table : List String) (specials : List (String × ℕ)) (labels : List String) (mask : ℕ)
    → convert_loop table (suc (length labels)) 0 labels 0 ≡ ([], mask)
    → convert_bits table specials labels 0 ≡ ([], mask)
unfolding convert_bits
read_back table specials labels mask h =
    ap (λ (r : List String × ℕ). special_loop specials (suc (length r.0)) 0 r.0 r.1) h
    ∙ nothing_special specials 1 mask

-- One round at a label, by what is found for it.
round :
    (table : List String) (fuel i : ℕ) (labels : List String) (mask : ℕ) (label : String)
    (place : Option ℕ)
    → label_at labels i ≡ some label
    → find_label label table ≡ place
    → convert_loop table (suc fuel) i labels mask
      ≡ convert_loop table fuel
          (convert_step place i labels mask).0
          (convert_step place i labels mask).1
          (convert_step place i labels mask).2
unfolding convert_loop
round table fuel i labels mask label place here found = rw (here, convert_loop) (rw found refl)

first_name :
    (first : String) (table : List String)
    → convert_loop (first ∷ table) 2 0 (first ∷ []) 0 ≡ ([], 0)
unfolding convert_loop find_label label_at convert_step rest_of
first_name first table =
    round (first ∷ table) 1 0 (first ∷ []) 0 first (some 0) refl
      (if-true (str_eq first first) _ _ (eq_refl first))

there_and_back :
    (first : String) (table : List String) (specials : List (String × ℕ)) (bits : List ℕ)
    → distinct (first ∷ table) ≡ true
    → AreNamed (first ∷ table) bits
    → ((set_bits (first ∷ table) bits []).0 ≡ [])
      × (convert_bits (first ∷ table) specials (set_bits (first ∷ table) bits []).1 0
          ≡ ([], set_all 0 bits))
unfolding set_bits set_all
there_and_back first table specials [] once named =
    (refl, read_back (first ∷ table) specials (first ∷ []) 0 (first_name first table))
there_and_back first table specials (b ∷ bits) once named =
    let names = (name_bits (first ∷ table) (b ∷ bits)).1 in
    let size =
      (converted (first ∷ table) (b ∷ bits) (suc (suc (length bits))) 0 once named
        (omega arith)).1 in
    let (all_named, same, back) =
      converted (first ∷ table) (b ∷ bits) (suc (length names)) 0 once named
        (omega (arith, size)) in
    (all_named, read_back (first ∷ table) specials names (set_all 0 (b ∷ bits)) back)

-- For a mask of 64 bits and a table without repeated names that has a name for each of its bits:
-- the bits that are found are all named, and the names, read back, are all recognized and give the
-- mask. A mask without bits is named by the first name of the table, which gives no bit.
pub convert_bits-set_bits :
    (first : String) (table : List String) (specials : List (String × ℕ)) (mask : ℕ)
    → mask < 2 ^ 64
    → distinct (first ∷ table) ≡ true
    → AreNamed (first ∷ table) (find_set_bits mask [])
    → ((set_bits (first ∷ table) (find_set_bits mask []) []).0 ≡ [])
      × (convert_bits
            (first ∷ table)
            specials
            (set_bits (first ∷ table) (find_set_bits mask []) []).1
            0
          ≡ ([], mask))
convert_bits-set_bits first table specials mask small once named =
    let (all_named, back) =
      there_and_back first table specials (find_set_bits mask []) once named in
    (all_named, back ∙ ap (λ m. ([], m)) (set_all-find_set_bits mask small))

-- If the first of two names is not in the table and the second is, the second is converted, but it
-- is the first that leaves the list: the name that could not be read is lost, and the one that was
-- read is left over.
pub convert_loop-unknown_first :
    (table : List String) (unknown label : String) (n fuel mask : ℕ)
    → find_label unknown table ≡ none
    → find_label label table ≡ some (suc n)
    → convert_loop table (suc (suc (suc fuel))) 0 (unknown ∷ label ∷ []) mask
      ≡ (label ∷ [], set_bit mask n)
unfolding convert_loop convert_step rest_of label_at
convert_loop-unknown_first table unknown label n fuel mask lost known =
    round table (suc (suc fuel)) 0 (unknown ∷ label ∷ []) mask unknown none refl lost
    ∙ round table (suc fuel) 1 (unknown ∷ label ∷ []) mask label (some (suc n)) refl known
