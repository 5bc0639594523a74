-- ===== src/BitData.antt =====
-- programs/other/rsvbits/bit-data.cpp (and bit-data.hpp): the numbers and the names of the bits of a
-- mask of 64 bits, and the mask of a list of names.
pub mod Positions
pub mod Tables
pub mod Masks
pub mod Names
use Prim.Native.Nat.{bit_and, bit_or}
use Prim.Native.String.{String}
use text.Mathlib.Text.{◌==◌ as str_eq}
use rservr.Base.{
  ℕ, zero, suc, ◌+◌, ◌-◌, ◌*◌, ◌/◌, ◌%◌, ◌^◌, List, [], ◌∷◌, ◌++◌, Bool, true, false, not, Option,
  none, some, ◌==◌, leb, ltb, if◌then◌else◌, length, is_empty,
}

abbrev pub bits_of_set : ℕ
bits_of_set = 64

-- The loop of `find_next_bit`.
unfoldable pub next_bit : ℕ → ℕ → ℕ → Option ℕ
next_bit zero position mask = none
next_bit (suc fuel) position mask =
    let more = next_bit fuel (position + 1) (mask / 2) in
    if mask % 2 == 1 then some position else more

-- -1 is `none`.
unfoldable pub find_next_bit : ℕ → Option ℕ
find_next_bit mask = if mask == 0 then none else next_bit bits_of_set 0 mask

unfoldable pub unset_bit : ℕ → ℕ → ℕ
unset_bit mask bit = if leb bits_of_set bit then 0 else bit_and mask (2 ^ 64 - 1 - 2 ^ bit)

unfoldable pub set_bit : ℕ → ℕ → ℕ
set_bit mask bit = bit_or mask (if leb bits_of_set bit then 0 else 2 ^ bit)

unfoldable pub set_bits_loop : ℕ → ℕ → List ℕ → List ℕ
set_bits_loop zero mask found = found
set_bits_loop (suc fuel) mask found = elim (find_next_bit mask) [
  | none ↦ found
  | some position ↦ set_bits_loop fuel (unset_bit mask position) (found ++ (position ∷ []))
]

-- One round for each bit, and one to see that none is left.
unfoldable pub find_set_bits : ℕ → List ℕ → List ℕ
find_set_bits mask found = set_bits_loop (suc bits_of_set) mask found

-- `resize`, with empty names.
unfoldable pub put_label : ℕ → String → List String → List String
put_label zero label [] = label ∷ []
put_label zero label (x ∷ table) = label ∷ table
put_label (suc n) label [] = "" ∷ put_label n label []
put_label (suc n) label (x ∷ table) = x ∷ put_label n label table

-- AUTO_ADD: the name of a bit stands one place after its number; a mask without bits has no name.
add_label : Option ℕ → String → List String → List String
unfolding put_label
add_label none label table = table
add_label (some position) label table = put_label (position + 1) label table

unfoldable pub load : List (String × ℕ) → List String → List String
unfolding add_label find_next_bit
load [] table = table
load ((label, mask) ∷ rest) table = load rest (add_label (find_next_bit mask) label table)

unfoldable pub label_at : List String → ℕ → Option String
label_at [] n = none
label_at (x ∷ table) zero = some x
label_at (x ∷ table) (suc n) = label_at table n

named_bit : Option String → ℕ → List ℕ × List String → List ℕ × List String
named_bit none bit (left, labels) = (bit ∷ left, labels)
named_bit (some label) bit (left, labels) = (left, label ∷ labels)

-- AUTO_LABEL_TAB's loop: the bits without a name stay, and the names of the others are added.
unfoldable pub name_bits : List String → List ℕ → List ℕ × List String
unfolding named_bit
name_bits table [] = ([], [])
name_bits table (bit ∷ bits) = named_bit (label_at table (bit + 1)) bit (name_bits table bits)

-- `set_bits_*`, with a table that has its first name.
unfoldable pub set_bits : List String → List ℕ → List String → List ℕ × List String
unfolding name_bits
set_bits [] bits labels = (bits, labels)
set_bits (first ∷ table) [] labels = ([], labels ++ (first ∷ []))
set_bits (first ∷ table) (bit ∷ bits) labels =
    let (left, names) = name_bits (first ∷ table) (bit ∷ bits) in (left, labels ++ names)

later_place : Option ℕ → Option ℕ
later_place none = none
later_place (some n) = some (suc n)

-- `find`
unfoldable pub find_label : String → List String → Option ℕ
unfolding later_place
find_label label [] = none
find_label label (x ∷ table) =
    if str_eq x label then some zero else later_place (find_label label table)

unfoldable pub rest_of : List String → List String
rest_of [] = []
rest_of (x ∷ labels) = labels

-- The first loop of AUTO_BITS_CREATE at one label: the label that leaves the list is always its
-- first.
convert_step : Option ℕ → ℕ → List String → ℕ → ℕ × List String × ℕ
unfolding rest_of set_bit
convert_step none i labels mask = (i + 1, labels, mask)
convert_step (some zero) i labels mask = (i, rest_of labels, mask)
convert_step (some (suc n)) i labels mask = (i, rest_of labels, set_bit mask n)

unfoldable pub convert_loop : List String → ℕ → ℕ → List String → ℕ → List String × ℕ
unfolding convert_step
convert_loop table zero i labels mask = (labels, mask)
convert_loop table (suc fuel) i labels mask = elim (label_at labels i) [
  | none ↦ (labels, mask)
  | some label ↦
      let (next, left, set) = convert_step (find_label label table) i labels mask in
      convert_loop table fuel next left set
]

-- SPECIAL_MATCH: the mask of a name that stands for several bits.
unfoldable pub special_mask : String → List (String × ℕ) → Option ℕ
special_mask label [] = none
special_mask label ((name, mask) ∷ rest) =
    if str_eq label name then some mask else special_mask label rest

special_step : Option ℕ → ℕ → List String → ℕ → ℕ × List String × ℕ
unfolding rest_of
special_step none i labels mask = (i + 1, labels, mask)
special_step (some more) i labels mask = (i, rest_of labels, bit_or mask more)

unfoldable pub special_loop : List (String × ℕ) → ℕ → ℕ → List String → ℕ → List String × ℕ
unfolding special_step
special_loop specials zero i labels mask = (labels, mask)
special_loop specials (suc fuel) i labels mask = elim (label_at labels i) [
  | none ↦ (labels, mask)
  | some label ↦
      let (next, left, set) = special_step (special_mask label specials) i labels mask in
      special_loop specials fuel next left set
]

-- `convert_bits_*`: each round goes on to the next label or takes one away.
unfoldable pub convert_bits : List String → List (String × ℕ) → List String → ℕ → List String × ℕ
unfolding convert_loop special_loop
convert_bits table specials labels mask =
    let (left, set) = convert_loop table (suc (length labels)) 0 labels mask in
    special_loop specials (suc (length left)) 0 left set
