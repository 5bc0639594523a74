-- ===== src/Tests/BitNames.antt =====
-- Names of bits.
use Prim.Native.String.{String}
use rservr.Base.{◌≡◌, refl, List, [], ◌∷◌, ◌++◌, true, none, some, any, arith}
use rservr.BitData.{
  find_next_bit, next_bit, find_set_bits, set_bits_loop, unset_bit, set_bits, find_label,
  convert_bits,
}
use rservr.BitData.Positions.{positions, find_set_bits-positions}
use rservr.BitData.Tables.{bits_logging_mode}
use rservr.BitData.Names.{distinct, AreNamed, convert_bits-set_bits}

logging_names :
    bits_logging_mode
    ≡ "logging_none" ∷ "logging_minimal" ∷ "logging_normal" ∷ "logging_extended" ∷ "logging_debug"
      ∷ []
unfolding bits_logging_mode next_bit
logging_names = refl

find_set_bits-positions_example : find_set_bits 10 (7 ∷ []) ≡ (7 ∷ []) ++ positions 10 64 0
find_set_bits-positions_example = find_set_bits-positions 10 (7 ∷ [])

abbrev later_names : List String
later_names = "logging_minimal" ∷ "logging_normal" ∷ "logging_extended" ∷ "logging_debug" ∷ []

no_repeats : distinct ("logging_none" ∷ later_names) ≡ true
unfolding distinct any
no_repeats = refl

bits_of_five : find_set_bits 5 [] ≡ 0 ∷ 2 ∷ []
unfolding find_set_bits set_bits_loop find_next_bit next_bit unset_bit
bits_of_five = refl

all_named : AreNamed ("logging_none" ∷ later_names) (find_set_bits 5 [])
all_named = rw bits_of_five (omega arith, (omega arith, tt))

convert_bits-set_bits_example :
    ((set_bits ("logging_none" ∷ later_names) (find_set_bits 5 []) []).0 ≡ [])
    × (convert_bits
          ("logging_none" ∷ later_names)
          []
          (set_bits ("logging_none" ∷ later_names) (find_set_bits 5 []) []).1
          0
        ≡ ([], 5))
convert_bits-set_bits_example =
    convert_bits-set_bits "logging_none" later_names [] 5 (omega arith) no_repeats all_named

lost : find_label "loud" later_names ≡ none
unfolding find_label
lost = refl

known : find_label "logging_normal" ("logging_none" ∷ later_names) ≡ some 2
unfolding find_label
known = refl

lost_there : find_label "loud" ("logging_none" ∷ later_names) ≡ none
unfolding find_label
lost_there = refl
