-- ===== src/Word/Boxing.antt =====
-- src/single_interpreters/boxing.hpp: integers as tagged words. A word is a 64-bit pattern.
use lama_sm_interpreter.Prelude.{
  ℕ, ◌+◌, ◌*◌, ◌/◌, ◌%◌, ◌^◌, ◌<◌, ◌≤◌, ◌≡◌, ◌⊎◌, ◌↔◌, ap, sym, ◌∙◌, subst, Bool, true, arith, leb,
  ◌==◌, if◌then◌else◌,
}

-- `(value << 1) | 1`: the shift leaves the lowest bit clear.
unfoldable pub box_int : ℕ → ℕ
box_int value = value * 2 % 2 ^ 64 + 1

-- `value >> 1` on an `int64_t` copies the sign bit.
unfoldable pub unbox : ℕ → ℕ
unbox value = value / 2 + (if leb (2 ^ 63) value then 2 ^ 63 else 0)

unfoldable pub is_boxed_int : ℕ → Bool
is_boxed_int value = value % 2 == 1

-- The patterns of the integers from - 2 ^ 62 to 2 ^ 62 - 1.
abbrev pub FitsBox : ℕ → Type 0
FitsBox value = (value < 2 ^ 62) ⊎ (2 ^ 64 ≤ value + 2 ^ 62) × (value < 2 ^ 64)

pub unbox-box_int :
    (value : ℕ)
    → FitsBox value
    → (unbox (box_int value) ≡ value)
      × (is_boxed_int (box_int value) ≡ true)
      × (box_int value < 2 ^ 64)
unfolding unbox box_int is_boxed_int
unbox-box_int value h = ground arith

box_int-unbox :
    (word : ℕ)
    → word < 2 ^ 64
    → is_boxed_int word ≡ true
    → (box_int (unbox word) ≡ word) × FitsBox (unbox word)
unfolding unbox box_int is_boxed_int
box_int-unbox word h tagged = ground arith

-- Boxing and unboxing are inverse to each other, between the integers of 63 bits and the tagged 64-bit
-- words: an integer of 63 bits boxes to a word exactly where that is a tagged 64-bit word that
-- unboxes to the integer.
pub box_int-unbox_iff :
    (value word : ℕ)
    → (FitsBox value × (box_int value ≡ word))
      ↔ ((word < 2 ^ 64) × (is_boxed_int word ≡ true) × (unbox word ≡ value))
box_int-unbox_iff value word = (there, back)
  where
    there :
        FitsBox value × (box_int value ≡ word)
        → (word < 2 ^ 64) × (is_boxed_int word ≡ true) × (unbox word ≡ value)
    there (fits, e) =
        let (round_trip, tagged, small) = unbox-box_int value fits in
        (omega arith, ap is_boxed_int (sym e) ∙ tagged, ap unbox (sym e) ∙ round_trip)

    back :
        (word < 2 ^ 64) × (is_boxed_int word ≡ true) × (unbox word ≡ value)
        → FitsBox value × (box_int value ≡ word)
    back (small, tagged, e) =
        let (round_trip, fits) = box_int-unbox word small tagged in
        (subst FitsBox e fits, ap box_int (sym e) ∙ round_trip)
