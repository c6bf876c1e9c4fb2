-- ===== src/AllocMap/Bitset.antt =====
-- The three functions of src/fffs_bitset.c together.
use fastffs.Prelude.{
  ℕ, ◌*◌, ◌/◌, ◌%◌, ◌^◌, ◌<◌, ◌≡◌, refl, arith, bit_or, List, length, true, ◌==◌, if◌then◌else◌,
  get_or, set, ==_ne, ==_refl,
}
use native.Mathlib.Decide.{ℕ_discrete}
use fastffs.AllocMap.{bitset_get, bitset_set}
use fastffs.AllocMap.Marks.{test_digit, set_bit, used_word}

-- Setting a bit that the words have sets that bit and no other.
pub bitset_get-bitset_set :
    (words : List ℕ) (bit : ℕ)
    → bit < 32 * length words
    → (other : ℕ)
    → bitset_get (bitset_set words bit) other
      ≡ (if other == bit then true else bitset_get words other)
unfolding bitset_get bitset_set
bitset_get-bitset_set words bit inside other =
    rw
      (
        test_digit (get_or (set words (bit / 32) v) (other / 32) 0) (other % 32),
        test_digit (get_or words (other / 32) 0) (other % 32),
        set_bit words bit other v 1 (omega arith)
            (λ k h. used_word (get_or words (bit / 32) 0) (bit % 32) k),
      )
      (elim (ℕ_discrete other bit) [
        | yes e ↦ rw (e, ==_refl bit) refl
        | no ne ↦ rw (==_ne other bit ne) refl
      ])
  where
    v : ℕ
    v = bit_or (get_or words (bit / 32) 0) (2 ^ (bit % 32))
