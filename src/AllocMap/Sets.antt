-- ===== src/AllocMap/Sets.antt =====
-- The map as a set of sectors: what each operation does to the answer for every sector.
use fastffs.Prelude.{
  leb_lt, ℕ, ◌+◌, ◌-◌, ◌/◌, ◌%◌, ◌^◌, ◌≤◌, ◌≡◌, refl, arith, List, false, ◌==◌, ltb, if◌then◌else◌,
  get_or, set, length, length-set, ==_ne, ==_refl, le→leb, lt→ltb, ltb_ge, bit_and, bit_or,
}
use native.Mathlib.Decide.{ℕ_discrete, dec_le}
use fastffs.AllocMap.{map_mask, maybe_used, mark_used, mark_unknown}
use fastffs.AllocMap.Marks.{maybe_used-bit, mask_digit, set_bit, used_word, unknown_word}

-- The map has a digit for every sector.
abbrev pub Covers : List ℕ → ℕ → Type 0
Covers words count = (count + 31) / 32 ≤ length words

pub length-mark_used :
    (count : ℕ) (words : List ℕ) (s : ℕ) → length (mark_used count words s) ≡ length words
unfolding mark_used
length-mark_used count words s = elim (dec_le count s) [
  | yes beyond ↦ rw (le→leb count s beyond) refl
  | no within ↦
      rw (leb_lt count s (omega arith))
        (length-set words (s / 32) (bit_or (get_or words (s / 32) 0) (map_mask s)))
]

pub length-mark_unknown :
    (count : ℕ) (words : List ℕ) (s : ℕ) → length (mark_unknown count words s) ≡ length words
unfolding mark_unknown
length-mark_unknown count words s = elim (dec_le count s) [
  | yes beyond ↦ rw (le→leb count s beyond) refl
  | no within ↦
      rw (leb_lt count s (omega arith))
        (length-set words (s / 32) (bit_and (get_or words (s / 32) 0) (2 ^ 32 - 1 - map_mask s)))
]

same_sector :
    (count t s : ℕ) (words : List ℕ)
    → count ≤ s
    → maybe_used count words t ≡ (if t == s then false else maybe_used count words t)
same_sector count t s words h = elim (ℕ_discrete t s) [
  | yes e ↦ rw (e, ==_refl s, maybe_used-bit count words s, le→leb count s h) refl
  | no ne ↦ rw (==_ne t s ne) refl
]

-- In a map that has a bit for every sector, marking a sector used puts it in the map if it is one
-- of the sectors, and leaves the others as they were.
pub maybe_used-mark_used :
    (count : ℕ) (words : List ℕ)
    → Covers words count
    → (s t : ℕ)
    → maybe_used count (mark_used count words s) t
      ≡ (if t == s then ltb s count else maybe_used count words t)
unfolding mark_used
maybe_used-mark_used count words covers s t = elim (dec_le count s) [
  | yes beyond ↦
      rw (le→leb count s beyond, ltb_ge s count beyond) (same_sector count t s words beyond)
  | no within ↦
      rw
        (
          leb_lt count s (omega arith),
          lt→ltb s count (omega arith),
          mask_digit s,
          maybe_used-bit count words t,
          maybe_used-bit count
              (set words (s / 32) (bit_or (get_or words (s / 32) 0) (2 ^ (s % 32)))) t,
          set_bit words s t (bit_or (get_or words (s / 32) 0) (2 ^ (s % 32))) 1 (omega arith)
              (λ k h. used_word (get_or words (s / 32) 0) (s % 32) k),
        )
        (elim (ℕ_discrete t s) [
          | yes e ↦ rw (e, ==_refl s, leb_lt count s (omega arith)) refl
          | no ne ↦ rw (==_ne t s ne) refl
        ])
]

-- A sector that is marked unknown is no longer in use; the others stay as they were.
pub maybe_used-mark_unknown :
    (count : ℕ) (words : List ℕ)
    → Covers words count
    → (s t : ℕ)
    → maybe_used count (mark_unknown count words s) t
      ≡ (if t == s then false else maybe_used count words t)
unfolding mark_unknown
maybe_used-mark_unknown count words covers s t = elim (dec_le count s) [
  | yes beyond ↦ rw (le→leb count s beyond) (same_sector count t s words beyond)
  | no within ↦
      rw
        (
          leb_lt count s (omega arith),
          mask_digit s,
          maybe_used-bit count words t,
          maybe_used-bit count
              (set words (s / 32) (bit_and (get_or words (s / 32) 0) (2 ^ 32 - 1 - 2 ^ (s % 32))))
              t,
          set_bit words s t (bit_and (get_or words (s / 32) 0) (2 ^ 32 - 1 - 2 ^ (s % 32))) 0
              (omega arith)
              (λ k h. unknown_word (get_or words (s / 32) 0) (s % 32) k (omega arith) h),
        )
        (elim (ℕ_discrete t s) [
          | yes e ↦ rw (e, ==_refl s, leb_lt count s (omega arith)) refl
          | no ne ↦ rw (==_ne t s ne) refl
        ])
]
