-- ===== src/Discovery/Oldest.antt =====
-- `find_oldest_index_sector` walks back from the active sector to the oldest of the sequence.
use native.Mathlib.Decide.{dec_lt}
use fastffs.Prelude.{
  ℕ, zero, suc, ◌+◌, ◌-◌, ◌%◌, ◌^◌, ◌≤◌, ◌<◌, ◌≡◌, ap, ap₂, ◌∙◌, arith, bit_and, Bool, false, ltb,
  leb, if◌then◌else◌, lt→ltb, ltb_ge, !=_self, List, get_or,
}
use fastffs.Bits.{bit_and-mask}
use fastffs.Bytes.{u8, u32}
use fastffs.Discovery.{prev_index_sector, find_oldest_from, find_oldest_index_sector}
use fastffs.Discovery.Newest.{age, serial_of}

-- The sector of age `k`.
abbrev pub sector_of : ℕ → ℕ → ℕ → ℕ
sector_of total active k = if leb k active then active - k else active + total - k

prev-sector_of :
    (total active k : ℕ)
    → active < total
    → k + 1 < total
    → prev_index_sector (sector_of total active k) total ≡ sector_of total active (k + 1)
unfolding prev_index_sector
prev-sector_of total active k h l = ground arith

expected-serial :
    (serial k : ℕ)
    → serial < 16
    → k < 15
    → u8 (bit_and (u32 ((serial + 16 - k) % 16 + 2 ^ 32 - 1)) 0x0f) ≡ (serial + 16 - (k + 1)) % 16
expected-serial serial k h l =
    omega (arith, bit_and-mask 4 (u32 ((serial + 16 - k) % 16 + 2 ^ 32 - 1)))

-- The arrays that the scan filled: the sectors of age below `count` are valid, with the serials in
-- step, and the others are not.
pub record IsNoted (total active serial count : ℕ) (valid : List Bool) (serials : List ℕ)
    : Type 0 where
  pub valid_at : (j : ℕ) → j < total → get_or valid j false ≡ ltb (age total active serial j) count
  pub serial_at :
      (j : ℕ)
      → j < total
      → age total active serial j < count
      → get_or serials j 0 ≡ serial_of total active serial j

module _ (total active serial count : ℕ) (valid : List Bool) (serials : List ℕ) (small : total ≤ 15)
    (inside : active < total) (byte : serial < 16) (fits : count ≤ total)
    (noted : IsNoted total active serial count valid serials) where
  at_age :
      (k : ℕ)
      → k < total
      → (get_or valid (sector_of total active k) false ≡ ltb k count)
        × (k < count → get_or serials (sector_of total active k) 0 ≡ (serial + 16 - k) % 16)
  at_age k h = (
    noted.valid_at (sector_of total active k) (ground arith) ∙ ap (λ a. ltb a count) same,
    λ lt.
        noted.serial_at (sector_of total active k) (ground arith) (ground arith)
        ∙ ap (λ a. (serial + 16 - a) % 16) same,
  )
    where
      same : age total active serial (sector_of total active k) ≡ k
      same = ground arith

  reached :
      (k : ℕ)
      → k + 1 ≡ count
      → ◌≡◌ {A = ℕ × ℕ}
          (sector_of total active k, k + 1)
          (sector_of total active (count - 1), count)
  reached k e = ap₂ {C = ℕ × ℕ} (λ x y. (sector_of total active x, y)) (omega arith) e

  find_oldest_from-count :
      (left k : ℕ)
      → k + 1 + left ≡ total
      → k < count
      → find_oldest_from valid serials total left
          (sector_of total active k)
          ((serial + 16 - k) % 16)
          (k + 1)
        ≡ (sector_of total active (count - 1), count)
  unfolding find_oldest_from
  find_oldest_from-count zero k e lt = reached k (omega arith)
  find_oldest_from-count (suc left) k e lt = elim (dec_lt (k + 1) count) [
    | yes more ↦
        rw
          (
            prev-sector_of total active k inside (omega arith),
            (at_age (k + 1) (omega arith)).0,
            lt→ltb (k + 1) count more,
            (at_age (k + 1) (omega arith)).1 more,
            expected-serial serial k byte (omega arith),
            !=_self ((serial + 16 - (k + 1)) % 16),
          )
          (find_oldest_from-count left (k + 1) (omega arith) more)
    | no done ↦
        rw
          (
            prev-sector_of total active k inside (omega arith),
            (at_age (k + 1) (omega arith)).0,
            ltb_ge (k + 1) count (omega arith),
          )
          (reached k (omega arith))
  ]

  -- The walk ends at the sector of the greatest age in the sequence, and counts it whole.
  pub find_oldest_index_sector-count :
      1 ≤ count
      → find_oldest_index_sector valid serials total active serial
        ≡ (sector_of total active (count - 1), count)
  unfolding find_oldest_index_sector
  find_oldest_index_sector-count h =
      ap₂ (λ x y. find_oldest_from valid serials total (total - 1) x y 1) at_start in_range
      ∙ find_oldest_from-count (total - 1) 0 (omega arith) h
    where
      at_start : active ≡ sector_of total active 0
      at_start = ground arith

      in_range : serial ≡ (serial + 16 - 0) % 16
      in_range = omega arith
