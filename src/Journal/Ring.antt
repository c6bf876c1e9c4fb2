-- ===== src/Journal/Ring.antt =====
-- The index sectors stay a ring in which the sequence goes from the oldest to the active one.
use fastffs.Prelude.{
  ℕ, ◌+◌, ◌-◌, ◌*◌, ◌%◌, ◌≤◌, ◌<◌, ◌≡◌, refl, arith, leb, ltb, if◌then◌else◌, ap, ◌∙◌, lt→ltb,
  ltb_ge,
}
use native.Mathlib.Nat.{mod-eq_of_lt, add-mul-mod_self_right}
use native.Mathlib.Decide.{dec_lt}
use fastffs.Status.{modify, ◌>>◌}
use fastffs.Bits.{bit_and-mask}
use fastffs.Flash.{Backend}
use fastffs.IndexHeader.{header_size}
use fastffs.Fs.{Fs, on_flash}
use fastffs.Triple.{Triple, Triple-modify, Triple-bind, Triple-weaken, Triple-on_flash}
use fastffs.Journal.Rotate.{
  rotate_index_begin, rotate_index_commit, new_active_sector, begun, flash_erase,
}

-- The place after the last record of a sector is behind the header and inside the sector.
abbrev pub IsRing : {Ctx : Type 0} → Fs Ctx → Type 0
IsRing fs =
    (2 ≤ fs.index_sectors)
    × (12 ≤ fs.sector_size)
    × (fs.oldest_index_sector < fs.index_sectors)
    × (1 ≤ fs.index_sequence_count)
    × (fs.index_sequence_count ≤ fs.index_sectors)
    × (fs.active_index_sector
        ≡ (fs.oldest_index_sector + fs.index_sequence_count - 1) % fs.index_sectors)
    × (fs.active_index_serial < 16)
    × (fs.active_index_sector * fs.sector_size + header_size ≤ fs.next_index_offset)
    × (fs.next_index_offset ≤ (fs.active_index_sector + 1) * fs.sector_size)

-- A sector is left for the rotation.
abbrev pub HasSpare : {Ctx : Type 0} → Fs Ctx → Type 0
HasSpare fs = IsRing fs × (fs.index_sequence_count < fs.index_sectors)

-- The sequence has a sector to compact.
abbrev pub HasOldest : {Ctx : Type 0} → Fs Ctx → Type 0
HasOldest fs = IsRing fs × (2 ≤ fs.index_sequence_count)

pub mod_below_twice : (x n : ℕ) → x < n + n → x % n ≡ (if ltb x n then x else x - n)
mod_below_twice x n h = elim (dec_lt x n) [
  | yes lt ↦ rw (lt→ltb x n lt) (mod-eq_of_lt {n = x} {m = n} lt)
  | no ge ↦ rw (ltb_ge x n (omega arith)) (
      ap (λ y. y % n) (over x n (omega arith))
      ∙ add-mul-mod_self_right (x - n) 1 n
      ∙ mod-eq_of_lt {n = x - n} {m = n} (omega arith))
]
  where
    over : (x n : ℕ) → n ≤ x → x ≡ x - n + 1 * n
    over x n h = omega arith

-- There is room for a record too.
abbrev pub HasRoom : {Ctx : Type 0} → Fs Ctx → Type 0
HasRoom fs =
    HasOldest fs × (fs.next_index_offset + 4 ≤ (fs.active_index_sector + 1) * fs.sector_size)

next_mod :
    (o k n a : ℕ)
    → o < n
    → 1 ≤ k
    → k < n
    → a ≡ (o + k - 1) % n
    → (if leb n (a + 1) then 0 else a + 1) ≡ (o + (k + 1) - 1) % n
next_mod o k n a ho hk hn e = ground (
  arith,
  mod_below_twice (o + k - 1) n (omega arith),
  mod_below_twice (o + (k + 1) - 1) n (omega arith),
)

room_in_sector : (a size : ℕ) → 12 ≤ size → a * size + 8 + 4 ≤ (a + 1) * size
room_in_sector a size h = grind arith

pub begun-IsRing :
    {Ctx : Type 0} (fs : Fs Ctx) → HasSpare fs → HasRoom (begun (new_active_sector fs) fs)
unfolding begun new_active_sector
begun-IsRing fs ((two, size, oldest, some_valid, le, active, serial, lo, hi), spare) =
    rw (lt→ltb fs.index_sequence_count fs.index_sectors spare) (
      (
        (
          two,
          size,
          oldest,
          omega arith,
          omega arith,
          next_mod fs.oldest_index_sector fs.index_sequence_count fs.index_sectors
              fs.active_index_sector oldest some_valid spare active,
          omega (arith, bit_and-mask 4 (fs.active_index_serial + 1)),
          omega arith,
          omega (arith, room),
        ),
        omega arith,
      ),
      room,
    )
  where
    room :
        new_active_sector fs * fs.sector_size + 8 + 4 ≤ (new_active_sector fs + 1) * fs.sector_size
    room = room_in_sector (new_active_sector fs) fs.sector_size size

module _ {Ctx : Type 0} (b : Backend Ctx) where
  -- The begin of a rotation with a spare sector adds it to the sequence, or fails and adds none.
  pub rotate_index_begin-Triple : Triple HasSpare (rotate_index_begin b) (λ _. HasRoom) IsRing
  unfolding rotate_index_begin new_active_sector
  rotate_index_begin-Triple = record {
    at = λ fs h.
        (steps (new_active_sector fs) (new_active_sector fs * fs.sector_size) fs.sector_size).at fs
          (h, refl);
  }
    where
      steps :
          (n offset size : ℕ)
          → Triple
              (λ fs. HasSpare fs × (new_active_sector fs ≡ n))
              (on_flash (flash_erase b offset size) >> modify (begun n))
              (λ _. HasRoom)
              IsRing
      steps n offset size =
          Triple-bind
            (Triple-weaken (Triple-on_flash (flash_erase b offset size) (λ fs c h. h)) (λ s h. h)
              (λ a s h. h) (λ s h. h.0.0))
            (λ _. Triple-modify (begun n) (λ s h. rw (← h.1) (begun-IsRing s h.0)))

  -- Calls that touch the flash alone.
  pub rotate_index_commit-Triple :
      {P : Fs Ctx → Type 0}
      → ((fs : Fs Ctx) (c : Ctx) → P fs → P (record fs { ctx = c }))
      → Triple P (rotate_index_commit b) (λ _. P) P
  unfolding rotate_index_commit
  rotate_index_commit-Triple keep = record { at = λ fs h. (Triple-on_flash _ keep).at fs h }
