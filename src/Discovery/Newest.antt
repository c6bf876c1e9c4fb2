-- ===== src/Discovery/Newest.antt =====
-- Which header the scan takes for the newest, one sector after the other.
use fastffs.Prelude.{
  ℕ, ◌+◌, ◌-◌, ◌*◌, ◌%◌, ◌^◌, ◌≤◌, ◌<◌, ◌≡◌, ◌≢◌, ◌⊎◌, ◌∙◌, inl, inr, refl, ap, arith, le→leb,
  lt→ltb, true, false, ◌&&◌, ◌||◌, not, ◌!=◌, ltb, leb, if◌then◌else◌,
}
use native.Mathlib.Decide.{ℕ_discrete, dec_lt, dec_le}
use native.Mathlib.Nat.{mul-mod_left, mul-div_cancel, one-le-pow}
use fastffs.Bits.{bit_and-mask}
use fastffs.Status.{ok}
use fastffs.IndexHeader.{Header, index_serial_newer}
use fastffs.Discovery.{Best, consider_index_header, shifted_sector_size}

pub newer-mod :
    (x y : ℕ) → x < 16 → y < 16 → index_serial_newer x y ≡ (x != y && ltb ((x + 16 - y) % 16) 8)
unfolding index_serial_newer
newer-mod x y hx hy = ground (arith, bit_and-mask 4 ((x + 2 ^ 32 - y) % 2 ^ 32))

-- The circular journal of `total` sectors: `active` is the newest, with serial `serial`, and a
-- sector of age `k` is the `k`-th before it.
module _ (total active serial : ℕ) where
  abbrev pub age : ℕ → ℕ
  age j = if leb j active then active - j else active + total - j

  abbrev pub serial_of : ℕ → ℕ
  serial_of j = (serial + 16 - age j) % 16

  abbrev pub best_at : ℕ → Best
  best_at j = record { found = true; active = j; serial = serial_of j }

abbrev pub no_best : Best
no_best = record { found = false; active = 0; serial = 0 }

-- What the scan holds before it comes to sector `i`, if the sectors of age below `count` are valid.
unfoldable pub best_before : ℕ → ℕ → ℕ → ℕ → ℕ → Best
best_before total active serial count i =
    if leb i (active + 1)
    then if leb 1 i && ltb (active + 1) (i + count)
      then best_at total active serial (i - 1)
      else no_best
    else if leb 10 count && ltb (active + total + 1) (i + count)
    then best_at total active serial (i - 1)
    else best_at total active serial active

module _ (total active serial count i : ℕ) where
  pub best_none :
      i ≤ active + 1
      → (i ≡ 0) ⊎ (i + count ≤ active + 1)
      → best_before total active serial count i ≡ no_best
  unfolding best_before
  best_none h k = ground arith

  pub best_up :
      1 ≤ i
      → i ≤ active + 1
      → active + 1 < i + count
      → best_before total active serial count i ≡ best_at total active serial (i - 1)
  unfolding best_before
  best_up h k l = rw (le→leb i (active + 1) k, le→leb 1 i h, lt→ltb (active + 1) (i + count) l) refl

  pub best_kept :
      active + 1 < i
      → (count ≤ 9) ⊎ (i + count ≤ active + total + 1)
      → best_before total active serial count i ≡ best_at total active serial active
  unfolding best_before
  best_kept h k = ground arith

  pub best_taken :
      active + 1 < i
      → 10 ≤ count
      → active + total + 1 < i + count
      → best_before total active serial count i ≡ best_at total active serial (i - 1)
  unfolding best_before
  best_taken h k l = ground arith

pub shifted_sector_size-pos : (shift : ℕ) → 0 < shifted_sector_size shift
shifted_sector_size-pos shift = omega (arith, one-le-pow shift 2)

-- A header that follows the best one by a serial is newer.
newer_next :
    (serial p q : ℕ)
    → serial < 16
    → q ≤ 15
    → p + 1 ≡ q
    → index_serial_newer ((serial + 16 - p) % 16) ((serial + 16 - q) % 16) ≡ true
newer_next serial p q h hq e =
    ground (arith, newer-mod ((serial + 16 - p) % 16) ((serial + 16 - q) % 16))

-- The serial wraps: beside the newest header one that is nine or more behind is taken for newer.
newer_wrapped :
    (serial p : ℕ)
    → serial < 16
    → 1 ≤ p
    → p ≤ 15
    → index_serial_newer ((serial + 16 - p) % 16) ((serial + 16 - 0) % 16) ≡ leb 9 p
newer_wrapped serial p h lo hi =
    ground (arith, newer-mod ((serial + 16 - p) % 16) ((serial + 16 - 0) % 16))

module _ (h : Header) (j : ℕ) (here : j < h.index_sectors) (best : Best) where
  consider_placed : consider_index_header (j * shifted_sector_size h.sector_shift) h best ≡ (
      if not best.found || index_serial_newer h.serial best.serial
      then ok (record { found = true; active = j; serial = h.serial })
      else ok best)
  unfolding consider_index_header
  consider_placed = ground (
    arith,
    mul-mod_left j (shifted_sector_size h.sector_shift),
    mul-div_cancel j (shifted_sector_size-pos h.sector_shift),
  )

module _ (total active serial count shift j : ℕ) (small : total ≤ 15) (inside : active < total)
    (some_valid : 1 ≤ count) (fits : count ≤ total) (byte : serial < 16) (here : j < total) where
  abbrev pub header : Header
  header = record {
    index_sectors = total;
    sector_shift = shift;
    serial = serial_of total active serial j;
  }

  here_taken : best_at total active serial j ≡ best_at total active serial (j + 1 - 1)
  here_taken = ap (best_at total active serial) (omega arith)

  -- The header of sector `j` replaces a best one that is no header, or that it is newer than.
  takes :
      (best : Best)
      → best_before total active serial count j ≡ best
      → best_before total active serial count (j + 1) ≡ best_at total active serial (j + 1 - 1)
      → (best.found ≡ false)
        ⊎ (index_serial_newer (serial_of total active serial j) best.serial ≡ true)
      → consider_index_header
          (j * shifted_sector_size shift)
          header
          (best_before total active serial count j)
        ≡ ok (best_before total active serial count (j + 1))
  takes best e e' why = rw (e, e', ← here_taken, consider_placed header j here best) (ground arith)

  keeps :
      (best : Best)
      → best_before total active serial count j ≡ best
      → best_before total active serial count (j + 1) ≡ best
      → best.found ≡ true
      → index_serial_newer (serial_of total active serial j) best.serial ≡ false
      → consider_index_header
          (j * shifted_sector_size shift)
          header
          (best_before total active serial count j)
        ≡ ok (best_before total active serial count (j + 1))
  keeps best e e' why old = rw (e, e', consider_placed header j here best) (ground arith)

  next_newer :
      1 ≤ j
      → j ≢ active + 1
      → index_serial_newer (serial_of total active serial j) (serial_of total active serial (j - 1))
        ≡ true
  next_newer h k =
      newer_next serial (age total active serial j) (age total active serial (j - 1)) byte
        (ground arith) (ground arith)

  wrapped_newer :
      active < j
      → index_serial_newer (serial_of total active serial j) (serial_of total active serial active)
        ≡ leb 9 (age total active serial j)
  wrapped_newer h =
      ap (index_serial_newer (serial_of total active serial j)) (ground arith)
      ∙ newer_wrapped serial (age total active serial j) byte (ground arith) (ground arith)

  consider_before :
      age total active serial j < count
      → j ≤ active
      → consider_index_header
          (j * shifted_sector_size shift)
          header
          (best_before total active serial count j)
        ≡ ok (best_before total active serial count (j + 1))
  consider_before valid up = elim (dec_lt (active + 1) (j + count)) [
    | no first ↦
        takes no_best (best_none total active serial count j (omega arith) (inr (omega arith)))
          (best_up total active serial count (j + 1) (omega arith) (omega arith) (ground arith))
          (inl refl)
    | yes later ↦ elim (ℕ_discrete j 0) [
      | yes start ↦
          takes no_best (best_none total active serial count j (omega arith) (inl start))
            (best_up total active serial count (j + 1) (omega arith) (omega arith) (ground arith))
            (inl refl)
      | no more ↦
          takes (best_at total active serial (j - 1))
            (best_up total active serial count j (omega arith) (omega arith) later)
            (best_up total active serial count (j + 1) (omega arith) (omega arith) (ground arith))
            (inr (next_newer (omega arith) (omega arith)))
    ]
  ]

  consider_after :
      age total active serial j < count
      → active < j
      → consider_index_header
          (j * shifted_sector_size shift)
          header
          (best_before total active serial count j)
        ≡ ok (best_before total active serial count (j + 1))
  consider_after valid up = elim (dec_le 10 count) [
    | no few ↦
        keeps (best_at total active serial active) (held (inl (omega arith)))
          (best_kept total active serial count (j + 1) (omega arith) (inl (omega arith))) refl
          (wrapped_newer up ∙ ground arith)
    | yes many ↦ elim (dec_lt (active + total + 1) (j + count)) [
      | no first ↦
          takes (best_at total active serial active) (held (inr (omega arith)))
            (best_taken total active serial count (j + 1) (omega arith) many (ground arith))
            (inr (wrapped_newer up ∙ ground arith))
      | yes later ↦
          takes (best_at total active serial (j - 1))
            (best_taken total active serial count j (omega arith) many later)
            (best_taken total active serial count (j + 1) (omega arith) many (omega arith))
            (inr (next_newer (omega arith) (omega arith)))
    ]
  ]
    where
      after_wrap : active + total < j + count
      after_wrap = ground arith

      held :
          (count ≤ 9) ⊎ (j + count ≤ active + total + 1)
          → best_before total active serial count j ≡ best_at total active serial active
      held why = elim (ℕ_discrete j (active + 1)) [
        | yes e ↦
            best_up total active serial count j (omega arith) (omega arith) (omega arith)
            ∙ ap (best_at total active serial) (omega arith)
        | no ne ↦ best_kept total active serial count j (omega arith) why
      ]

  pub consider_valid :
      age total active serial j < count
      → consider_index_header
          (j * shifted_sector_size shift)
          header
          (best_before total active serial count j)
        ≡ ok (best_before total active serial count (j + 1))
  consider_valid valid = elim (dec_le j active) [
    | yes up ↦ consider_before valid up
    | no down ↦ consider_after valid (omega arith)
  ]

  pub consider_other :
      count ≤ age total active serial j
      → best_before total active serial count (j + 1) ≡ best_before total active serial count j
  unfolding best_before
  consider_other other = ground arith
