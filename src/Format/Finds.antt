-- ===== src/Format/Finds.antt =====
-- After a format, a probe for the index sequence finds the one sector that the format has written.
use fastffs.Prelude.{
  ℕ, zero, suc, ◌+◌, ◌-◌, ◌*◌, ◌/◌, ◌%◌, ◌≤◌, ◌<◌, ◌≡◌, inl, refl, ap, sym, ◌∙◌, arith, List, [],
  ◌∷◌, Option, some, none, bit_and, Bool, true, false, ◌||◌, ◌==◌, ◌!=◌, ltb, lt→ltb, ltb_ge,
  if◌then◌else◌, length, get_or_beyond,
}
use native.Mathlib.Nat.{mod-add-div', mul-mod_left, mul_comm, mod_self, one-le-pow}
use native.Mathlib.Decide.{dec_lt}
use fastffs.Status.{ok}
use fastffs.Flash.{Backend, valid_backend, program_aligned, map_backend_status}
use fastffs.Flash.Nor.{IsNor, IsReliable, ErasesSectors, span, overlay, bit_and-0xff}
use fastffs.Flash.Commit.{program_aligned-writes}
use fastffs.IndexHeader.{same_bytes, valid_index_header, index_header_bytes, program_index_header}
use fastffs.IndexHeader.Program.{program_index_header-valid}
use fastffs.Discovery.{IndexSequence, shifted_sector_size, try_sector}
use fastffs.Discovery.Newest.{age, serial_of}
use fastffs.Discovery.Sequence.{IsJournal, try_sector-finds}
use fastffs.Journal.Rotate.{flash_erase}
use fastffs.Format.Shift.{mul-mod_zero, sector_some, one_more, shift_from-lt}
use fastffs.Format.{
  FormatOptions, format_sector_shift, asked_index_sectors, asked_sector_size, erase_size,
  format_with, format,
}

-- What the probe finds after a format.
abbrev pub formatted : ℕ → ℕ → IndexSequence
formatted total shift = record {
  index_sectors = total;
  sector_shift = shift;
  active_serial = 0;
  active_sector = 0;
  oldest_sector = 0;
  count = 1;
}

-- 8192 bytes are whole sectors, where a sector is not larger.
default_area-whole :
    (shift : ℕ) → shifted_sector_size shift ≤ 8192 → 8192 % shifted_sector_size shift ≡ 0
default_area-whole zero le = refl
default_area-whole (suc zero) le = refl
default_area-whole (suc (suc zero)) le = refl
default_area-whole (suc (suc (suc zero))) le = refl
default_area-whole (suc (suc (suc (suc zero)))) le = refl
default_area-whole (suc (suc (suc (suc (suc zero))))) le = refl
default_area-whole (suc (suc (suc (suc (suc (suc shift)))))) le =
    absurd (omega (arith, one-le-pow shift 2))

-- What is erased is whole sectors, where the flash is.
erase_size-whole :
    (size shift total : ℕ)
    → size % shifted_sector_size shift ≡ 0
    → erase_size size (shifted_sector_size shift) total % shifted_sector_size shift ≡ 0
unfolding erase_size
erase_size-whole size shift total whole =
    pick (ltb size _) size _ (λ e. whole)
      (λ e.
        pick (ltb _ (sector * total)) (sector * total) _
          (λ e'. mul-mod_zero sector total sector (mod_self sector))
          (λ e'.
            pick (ltb 8192 sector) sector 8192 (λ e''. mod_self sector)
              (λ e''. default_area-whole shift (ground arith))))
  where
    sector : ℕ
    sector = shifted_sector_size shift

    pick :
        (t : Bool) (x y : ℕ)
        → (t ≡ true → x % sector ≡ 0)
        → (t ≡ false → y % sector ≡ 0)
        → (if t then x else y) % sector ≡ 0
    pick true x y h k = h refl
    pick false x y h k = k refl

module _ {Ctx : Type 0} {b : Backend Ctx} {cell : Ctx → ℕ → ℕ} (nor : IsNor b cell)
    (works : IsReliable b) (pos : 0 < b.program_granule) (fits : b.size % b.program_granule ≡ 0)
    (even : 256 % b.program_granule ≡ 0) where
  -- The cells behind the header stay as they are.
  program_index_header-kept :
      (count shift serial : ℕ) (c c' : Ctx)
      → 8 ≤ b.size
      → program_index_header b 0 count shift serial c ≡ (ok tt, c')
      → (i : ℕ) → 8 ≤ i
      → cell c' i ≡ cell c i
  unfolding program_index_header index_header_bytes
  program_index_header-kept count shift serial c c' room r i hi =
      let (c1, r1, cells1) =
        program_aligned-writes nor works pos fits 0 (index_header_bytes count shift serial) c
          (omega arith) in
      let (c2, r2, cells2) =
        program_aligned-writes nor works pos fits 7 (0x7f ∷ []) c1 (omega arith) in
      ap (λ x. cell x.1 i) (sym r ∙ program_twice c1 c2 r1 r2)
      ∙ cells2 i
      ∙ untouched 7 (0x7f ∷ []) (omega arith) c1
      ∙ cells1 i
      ∙ untouched 0 (index_header_bytes count shift serial) (omega arith) c
    where
      program_twice :
          (c1 c2 : Ctx)
          → program_aligned b 0 (index_header_bytes count shift serial) c ≡ (ok tt, c1)
          → program_aligned b 7 (0x7f ∷ []) c1 ≡ (ok tt, c2)
          → program_index_header b 0 count shift serial c ≡ (ok tt, c2)
      program_twice c1 c2 r1 r2 = rw (r1, r2) refl

      untouched :
          (off : ℕ) (bytes : List ℕ)
          → off + length bytes ≤ 8
          → (c : Ctx) → bit_and (cell c i) (overlay off bytes i) ≡ cell c i
      untouched off bytes le c =
          rw (ltb_ge i off (omega arith), get_or_beyond bytes (i - off) 0xff (omega arith))
            (bit_and-0xff (cell c i) (nor.is_byte c i))

  erased_header :
      (cells : ℕ → ℕ) (off : ℕ)
      → ((i : ℕ) → i < 8 → cells (off + i) ≡ 0xff)
      → valid_index_header (span cells off 8) ≡ none
  unfolding valid_index_header same_bytes
  erased_header cells off h = rw (ap cells (at_start off) ∙ h 0 (omega arith)) refl
    where
      at_start : (off : ℕ) → off ≡ off + 0
      at_start off = omega arith

  IsJournal-formatted :
      (total shift : ℕ) (cells : ℕ → ℕ)
      → 2 ≤ total
      → total ≤ 15
      → total * shifted_sector_size shift ≤ b.size
      → b.size % shifted_sector_size shift ≡ 0
      → valid_index_header (span cells 0 8)
        ≡ some (record { index_sectors = total; sector_shift = shift; serial = 0 })
      → ((i : ℕ) → 8 ≤ i → i < total * shifted_sector_size shift → cells i ≡ 0xff)
      → IsJournal cells b.size total shift 0 0 1
  IsJournal-formatted total shift cells lo hi room whole first erased = record {
    small = hi;
    inside = omega arith;
    some_valid = omega arith;
    fits = omega arith;
    byte = omega arith;
    room = room;
    whole = whole;
    headers = headers;
  }
    where
      beyond :
          (j n size : ℕ) → 1 ≤ j → j < n → 256 ≤ size → (8 ≤ j * size) × (j * size + 8 ≤ n * size)
      beyond j n size lo lt le = grind arith

      headers :
          (j : ℕ)
          → j < total
          → valid_index_header (span cells (j * shifted_sector_size shift) 8) ≡ (
              if ltb (age total 0 0 j) 1
              then some (record {
                index_sectors = total;
                sector_shift = shift;
                serial = serial_of total 0 0 j;
              })
              else none)
      headers zero lt = ap (λ n. valid_index_header (span cells n 8)) (omega arith) ∙ first
      headers (suc j) lt =
          erased_header cells (suc j * shifted_sector_size shift) (λ i small.
            erased (suc j * shifted_sector_size shift + i) (omega (arith, apart))
              (omega (arith, apart)))
          ∙ sym (rw (stale j lt) refl)
        where
          apart :
              (8 ≤ suc j * shifted_sector_size shift)
              × (suc j * shifted_sector_size shift + 8 ≤ total * shifted_sector_size shift)
          apart =
              beyond (suc j) total (shifted_sector_size shift) (omega arith) lt (sector_some shift)

          stale : (j : ℕ) → suc j < total → ltb (age total 0 0 (suc j)) 1 ≡ false
          stale j lt = ground arith

  module _ (total shift : ℕ) (room : total * shifted_sector_size shift ≤ b.size) where
    abbrev to_erase : ℕ
    to_erase = erase_size b.size (shifted_sector_size shift) total

    -- The index area is erased, and nothing behind the flash.
    erase_size-covers : (to_erase ≤ b.size) × (total * shifted_sector_size shift ≤ to_erase)
    unfolding erase_size
    erase_size-covers =
        bounds (shifted_sector_size shift * total) (mul_comm (shifted_sector_size shift) total)
      where
        bounds :
            (area : ℕ)
            → area ≡ total * shifted_sector_size shift
            → let sectors =
                if ltb 8192 (shifted_sector_size shift) then shifted_sector_size shift else 8192 in
              let wanted = if ltb sectors area then area else sectors in
              let n = if ltb b.size wanted then b.size else wanted in
              (n ≤ b.size) × (total * shifted_sector_size shift ≤ n)
        bounds area e = ground (arith, room)

    erased_area :
        (c : Ctx)
        → ErasesSectors b (shifted_sector_size shift)
        → b.size % shifted_sector_size shift ≡ 0
        → (c' : Ctx) × (flash_erase b 0 to_erase c ≡ (ok tt, c'))
          × ((i : ℕ) → i < total * shifted_sector_size shift → cell c' i ≡ 0xff)
    unfolding flash_erase map_backend_status
    erased_area c erases whole = (
      (b.erase 0 to_erase c).1,
      rw works_here refl,
      λ i lt.
          nor.erase_sets 0 to_erase c i works_here
          ∙ inside i (omega (arith, lt, erase_size-covers)),
    )
      where
        zero_whole : (g : ℕ) → 0 % g ≡ 0
        zero_whole g = ap (λ x. x % g) (none g) ∙ mul-mod_left 0 g
          where
            none : (g : ℕ) → 0 ≡ 0 * g
            none g = omega arith

        works_here : (b.erase 0 to_erase c).0 ≡ 0
        works_here =
            erases 0 to_erase c (zero_whole (shifted_sector_size shift))
              (erase_size-whole b.size shift total whole) (omega (arith, erase_size-covers))

        inside :
            (i : ℕ)
            → i < to_erase
            → (if ltb i 0 then cell c i else if ltb i (0 + to_erase) then 0xff else cell c i) ≡ 0xff
        inside i lt = rw (ltb_ge i 0 (omega arith), lt→ltb i (0 + to_erase) (omega arith)) refl

    -- The tests on the geometry pass.
    fits_flash :
        2 ≤ total
        → total ≤ 15
        → b.size % shifted_sector_size shift ≡ 0
        → b.size / shifted_sector_size shift ≤ 0xffff
        → (ltb total 2
            || ltb 15 total
            || b.size % shifted_sector_size shift != 0
            || ltb (b.size / shifted_sector_size shift) total
            || ltb 0xffff (b.size / shifted_sector_size shift))
          ≡ false
    fits_flash lo hi whole few = ground (
      arith,
      enough (b.size / shifted_sector_size shift) (mod-add-div' b.size (shifted_sector_size shift)),
    )
      where
        enough :
            (q : ℕ)
            → b.size % shifted_sector_size shift + q * shifted_sector_size shift ≡ b.size
            → total ≤ q
        enough q e = elim (dec_lt q total) [
          | yes lt ↦
              absurd
                (omega (arith, one_more q total (shifted_sector_size shift) lt, sector_some shift))
          | no ge ↦ omega arith
        ]

  -- On NOR flash that reads, programs whole granules and erases whole sectors without failing, with a
  -- granule that divides 256, a valid backend, and options that ask for a supported sector size,
  -- which divides the flash into 65,535 sectors at most, and for 2 to 15 index sectors, which fit in,
  -- formatting succeeds; a probe with that sector size at the first sector then finds a sequence
  -- of one sector, the first one, with serial 0 and the geometry that was asked for.
  pub format-try_sector :
      (options : Option FormatOptions) (shift : ℕ) (c : Ctx)
      → valid_backend b ≡ true
      → format_sector_shift (asked_sector_size options) ≡ ok shift
      → 2 ≤ asked_index_sectors options
      → asked_index_sectors options ≤ 15
      → asked_index_sectors options * shifted_sector_size shift ≤ b.size
      → b.size % shifted_sector_size shift ≡ 0
      → b.size / shifted_sector_size shift ≤ 0xffff
      → ErasesSectors b (shifted_sector_size shift)
      → (c1 c2 : Ctx) × (format b options c ≡ (ok tt, c1))
        × (try_sector b shift 0 c1
            ≡ (ok (some (formatted (asked_index_sectors options) shift)), c2))
  unfolding format format_with format_sector_shift
  format-try_sector options shift c valid chosen lo hi room whole few erases =
      let total : ℕ = asked_index_sectors options in
      let (c0, r0, erased) = erased_area total shift room c erases whole in
      let (c1, r1, header) =
        program_index_header-valid nor works pos fits 0 total shift 0 c0 lo hi
          (omega (arith, small)) enough (λ i lt. erased (0 + i) (omega (arith, area, lt))) in
      let (c2, probed) =
        try_sector-finds nor works c1
          (IsJournal-formatted total shift (cell c1) lo hi room whole header (λ i behind lt.
            program_index_header-kept total shift 0 c0 c1 enough r1 i behind ∙ erased i lt))
          0 (omega arith) (omega arith) (inl (omega arith)) in
      (c1, c2, rw (valid, chosen, fits_flash total shift room lo hi whole few, r0) r1, probed)
    where
      small : shift < 0 + 16
      small =
          shift_from-lt 16 0
            (if asked_sector_size options == 0 then 4096 else asked_sector_size options) shift
            chosen

      area : 8 ≤ asked_index_sectors options * shifted_sector_size shift
      area = omega (
        arith,
        one_more 0 (asked_index_sectors options) (shifted_sector_size shift) (omega arith),
        sector_some shift,
      )

      enough : 0 + 8 ≤ b.size
      enough = omega (arith, area, room)
