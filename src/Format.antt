-- ===== src/Format.antt =====
-- `fffs_format` of src/fastffs.c and the shift of its sector size.
pub mod Shift
pub mod Finds
use fastffs.Prelude.{
  ℕ, zero, suc, ◌+◌, ◌*◌, ◌/◌, ◌%◌, ◌^◌, Option, some, none, Bool, true, false, not, ◌||◌, ◌==◌,
  ◌!=◌, ltb, leb, if◌then◌else◌,
}
use fastffs.Status.{Error, invalid, Result, ok, err, Action, next, pure, fail, ◌>>=◌, ◌>>◌}
use fastffs.Flash.{Backend, valid_backend}
use fastffs.IndexHeader.{program_index_header}
use fastffs.Discovery.{
  default_sector_shift, min_sector_shift, max_sector_shift, shifted_sector_size,
}
use fastffs.Journal.Rotate.{flash_erase}

-- `FFFS_DEFAULT_INDEX_SECTORS`, `FFFS_DEFAULT_SECTOR_SIZE`
abbrev pub default_index_sectors : ℕ
default_index_sectors = 2

abbrev pub default_sector_size : ℕ
default_sector_size = 4096

-- `struct fffs_format_options`; zero asks for the default.
pub record FormatOptions : Type 0 where
  pub index_sectors : ℕ
  pub sector_size : ℕ

-- The loop on `shift`, with the shifts left.
unfoldable pub shift_from : ℕ → ℕ → ℕ → Result ℕ
shift_from zero shift size = err invalid
shift_from (suc left) shift size =
    let rest = shift_from left (shift + 1) size in
    if shifted_sector_size shift == size then ok shift else rest

unfoldable pub format_sector_shift : ℕ → Result ℕ
format_sector_shift sector_size =
    let size = if sector_size == 0 then default_sector_size else sector_size in
    shift_from (max_sector_shift + 1) min_sector_shift size

unfoldable pub asked_index_sectors : Option FormatOptions → ℕ
asked_index_sectors none = default_index_sectors
asked_index_sectors (some options) =
    if options.index_sectors != 0 then options.index_sectors else default_index_sectors

unfoldable pub asked_sector_size : Option FormatOptions → ℕ
asked_sector_size none = 0
asked_sector_size (some options) = options.sector_size

-- At least the index area and 8192 bytes, where the flash has them.
unfoldable pub erase_size : ℕ → ℕ → ℕ → ℕ
erase_size flash_size sector_size index_sectors =
    let index_area_size = sector_size * index_sectors in
    let sectors = if ltb 8192 sector_size then sector_size else 8192 in
    let wanted = if ltb sectors index_area_size then index_area_size else sectors in
    if ltb flash_size wanted then flash_size else wanted

module _ {Ctx : Type 0} (b : Backend Ctx) where
  unfoldable pub format_with : ℕ → ℕ → Action Ctx (Unit {0})
  format_with index_sectors sector_shift =
      let sector_size = shifted_sector_size sector_shift in
      if ltb index_sectors 2
        || ltb 15 index_sectors
        || b.size % sector_size != 0
        || ltb (b.size / sector_size) index_sectors
        || ltb 0xffff (b.size / sector_size)
      then fail invalid
      else do
        flash_erase b 0 (erase_size b.size sector_size index_sectors)
        program_index_header b 0 index_sectors sector_shift 0

  unfoldable pub format : Option FormatOptions → Action Ctx (Unit {0})
  format options =
      if not (valid_backend b)
      then fail invalid
      else elim (format_sector_shift (asked_sector_size options)) [
        | ok sector_shift ↦ format_with (asked_index_sectors options) sector_shift
        | err e ↦ fail e
      ]
