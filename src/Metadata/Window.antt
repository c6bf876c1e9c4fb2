-- ===== src/Metadata/Window.antt =====
-- `fffs_flash_span_is_erased` of src/fffs_alloc.c and `fffs_find_sector_free_window` of
-- src/fffs_file_md.c: where in a data sector the next extent and its record go.
use fastffs.Prelude.{
  ℕ, zero, suc, ◌+◌, ◌-◌, ◌*◌, ◌%◌, ◌^◌, Bool, true, false, not, ◌&&◌, ◌||◌, ◌==◌, ltb, leb,
  if◌then◌else◌, take,
}
use fastffs.Status.{invalid, no_space, hang, ok, Action, pure, fail, gets, ◌>>=◌, ◌>>◌}
use fastffs.Bytes.{u16, bytes_erased}
use fastffs.Lifecycle.{lifecycle_is_live, is_cleared}
use fastffs.Flash.{Backend, flash_read}
use fastffs.Sector.{
  Geometry, footer_size, md_file_record_size, sector_type_file, SectorFooter, decode_sector_footer,
  mark_sector_full,
}
use fastffs.Metadata.{
  md_type_file_cont, WalkResult, walk_record, end_invalid, MdRecord, Walking, view, md_walk_next,
}
use fastffs.Metadata.Find.{run_walk, start_walk}

-- `FFFS_ALLOC_MAX_MD_RECORDS_PER_SECTOR`
abbrev pub max_md_records_per_sector : ℕ
max_md_records_per_sector = 32

pub record FreeWindow : Type 0 where
  pub data_off : ℕ
  pub record_off : ℕ
  pub needs_footer : Bool
  pub md_records : ℕ

-- What the loop knows of the records so far.
pub record Scanned : Type 0 where
  pub max_data_end : ℕ
  pub metadata_start : ℕ
  pub record_count : ℕ

-- The difference of two `size_t` wraps.
abbrev pub minus : ℕ → ℕ → ℕ
minus a b = (a + 2 ^ 64 - b) % 2 ^ 64

unfoldable pub with_record : MdRecord → Scanned → Scanned
with_record r s =
    let data_end = r.data_off + r.data_len in
    record {
      max_data_end = if ltb s.max_data_end data_end then data_end else s.max_data_end;
      metadata_start = r.record_start;
      record_count = s.record_count + 1;
    }

-- A call whose status is not looked at.
unfoldable pub quietly : {S : Type 0} → Action S (Unit {0}) → Action S (Unit {0})
quietly m s = (ok tt, (m s).1)

-- A call on the flash, under a walk.
unfoldable pub on_ctx : {Ctx A : Type 0} → Action Ctx A → Action (Walking Ctx) A
on_ctx m w = let (r, c) = m w.ctx in (r, record w { ctx = c })

module _ {Ctx : Type 0} (b : Backend Ctx) where
  -- The loop of `fffs_flash_span_is_erased`; without fuel it has not come to an end.
  unfoldable pub span_is_erased_from : ℕ → ℕ → ℕ → ℕ → Action Ctx (Unit {0})
  span_is_erased_from zero chunk_size offset size = fail hang
  span_is_erased_from (suc fuel) chunk_size offset size =
      let n = if ltb size chunk_size then size else chunk_size in
      let later = span_is_erased_from fuel chunk_size (offset + n) (size - n) in
      if size == 0 then pure tt else do
        chunk ← flash_read b offset n
        if not (bytes_erased (take n chunk)) then fail no_space else later

  -- `chunk_size` is `fs->scratch_size`; each round takes a byte at least, if that is not zero.
  unfoldable pub flash_span_is_erased : ℕ → ℕ → ℕ → Action Ctx (Unit {0})
  flash_span_is_erased chunk_size offset size =
      span_is_erased_from (suc size) chunk_size offset size

  module _ (g : Geometry) (scratch_size sector min_free reject_slot : ℕ)
      (normal_allocation : Bool) where
    abbrev full : Action (Walking Ctx) (Unit {0})
    full = quietly (on_ctx (mark_sector_full b g sector))

    unfoldable pub scanned :
        (Scanned → Action (Walking Ctx) Scanned)
        → Scanned
        → MdRecord × WalkResult
        → Action (Walking Ctx) Scanned
    scanned rest s (r, walk_record) =
        if normal_allocation && r.type == md_type_file_cont
        then full >> fail no_space
        else if r.live && r.slot == reject_slot
        then fail no_space
        else rest (with_record r s)
    scanned rest s (r, end_invalid) = fail no_space
    scanned rest s (r, result) = pure s

    -- The cursor falls with each round, as in the search for a record.
    unfoldable pub scan_records : ℕ → Scanned → Action (Walking Ctx) Scanned
    scan_records zero s = fail hang
    scan_records (suc fuel) s = do
      let rest = scan_records fuel
      active ← gets (λ w. w.walk.active)
      if not active then pure s else (md_walk_next b g >>= scanned rest s)

    -- The record goes under the lowest one, and the data above the highest.
    unfoldable pub window_at : Scanned → ℕ → Action (Walking Ctx) FreeWindow
    window_at s new_record_off =
        if leb max_md_records_per_sector s.record_count
        then full >> fail no_space
        else if ltb new_record_off s.max_data_end || ltb (new_record_off - s.max_data_end) min_free
        then (if normal_allocation then full >> fail no_space else fail no_space)
        else do
          on_ctx (
              flash_span_is_erased scratch_size (sector * g.sector_size + s.max_data_end)
                (new_record_off - s.max_data_end))
          pure (record {
            data_off = u16 s.max_data_end;
            record_off = u16 new_record_off;
            needs_footer = false;
            md_records = u16 s.record_count;
          })

    unfoldable pub window_between : Scanned → Action (Walking Ctx) FreeWindow
    window_between s = window_at s (minus s.metadata_start md_file_record_size)

    -- A sector without a footer, which has to be erased as a whole.
    unfoldable pub blank_window : Action (Walking Ctx) FreeWindow
    blank_window = do
      on_ctx (flash_span_is_erased scratch_size (sector * g.sector_size) g.sector_size)
      let footer_off = g.sector_size - footer_size
      if ltb footer_off md_file_record_size || ltb (footer_off - md_file_record_size) min_free
          then fail no_space
          else pure (record {
            data_off = 0;
            record_off = u16 (footer_off - md_file_record_size);
            needs_footer = true;
            md_records = 0;
          })

    unfoldable pub used_window : SectorFooter → Action (Walking Ctx) FreeWindow
    used_window footer =
        if not (footer.type == sector_type_file)
          || not footer.magic_valid
          || not (lifecycle_is_live footer.valid_bits footer.tombstone_bits)
        then fail no_space
        else if normal_allocation && is_cleared footer.full_bits
        then fail no_space
        else do
          start_walk g sector
          s ← scan_records (suc g.sector_size) (record {
            max_data_end = 0;
            metadata_start = g.sector_size - footer_size;
            record_count = 0;
          })
          window_between s

    unfoldable pub window_in_sector : Action (Walking Ctx) FreeWindow
    window_in_sector = do
      footer_bytes ← view b g sector (g.sector_size - footer_size) footer_size
      if (decode_sector_footer footer_bytes).erased
          then blank_window
          else used_window (decode_sector_footer footer_bytes)

    unfoldable pub find_sector_free_window : Action Ctx FreeWindow
    find_sector_free_window =
        if ltb sector g.index_sectors || leb g.sector_count sector
        then fail invalid
        else run_walk window_in_sector
