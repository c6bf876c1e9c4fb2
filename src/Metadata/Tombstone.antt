-- ===== src/Metadata/Tombstone.antt =====
-- `fffs_tombstone_metadata_for_slot` of src/fffs_file_md.c: the live record of a slot is deleted.
use fastffs.Prelude.{
  ℕ, zero, suc, ◌+◌, ◌-◌, ◌*◌, [], ◌∷◌, Option, some, none, Bool, true, false, not, ◌&&◌, ◌||◌,
  ◌==◌, if◌then◌else◌,
}
use fastffs.Status.{corrupt, hang, Action, pure, fail, gets, ◌>>=◌, ◌>>◌}
use fastffs.Lifecycle.{lifecycle_is_live, is_mixed, is_cleared, lifecycle_tombstoned}
use fastffs.Flash.{Backend, program_aligned}
use fastffs.Sector.{Geometry, footer_size, sector_type_file, SectorFooter, decode_sector_footer}
use fastffs.FsInfo.{FsInfo, note_committed_delete}
use fastffs.Metadata.{
  md_type_file_root, WalkResult, walk_record, end_invalid, MdRecord, Walking, view, md_walk_next,
}
use fastffs.Metadata.Find.{valid_data_sector, run_walk, start_walk}
use fastffs.Metadata.Window.{on_ctx}

-- What a deletion does to the counters, and whether it was accounted.
unfoldable pub accounted : Bool → Option MdRecord → FsInfo → Bool × FsInfo
accounted committed_delete none info = (false, info)
accounted committed_delete (some r) info =
    if committed_delete && r.type == md_type_file_root
    then (true, note_committed_delete r.size_or_offset info)
    else (false, info)

module _ {Ctx : Type 0} (b : Backend Ctx) (g : Geometry) where
  -- What the loop does with a step: `rest` is its next round. The record is the one that was deleted.
  unfoldable pub deleted_record :
      ℕ
      → ℕ
      → Action (Walking Ctx) (Option MdRecord)
      → MdRecord × WalkResult
      → Action (Walking Ctx) (Option MdRecord)
  deleted_record sector want_slot rest (r, walk_record) =
      if not r.live || not (r.slot == want_slot) then rest else do
        on_ctx (
            program_aligned b (sector * g.sector_size + r.record_start) (lifecycle_tombstoned ∷ []))
        pure (some r)
  deleted_record sector want_slot rest (r, end_invalid) = fail corrupt
  deleted_record sector want_slot rest (r, result) = pure none

  unfoldable pub delete_record : ℕ → ℕ → ℕ → Action (Walking Ctx) (Option MdRecord)
  delete_record zero sector want_slot = fail hang
  delete_record (suc fuel) sector want_slot = do
    let rest = delete_record fuel sector want_slot
    active ← gets (λ w. w.walk.active)
    if not active then pure none else (md_walk_next b g >>= deleted_record sector want_slot rest)

  -- A sector that is erased or deleted has no record to delete.
  unfoldable pub delete_under : ℕ → ℕ → SectorFooter → Action (Walking Ctx) (Option MdRecord)
  delete_under sector want_slot footer =
      if footer.erased
      then pure none
      else if not (footer.type == sector_type_file) || not footer.magic_valid
      then fail corrupt
      else if not (is_mixed footer.valid_bits) && is_cleared footer.tombstone_bits
      then pure none
      else if not (lifecycle_is_live footer.valid_bits footer.tombstone_bits)
      then fail corrupt
      else do start_walk g sector; delete_record (suc g.sector_size) sector want_slot

  unfoldable pub delete_in_sector : ℕ → ℕ → Action (Walking Ctx) (Option MdRecord)
  delete_in_sector sector want_slot = do
    footer_bytes ← view b g sector (g.sector_size - footer_size) footer_size
    delete_under sector want_slot (decode_sector_footer footer_bytes)

  unfoldable pub tombstone_metadata_for_slot : ℕ → ℕ → Action Ctx (Option MdRecord)
  tombstone_metadata_for_slot sector want_slot =
      if not (valid_data_sector g sector)
      then fail corrupt
      else run_walk (delete_in_sector sector want_slot)
