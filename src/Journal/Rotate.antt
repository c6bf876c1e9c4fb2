-- ===== src/Journal/Rotate.antt =====
-- The next index sector becomes the active one: it is erased first, and gets its header last.
use fastffs.Prelude.{ℕ, ◌+◌, ◌*◌, bit_and, leb, ltb, if◌then◌else◌}
use fastffs.Status.{Action, modify, ◌>>◌}
use fastffs.Bytes.{u8}
use fastffs.Flash.{Backend, map_backend_status}
use fastffs.IndexHeader.{header_size, program_index_header}
use fastffs.Fs.{Fs, on_flash}

unfoldable pub new_active_sector : {Ctx : Type 0} → Fs Ctx → ℕ
new_active_sector fs =
    let new_active = fs.active_index_sector + 1 in
    if leb fs.index_sectors new_active then 0 else new_active

-- What `rotate_index_begin` does to the fields once the sector is erased.
unfoldable pub begun : {Ctx : Type 0} → ℕ → Fs Ctx → Fs Ctx
begun new_active fs = record fs {
  active_index_sector = new_active;
  active_index_serial = u8 (bit_and (fs.active_index_serial + 1) 0x0f);
  next_index_offset = new_active * fs.sector_size + header_size;
  index_sequence_count =
      if ltb fs.index_sequence_count fs.index_sectors
      then fs.index_sequence_count + 1
      else fs.index_sequence_count;
}

module _ {Ctx : Type 0} (b : Backend Ctx) where
  -- `fs->backend.erase`
  unfoldable pub flash_erase : ℕ → ℕ → Action Ctx (Unit {0})
  flash_erase offset n c = let (status, c') = b.erase offset n c in (map_backend_status status, c')

  unfoldable pub rotate_index_begin : Action (Fs Ctx) (Unit {0})
  rotate_index_begin fs =
      (on_flash (flash_erase (new_active_sector fs * fs.sector_size) fs.sector_size)
          >> modify (begun (new_active_sector fs)))
        fs

  unfoldable pub rotate_index_commit : Action (Fs Ctx) (Unit {0})
  rotate_index_commit fs =
      on_flash
        (program_index_header b (fs.active_index_sector * fs.sector_size) fs.index_sectors
          fs.sector_shift fs.active_index_serial)
        fs
