-- ===== src/Mount.antt =====
-- `fffs_mount` of src/fastffs.c: the checks of the options, the discovery of the index sequence, and
-- the state of the volume from there on. `*fs` is zero where a mount fails, so that only the flash
-- is left of it.
pub mod Ring
pub mod Stops
pub mod Ends
use fastffs.Prelude.{
  ℕ, ◌+◌, ◌*◌, ◌/◌, ◌%◌, List, Bool, false, not, ◌||◌, ◌!=◌, ltb, if◌then◌else◌, replicate,
}
use fastffs.Status.{Error, invalid, corrupt, Result, ok, err, Action, pure, fail, gets, ◌>>=◌, ◌>>◌}
use fastffs.Flash.{Backend, valid_backend}
use fastffs.IndexHeader.{header_size}
use fastffs.HashIndex.{empty_bucket, cache_config_valid, cache_required_size}
use fastffs.AllocMap.{map_mount_init}
use fastffs.Discovery.{IndexSequence, shifted_sector_size, find_index_sequence}
use fastffs.Fs.{Fs}
use fastffs.Journal.Compact.{index_finish_interrupted_compaction}
use fastffs.Journal.Replay.{replay_index}

-- `FFFS_MIN_SCRATCH_SIZE`
abbrev pub min_scratch_size : ℕ
min_scratch_size = 64

-- `struct fffs_mount_options`; a null pointer is a buffer of size 0. The words of the allocation map
-- are the caller's.
pub record MountOptions : Type 0 where
  pub index_cache_size : ℕ
  pub index_hash_table_size : ℕ
  pub scratch_size : ℕ
  pub strict : Bool
  pub alloc_map : List ℕ

-- The volume before the journal is read, on a flash of `size` bytes.
unfoldable pub mounted_at : {Ctx : Type 0} → ℕ → MountOptions → IndexSequence → Ctx → Fs Ctx
mounted_at size options sequence c = record {
  ctx = c;
  index_cache = replicate options.index_hash_table_size empty_bucket;
  alloc_map = options.alloc_map;
  sector_size = shifted_sector_size sequence.sector_shift;
  sector_count = size / shifted_sector_size sequence.sector_shift;
  sector_shift = sequence.sector_shift;
  index_sectors = sequence.index_sectors;
  oldest_index_sector = sequence.oldest_sector;
  index_sequence_count = sequence.count;
  active_index_sector = sequence.active_sector;
  next_index_offset =
      sequence.active_sector * shifted_sector_size sequence.sector_shift + header_size;
  active_index_serial = sequence.active_serial;
  alloc_cursor = sequence.index_sectors;
  gc_cursor = sequence.index_sectors;
  next_sector_serial = 1;
  scratch_size = options.scratch_size;
  strict = options.strict;
}

-- `fffs_alloc_map_mount_init` on the volume.
unfoldable pub initialized : {Ctx : Type 0} → Result (List ℕ) → Action (Fs Ctx) (Unit {0})
initialized (ok alloc_map) fs = (ok tt, record fs { alloc_map = alloc_map })
initialized (err e) fs = (err e, fs)

unfoldable pub alloc_map_mount_init : {Ctx : Type 0} → Action (Fs Ctx) (Unit {0})
alloc_map_mount_init fs =
    initialized (map_mount_init fs.sector_count fs.index_sectors fs.alloc_map) fs

-- `fffs_unmount` after an error.
unfoldable pub mounted_or_not : {Ctx : Type 0} → Result (Unit {0}) × Fs Ctx → Result (Fs Ctx) × Ctx
mounted_or_not (ok x, fs) = (ok fs, fs.ctx)
mounted_or_not (err e, fs) = (err e, fs.ctx)

module _ {Ctx : Type 0} (b : Backend Ctx) where
  -- The checks of the options.
  unfoldable pub mount_refused : MountOptions → Bool
  mount_refused options =
      not (valid_backend b)
      || not (cache_config_valid options.index_hash_table_size)
      || ltb options.index_cache_size (cache_required_size options.index_hash_table_size)
      || ltb options.scratch_size min_scratch_size

  -- The steps that read and write the journal.
  unfoldable pub mount_steps : Action (Fs Ctx) (Unit {0})
  mount_steps = do index_finish_interrupted_compaction b; alloc_map_mount_init; replay_index b

  unfoldable pub mount : MountOptions → Action Ctx (Fs Ctx)
  mount options = if mount_refused options then fail invalid else do
    sequence ← find_index_sequence b
    let sector_size = shifted_sector_size sequence.sector_shift
    if b.size % sector_size != 0 || ltb 0xffff (b.size / sector_size)
        then fail corrupt
        else (λ c. mounted_or_not (mount_steps (mounted_at b.size options sequence c)))
