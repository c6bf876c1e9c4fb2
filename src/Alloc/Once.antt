-- ===== src/Alloc/Once.antt =====
-- `alloc_sector_once` of src/fffs_alloc.c: the search for a data sector with room, from the cursor
-- on, and what it does to the file that the sector is for. The file is given by its place among the
-- open files.
use fastffs.Prelude.{
  ℕ, zero, suc, ◌-◌, List, [], ◌∷◌, ◌++◌, Option, some, none, Bool, true, false, not, ◌&&◌, ◌||◌,
  ◌==◌, ◌!=◌, ltb, leb, if◌then◌else◌, get_or, set, length,
}
use fastffs.Status.{no_space, Result, ok, err, Action, pure, fail, gets, modify, ◌>>=◌, ◌>>◌}
use fastffs.Flash.{Backend}
use fastffs.Fs.{Fs, geometry, on_flash}
use fastffs.AllocMap.{maybe_used, mark_used}
use fastffs.Metadata.Program.{min_usable_free}
use fastffs.Metadata.Window.{FreeWindow, find_sector_free_window}
use fastffs.Files.{OpenFile, sector_is_open_for_writing}
use fastffs.Files.Reserve.{sector_reserved_by_other, reserve_after}
use fastffs.Alloc.{next_data_sector, compaction_reserved}

-- `FFFS_ALLOC_TARGET_DENSITY`, `FFFS_COMPACTION_RESERVE_SECTORS`
abbrev pub alloc_target_density : ℕ
alloc_target_density = 6

abbrev pub compaction_reserve_sectors : ℕ
compaction_reserve_sectors = 5

abbrev pub no_file : OpenFile
no_file = record {
  slot = 0;
  head = 0;
  current = 0;
  span_head = 0;
  data_offset = 0;
  current_write_offset = 0;
  current_metadata_offset = 0;
  current_needs_footer = false;
  reserve_first = 0;
  reserve_count = 0;
  wronly = false;
  closed = false;
}

unfoldable pub is_skipped : Option ℕ → ℕ → Bool
is_skipped none sector = false
is_skipped (some skip) sector = sector == skip

unfoldable pub windowed : FreeWindow → OpenFile → OpenFile
windowed fw file = record file {
  data_offset = fw.data_off;
  current_write_offset = fw.data_off;
  current_metadata_offset = fw.record_off;
  current_needs_footer = fw.needs_footer;
}

-- The volume with its open files and its compaction reserve.
pub record Volume (Ctx : Type 0) : Type 0 where
  pub fs : Fs Ctx
  pub files : List OpenFile
  pub compaction_reserve : List ℕ

module _ {Ctx : Type 0} where
  unfoldable pub file_at : Volume Ctx → ℕ → OpenFile
  file_at v owner = get_or v.files owner no_file

  -- The tests that come before the sector is read.
  unfoldable pub is_passed_by : ℕ → Option ℕ → ℕ → Volume Ctx → Bool
  is_passed_by owner skip sector v =
      is_skipped skip sector
      || (sector_is_open_for_writing v.files sector
          || sector_reserved_by_other v.files owner sector)
      || compaction_reserved v.compaction_reserve sector
      || maybe_used v.fs.sector_count v.fs.alloc_map sector

  -- A new file leaves the first sectors with room to the compaction reserve.
  unfoldable pub keep_for_compaction : ℕ → Volume Ctx → Volume Ctx
  keep_for_compaction sector v = record v {
    fs = record v.fs { alloc_map = mark_used v.fs.sector_count v.fs.alloc_map sector };
    compaction_reserve = v.compaction_reserve ++ sector ∷ [];
  }

  -- The file with its window, and the map.
  unfoldable pub windowed_file : ℕ → ℕ → FreeWindow → Volume Ctx → OpenFile → OpenFile × List ℕ
  windowed_file owner sector fw v file =
      if fw.needs_footer
      then reserve_after (geometry v.fs) v.files owner v.fs.alloc_map (windowed fw file) sector
      else (windowed fw file, v.fs.alloc_map)

  unfoldable pub use_alloc_window : ℕ → ℕ → FreeWindow → Volume Ctx → Volume Ctx
  use_alloc_window owner sector fw v =
      let (file', alloc_map') = windowed_file owner sector fw v (file_at v owner) in
      record v { fs = record v.fs { alloc_map = alloc_map' }; files = set v.files owner file' }

  -- A sector that is as dense as it should be is left behind.
  unfoldable pub move_cursor : ℕ → FreeWindow → Volume Ctx → Volume Ctx
  move_cursor sector fw v =
      if leb alloc_target_density fw.md_records
      then record v { fs = record v.fs { alloc_cursor = next_data_sector (geometry v.fs) sector } }
      else v

  unfoldable pub take_sector : ℕ → ℕ → FreeWindow → Volume Ctx → Volume Ctx
  take_sector owner sector fw v = move_cursor sector fw (use_alloc_window owner sector fw v)

  unfoldable pub window_or_none :
      Volume Ctx → Result FreeWindow × Fs Ctx → Result (Option FreeWindow) × Volume Ctx
  window_or_none v (ok fw, fs) = (ok (some fw), record v { fs = fs })
  window_or_none v (err no_space, fs) = (ok none, record v { fs = fs })
  window_or_none v (err e, fs) = (err e, record v { fs = fs })

unfoldable pub first_sector : {Ctx : Type 0} → Fs Ctx → ℕ
first_sector fs =
    if ltb fs.alloc_cursor fs.index_sectors || leb fs.sector_count fs.alloc_cursor
    then fs.index_sectors
    else fs.alloc_cursor

module _ {Ctx : Type 0} (b : Backend Ctx) (owner : ℕ) where
  unfoldable pub window_in : ℕ → Action (Volume Ctx) (Option FreeWindow)
  window_in sector v = window_or_none v (
      on_flash
        (find_sector_free_window b (geometry v.fs) v.fs.scratch_size sector min_usable_free
          (file_at v owner).slot true)
        v.fs)

  -- What the loop does with the window of the sector, if there is one.
  unfoldable pub take_window :
      Bool → Action (Volume Ctx) ℕ → ℕ → Option FreeWindow → Action (Volume Ctx) ℕ
  take_window continuation later sector none = later
  take_window continuation later sector (some fw) = do
    spare ← gets (λ v. ltb (length v.compaction_reserve) compaction_reserve_sectors)
    if continuation && not fw.needs_footer
        then later
        else if not continuation && spare
        then (do modify (keep_for_compaction sector); later)
        else do modify (take_sector owner sector fw); pure sector

  -- The loop on `checked`, with the sectors left.
  unfoldable pub once_from : ℕ → Bool → Option ℕ → ℕ → Action (Volume Ctx) ℕ
  once_from zero continuation skip sector = fail no_space
  once_from (suc left) continuation skip sector = do
    next ← gets (λ v. next_data_sector (geometry v.fs) sector)
    let later = once_from left continuation skip next
    passed ← gets (is_passed_by owner skip sector)
    if passed
        then later
        else do found ← window_in sector; take_window continuation later sector found

  unfoldable pub alloc_sector_once : Option ℕ → Action (Volume Ctx) ℕ
  alloc_sector_once skip v =
      if leb v.fs.sector_count v.fs.index_sectors
      then (err no_space, v)
      else once_from (v.fs.sector_count - v.fs.index_sectors) ((file_at v owner).current != 0) skip
          (first_sector v.fs) v
