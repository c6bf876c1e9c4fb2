-- ===== src/Tests/Metadata.antt =====
-- Eight sectors of 64 bytes, the first two of them index sectors, and nothing written.
use fastffs.Prelude.{ℕ, ◌≡◌, ◌≤◌, ◌+◌, inl, refl, arith, [], ◌∷◌, ◌++◌, true, false}
use fastffs.Status.{ok}
use fastffs.Flash.Nor.{overlay}
use fastffs.Sector.Footer.{footer_bytes}
use fastffs.Metadata.Tombstone.{tombstone_metadata_for_slot}
use fastffs.Metadata.Deleted.{IsDeleted, tombstone_metadata_for_slot-IsDeleted}
use fastffs.Metadata.Root.{root_prefix, root_prefix_bytes}
use fastffs.Metadata.Prefix.{root_prefix-root_prefix_bytes}
use fastffs.Flash.Ram.{Cells, ram, cell_at, ram-IsNor, ram-IsReliable}
use fastffs.Fs.{Fs}
use fastffs.Sector.{Geometry, SectorReader, sector_reader_view}
use fastffs.Sector.Window.{Mirrors, Viewed, sector_reader_view-Viewed}
use fastffs.Settled.{Settled}
use fastffs.Metadata.{
  md_type_file_root, walk_record, MdWalk, Walking, decode_file_md_record, md_walk_next,
}
use fastffs.Metadata.Find.{match_live, read_md_for_slot, md_window}
use fastffs.Metadata.Step.{AfterStep, md_walk_next-Settled}
use fastffs.Metadata.Ends.{IsFound, read_md_for_slot-Settled}
use fastffs.Metadata.Window.{find_sector_free_window}
use fastffs.Metadata.Free.{IsFree, find_sector_free_window-IsFree}
use fastffs.Metadata.Program.{Extent, program_extent_metadata}
use fastffs.Metadata.Written.{written_record}
use fastffs.Metadata.Commit.{program_extent_metadata-decode}

abbrev small : Geometry
small = record { sector_size = 64; sector_count = 8; index_sectors = 2 }

abbrev blank : Cells
blank i = 0xff

-- Sector 3 has a live footer and the record of a root for slot 5.
abbrev written : Cells
written i =
    overlay 230
      (0x7e ∷ 5 ∷ 0 ∷ 0 ∷ 0 ∷ 1 ∷ 0 ∷ 0 ∷ 0 ∷ 20 ∷ 0 ∷ 13 ∷ 0 ∷ 0 ∷ 0 ∷ 0x11 ∷ footer_bytes 77 0x7e)
      i

-- A window that has read nothing.
abbrev fresh : SectorReader
fresh = record md_window { sector = 3 }

fresh-Mirrors : (cells : ℕ → ℕ) → Mirrors small cells fresh
fresh-Mirrors cells = record { bytes = λ some_read. absurd (some_read refl) }

sector_reader_view-Viewed_example :
    Viewed
      (ram 512 4)
      cell_at
      small
      fresh
      3
      54
      10
      blank
      (sector_reader_view (ram 512 4) small fresh 3 54 10 blank)
sector_reader_view-Viewed_example =
    sector_reader_view-Viewed (ram-IsNor 512 4) (ram-IsReliable 512 4) small (omega arith) fresh 3
      54 10 blank (fresh-Mirrors (cell_at blank)) (omega arith) (omega arith) (omega arith)

abbrev starting : Walking Cells
starting = record {
  walk = record { cursor = 54; claimed_data_end = 0; walk_sector = 3; active = true };
  window = fresh;
  ctx = blank;
}

md_walk_next-Settled_example :
    Settled (AfterStep small starting.walk) (md_walk_next (ram 512 4) small starting)
md_walk_next-Settled_example = md_walk_next-Settled (ram 512 4) small starting

read_md_for_slot-Settled_example :
    Settled
      (λ r (c' : Cells). IsFound small 3 5 match_live r)
      (read_md_for_slot (ram 512 4) small 3 5 match_live blank)
read_md_for_slot-Settled_example =
    read_md_for_slot-Settled (ram 512 4) small 3 5 match_live blank (omega arith)

find_sector_free_window-IsFree_example :
    Settled
      (IsFree (ram 512 4) cell_at small 3 8 blank)
      (find_sector_free_window (ram 512 4) small 16 3 8 5 true blank)
find_sector_free_window-IsFree_example =
    find_sector_free_window-IsFree (ram-IsNor 512 4) small 16 3 8 5 true (omega arith) refl
      (omega arith) (omega arith) blank

abbrev volume : Fs Cells
volume = record {
  ctx = blank;
  index_cache = [];
  alloc_map = 3 ∷ [];
  sector_size = 64;
  sector_count = 8;
  sector_shift = 0;
  index_sectors = 2;
  oldest_index_sector = 0;
  index_sequence_count = 1;
  active_index_sector = 0;
  next_index_offset = 8;
  active_index_serial = 0;
  alloc_cursor = 2;
  gc_cursor = 2;
  next_sector_serial = 1;
  scratch_size = 16;
  strict = false;
}

abbrev root : Extent
root = record {
  slot = 5;
  extent_type = md_type_file_root;
  data_off = 0;
  data_len = 20;
  span_len = 1;
  size_or_offset = 13;
  next_sector = 0;
  live = true;
}

program_extent_metadata-decode_example :
    (fs' : Fs Cells) × (program_extent_metadata (ram 512 4) 3 38 true root volume ≡ (ok tt, fs'))
    × ((walk : MdWalk) (window : SectorReader)
        → Mirrors small (cell_at fs'.ctx) window
        → 16 ≤ window.capacity
        → (w' : Walking Cells) × (decode_file_md_record
              (ram 512 4)
              small
              3
              (38 + 16)
              (record { walk = walk; window = window; ctx = fs'.ctx })
            ≡ (ok (written_record 38 root, walk_record), w')))
program_extent_metadata-decode_example =
    program_extent_metadata-decode (ram-IsNor 512 4) (ram-IsReliable 512 4) (omega arith) refl 3 38
      true root volume (omega arith, omega arith, omega arith, omega arith) (inl refl)
      (omega arith, omega arith, omega arith, omega arith, omega arith, omega arith, refl)
      (omega arith, λ committed. (omega arith, omega arith, inl refl)) (λ i lt. refl)

tombstone_metadata_for_slot-IsDeleted_example :
    Settled
      (IsDeleted (ram 512 4) cell_at small 3 5 written)
      (tombstone_metadata_for_slot (ram 512 4) small 3 5 written)
tombstone_metadata_for_slot-IsDeleted_example =
    tombstone_metadata_for_slot-IsDeleted (ram-IsNor 512 4) (omega arith) small 3 5 written

root_prefix-root_prefix_bytes_example :
    root_prefix 40 20 20 false (root_prefix_bytes (97 ∷ 98 ∷ []) ++ 7 ∷ 8 ∷ [])
    ≡ ok (record { name = 97 ∷ 98 ∷ []; payload_data_off = 44; payload_data_len = 16; cached = [] })
root_prefix-root_prefix_bytes_example =
    root_prefix-root_prefix_bytes (97 ∷ 98 ∷ []) (7 ∷ 8 ∷ []) 40 20 20 (omega arith) (omega arith)
      (omega arith) (omega arith)
