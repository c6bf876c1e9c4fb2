-- ===== src/Tests/Names.antt =====
-- A volume with two files in its cache, and two open files.
use fastffs.Prelude.{◌+◌, ℕ, ◌≡◌, ◌⊎◌, ◌∷◌, [], arith, true, false, length, ltb, if◌then◌else◌}
use fastffs.Flash.Ram.{Cells, ram}
use fastffs.Sector.{Geometry}
use fastffs.HashIndex.{empty_bucket}
use fastffs.Fs.{Fs}
use fastffs.Settled.{Settled}
use fastffs.Names.Dir.{list}
use fastffs.Names.Listed.{occupied, list-Settled}
use fastffs.AllocMap.{maybe_used}
use fastffs.Files.{OpenFile}
use fastffs.Files.Reserve.{alloc_reserve_sectors, sector_in_reservation, reserve_after}
use fastffs.Files.Reserved.{IsReservation, IsReservable, reserve_start, reserve_after-IsReservation}

abbrev pub volume : Fs Cells
volume = record {
  ctx = λ i. 0xff;
  index_cache =
      record { slot = 40; head = 3 }
      ∷ record { slot = 5; head = 4 }
      ∷ empty_bucket
      ∷ empty_bucket
      ∷ [];
  alloc_map = 0x1b ∷ [];
  sector_size = 256;
  sector_count = 16;
  sector_shift = 0;
  index_sectors = 2;
  oldest_index_sector = 0;
  index_sequence_count = 1;
  active_index_sector = 0;
  next_index_offset = 16;
  active_index_serial = 0;
  alloc_cursor = 5;
  gc_cursor = 2;
  next_sector_serial = 9;
  scratch_size = 64;
  strict = false;
}

abbrev pub writer : OpenFile
writer = record {
  slot = 7;
  head = 5;
  current = 5;
  span_head = 5;
  data_offset = 0;
  current_write_offset = 12;
  current_metadata_offset = 230;
  current_needs_footer = true;
  reserve_first = 6;
  reserve_count = 1;
  wronly = true;
  closed = false;
}

abbrev pub second_writer : OpenFile
second_writer = record writer { slot = 8; head = 8; current = 8; span_head = 8; reserve_first = 9 }

list-Settled_example :
    Settled
      (λ x s. (x.1 ≡ occupied volume.index_cache) × (length x.0 ≡ (if ltb x.1 8 then x.1 else 8)))
      (list (ram 4096 4) 8 volume)
list-Settled_example = list-Settled (ram 4096 4) 8 volume (omega arith)

abbrev shape : Geometry
shape = record { sector_size = 256; sector_count = 16; index_sectors = 2 }

reserve_after-IsReservation_example :
    IsReservation shape
      (reserve_after shape (writer ∷ second_writer ∷ []) 0 (0x47f ∷ []) writer 5).0
    × ((s : ℕ)
        → sector_in_reservation
            (reserve_after shape (writer ∷ second_writer ∷ []) 0 (0x47f ∷ []) writer 5).0
            s
          ≡ true
        → (sector_in_reservation writer s ≡ true)
          ⊎ (IsReservable shape (writer ∷ second_writer ∷ []) 0 (0x47f ∷ []) s
              × (maybe_used 16
                    (reserve_after shape (writer ∷ second_writer ∷ []) 0 (0x47f ∷ []) writer 5).1
                    s
                  ≡ true)))
    × ((s : ℕ)
        → maybe_used 16 (0x47f ∷ []) s ≡ true
        → maybe_used 16
            (reserve_after shape (writer ∷ second_writer ∷ []) 0 (0x47f ∷ []) writer 5).1
            s
          ≡ true)
    × (((reserve_after shape (writer ∷ second_writer ∷ []) 0 (0x47f ∷ []) writer 5).0.reserve_count
          ≡ alloc_reserve_sectors)
        ⊎ (¬ IsReservable shape
            (writer ∷ second_writer ∷ [])
            0
            (reserve_after shape (writer ∷ second_writer ∷ []) 0 (0x47f ∷ []) writer 5).1
            (reserve_start writer 5
              + (reserve_after shape
                  (writer ∷ second_writer ∷ [])
                  0
                  (0x47f ∷ [])
                  writer
                  5).0.reserve_count)))
reserve_after-IsReservation_example =
    reserve_after-IsReservation shape (writer ∷ second_writer ∷ []) 0 (omega arith) (0x47f ∷ [])
      writer 5 (omega arith) (omega arith, λ some. (omega arith, omega arith))
