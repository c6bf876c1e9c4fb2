-- ===== src/Tests/Alloc.antt =====
-- Eight sectors, the first two of them index sectors.
use fastffs.Prelude.{[], ◌∷◌, none, refl, ℕ, ◌-◌, ◌<◌, ◌≡◌, arith}
use fastffs.Sector.{Geometry}
use fastffs.Flash.Ram.{Cells, ram, cell_at, ram-IsNor}
use fastffs.Settled.{Settled}
use fastffs.Alloc.Once.{Volume, alloc_sector_once}
use fastffs.Alloc.Chosen.{IsTaken, alloc_sector_once-IsTaken}
use fastffs.Tests.Names.{volume, writer, second_writer}
use fastffs.Alloc.Cycle.{stepped_from, next_data_sector-reaches}

abbrev eight : Geometry
eight = record { sector_size = 64; sector_count = 8; index_sectors = 2 }

next_data_sector-reaches_example : (steps : ℕ) × (steps < 8 - 2) × (stepped_from eight 5 steps ≡ 3)
next_data_sector-reaches_example =
    next_data_sector-reaches eight 5 3 (omega arith) (omega arith) (omega arith) (omega arith)

abbrev with_writers : Volume Cells
with_writers = record {
  fs = volume;
  files = writer ∷ second_writer ∷ [];
  compaction_reserve = 11 ∷ [];
}

alloc_sector_once-IsTaken_example :
    Settled
      (IsTaken (ram 4096 4) cell_at with_writers 0 none)
      (alloc_sector_once (ram 4096 4) 0 none with_writers)
alloc_sector_once-IsTaken_example =
    alloc_sector_once-IsTaken (ram-IsNor 4096 4) with_writers 0 (omega arith) refl (omega arith)
      (omega arith) (omega arith) none (omega arith)
