-- ===== src/Alloc.antt =====
-- src/fffs_alloc.c: the order in which data sectors are tried, the list of sectors that are kept
-- back for compaction, which is `fs->compaction_reserve_sectors` up to its count, and the search
-- for a sector with room.
pub mod Cycle
pub mod Once
pub mod Searching
pub mod Chosen
use fastffs.Prelude.{
  ℕ, zero, suc, ◌+◌, List, [], ◌∷◌, Bool, true, false, ◌||◌, ◌==◌, ltb, leb, if◌then◌else◌,
}
use fastffs.Sector.{Geometry}

unfoldable pub next_data_sector : Geometry → ℕ → ℕ
next_data_sector g sector =
    let next = sector + 1 in
    if ltb next g.index_sectors || leb g.sector_count next then g.index_sectors else next

-- The loop stops at the first match.
unfoldable pub compaction_reserved : List ℕ → ℕ → Bool
compaction_reserved [] sector = false
compaction_reserved (reserved ∷ rest) sector =
    if reserved == sector then true else compaction_reserved rest sector

-- The sectors behind the one that is removed move up by one.
unfoldable pub compaction_reserve_remove : List ℕ → ℕ → List ℕ
compaction_reserve_remove [] sector = []
compaction_reserve_remove (reserved ∷ rest) sector =
    if reserved == sector then rest else reserved ∷ compaction_reserve_remove rest sector
