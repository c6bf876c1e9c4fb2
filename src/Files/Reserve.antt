-- ===== src/Files/Reserve.antt =====
-- The reservations of src/fffs_alloc.c: the data sectors behind its own that an open writer keeps for
-- itself. A reserved sector is marked as used in the allocation map. The file that an operation is
-- for is given by its place in the list.
use fastffs.Prelude.{
  ℕ, zero, suc, ◌+◌, ◌-◌, ◌/◌, List, [], ◌∷◌, Bool, true, false, not, ◌&&◌, ◌||◌, ◌==◌, ◌!=◌, ltb,
  leb, if◌then◌else◌,
}
use fastffs.Bytes.{u16}
use fastffs.Sector.{Geometry}
use fastffs.AllocMap.{maybe_used, mark_used, mark_range_unknown}
use fastffs.Files.{OpenFile, sector_is_open_for_writing}

-- `FFFS_ALLOC_RESERVE_SECTORS`
abbrev pub alloc_reserve_sectors : ℕ
alloc_reserve_sectors = 4

unfoldable pub sector_in_reservation : OpenFile → ℕ → Bool
sector_in_reservation file sector =
    if file.reserve_count == 0
    then false
    else leb file.reserve_first sector && ltb sector (u16 (file.reserve_first + file.reserve_count))

-- The loop over the open files, of which the next is at the place `n`.
unfoldable pub reserved_by_other_from : List OpenFile → ℕ → ℕ → ℕ → Bool
reserved_by_other_from [] n owner sector = false
reserved_by_other_from (file ∷ files) n owner sector =
    let later = reserved_by_other_from files (n + 1) owner sector in
    if n == owner || file.closed || not file.wronly
    then later
    else if sector_in_reservation file sector
    then true
    else later

unfoldable pub sector_reserved_by_other : List OpenFile → ℕ → ℕ → Bool
sector_reserved_by_other files owner sector = reserved_by_other_from files 0 owner sector

-- The file, and the map, in which the sectors are unknown again.
unfoldable pub release_reservation : ℕ → List ℕ → OpenFile → OpenFile × List ℕ
release_reservation sector_count alloc_map file =
    if file.reserve_count == 0 then (file, alloc_map) else (
      record file { reserve_first = 0; reserve_count = 0 },
      mark_range_unknown sector_count alloc_map file.reserve_first file.reserve_count,
    )

-- Half of what a writer has reserved goes back to the others, the larger half where it is uneven.
unfoldable pub halve_file : ℕ → List ℕ → OpenFile → OpenFile × List ℕ
halve_file sector_count alloc_map file =
    let keep_count = file.reserve_count / 2 in
    let release_first = u16 (file.reserve_first + keep_count) in
    (
      record file {
        reserve_first = if keep_count == 0 then 0 else file.reserve_first;
        reserve_count = keep_count;
      },
      mark_range_unknown sector_count alloc_map release_first (file.reserve_count - keep_count),
    )

unfoldable pub has_reservation : OpenFile → Bool
has_reservation file = not (file.closed || not file.wronly || file.reserve_count == 0)

-- The open files, the map, and whether anything was released.
unfoldable pub halve_reservations : ℕ → List ℕ → List OpenFile → List OpenFile × List ℕ × Bool
halve_reservations sector_count alloc_map [] = ([], alloc_map, false)
halve_reservations sector_count alloc_map (file ∷ files) =
    if has_reservation file
    then (let (file', alloc_map') = halve_file sector_count alloc_map file in
        let (files', alloc_map'', any) = halve_reservations sector_count alloc_map' files in
        (file' ∷ files', alloc_map'', true))
    else (let (files', alloc_map'', any) = halve_reservations sector_count alloc_map files in
        (file ∷ files', alloc_map'', any))

module _ (g : Geometry) (files : List OpenFile) (owner : ℕ) where
  unfoldable pub sector_can_be_reserved : List ℕ → ℕ → Bool
  sector_can_be_reserved alloc_map sector =
      if ltb sector g.index_sectors || leb g.sector_count sector
      then false
      else if maybe_used g.sector_count alloc_map sector
      then false
      else if sector_is_open_for_writing files sector
      then false
      else not (sector_reserved_by_other files owner sector)

  -- The loop of `reserve_after`, with the sectors that may still be reserved: the first sector and
  -- the count of the reservation, and the map.
  unfoldable pub reserve_from : ℕ → ℕ → ℕ → ℕ → List ℕ → ℕ × ℕ × List ℕ
  reserve_from zero first count next alloc_map = (first, count, alloc_map)
  reserve_from (suc left) first count next alloc_map =
      let first' = if count == 0 then next else first in
      let later =
        reserve_from left first' (count + 1) (u16 (next + 1))
          (mark_used g.sector_count alloc_map next) in
      if not (ltb next g.sector_count) || not (sector_can_be_reserved alloc_map next)
      then (first, count, alloc_map)
      else later

  -- For the owner, `file`, whose reservation the other functions pass over.
  unfoldable pub reserve_after : List ℕ → OpenFile → ℕ → OpenFile × List ℕ
  reserve_after alloc_map file sector =
      let next =
        if file.reserve_count != 0
        then u16 (file.reserve_first + file.reserve_count)
        else u16 (sector + 1) in
      let (first, count, alloc_map') =
        reserve_from (alloc_reserve_sectors - file.reserve_count) file.reserve_first
          file.reserve_count next alloc_map in
      (record file { reserve_first = first; reserve_count = count }, alloc_map')
