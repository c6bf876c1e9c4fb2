-- ===== src/Discovery.antt =====
-- src/fffs_index_log.c, `fffs_find_index_sequence` and its helpers: a mount finds the geometry and
-- the circular sequence of index sectors from the headers on flash.
pub mod Newest
pub mod Oldest
pub mod Sequence
mod Ranges
pub mod Sound
pub mod Ends
use fastffs.Prelude.{
  ℕ, suc, zero, ◌+◌, ◌-◌, ◌*◌, ◌/◌, ◌%◌, ◌^◌, bit_and, List, [], ◌∷◌, Option, some, none, Bool,
  true, false, not, ◌&&◌, ◌||◌, ◌==◌, ◌!=◌, ltb, leb, if◌then◌else◌, get_or, set, replicate,
}
use fastffs.Status.{Result, ok, err, invalid, corrupt, Action, ◌>>=◌, ◌>>◌, pure, fail}
use fastffs.Bytes.{u8, u32}
use fastffs.Flash.{Backend, flash_read}
use fastffs.IndexHeader.{Header, header_size, valid_index_header, index_serial_newer}

-- `FFFS_DEFAULT_SECTOR_SHIFT`, `FFFS_MIN_SECTOR_SHIFT`, `FFFS_MAX_SECTOR_SHIFT`
abbrev pub default_sector_shift : ℕ
default_sector_shift = 4

abbrev pub min_sector_shift : ℕ
min_sector_shift = 0

abbrev pub max_sector_shift : ℕ
max_sector_shift = 15

abbrev pub shifted_sector_size : ℕ → ℕ
shifted_sector_size shift = 256 * 2 ^ shift

-- `struct fffs_index_sequence`
pub record IndexSequence : Type 0 where
  pub index_sectors : ℕ
  pub sector_shift : ℕ
  pub active_serial : ℕ
  pub active_sector : ℕ
  pub oldest_sector : ℕ
  pub count : ℕ

-- `found`, `best_active` and `best_serial` of the scan.
pub record Best : Type 0 where
  pub found : Bool
  pub active : ℕ
  pub serial : ℕ

unfoldable pub consider_index_header : ℕ → Header → Best → Result Best
unfolding index_serial_newer
consider_index_header off h best =
    let sector_size = shifted_sector_size h.sector_shift in
    let candidate_active = off / sector_size in
    if off % sector_size != 0
    then err corrupt
    else if leb h.index_sectors candidate_active
    then err corrupt
    else if not best.found || index_serial_newer h.serial best.serial
    then ok (record { found = true; active = candidate_active; serial = h.serial })
    else ok best

unfoldable pub prev_index_sector : ℕ → ℕ → ℕ
prev_index_sector sector index_sectors = if sector == 0 then index_sectors - 1 else sector - 1

-- The loop runs while `n < index_sectors`, and each round counts `n` up: `left` is what remains.
unfoldable pub find_oldest_from : List Bool → List ℕ → ℕ → ℕ → ℕ → ℕ → ℕ → ℕ × ℕ
unfolding prev_index_sector
find_oldest_from valid serials index_sectors zero current current_serial n = (current, n)
find_oldest_from valid serials index_sectors (suc left) current current_serial n =
    let prev = prev_index_sector current index_sectors in
    let expected = u8 (bit_and (u32 (current_serial + 2 ^ 32 - 1)) 0x0f) in
    let rest =
      find_oldest_from valid serials index_sectors left prev (get_or serials prev 0) (n + 1) in
    if not (get_or valid prev false) || get_or serials prev 0 != expected
    then (current, n)
    else rest

-- The oldest sector of the sequence that ends in the active one, and the length of the sequence.
unfoldable pub find_oldest_index_sector : List Bool → List ℕ → ℕ → ℕ → ℕ → ℕ × ℕ
unfolding find_oldest_from
find_oldest_index_sector valid serials index_sectors active active_serial =
    find_oldest_from valid serials index_sectors (index_sectors - 1) active active_serial 1

unfoldable pub discovery_probe_shift : ℕ → Option ℕ
discovery_probe_shift probe =
    let larger = u8 (default_sector_shift + (probe - (default_sector_shift - min_sector_shift))) in
    if probe == 0
    then some default_sector_shift
    else if leb probe (default_sector_shift - min_sector_shift)
    then some (u8 (default_sector_shift - probe))
    else if ltb max_sector_shift larger
    then none
    else some larger

-- The locals of the scan of one candidate geometry.
pub record Scan : Type 0 where
  pub conflict : Bool
  pub best : Best
  pub valid : List Bool
  pub serials : List ℕ

abbrev pub scan_start : Scan
scan_start = record {
  conflict = false;
  best = record { found = false; active = 0; serial = 0 };
  valid = replicate 15 false;
  serials = replicate 15 0;
}

-- One header of the scan; `true` beside the new locals where the loop goes on.
unfoldable pub scan_header : Header → ℕ → ℕ → List ℕ → Scan → Scan × Bool
unfolding consider_index_header
scan_header locked i off hdr st = elim (valid_index_header hdr) [
  | none ↦ (st, true)
  | some h ↦
      let conflicting : Scan = record st { conflict = true } in
      let noted : Scan = record st {
        valid = set st.valid i true;
        serials = set st.serials i h.serial;
      } in
      if h.index_sectors != locked.index_sectors || h.sector_shift != locked.sector_shift
      then (conflicting, false)
      else elim (consider_index_header off h st.best) [
        | ok best ↦ (record noted { best = best }, true)
        | err e ↦ (record noted { conflict = true }, false)
      ]
]

module _ {Ctx : Type 0} (b : Backend Ctx) where
  -- `for (i = 0; i < locked_index_sectors; i++)`, with the rounds left.
  unfoldable pub scan_sectors : Header → ℕ → ℕ → List ℕ → ℕ → ℕ → Scan → Action Ctx Scan
  unfolding flash_read scan_header
  scan_sectors locked sector_size discovered_off discovered_hdr zero i st = pure st
  scan_sectors locked sector_size discovered_off discovered_hdr (suc left) i st = do
    let off = i * sector_size
    hdr ← if off == discovered_off then pure discovered_hdr else flash_read b off header_size
    let out = scan_header locked i off hdr st
    if out.1
        then scan_sectors locked sector_size discovered_off discovered_hdr left (i + 1) out.0
        else pure out.0

  unfoldable pub finish_scan : Header → Scan → Option IndexSequence
  unfolding find_oldest_index_sector
  finish_scan locked st =
      let (oldest, count) =
        find_oldest_index_sector st.valid st.serials locked.index_sectors st.best.active
          st.best.serial in
      if st.conflict || not st.best.found
      then none
      else some (record {
        index_sectors = locked.index_sectors;
        sector_shift = locked.sector_shift;
        active_serial = st.best.serial;
        active_sector = st.best.active;
        oldest_sector = oldest;
        count = count;
      })

  -- What follows a first header, by what `fffs_valid_index_header` made of it.
  unfoldable pub lock_geometry : ℕ → ℕ → List ℕ → Option Header → Action Ctx (Option IndexSequence)
  lock_geometry probe_shift discovered_off hdr none = pure none
  lock_geometry probe_shift discovered_off hdr (some locked) =
      let sector_size = shifted_sector_size probe_shift in
      if locked.sector_shift != probe_shift
        || b.size % sector_size != 0
        || ltb (b.size / sector_size) locked.index_sectors
      then pure none
      else do
        st ← scan_sectors locked sector_size discovered_off hdr locked.index_sectors 0 scan_start
        pure (finish_scan locked st)

  -- The body of the loop on `sector`; `none` is its `continue`.
  unfoldable pub try_sector : ℕ → ℕ → Action Ctx (Option IndexSequence)
  try_sector probe_shift sector =
      let discovered_off = sector * shifted_sector_size probe_shift in
      if ltb b.size (discovered_off + header_size) then pure none else do
        hdr ← flash_read b discovered_off header_size
        lock_geometry probe_shift discovered_off hdr (valid_index_header hdr)

  -- The loop on `probe` leaves at probe 16, the first that has no shift.
  find_from : ℕ → ℕ → Action Ctx IndexSequence
  unfolding try_sector discovery_probe_shift
  find_from zero probe = fail corrupt
  find_from (suc fuel) probe =
      let later = find_from fuel (probe + 1) in
      elim (discovery_probe_shift probe) [
        | none ↦ fail corrupt
        | some shift ↦ if b.size % shifted_sector_size shift != 0 then later else do
          first ← try_sector shift 0
          elim first [
            | some sequence ↦ pure sequence
            | none ↦ do
              second ← try_sector shift 1
              elim second [ some sequence ↦ pure sequence | none ↦ later ]
          ]
      ]

  unfoldable pub find_index_sequence : Action Ctx IndexSequence
  unfolding find_from
  find_index_sequence = find_from 17 0
