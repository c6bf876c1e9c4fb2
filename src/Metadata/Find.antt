-- ===== src/Metadata/Find.antt =====
-- `fffs_read_md_for_slot` of src/fffs_file_md.c, and the search of an uncommitted record.
use fastffs.Prelude.{
  ℕ, zero, suc, ◌-◌, Bool, true, false, not, ◌&&◌, ◌==◌, ltb, leb, if◌then◌else◌, replicate,
}
use fastffs.Status.{
  Error, corrupt, not_found, hang, Result, ok, err, Action, pure, fail, gets, ◌>>=◌, ◌>>◌,
}
use fastffs.Lifecycle.{lifecycle_is_live}
use fastffs.Flash.{Backend}
use fastffs.Sector.{
  Geometry, footer_size, sector_type_file, SectorFooter, decode_sector_footer, SectorReader,
}
use fastffs.Metadata.{
  md_preload_max, WalkResult, walk_record, MdRecord, MdWalk, Walking, view, md_walk_next,
  md_walk_init,
}

-- `enum fffs_md_slot_match`
pub data SlotMatch : Type 0 where
  match_live match_uncommitted : SlotMatch

unfoldable pub md_record_matches_slot : MdRecord → ℕ → SlotMatch → Bool
md_record_matches_slot r want_slot match_uncommitted = r.slot == want_slot && r.state == 0xff
md_record_matches_slot r want_slot match_live = r.slot == want_slot && r.live

-- The error where there is no such record.
unfoldable pub missing : SlotMatch → Error
missing match_uncommitted = not_found
missing match_live = corrupt

unfoldable pub valid_data_sector : Geometry → ℕ → Bool
valid_data_sector g sector = leb g.index_sectors sector && ltb sector g.sector_count

-- A window of `FFFS_MD_PRELOAD_MAX` bytes that has read nothing.
abbrev pub md_window : SectorReader
md_window = record {
  data_bytes = replicate 128 0;
  capacity = md_preload_max;
  sector = 0;
  start = 0;
  len = 0;
  reverse = true;
}

abbrev pub no_walk : MdWalk
no_walk = record { cursor = 0; claimed_data_end = 0; walk_sector = 0; active = false }

-- A walk and its window are on the stack of one call.
unfoldable pub run_walk : {Ctx A : Type 0} → Action (Walking Ctx) A → Action Ctx A
run_walk m c = let (r, w) = m (record { walk = no_walk; window = md_window; ctx = c }) in (r, w.ctx)

unfoldable pub live_file_sector : SectorFooter → Bool
live_file_sector footer =
    not footer.erased
    && footer.type == sector_type_file
    && footer.magic_valid
    && lifecycle_is_live footer.valid_bits footer.tombstone_bits

unfoldable pub started :
    {Ctx : Type 0} → Result (MdWalk × SectorReader) → Action (Walking Ctx) (Unit {0})
started (ok (walk, window)) w = (ok tt, record w { walk = walk; window = window })
started (err e) w = (err e, w)

unfoldable pub start_walk : {Ctx : Type 0} → Geometry → ℕ → Action (Walking Ctx) (Unit {0})
start_walk g sector w = started (md_walk_init g sector w.window) w

-- What the loop does with a step: `rest` is its next round.
unfoldable pub found_record :
    {Ctx : Type 0}
    → ℕ
    → SlotMatch
    → Action (Walking Ctx) MdRecord
    → MdRecord × WalkResult
    → Action (Walking Ctx) MdRecord
found_record want_slot kind rest (r, walk_record) =
    if md_record_matches_slot r want_slot kind then pure r else rest
found_record want_slot kind rest (r, result) = fail corrupt

module _ {Ctx : Type 0} (b : Backend Ctx) (g : Geometry) where
  -- The loop of `read_md_for_slot`; without fuel it has not come to an end.
  unfoldable pub find_record : ℕ → ℕ → SlotMatch → Action (Walking Ctx) MdRecord
  find_record zero want_slot kind = fail hang
  find_record (suc fuel) want_slot kind = do
    let rest = find_record fuel want_slot kind
    active ← gets (λ w. w.walk.active)
    if not active
        then fail (missing kind)
        else (md_walk_next b g >>= found_record want_slot kind rest)

  -- The cursor falls with each round, so that a round for each byte of the sector is enough.
  unfoldable pub search_sector : ℕ → ℕ → SlotMatch → Action (Walking Ctx) MdRecord
  search_sector sector want_slot kind = do
    footer_bytes ← view b g sector (g.sector_size - footer_size) footer_size
    if not (live_file_sector (decode_sector_footer footer_bytes))
        then fail (missing kind)
        else do start_walk g sector; find_record (suc g.sector_size) want_slot kind

  unfoldable pub read_md_for_slot : ℕ → ℕ → SlotMatch → Action Ctx MdRecord
  read_md_for_slot sector want_slot kind =
      if not (valid_data_sector g sector)
      then fail corrupt
      else run_walk (search_sector sector want_slot kind)
