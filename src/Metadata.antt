-- ===== src/Metadata.antt =====
-- src/fffs_file_md.c: the metadata records of a data sector, which stand one below the other under
-- the footer, and the walk over them through the window of a sector reader.
pub mod Find
pub mod Step
pub mod Ends
pub mod Window
pub mod Erased
pub mod Free
pub mod Program
pub mod Records
pub mod Written
pub mod Decode
pub mod Commit
pub mod Root
pub mod Prefix
pub mod Tombstone
pub mod Deleted
use fastffs.Prelude.{
  ℕ, zero, suc, ◌+◌, ◌-◌, ◌*◌, List, [], ◌∷◌, Bool, true, false, not, ◌&&◌, ◌||◌, ◌==◌, ◌!=◌, ltb,
  leb, if◌then◌else◌, take, drop, replicate,
}
use fastffs.Status.{
  Error, invalid, corrupt, Result, ok, err, Action, next, pure, fail, gets, modify, ◌>>=◌, ◌>>◌,
}
use fastffs.Bytes.{byte, load_le16, load_le32, bytes_erased}
use fastffs.Lifecycle.{
  lifecycle_valid_pair, lifecycle_tombstone_pair, lifecycle_is_live, is_cleared,
}
use fastffs.Flash.{Backend}
use fastffs.Sector.{Geometry, footer_size, md_file_record_size, SectorReader, sector_reader_view}

-- `FFFS_MD_TYPE_FILE_ROOT_V1`, `FFFS_MD_TYPE_FILE_CONT_V1`, `FFFS_MD_PRELOAD_MAX`
abbrev pub md_type_file_root : ℕ
md_type_file_root = 0x11

abbrev pub md_type_file_cont : ℕ
md_type_file_cont = 0x12

abbrev pub md_preload_max : ℕ
md_preload_max = 128

-- `enum fffs_md_walk_result`
pub data WalkResult : Type 0 where
  walk_record end_erased end_claimed_data end_invalid : WalkResult

-- `struct fffs_md_record`
pub record MdRecord : Type 0 where
  pub type : ℕ
  pub state : ℕ
  pub live : Bool
  pub slot : ℕ
  pub next_sector : ℕ
  pub span_len : ℕ
  pub data_off : ℕ
  pub data_len : ℕ
  pub size_or_offset : ℕ
  pub record_start : ℕ
  pub record_len : ℕ

abbrev pub empty_md_record : MdRecord
empty_md_record = record {
  type = 0;
  state = 0;
  live = false;
  slot = 0;
  next_sector = 0;
  span_len = 0;
  data_off = 0;
  data_len = 0;
  size_or_offset = 0;
  record_start = 0;
  record_len = 0;
}

-- `struct fffs_md_walk`: the fields that the walk itself uses.
pub record MdWalk : Type 0 where
  pub cursor : ℕ
  pub claimed_data_end : ℕ
  pub walk_sector : ℕ
  pub active : Bool

-- A walk, the window that it reads through, and the flash.
pub record Walking (Ctx : Type 0) : Type 0 where
  pub walk : MdWalk
  pub window : SectorReader
  pub ctx : Ctx

-- The record with its place and its type.
abbrev pub placed_record : ℕ → ℕ → MdRecord
placed_record start type = record empty_md_record {
  type = type;
  record_start = start;
  record_len = md_file_record_size;
}

-- The fields in the bytes of a record.
unfoldable pub record_fields : ℕ → ℕ → List ℕ → MdRecord
record_fields start type buf = record {
  type = type;
  state = byte buf 0;
  live =
      lifecycle_is_live (lifecycle_valid_pair (byte buf 0)) (lifecycle_tombstone_pair (byte buf 0));
  slot = load_le16 (drop 1 buf);
  next_sector = load_le16 (drop 3 buf);
  span_len = load_le16 (drop 5 buf);
  data_off = load_le16 (drop 7 buf);
  data_len = load_le16 (drop 9 buf);
  size_or_offset = load_le32 (drop 11 buf);
  record_start = start;
  record_len = md_file_record_size;
}

-- The tests on the decoded fields: what is committed has to be an extent of the volume too.
unfoldable pub record_result : Geometry → ℕ → MdRecord → WalkResult
record_result g sector r =
    if r.state != 0xff && not r.live && not (is_cleared (lifecycle_valid_pair r.state))
    then end_invalid
    else if ltb r.record_start (r.data_off + r.data_len)
    then end_invalid
    else if r.state != 0xff && (r.span_len == 0 || ltb g.sector_count (sector + r.span_len))
    then end_invalid
    else if r.state != 0xff
        && (r.next_sector != 0
            && (ltb r.next_sector g.index_sectors || leb g.sector_count r.next_sector))
    then end_invalid
    else walk_record

unfoldable pub decoded_bytes : Geometry → ℕ → ℕ → ℕ → List ℕ → MdRecord × WalkResult
decoded_bytes g sector start type buf =
    if bytes_erased (take md_file_record_size buf)
    then (placed_record start type, end_erased)
    else (record_fields start type buf, record_result g sector (record_fields start type buf))

abbrev pub with_walk : {Ctx : Type 0} → (MdWalk → MdWalk) → Walking Ctx → Walking Ctx
with_walk f w = record w { walk = f w.walk }

abbrev pub stopped : MdWalk → MdWalk
stopped walk = record walk { active = false }

-- The walk under a record; it goes on while there is room between the records and the data.
unfoldable pub stepped : MdRecord → MdWalk → MdWalk
stepped r walk =
    let data_end = r.data_off + r.data_len in
    let claimed = if ltb walk.claimed_data_end data_end then data_end else walk.claimed_data_end in
    record walk {
      cursor = r.record_start;
      claimed_data_end = claimed;
      active = if leb r.record_start claimed then false else walk.active;
    }

unfoldable pub walked :
    {Ctx : Type 0} → MdRecord × WalkResult → Action (Walking Ctx) (MdRecord × WalkResult)
walked (r, walk_record) = modify (with_walk (stepped r)) >> pure (r, walk_record)
walked (r, result) = modify (with_walk stopped) >> pure (r, result)

module _ {Ctx : Type 0} (b : Backend Ctx) (g : Geometry) where
  -- A view through the window of the walk.
  unfoldable pub view : ℕ → ℕ → ℕ → Action (Walking Ctx) (List ℕ)
  view sector offset size w =
      let (r, window', c) = sector_reader_view b g w.window sector offset size w.ctx in
      (r, record w { window = window'; ctx = c })

  unfoldable pub decode_file_md_record : ℕ → ℕ → Action (Walking Ctx) (MdRecord × WalkResult)
  decode_file_md_record sector cursor = do
    last ← view sector (cursor - 1) 1
    if byte last 0 == 0xff
        then pure (empty_md_record, end_erased)
        else if ltb cursor (footer_size + md_file_record_size)
        then fail corrupt
        else if not (byte last 0 == md_type_file_root || byte last 0 == md_type_file_cont)
        then pure (placed_record (cursor - md_file_record_size) (byte last 0), end_invalid)
        else do
          buf ← view sector (cursor - md_file_record_size) md_file_record_size
          pure (decoded_bytes g sector (cursor - md_file_record_size) (byte last 0) buf)

  unfoldable pub md_walk_next : Action (Walking Ctx) (MdRecord × WalkResult)
  md_walk_next w =
      if not w.walk.active || w.walk.walk_sector != w.window.sector
      then (err invalid, w)
      else if leb w.walk.cursor footer_size
      then (modify (with_walk stopped) >> pure (empty_md_record, end_claimed_data)) w
      else (decode_file_md_record w.walk.walk_sector w.walk.cursor >>= walked) w

-- `data` of the window is always set.
unfoldable pub md_walk_init : Geometry → ℕ → SectorReader → Result (MdWalk × SectorReader)
md_walk_init g sector window =
    if ltb window.capacity (md_file_record_size + footer_size)
      || ltb sector g.index_sectors
      || leb g.sector_count sector
    then err invalid
    else ok (
      record {
        cursor = g.sector_size - footer_size;
        claimed_data_end = 0;
        walk_sector = sector;
        active = true;
      },
      if window.sector != sector
          then record window { sector = sector; start = 0; len = 0 }
          else window,
    )
