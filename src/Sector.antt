-- ===== src/Sector.antt =====
-- src/fffs_sector.c and src/fffs_sector_reader.c: the footer at the end of a data sector, the
-- programs that change its state, and the window through which a sector is read.
-- `Geometry` has the fields of `struct fffs` that these functions read.
pub mod Footer
pub mod Tombstone
pub mod Window
use fastffs.Prelude.{
  ℕ, ◌+◌, ◌-◌, ◌*◌, ◌%◌, List, [], ◌∷◌, ◌++◌, Bool, true, false, not, ◌&&◌, ◌||◌, ◌==◌, ◌!=◌, ltb,
  leb, if◌then◌else◌, take, drop, replicate,
}
use fastffs.Status.{Result, ok, err, Action, ◌>>◌, invalid, corrupt, io}
use fastffs.Bytes.{byte, load_le32, store_le32, bytes_erased}
use fastffs.Lifecycle.{
  BitmirrorState, lifecycle_valid_pair, lifecycle_tombstone_pair, lifecycle_hint_pair,
  lifecycle_is_live, is_mixed, is_cleared, lifecycle_valid, lifecycle_tombstoned, lifecycle_full,
}
use fastffs.Flash.{Backend, flash_read, program_aligned}
use fastffs.IndexHeader.{same_bytes}

pub record Geometry : Type 0 where
  pub sector_size : ℕ
  pub sector_count : ℕ
  pub index_sectors : ℕ

-- `FFFS_SECTOR_FOOTER_SIZE`, `FFFS_MD_FILE_RECORD_SIZE`, `FFFS_SECTOR_TYPE_FILE`,
-- `FFFS_SECTOR_MAGIC`
abbrev pub footer_size : ℕ
footer_size = 10

abbrev pub md_file_record_size : ℕ
md_file_record_size = 16

abbrev pub sector_type_file : ℕ
sector_type_file = 0x01

abbrev pub sector_magic : List ℕ
sector_magic = b'F' ∷ b'F' ∷ b'S' ∷ b'D' ∷ []

-- A sector has room for a footer and a record, so that the difference does not wrap.
unfoldable pub max_file_data_size : ℕ → ℕ → ℕ
max_file_data_size sector_size granule =
    let raw = sector_size - footer_size - md_file_record_size in
    let capped = if ltb 0xffff raw then 0xffff else raw in capped - capped % granule

unfoldable pub footer_offset : Geometry → ℕ → ℕ
footer_offset g sector = sector * g.sector_size + g.sector_size - footer_size

unfoldable pub metadata_offset : Geometry → ℕ → ℕ
unfolding footer_offset
metadata_offset g sector = footer_offset g sector - md_file_record_size

-- `struct fffs_sector_footer`
pub record SectorFooter : Type 0 where
  pub serial : ℕ
  pub type : ℕ
  pub state : ℕ
  pub erased : Bool
  pub magic_valid : Bool
  pub valid_bits : BitmirrorState
  pub tombstone_bits : BitmirrorState
  pub full_bits : BitmirrorState

unfoldable pub decode_sector_footer : List ℕ → SectorFooter
unfolding load_le32 bytes_erased same_bytes lifecycle_valid_pair lifecycle_tombstone_pair
    lifecycle_hint_pair
decode_sector_footer footer = record {
  serial = load_le32 footer;
  type = byte footer 4;
  state = byte footer 5;
  erased = bytes_erased (take footer_size footer);
  magic_valid = same_bytes (take 4 (drop 6 footer)) sector_magic;
  valid_bits = lifecycle_valid_pair (byte footer 5);
  tombstone_bits = lifecycle_tombstone_pair (byte footer 5);
  full_bits = lifecycle_hint_pair (byte footer 5);
}

unfoldable pub encode_sector_footer : ℕ → Bool → List ℕ
unfolding store_le32
encode_sector_footer serial valid =
    store_le32 serial ++ sector_type_file ∷ (if valid then lifecycle_valid else 0xff) ∷ sector_magic

-- `struct fffs_sector_reader`; `capacity` bounds the bytes in `data`.
pub record SectorReader : Type 0 where
  pub data_bytes : List ℕ
  pub capacity : ℕ
  pub sector : ℕ
  pub start : ℕ
  pub len : ℕ
  pub reverse : Bool

abbrev pub footer_reader : SectorReader
footer_reader = record {
  data_bytes = replicate footer_size 0;
  capacity = footer_size;
  sector = 0;
  start = 0;
  len = 0;
  reverse = true;
}

-- A reader whose window is on another sector has an empty window.
unfoldable pub reader_on : SectorReader → ℕ → SectorReader
reader_on reader sector =
    if reader.sector != sector
    then record reader { sector = sector; start = 0; len = 0 }
    else reader

-- `start` and `len` of the window to read.
unfoldable pub reader_window : Geometry → SectorReader → ℕ → ℕ → ℕ × ℕ
reader_window g reader offset size =
    let end = offset + size in
    let back = if ltb end reader.capacity then end else reader.capacity in
    let front =
      if ltb (g.sector_size - offset) reader.capacity
      then g.sector_size - offset
      else reader.capacity in
    if reader.reverse then (end - back, back) else (offset, front)

-- Whether the window has the span.
unfoldable pub reader_has : SectorReader → ℕ → ℕ → Bool
reader_has reader offset size =
    reader.len != 0
    && leb reader.start offset
    && leb size reader.len
    && leb (offset - reader.start) (reader.len - size)

-- What `fffs_read_sector_serial` makes of the footer.
unfoldable pub footer_serial : SectorFooter → Result ℕ
unfolding lifecycle_is_live is_mixed is_cleared
footer_serial view =
    let live = lifecycle_is_live view.valid_bits view.tombstone_bits in
    let tombstoned = not (is_mixed view.valid_bits) && is_cleared view.tombstone_bits in
    if view.type != sector_type_file || not view.magic_valid
    then err corrupt
    else if not live && not tombstoned
    then err corrupt
    else ok view.serial

module _ {Ctx : Type 0} (b : Backend Ctx) (g : Geometry) where
  -- The window is read; where that fails it is not moved, whatever came into the buffer.
  unfoldable pub reader_fill : SectorReader → ℕ → ℕ → Ctx → Result (List ℕ) × SectorReader × Ctx
  unfolding reader_window
  reader_fill here offset size c =
      let (start, len) = reader_window g here offset size in
      let (status, bytes, c') = b.read (here.sector * g.sector_size + start) len c in
      let filled : SectorReader = record here { data_bytes = bytes } in
      if status != 0
      then (err io, filled, c')
      else (ok (drop (offset - start) bytes), record filled { start = start; len = len }, c')

  -- The bytes at `*out`, and the reader.
  unfoldable pub sector_reader_view :
      SectorReader → ℕ → ℕ → ℕ → Ctx → Result (List ℕ) × SectorReader × Ctx
  unfolding reader_on reader_has
  sector_reader_view reader sector offset size c =
      let here = reader_on reader sector in
      if leb g.sector_count sector
        || ltb g.sector_size offset
        || ltb (g.sector_size - offset) size
        || ltb reader.capacity size
      then (err invalid, reader, c)
      else if reader_has here offset size
      then (ok (drop (offset - here.start) here.data_bytes), here, c)
      else reader_fill here offset size c

  unfoldable pub viewed_serial : Result (List ℕ) × SectorReader × Ctx → Result ℕ × Ctx
  viewed_serial (ok footer, reader, c) = (footer_serial (decode_sector_footer footer), c)
  viewed_serial (err e, reader, c) = (err e, c)

  -- The reader is made for the one call, on a buffer of ten bytes.
  unfoldable pub read_sector_serial : ℕ → Action Ctx ℕ
  read_sector_serial sector c =
      if ltb sector g.index_sectors || leb g.sector_count sector
      then (err corrupt, c)
      else viewed_serial
          (sector_reader_view footer_reader sector (g.sector_size - footer_size) footer_size c)

  -- The state follows in a program of its own, which commits the footer.
  unfoldable pub write_sector_footer : ℕ → ℕ → Action Ctx (Unit {0})
  unfolding encode_sector_footer footer_offset
  write_sector_footer sector serial = do
    program_aligned b (footer_offset g sector) (encode_sector_footer serial false)
    program_aligned b (footer_offset g sector + 5) (lifecycle_valid ∷ [])

  unfoldable pub tombstone_sector : ℕ → Action Ctx (Unit {0})
  unfolding footer_offset
  tombstone_sector sector =
      program_aligned b (footer_offset g sector + 4)
        (sector_type_file ∷ lifecycle_tombstoned ∷ 0xff ∷ 0xff ∷ [])

  unfoldable pub mark_sector_full : ℕ → Action Ctx (Unit {0})
  unfolding footer_offset
  mark_sector_full sector = program_aligned b (footer_offset g sector + 5) (lifecycle_full ∷ [])
