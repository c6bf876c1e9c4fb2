-- ===== src/Journal/Compact.antt =====
-- Compaction: the records of the oldest index sector that are still current are appended to the
-- active one, and the oldest is tombstoned.
use fastffs.Prelude.{
  ℕ, zero, suc, ◌+◌, ◌-◌, ◌*◌, ◌/◌, ◌%◌, ◌^◌, List, [], Option, some, none, Bool, true, false, not,
  ◌&&◌, ◌||◌, ◌==◌, ltb, leb, if◌then◌else◌, take, drop, replicate,
}
use fastffs.Status.{corrupt, no_space, Action, pure, fail, gets, modify, ◌>>=◌, ◌>>◌}
use fastffs.Bytes.{load_le16}
use fastffs.Flash.{Backend, flash_read, program_aligned}
use fastffs.IndexHeader.{header_size}
use fastffs.HashIndex.{record_is_current}
use fastffs.Fs.{Fs, on_flash}
use fastffs.Journal.Record.{
  logical_index_sector, index_sector_begin, index_sector_end, program_index_record_at,
  tombstone_index_sector,
}
use fastffs.Journal.Rotate.{rotate_index_begin, rotate_index_commit}

-- The difference of two `size_t`.
abbrev pub size_diff : ℕ → ℕ → ℕ
size_diff a b = (a + 2 ^ 64 - b) % 2 ^ 64

-- `struct index_record_reader`, with FFFS_INDEX_COMPACT_OUTER_SCAN_SIZE bytes of window.
pub record RecordReader : Type 0 where
  pub window : List ℕ
  pub window_start : ℕ
  pub window_len : ℕ

abbrev pub outer_scan_size : ℕ
outer_scan_size = 64

abbrev pub fresh_reader : RecordReader
fresh_reader = record { window = replicate outer_scan_size 0; window_start = 0; window_len = 0 }

-- `struct index_record_writer`. Nothing puts bytes into `buf`: a record is programmed at once.
pub record RecordWriter : Type 0 where
  pub buf : List ℕ
  pub len : ℕ
  pub pending_rotation : Bool

abbrev pub fresh_writer : RecordWriter
fresh_writer = record { buf = []; len = 0; pending_rotation = false }

-- A record of the source: slot, head, and whether it is erased.
pub record SourceRecord : Type 0 where
  pub slot : ℕ
  pub head : ℕ
  pub erased : Bool

-- The base of the window that holds `offset`, and the bytes of it that can be read.
unfoldable pub reader_base : {Ctx : Type 0} → Fs Ctx → ℕ → ℕ
reader_base fs offset =
    let begin = offset / fs.sector_size * fs.sector_size + header_size in
    let rel = size_diff offset begin in begin + rel - rel % outer_scan_size

unfoldable pub reader_nread : {Ctx : Type 0} → Fs Ctx → ℕ → ℕ
unfolding index_sector_end reader_base
reader_nread fs offset =
    let nread = size_diff (index_sector_end fs (offset / fs.sector_size)) (reader_base fs offset) in
    let capped = if ltb outer_scan_size nread then outer_scan_size else nread in capped - capped % 4

-- No record fits behind the last one.
abbrev pub active_is_full : {Ctx : Type 0} → Fs Ctx → Bool
active_is_full fs = ltb ((fs.active_index_sector + 1) * fs.sector_size) (fs.next_index_offset + 4)

-- `fffs_index_record_is_current`
unfoldable pub is_current : {Ctx : Type 0} → ℕ → ℕ → Action (Fs Ctx) Bool
is_current slot head fs = (record_is_current fs.index_cache slot head, fs)

module _ {Ctx : Type 0} (b : Backend Ctx) where
  unfoldable pub index_record_reader_load : RecordReader → ℕ → Action (Fs Ctx) RecordReader
  index_record_reader_load reader offset =
      if leb reader.window_start offset
        && leb (offset + 4) (reader.window_start + reader.window_len)
      then pure reader
      else do
        base ← gets (λ fs. reader_base fs offset)
        nread ← gets (λ fs. reader_nread fs offset)
        if ltb nread 4 then fail corrupt else do
          window ← on_flash (flash_read b base nread)
          pure (record { window = window; window_start = base; window_len = nread })

  unfoldable pub read_compact_source_record :
      RecordReader → ℕ → Action (Fs Ctx) (SourceRecord × RecordReader)
  read_compact_source_record reader offset = do
    loaded ← index_record_reader_load reader offset
    let rec = drop (offset - loaded.window_start) loaded.window
    let slot = load_le16 rec
    let head = load_le16 (drop 2 rec)
    pure (record { slot = slot; head = head; erased = slot == 0xffff && head == 0xffff }, loaded)

  unfoldable pub writer_prepare_spill : RecordWriter → Action (Fs Ctx) RecordWriter
  writer_prepare_spill writer = do
    full ← gets (λ fs. leb fs.index_sectors fs.index_sequence_count)
    if writer.pending_rotation || full
        then fail no_space
        else do rotate_index_begin b; pure (record writer { pending_rotation = true })

  unfoldable pub writer_commit_spill : RecordWriter → Action (Fs Ctx) RecordWriter
  writer_commit_spill writer =
      if not writer.pending_rotation
      then pure writer
      else do rotate_index_commit b; pure (record writer { pending_rotation = false })

  unfoldable pub writer_flush : RecordWriter → Action (Fs Ctx) RecordWriter
  writer_flush writer = if writer.len == 0 then pure writer else do
    offset ← gets (λ fs. fs.next_index_offset)
    on_flash (program_aligned b offset (take writer.len writer.buf))
    modify (λ fs. record fs { next_index_offset = fs.next_index_offset + writer.len })
    pure (record writer { len = 0 })

  -- The record goes to `fs->next_index_offset`.
  unfoldable pub program_next_record : ℕ → ℕ → Action (Fs Ctx) (Unit {0})
  program_next_record slot head = do
    offset ← gets (λ fs. fs.next_index_offset)
    program_index_record_at b offset slot head
    modify (λ fs. record fs { next_index_offset = fs.next_index_offset + 4 })

  unfoldable pub writer_append : RecordWriter → ℕ → ℕ → Action (Fs Ctx) RecordWriter
  writer_append writer slot head = do
    flushed ← writer_flush writer
    full ← gets active_is_full
    spilled ← if full then writer_prepare_spill flushed else pure flushed
    program_next_record slot head
    pure spilled

  -- The body of the loop: whether it goes on, with the reader and the writer.
  unfoldable pub copy_record :
      ℕ → RecordReader → RecordWriter → Action (Fs Ctx) (Bool × RecordReader × RecordWriter)
  copy_record off reader writer = do
    read ← read_compact_source_record reader off
    let (rec, reader') = read
    if rec.erased
        then pure (false, reader', writer)
        else if (rec.slot == 0 && rec.head == 0) || rec.head == 0
        then pure (true, reader', writer)
        else do
          current ← is_current rec.slot rec.head
          writer' ← if current then writer_append writer rec.slot rec.head else pure writer
          pure (true, reader', writer')

  -- The loop from `off` on, which goes up by four each round.
  unfoldable pub copy_from : ℕ → ℕ → ℕ → RecordReader → RecordWriter → Action (Fs Ctx) RecordWriter
  copy_from zero source_end off reader writer = pure writer
  copy_from (suc fuel) source_end off reader writer =
      let later = copy_from fuel source_end (off + 4) in
      if ltb source_end (off + 4) then pure writer else do
        step ← copy_record off reader writer
        let (more, reader', writer') = step
        if more then later reader' writer' else pure writer'

  -- What `*source_out` is set to, if it is.
  unfoldable pub index_compact_oldest_copy : Action (Fs Ctx) (Option ℕ)
  index_compact_oldest_copy = do
    few ← gets (λ fs. leb fs.index_sequence_count 1)
    if few then pure none else do
      source_sector ← gets (λ fs. fs.oldest_index_sector)
      source_begin ← gets (λ fs. index_sector_begin fs source_sector)
      source_end ← gets (λ fs. index_sector_end fs source_sector)
      writer ← copy_from source_end source_end source_begin fresh_reader fresh_writer
      flushed ← writer_flush writer
      committed ← writer_commit_spill flushed
      pure (some source_sector)

  unfoldable pub index_compact_oldest_finish : ℕ → Action (Fs Ctx) (Unit {0})
  index_compact_oldest_finish source_sector = do
    tombstone_index_sector b source_sector
    modify (λ fs. record fs {
      oldest_index_sector = logical_index_sector fs 1;
      index_sequence_count = fs.index_sequence_count - 1;
    })

  -- `source_sector` is 0 where the copy does not set it.
  unfoldable pub index_compact_oldest : Action (Fs Ctx) (Unit {0})
  index_compact_oldest = do
    source ← index_compact_oldest_copy
    few ← gets (λ fs. leb fs.index_sequence_count 1)
    if few
        then pure tt
        else index_compact_oldest_finish (elim source [ some sector ↦ sector | none ↦ 0 ])

  unfoldable pub index_finish_interrupted_compaction : Action (Fs Ctx) (Unit {0})
  index_finish_interrupted_compaction = do
    fewer ← gets (λ fs. ltb fs.index_sequence_count fs.index_sectors)
    oldest ← gets (λ fs. fs.oldest_index_sector)
    if fewer then pure tt else index_compact_oldest_finish oldest
