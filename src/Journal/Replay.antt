-- ===== src/Journal/Replay.antt =====
-- `fffs_replay_index` of src/fffs_index_log.c: the cache is filled from the records of the journal,
-- in the order of the sequence, and the place of the next record is found.
use fastffs.Prelude.{
  ℕ, zero, suc, ◌+◌, ◌-◌, ◌*◌, ◌/◌, ◌%◌, List, some, none, Bool, true, false, not, ◌&&◌, ◌||◌, ◌==◌,
  ltb, leb, if◌then◌else◌, drop,
}
use fastffs.Status.{
  passed_over, hang, Result, ok, err, Action, pure, fail, gets, modify, ◌>>=◌, ◌>>◌,
}
use fastffs.Bytes.{load_le16, u32}
use fastffs.Flash.{Backend, flash_read}
use fastffs.Sector.{read_sector_serial}
use fastffs.Metadata.Root.{RootMd, read_file_root_md}
use fastffs.HashIndex.{insert, remove}
use fastffs.Alloc.{next_data_sector}
use fastffs.Fs.{Fs, geometry, on_flash}
use fastffs.IndexHeader.{header_size}
use fastffs.Journal.Record.{active_index_record_is_terminal, clobber_or_reject_active_tail}
use fastffs.Journal.Append.{cached}

-- `FFFS_ALLOC_RECOVERY_LOOKAHEAD`
abbrev pub alloc_recovery_lookahead : ℕ
alloc_recovery_lookahead = 4

-- The head in a record is below 2^16, and so is its slot.
unfoldable pub index_insert : {Ctx : Type 0} → ℕ → ℕ → Action (Fs Ctx) (Unit {0})
index_insert slot head fs = cached (some (insert fs.index_cache slot head)) fs

unfoldable pub index_remove : {Ctx : Type 0} → ℕ → Action (Fs Ctx) (Unit {0})
index_remove slot fs = cached (remove fs.index_cache slot) fs

-- Only in the active sector does replay move the place of the next record.
unfoldable pub note_next : {Ctx : Type 0} → Bool → ℕ → Action (Fs Ctx) (Unit {0})
note_next active offset =
    modify (λ fs. if active then record fs { next_index_offset = offset } else fs)

-- The bytes of a sector that one chunk takes, in whole records.
unfoldable pub chunk_nread : ℕ → ℕ → ℕ
chunk_nread remaining chunk_size =
    let nread = if ltb remaining chunk_size then remaining else chunk_size in nread - nread % 4

-- A file that cannot be read is no error of the replay.
unfoldable pub readable : {Ctx : Type 0} → Result RootMd × Fs Ctx → Result Bool × Fs Ctx
readable (ok root, fs) = (ok true, fs)
readable (err e, fs) = (passed_over false e, fs)

unfoldable pub serial_after : ℕ → ℕ → ℕ
serial_after next_sector_serial serial =
    let next = u32 (serial + 1) in
    if leb next_sector_serial serial then (if next == 0 then 1 else next) else next_sector_serial

-- A serial that cannot be read is passed over.
unfoldable pub noted_serial : {Ctx : Type 0} → Result ℕ × Fs Ctx → Result (Unit {0}) × Fs Ctx
noted_serial (ok serial, fs) =
    (ok tt, record fs { next_sector_serial = serial_after fs.next_sector_serial serial })
noted_serial (err e, fs) = (passed_over tt e, fs)

module _ {Ctx : Type 0} (b : Backend Ctx) where
  -- Whether the record's head has a live root for its slot.
  unfoldable pub root_is_readable : ℕ → ℕ → Action (Fs Ctx) Bool
  root_is_readable head slot fs =
      readable (on_flash (read_file_root_md b (geometry fs) head slot false none) fs)

  -- The record is clobbered, where it may be, and the rest of the sector is left out.
  unfoldable pub leave_tail : ℕ → Bool → ℕ → Action (Fs Ctx) (Bool × ℕ)
  leave_tail rec_off terminal_active_tail tail_head = do
    clobber_or_reject_active_tail b rec_off terminal_active_tail
    pure (false, tail_head)

  -- A record with a head other than 0.
  unfoldable pub replay_head : ℕ → Bool → ℕ → ℕ → ℕ → Action (Fs Ctx) (Bool × ℕ)
  replay_head rec_off terminal_active_tail slot head tail_head = do
    in_data ← gets (λ fs. leb fs.index_sectors head && ltb head fs.sector_count)
    if not in_data then leave_tail rec_off terminal_active_tail tail_head else do
      found ← if terminal_active_tail then root_is_readable head slot else pure true
      if not found
          then leave_tail rec_off terminal_active_tail tail_head
          else do index_insert slot head; pure (true, head)

  -- A record that is neither erased nor cleared.
  unfoldable pub replay_written : ℕ → Bool → ℕ → ℕ → ℕ → Action (Fs Ctx) (Bool × ℕ)
  replay_written rec_off terminal_active_tail slot head tail_head =
      if slot == 0 || slot == 0xffff || head == 0xffff
      then leave_tail rec_off terminal_active_tail tail_head
      else if head == 0
      then (do index_remove slot; pure (true, tail_head))
      else replay_head rec_off terminal_active_tail slot head tail_head

  -- The body of the loop on `pos`, for the record at `rec_off`: whether the loop goes on, and
  -- `tail_head`.
  unfoldable pub replay_record : Bool → ℕ → List ℕ → ℕ → ℕ → ℕ → ℕ → Action (Fs Ctx) (Bool × ℕ)
  replay_record active rec_off chunk pos nread end tail_head =
      let slot = load_le16 (drop pos chunk) in
      let head = load_le16 (drop (pos + 2) chunk) in
      if slot == 0xffff && head == 0xffff
      then (do note_next active rec_off; pure (false, tail_head))
      else if slot == 0 && head == 0
      then (do note_next active (rec_off + 4); pure (true, tail_head))
      else do
        terminal_active_tail ←
            if active
            then active_index_record_is_terminal b rec_off chunk pos nread end
            else pure false
        replay_written rec_off terminal_active_tail slot head tail_head

  -- The loop on `pos`, with the records left of the chunk at `off`.
  unfoldable pub records_from : ℕ → Bool → ℕ → List ℕ → ℕ → ℕ → ℕ → ℕ → Action (Fs Ctx) (Bool × ℕ)
  records_from zero active off chunk pos nread end tail_head = pure (true, tail_head)
  records_from (suc left) active off chunk pos nread end tail_head =
      let later = records_from left active off chunk (pos + 4) nread end in
      do
        step ← replay_record active (off + pos) chunk pos nread end tail_head
        let (more, tail_head') = step
        if more then later tail_head' else pure (false, tail_head')

  -- One chunk.
  unfoldable pub replay_chunk : Bool → ℕ → ℕ → ℕ → ℕ → Action (Fs Ctx) (Bool × ℕ)
  replay_chunk active off nread end tail_head = do
    chunk ← on_flash (flash_read b off nread)
    step ← records_from (nread / 4) active off chunk 0 nread end tail_head
    let (more, tail_head') = step
    if more
        then (do note_next active (off + nread); pure (true, tail_head'))
        else pure (false, tail_head')

  -- The loop on `off`. It would not end if a chunk had no room for a record.
  unfoldable pub chunks_from : ℕ → Bool → ℕ → ℕ → ℕ → Action (Fs Ctx) ℕ
  chunks_from zero active off end tail_head = fail hang
  chunks_from (suc fuel) active off end tail_head = if ltb end (off + 4) then pure tail_head else do
    nread ← gets (λ fs. chunk_nread (end - off) fs.scratch_size)
    let later = chunks_from fuel active (off + nread) end
    step ← replay_chunk active off nread end tail_head
    let (more, tail_head') = step
    if more then later tail_head' else pure tail_head'

  -- One index sector. A round for each byte is enough.
  unfoldable pub replay_sector : ℕ → ℕ → Action (Fs Ctx) ℕ
  replay_sector sector tail_head fs =
      chunks_from (fs.sector_size + 1) (sector == fs.active_index_sector)
        (sector * fs.sector_size + header_size) ((sector + 1) * fs.sector_size) tail_head fs

  -- The loop on `order`, with the sectors left.
  unfoldable pub sectors_from : ℕ → ℕ → ℕ → Action (Fs Ctx) ℕ
  sectors_from zero sector tail_head = pure tail_head
  sectors_from (suc left) sector tail_head = do
    tail_head' ← replay_sector sector tail_head
    next ← gets (λ fs. if leb fs.index_sectors (sector + 1) then 0 else sector + 1)
    sectors_from left next tail_head'

  unfoldable pub note_serial : ℕ → Action (Fs Ctx) (Unit {0})
  note_serial sector fs = noted_serial (on_flash (read_sector_serial b (geometry fs) sector) fs)

  -- The loop of `recover_allocator_hint`, with the rounds left.
  unfoldable pub recover_from : ℕ → ℕ → Action (Fs Ctx) (Unit {0})
  recover_from zero sector = pure tt
  recover_from (suc left) sector = do
    out ← gets (λ fs. ltb sector fs.index_sectors || leb fs.sector_count sector)
    if out then pure tt else do
      note_serial sector
      next ← gets (λ fs. next_data_sector (geometry fs) sector)
      if leb next sector then pure tt else recover_from left next

  unfoldable pub recover_allocator_hint : ℕ → Action (Fs Ctx) (Unit {0})
  recover_allocator_hint head = do
    modify (λ fs. record fs { alloc_cursor = next_data_sector (geometry fs) head })
    recover_from (alloc_recovery_lookahead + 1) head

  unfoldable pub replay_index : Action (Fs Ctx) (Unit {0})
  replay_index = do
    modify (λ fs. record fs {
      next_index_offset = fs.active_index_sector * fs.sector_size + header_size;
    })
    count ← gets (λ fs. fs.index_sequence_count)
    oldest ← gets (λ fs. fs.oldest_index_sector)
    tail_head ← sectors_from count oldest 0
    if tail_head == 0 then pure tt else recover_allocator_hint tail_head
