-- ===== src/Journal/Record.antt =====
-- One record of the journal: where it stands, how it is read, and how it is programmed.
use fastffs.Prelude.{
  ℕ, zero, suc, ◌+◌, ◌-◌, ◌*◌, ◌%◌, bit_and, List, [], ◌∷◌, Bool, true, false, not, ◌&&◌, ◌||◌,
  ◌==◌, ltb, leb, if◌then◌else◌, take, drop,
}
use fastffs.Status.{corrupt, err, Action, pure, modify, ◌>>=◌, ◌>>◌}
use fastffs.Bytes.{u8, load_le16, store_le16, bytes_erased}
use fastffs.Flash.{Backend, flash_read, program_aligned}
use fastffs.IndexHeader.{header_size, index_flags_valid}
use fastffs.Fs.{Fs, on_flash}

module _ {Ctx : Type 0} where
  unfoldable pub logical_index_sector : Fs Ctx → ℕ → ℕ
  logical_index_sector fs seq_pos = (fs.oldest_index_sector + seq_pos) % fs.index_sectors

  unfoldable pub index_sector_begin : Fs Ctx → ℕ → ℕ
  index_sector_begin fs sector = sector * fs.sector_size + header_size

  unfoldable pub index_sector_end : Fs Ctx → ℕ → ℕ
  index_sector_end fs sector =
      if sector == fs.active_index_sector
      then fs.next_index_offset
      else (sector + 1) * fs.sector_size

module _ {Ctx : Type 0} (b : Backend Ctx) where
  unfoldable pub read_index_record : ℕ → Action (Fs Ctx) (ℕ × ℕ)
  read_index_record offset = do
    rec ← on_flash (flash_read b offset 4)
    pure (load_le16 rec, load_le16 (drop 2 rec))

  -- The slot first, and then the head: a record is cut off between them at the latest.
  unfoldable pub program_index_record_at : ℕ → ℕ → ℕ → Action (Fs Ctx) (Unit {0})
  program_index_record_at offset slot head = do
    on_flash (program_aligned b offset (store_le16 slot))
    on_flash (program_aligned b (offset + 2) (store_le16 head))

  unfoldable pub clobber_active_tail : ℕ → Action (Fs Ctx) (Unit {0})
  clobber_active_tail rec_off = do
    on_flash (program_aligned b rec_off (0 ∷ 0 ∷ 0 ∷ 0 ∷ []))
    modify (λ fs. record fs { next_index_offset = rec_off + 4 })

  unfoldable pub clobber_or_reject_active_tail : ℕ → Bool → Action (Fs Ctx) (Unit {0})
  clobber_or_reject_active_tail rec_off terminal_active_tail fs =
      if fs.strict || not terminal_active_tail
      then (err corrupt, fs)
      else clobber_active_tail rec_off fs

  -- The loop reads a byte at least each round, so that a round for each byte is enough.
  unfoldable pub span_erased_from : ℕ → ℕ → ℕ → Action (Fs Ctx) Bool
  span_erased_from zero offset size = pure true
  span_erased_from (suc fuel) offset size =
      let n = if ltb size 32 then size else 32 in
      let later = span_erased_from fuel (offset + n) (size - n) in
      if size == 0 then pure true else do
        buf ← on_flash (flash_read b offset n)
        if bytes_erased (take n buf) then later else pure false

  unfoldable pub index_flash_span_erased : ℕ → ℕ → Action (Fs Ctx) Bool
  index_flash_span_erased offset size = span_erased_from size offset size

  -- The bytes of `chunk` from `pos` on are those at `rec_off`; `nread` bytes of it were read.
  unfoldable pub rest_is_erased : ℕ → List ℕ → ℕ → ℕ → ℕ → Action (Fs Ctx) Bool
  rest_is_erased rec_off chunk pos nread end =
      let rest_off = rec_off + 8 in
      let chunk_end = rec_off + (nread - pos) in
      let from = if ltb rest_off chunk_end then chunk_end else rest_off in
      if ltb rest_off chunk_end
        && not (bytes_erased (take (chunk_end - rest_off) (drop (pos + 8) chunk)))
      then pure false
      else if leb end from
      then pure true
      else index_flash_span_erased from (end - from)

  unfoldable pub active_index_record_is_terminal : ℕ → List ℕ → ℕ → ℕ → ℕ → Action (Fs Ctx) Bool
  active_index_record_is_terminal rec_off chunk pos nread end =
      if rec_off + 4 == end then pure true else do
        next_rec ←
            if leb (pos + 8) nread
            then pure (take 4 (drop (pos + 4) chunk))
            else on_flash (flash_read b (rec_off + 4) 4)
        if bytes_erased next_rec then rest_is_erased rec_off chunk pos nread end else pure false

  -- The flags of a valid header without the bit FFFS_INDEX_FLAG_TOMBSTONED.
  unfoldable pub tombstone_index_sector : ℕ → Action (Fs Ctx) (Unit {0})
  tombstone_index_sector sector fs =
      on_flash
        (program_aligned b (sector * fs.sector_size + 7)
          (bit_and index_flags_valid (u8 (0xff - 0x40)) ∷ []))
        fs
