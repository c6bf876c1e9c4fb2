-- ===== src/Journal/RoundTrip.antt =====
-- A record of the journal is read back as it was programmed.
use fastffs.Prelude.{
  ℕ, zero, suc, ◌+◌, ◌%◌, ◌^◌, ◌≤◌, ◌<◌, ◌≡◌, ◌⊎◌, inl, inr, refl, ap, ap₂, ◌∙◌, arith, [], ◌∷◌,
  ◌++◌, drop, get_or,
}
use fastffs.Status.{ok}
use fastffs.Bytes.{load_le16, store_le16}
use fastffs.Bytes.Laws.{load_le16-store_le16}
use fastffs.Flash.{Backend, program_aligned}
use fastffs.Flash.Nor.{IsNor, IsReliable, span}
use fastffs.Flash.Reads.{flash_read_lem}
use fastffs.Flash.Spans.{program_aligned-span}
use fastffs.Fs.{Fs, on_flash}
use fastffs.Journal.Record.{read_index_record, program_index_record_at}

store_le16-byte : (v i : ℕ) → i < 2 → get_or (store_le16 v) i 0xff < 256
unfolding store_le16
store_le16-byte v zero lt = omega arith
store_le16-byte v (suc zero) lt = omega arith
store_le16-byte v (suc (suc i)) lt = absurd (omega arith)

module _ {Ctx : Type 0} {b : Backend Ctx} {cell : Ctx → ℕ → ℕ} (nor : IsNor b cell)
    (works : IsReliable b) (pos : 0 < b.program_granule)
    (fits : b.size % b.program_granule ≡ 0) where
  -- Two bytes, and nothing else.
  program_word :
      (offset v : ℕ) (c : Ctx)
      → offset + 2 ≤ b.size
      → ((i : ℕ) → i < 2 → cell c (offset + i) ≡ 0xff)
      → (c' : Ctx) × (program_aligned b offset (store_le16 v) c ≡ (ok tt, c'))
        × (span (cell c') offset 2 ≡ store_le16 v)
        × ((i : ℕ) → (i < offset) ⊎ (offset + 2 ≤ i) → cell c' i ≡ cell c i)
  unfolding store_le16
  program_word offset v c inside erased =
      program_aligned-span nor works pos fits offset (store_le16 v) 2 c inside (omega arith)
        (store_le16-byte v) erased

  -- The bytes of both words.
  whole_record :
      (cells cells' : ℕ → ℕ) (offset slot head : ℕ)
      → span cells offset 2 ≡ store_le16 slot
      → span cells' (offset + 2) 2 ≡ store_le16 head
      → ((i : ℕ) → (i < offset + 2) ⊎ (offset + 2 + 2 ≤ i) → cells' i ≡ cells i)
      → span cells' offset 4 ≡ store_le16 slot ++ store_le16 head
  whole_record cells cells' offset slot head first second kept =
      ap₂ (λ x y. x ++ y)
        (ap₂ (λ x y. x ∷ y ∷ []) (kept offset (inl (omega arith)))
            (kept (suc offset) (inl (omega arith)))
          ∙ first)
        (ap (λ n. span cells' n 2) (place offset) ∙ second)
    where
      place : (offset : ℕ) → suc (suc offset) ≡ offset + 2
      place offset = omega arith

  -- On reliable NOR flash whose size is a multiple of its granule, programming a record of a slot and
  -- a head of 16 bits on four erased cells inside the flash succeeds, and reading it there then
  -- gives the slot and the head.
  pub program_index_record_at-read_index_record :
      (offset slot head : ℕ) (fs : Fs Ctx)
      → offset + 4 ≤ b.size
      → slot < 2 ^ 16
      → head < 2 ^ 16
      → ((i : ℕ) → i < 4 → cell fs.ctx (offset + i) ≡ 0xff)
      → (fs1 fs2 : Fs Ctx) × (program_index_record_at b offset slot head fs ≡ (ok tt, fs1))
        × (read_index_record b offset fs1 ≡ (ok (slot, head), fs2))
  unfolding program_index_record_at read_index_record on_flash store_le16
  program_index_record_at-read_index_record offset slot head fs inside s h erased =
      let (c1, r1, first, kept1) =
        program_word offset slot fs.ctx (omega arith) (λ i lt. erased i (omega arith)) in
      let (c2, r2, second, kept2) = program_word (offset + 2) head c1 (omega arith) (λ i lt.
        kept1 (offset + 2 + i) (inr (omega arith)) ∙ again i ∙ erased (2 + i) (omega arith)) in
      let fs2 : Fs Ctx = record fs { ctx = (b.read offset 4 c2).2 } in
      (
        record fs { ctx = c2 },
        fs2,
        rw (r1, r2) refl,
        rw (flash_read_lem nor works offset 4 c2 inside) (
            ap (λ bytes. (ok (load_le16 bytes, load_le16 (drop 2 bytes)), fs2))
              (whole_record (cell c1) (cell c2) offset slot head first second kept2)
            ∙ ap₂ (λ x y. (ok (x, y), fs2)) (load_le16-store_le16 slot (store_le16 head) s)
                (last_word head h)),
      )
    where
      again : (i : ℕ) → cell fs.ctx (offset + 2 + i) ≡ cell fs.ctx (offset + (2 + i))
      again i = ap (cell fs.ctx) (omega arith)

      last_word : (v : ℕ) → v < 2 ^ 16 → load_le16 (store_le16 v) ≡ v
      last_word v lt = load_le16-store_le16 v [] lt
