-- ===== src/Journal/Copy.antt =====
-- The copy of a compaction keeps the ring, whatever the flash holds and wherever a call fails.
use fastffs.Prelude.{
  ℕ, ◌+◌, ◌*◌, ◌≤◌, ◌<◌, ◌≡◌, refl, ap, ◌∙◌, arith, Bool, true, false, leb, ◌||◌, ◌==◌,
  if◌then◌else◌,
}
use fastffs.Status.{Error, no_space, Action, pure, fail, gets, ◌>>=◌}
use fastffs.Flash.{Backend}
use fastffs.Fs.{Fs, on_flash}
use fastffs.Triple.{
  Triple, Triple-pure, Triple-fail, Triple-gets, Triple-modify, Triple-bind, Triple-weaken,
  Triple-on_flash,
}
use fastffs.Journal.Record.{program_index_record_at}
use fastffs.Journal.Rotate.{rotate_index_begin}
use fastffs.Journal.Compact.{
  RecordReader, RecordWriter, index_record_reader_load, read_compact_source_record,
  writer_prepare_spill, writer_flush, writer_append, program_next_record, active_is_full,
}
use fastffs.Journal.Ring.{IsRing, HasOldest, HasRoom, rotate_index_begin-Triple}

module _ {Ctx : Type 0} (b : Backend Ctx) where
  -- A record programmed at the place of the next one.
  pub program_next_record-Triple :
      {P Q E : Fs Ctx → Type 0}
      → ((fs : Fs Ctx) (c : Ctx) → P fs → P (record fs { ctx = c }))
      → ((fs : Fs Ctx) → P fs → Q (record fs { next_index_offset = fs.next_index_offset + 4 }))
      → ((fs : Fs Ctx) → P fs → E fs)
      → (slot head : ℕ) → Triple P (program_next_record b slot head) (λ _. Q) E
  unfolding program_next_record program_index_record_at
  program_next_record-Triple {P} {Q} {E} keep step failed slot head =
      Triple-bind (Triple-gets (λ fs. fs.next_index_offset)) (λ offset.
        Triple-bind
          (Triple-weaken {P = P} {Q = λ _. P} {E = P}
            (Triple-bind (Triple-on_flash _ keep) (λ _. Triple-on_flash _ keep)) (λ s h. h.0)
            (λ a s h. h) failed)
          (λ _.
            Triple-modify (λ fs. record fs { next_index_offset = fs.next_index_offset + 4 }) step))

-- A step of the copy keeps the ring and the sector to compact.
pub record Kept {Ctx A : Type 0} (m : Action (Fs Ctx) A) : Type 0 where
  pub triple : Triple HasOldest m (λ _. HasOldest) IsRing

module _ {Ctx A : Type 0} where
  pub Kept-pure : (a : A) → Kept {Ctx = Ctx} (pure a)
  Kept-pure a = record { triple = record { at = λ s h. h } }

  pub Kept-fail : (e : Error) → Kept {Ctx = Ctx} {A = A} (fail e)
  Kept-fail e = record { triple = record { at = λ s h. h.0 } }

  pub Kept-gets : (f : Fs Ctx → A) → Kept (gets f)
  Kept-gets f = record { triple = record { at = λ s h. h } }

  pub Kept-on_flash : (m : Action Ctx A) → Kept (on_flash m)
  Kept-on_flash m = record {
    triple =
        Triple-weaken (Triple-on_flash {P = HasOldest} m (λ fs c h. h)) (λ s h. h) (λ a s h. h)
          (λ s h. h.0);
  }

  pub Kept-if :
      (x : Bool) (m n : Action (Fs Ctx) A)
      → (x ≡ true → Kept m)
      → (x ≡ false → Kept n)
      → Kept (if x then m else n)
  Kept-if true m n km kn = km refl
  Kept-if false m n km kn = kn refl

pub Kept-bind :
    {Ctx A B : Type 0} (m : Action (Fs Ctx) A) (f : A → Action (Fs Ctx) B)
    → Kept m
    → ((a : A) → Kept (f a))
    → Kept (m >>= f)
Kept-bind m f km kf = record { triple = Triple-bind km.triple (λ a. (kf a).triple) }

ruleset kept_rules = (Kept-pure, Kept-fail, Kept-gets, Kept-on_flash, Kept-if, Kept-bind)

module _ {Ctx : Type 0} (b : Backend Ctx) where
  pub load-Kept :
      (reader : RecordReader) (offset : ℕ) → Kept (index_record_reader_load b reader offset)
  unfolding index_record_reader_load
  load-Kept reader offset = search kept_rules depth 12

  pub source-Kept :
      (reader : RecordReader) (offset : ℕ) → Kept (read_compact_source_record b reader offset)
  unfolding read_compact_source_record
  source-Kept reader offset = search (kept_rules, load-Kept) depth 12

  -- A writer that has nothing in its buffer flushes nothing.
  pub flush-Triple :
      {P E : Fs Ctx → Type 0} (writer : RecordWriter)
      → writer.len ≡ 0
      → Triple P (writer_flush b writer) (λ w fs. P fs × (w ≡ writer)) E
  unfolding writer_flush
  flush-Triple writer e = rw (nothing writer.len e) (Triple-pure writer (λ s h. (h, refl)))
    where
      nothing : (n : ℕ) → n ≡ 0 → (n == 0) ≡ true
      nothing n e = ground arith

  spill-Triple :
      (writer : RecordWriter)
      → Triple HasOldest
          (writer_prepare_spill b writer)
          (λ w fs. HasRoom fs × (w.len ≡ writer.len))
          IsRing
  unfolding writer_prepare_spill
  spill-Triple writer =
      Triple-bind (Triple-gets (λ fs. leb fs.index_sectors fs.index_sequence_count)) (λ full.
        record { at = λ s h. (branch full (writer.pending_rotation || full) (same full)).at s h })
    where
      same : (full : Bool) → (writer.pending_rotation || full) ≡ false → full ≡ false
      same full h = ground arith

      branch :
          (full stop : Bool)
          → (stop ≡ false → full ≡ false)
          → Triple
              (λ fs. HasOldest fs × (full ≡ leb fs.index_sectors fs.index_sequence_count))
              (if stop
                then fail no_space
                else (rotate_index_begin b >>= λ _.
                    pure (record writer { pending_rotation = true })))
              (λ w fs. HasRoom fs × (w.len ≡ writer.len))
              IsRing
      branch full true h = Triple-fail no_space (λ s k. k.0.0)
      branch full false h =
          Triple-bind
            (Triple-weaken (rotate_index_begin-Triple b) (λ s k. (k.0.0, spare s full k (h refl)))
              (λ a s k. k) (λ s k. k))
            (λ _. Triple-pure (record writer { pending_rotation = true }) (λ s k. (k, refl)))
        where
          spare :
              (s : Fs Ctx) (full : Bool)
              → HasOldest s × (full ≡ leb s.index_sectors s.index_sequence_count)
              → full ≡ false
              → s.index_sequence_count < s.index_sectors
          spare s full k e = ground arith

  -- A writer with nothing in its buffer, and the ring.
  abbrev pub Writing : RecordWriter → Fs Ctx → Type 0
  Writing writer fs = HasOldest fs × (writer.len ≡ 0)

  pub append-Triple :
      (writer : RecordWriter) (slot head : ℕ)
      → writer.len ≡ 0
      → Triple HasOldest (writer_append b writer slot head) Writing IsRing
  unfolding writer_append
  append-Triple writer slot head e = Triple-bind (flush-Triple writer e) (λ flushed.
      Triple-bind (Triple-gets active_is_full) (λ full.
        Triple-bind (spilled flushed full) (λ spilled.
          Triple-bind
            (program_next_record-Triple b {P = λ fs. HasRoom fs × (spilled.len ≡ 0)} (λ fs c h. h)
              (λ fs h. (stepped fs h.0, h.1)) (λ fs h. h.0.0.0) slot head)
            (λ _. Triple-pure spilled (λ s h. h)))))
    where
      stepped :
          (fs : Fs Ctx)
          → HasRoom fs
          → HasOldest (record fs { next_index_offset = fs.next_index_offset + 4 })
      stepped fs h = omega arith

      spilled :
          (flushed : RecordWriter) (full : Bool)
          → Triple
              (λ fs. (HasOldest fs × (flushed ≡ writer)) × (full ≡ active_is_full fs))
              (if full then writer_prepare_spill b flushed else pure flushed)
              (λ w fs. HasRoom fs × (w.len ≡ 0))
              IsRing
      spilled flushed true =
          Triple-weaken {P = λ fs. HasOldest fs × (flushed ≡ writer)} {E = IsRing}
            (kept (spill-Triple flushed)) (λ s h. h.0) (λ a s h. h) (λ s h. h)
        where
          kept :
              Triple HasOldest
                (writer_prepare_spill b flushed)
                (λ w fs. HasRoom fs × (w.len ≡ flushed.len))
                IsRing
              → Triple
                  (λ fs. HasOldest fs × (flushed ≡ writer))
                  (writer_prepare_spill b flushed)
                  (λ w fs. HasRoom fs × (w.len ≡ 0))
                  IsRing
          kept t = record {
            at = λ s h.
                (Triple-weaken {E' = IsRing} t (λ s k. k)
                    (λ w s k. (k.0, k.1 ∙ ap (λ x. x.len) h.1 ∙ e)) (λ s k. k)).at
                  s h.0;
          }
      spilled flushed false =
          Triple-pure flushed (λ s h. ((h.0.0, room s h.1), ap (λ x. x.len) h.0.1 ∙ e))
        where
          room :
              (s : Fs Ctx)
              → false ≡ active_is_full s
              → s.next_index_offset + 4 ≤ (s.active_index_sector + 1) * s.sector_size
          room s h = ground arith
