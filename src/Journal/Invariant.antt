-- ===== src/Journal/Invariant.antt =====
-- Every operation of the journal keeps the ring of index sectors, whatever the flash holds and
-- wherever a call of the backend fails.
use fastffs.Prelude.{
  ℕ, zero, suc, ◌+◌, ◌≡◌, refl, Bool, true, false, leb, ltb, not, ◌||◌, ◌&&◌, ◌==◌, if◌then◌else◌,
  some, none,
}
use fastffs.Status.{Result, ok, err, pure, gets, ◌>>=◌}
use fastffs.Flash.{Backend}
use fastffs.HashIndex.{record_is_current}
use fastffs.Fs.{Fs}
use fastffs.Triple.{Triple, Triple-pure, Triple-gets, Triple-bind, Triple-weaken, Outcome}
use fastffs.Journal.Record.{index_sector_begin, index_sector_end}
use fastffs.Journal.Rotate.{rotate_index_commit}
use fastffs.Journal.Compact.{
  RecordReader, RecordWriter, SourceRecord, fresh_reader, fresh_writer, writer_commit_spill,
  writer_flush, writer_append, is_current, copy_record, copy_from, index_compact_oldest_copy,
}
use fastffs.Journal.Ring.{IsRing, HasOldest, rotate_index_commit-Triple}
use fastffs.Journal.Copy.{Writing, source-Kept, flush-Triple, append-Triple}

module _ {Ctx : Type 0} (b : Backend Ctx) where
  -- The end of a step: whether there are more, the reader, and a writer with nothing in its buffer.
  abbrev Stepped : Bool × RecordReader × RecordWriter → Fs Ctx → Type 0
  Stepped r = Writing b r.2

  copy_current-Triple :
      (rec : SourceRecord) (reader : RecordReader) (writer : RecordWriter) (current : Bool)
      → writer.len ≡ 0
      → Triple HasOldest
          ((if current then writer_append b writer rec.slot rec.head else pure writer)
            >>= λ writer'. pure (true, reader, writer'))
          Stepped
          IsRing
  copy_current-Triple rec reader writer true e =
      Triple-bind (append-Triple b writer rec.slot rec.head e)
        (λ writer'. Triple-pure (true, reader, writer') (λ s h. h))
  copy_current-Triple rec reader writer false e =
      Triple-bind {Q = Writing b} (Triple-pure writer (λ s h. (h, e)))
        (λ writer'. Triple-pure (true, reader, writer') (λ s h. h))

  is_current-Triple :
      (rec : SourceRecord)
      → Triple HasOldest (is_current {Ctx = Ctx} rec.slot rec.head) (λ _. HasOldest) IsRing
  unfolding is_current
  is_current-Triple rec = record {
    at = λ fs h. same fs h (record_is_current fs.index_cache rec.slot rec.head);
  }
    where
      same :
          (fs : Fs Ctx)
          → HasOldest fs
          → (r : Result Bool) → Outcome (λ (x : Bool). HasOldest) IsRing (r, fs)
      same fs h (ok x) = h
      same fs h (err e) = h.0

  copy_rest-Triple :
      (rec : SourceRecord) (reader : RecordReader) (writer : RecordWriter) (last skip : Bool)
      → writer.len ≡ 0
      → Triple HasOldest
          (if last
            then pure (false, reader, writer)
            else if skip
            then pure (true, reader, writer)
            else (is_current rec.slot rec.head >>= λ current.
                (if current then writer_append b writer rec.slot rec.head else pure writer)
                >>= λ writer'. pure (true, reader, writer')))
          Stepped
          IsRing
  copy_rest-Triple rec reader writer true skip e =
      Triple-pure (false, reader, writer) (λ s h. (h, e))
  copy_rest-Triple rec reader writer false true e =
      Triple-pure (true, reader, writer) (λ s h. (h, e))
  copy_rest-Triple rec reader writer false false e =
      Triple-bind {Q = λ _. HasOldest} (is_current-Triple rec)
        (λ current. copy_current-Triple rec reader writer current e)

  copy_record-Triple :
      (off : ℕ) (reader : RecordReader) (writer : RecordWriter)
      → writer.len ≡ 0
      → Triple HasOldest (copy_record b off reader writer) Stepped IsRing
  unfolding copy_record
  copy_record-Triple off reader writer e = Triple-bind (source-Kept b reader off).triple (λ read.
      copy_rest-Triple read.0 read.1 writer read.0.erased
        ((read.0.slot == 0 && read.0.head == 0) || read.0.head == 0) e)

  copy_from-Triple :
      (fuel source_end off : ℕ) (reader : RecordReader) (writer : RecordWriter)
      → writer.len ≡ 0
      → Triple HasOldest (copy_from b fuel source_end off reader writer) (Writing b) IsRing
  unfolding copy_from
  copy_from-Triple zero source_end off reader writer e = Triple-pure writer (λ s h. (h, e))
  copy_from-Triple (suc fuel) source_end off reader writer e =
      past (ltb source_end (off + 4)) (copy_from-Triple fuel source_end (off + 4))
    where
      go_on :
          (step : Bool × RecordReader × RecordWriter)
          → ((r : RecordReader) (w : RecordWriter)
              → w.len ≡ 0
              → Triple HasOldest (copy_from b fuel source_end (off + 4) r w) (Writing b) IsRing)
          → Triple
              (Stepped step)
              (if step.0 then copy_from b fuel source_end (off + 4) step.1 step.2 else pure step.2)
              (Writing b)
              IsRing
      go_on (true, r, w) later = record { at = λ s h. (later r w h.1).at s h.0 }
      go_on (false, r, w) later = Triple-pure w (λ s h. h)

      past :
          (end : Bool)
          → ((r : RecordReader) (w : RecordWriter)
              → w.len ≡ 0
              → Triple HasOldest (copy_from b fuel source_end (off + 4) r w) (Writing b) IsRing)
          → Triple HasOldest
              (if end
                then pure writer
                else (copy_record b off reader writer >>= λ step.
                    if step.0
                    then copy_from b fuel source_end (off + 4) step.1 step.2
                    else pure step.2))
              (Writing b)
              IsRing
      past true later = Triple-pure writer (λ s h. (h, e))
      past false later =
          Triple-bind (copy_record-Triple off reader writer e) (λ step. go_on step later)

  commit_spill-Triple :
      (writer : RecordWriter)
      → Triple HasOldest (writer_commit_spill b writer) (λ _. HasOldest) IsRing
  unfolding writer_commit_spill
  commit_spill-Triple writer = either writer.pending_rotation
    where
      either :
          (pending : Bool)
          → Triple HasOldest
              (if not pending
                then pure writer
                else (rotate_index_commit b >>= λ _.
                    pure (record writer { pending_rotation = false })))
              (λ _. HasOldest)
              IsRing
      either false = Triple-pure writer (λ s h. h)
      either true =
          Triple-bind
            (Triple-weaken (rotate_index_commit-Triple b {P = HasOldest} (λ fs c h. h)) (λ s h. h)
              (λ a s h. h) (λ s h. h.0))
            (λ _. Triple-pure _ (λ s h. h))

  pub index_compact_oldest_copy-Triple :
      Triple HasOldest (index_compact_oldest_copy b) (λ _. HasOldest) IsRing
  unfolding index_compact_oldest_copy
  index_compact_oldest_copy-Triple =
      Triple-bind (Triple-gets (λ fs. leb fs.index_sequence_count 1))
        (λ few. record { at = λ s h. (either few).at s h.0 })
    where
      read : {A : Type 0} (f : Fs Ctx → A) → Triple HasOldest (gets f) (λ _. HasOldest) IsRing
      read f = record { at = λ s h. h }

      either :
          (few : Bool)
          → Triple HasOldest
              (if few
                then pure none
                else (gets (λ fs. fs.oldest_index_sector) >>= λ source.
                    gets (λ fs. index_sector_begin fs source) >>= λ begin.
                    gets (λ fs. index_sector_end fs source) >>= λ end.
                    copy_from b end end begin fresh_reader fresh_writer >>= λ writer.
                    writer_flush b writer >>= λ flushed.
                    writer_commit_spill b flushed >>= λ committed. pure (some source)))
              (λ _. HasOldest)
              IsRing
      either true = Triple-pure none (λ s h. h)
      either false = Triple-bind (read (λ fs. fs.oldest_index_sector)) (λ source.
          Triple-bind (read (λ fs. index_sector_begin fs source)) (λ begin.
            Triple-bind (read (λ fs. index_sector_end fs source)) (λ end.
              Triple-bind (copy_from-Triple end end begin fresh_reader fresh_writer refl) (λ writer.
                Triple-bind {Q = λ _. HasOldest}
                  (record {
                    at = λ s h.
                        (Triple-weaken {Q' = λ _. HasOldest}
                            (flush-Triple b {P = HasOldest} {E = IsRing} writer h.1) (λ s k. k)
                            (λ a s k. k.0) (λ s k. k)).at
                          s h.0;
                  })
                  (λ flushed.
                    Triple-bind (commit_spill-Triple flushed)
                      (λ committed. Triple-pure (some source) (λ s h. h)))))))
