-- ===== src/Mount/Stops.antt =====
-- A mount comes to an end, unless the removal of a slot from its cache does not.
use fastffs.Prelude.{
  ℕ, zero, suc, ◌+◌, ◌-◌, ◌≤◌, ◌<◌, ◌≡◌, refl, arith, List, Option, some, none, Bool, true, false,
  not, ◌||◌, ltb, if◌then◌else◌, ◌/◌, set, length,
}
use fastffs.Status.{
  Error, invalid, nomem, range, no_space, not_found, exists, name_too_long, corrupt, io, hang,
  passed_over, Result, ok, err, Action, pure, gets, modify, ◌>>=◌, next,
}
use fastffs.Flash.{Backend, flash_read, program_aligned}
use fastffs.Flash.Ends.{program_aligned-IsDone}
use fastffs.HashIndex.{Bucket, find_slot_bucket, insert, remove, remove_found}
use fastffs.Settled.{Ends, Settled}
use fastffs.Fs.{Fs, geometry, on_flash}
use fastffs.Sector.{footer_size}
use fastffs.Names.Reads.{flash_read-Settled, read_file_root_md-Settled, find_slot-Settled}
use fastffs.Metadata.Root.{RootMd, read_file_root_md}
use fastffs.Journal.Append.{cached}
use fastffs.Journal.Record.{
  clobber_or_reject_active_tail, clobber_active_tail, span_erased_from, index_flash_span_erased,
  rest_is_erased, active_index_record_is_terminal,
}
use fastffs.Journal.Replay.{
  index_insert, index_remove, note_next, chunk_nread, readable, root_is_readable, leave_tail,
  replay_head, replay_written, replay_record, records_from, replay_chunk, chunks_from,
}

-- The scratch has room for a record, and a sector for its footer.
abbrev pub HasBuffers : {Ctx : Type 0} → Fs Ctx → Type 0
HasBuffers fs = (4 ≤ fs.scratch_size) × (footer_size ≤ fs.sector_size)

-- What does not end is the removal of some slot.
abbrev pub IsStopped : {Ctx : Type 0} → Error → Fs Ctx → Type 0
IsStopped hang fs = (slot : ℕ) × (remove fs.index_cache slot ≡ none)
IsStopped e fs = Unit

abbrev pub IsOver : {Ctx A : Type 0} → Result A × Fs Ctx → Type 0
IsOver (ok a, fs) = HasBuffers fs
IsOver (err e, fs) = IsStopped e fs

pub record Stops {Ctx A : Type 0} (m : Action (Fs Ctx) A) : Type 0 where
  pub at : (fs : Fs Ctx) → HasBuffers fs → IsOver (m fs)

pub Ends-IsStopped : {Ctx : Type 0} (e : Error) (fs : Fs Ctx) → Ends e → IsStopped e fs
Ends-IsStopped invalid fs h = tt
Ends-IsStopped nomem fs h = tt
Ends-IsStopped range fs h = tt
Ends-IsStopped no_space fs h = tt
Ends-IsStopped not_found fs h = tt
Ends-IsStopped exists fs h = tt
Ends-IsStopped name_too_long fs h = tt
Ends-IsStopped corrupt fs h = tt
Ends-IsStopped io fs h = tt
Ends-IsStopped hang fs h = absurd h

module _ {Ctx A : Type 0} where
  pub Stops-pure : (a : A) → Stops {Ctx = Ctx} (pure a)
  Stops-pure a = record { at = λ fs h. h }

  pub Stops-gets : (f : Fs Ctx → A) → Stops (gets f)
  Stops-gets f = record { at = λ fs h. h }

  pub Stops-if :
      (test : Bool) (m n : Action (Fs Ctx) A) → Stops m → Stops n → Stops (if test then m else n)
  Stops-if true m n km kn = km
  Stops-if false m n km kn = kn

  pub flash-IsOver :
      (fs : Fs Ctx)
      → HasBuffers fs
      → (r : Result A × Ctx) → Settled (λ a c. Unit {0}) r
      → IsOver (r.0, record fs { ctx = r.1 })
  flash-IsOver fs h (ok a, c) k = h
  flash-IsOver fs h (err e, c) k = Ends-IsStopped e (record fs { ctx = c }) k

  pub Stops-on_flash :
      (m : Action Ctx A) → ((c : Ctx) → Settled (λ a c. Unit {0}) (m c)) → Stops (on_flash m)
  unfolding on_flash
  Stops-on_flash m ends = record { at = λ fs h. flash-IsOver fs h (m fs.ctx) (ends fs.ctx) }

next-IsOver :
    {Ctx A B : Type 0} (r : Result A × Fs Ctx) (f : A → Action (Fs Ctx) B)
    → IsOver r
    → ((a : A) → Stops (f a))
    → IsOver (next r f)
next-IsOver (ok a, fs) f h k = (k a).at fs h
next-IsOver (err e, fs) f h k = h

pub Stops-bind :
    {Ctx A B : Type 0} (m : Action (Fs Ctx) A) (f : A → Action (Fs Ctx) B)
    → Stops m
    → ((a : A) → Stops (f a))
    → Stops (m >>= f)
Stops-bind m f km kf = record { at = λ fs h. next-IsOver (m fs) f (km.at fs h) kf }

pub Stops-modify :
    {Ctx : Type 0} (f : Fs Ctx → Fs Ctx)
    → ((fs : Fs Ctx) → HasBuffers fs → HasBuffers (f fs))
    → Stops (modify f)
Stops-modify f keep = record { at = keep }

pub ruleset stops_rules = (Stops-pure, Stops-gets, Stops-if, Stops-bind)

module _ {Ctx : Type 0} (b : Backend Ctx) where
  read-Stops : (off n : ℕ) → Stops (on_flash (flash_read b off n))
  read-Stops off n = Stops-on_flash (flash_read b off n) (flash_read-Settled b off n)

  clobber-Stops : (rec_off : ℕ) → Stops (clobber_active_tail b rec_off)
  unfolding clobber_active_tail
  clobber-Stops rec_off =
      Stops-bind _ _
        (Stops-on_flash (program_aligned b rec_off _) (program_aligned-IsDone b rec_off _))
        (λ _. record { at = λ fs h. h })

  clobber_or_reject-Stops :
      (rec_off : ℕ) (terminal : Bool) → Stops (clobber_or_reject_active_tail b rec_off terminal)
  unfolding clobber_or_reject_active_tail
  clobber_or_reject-Stops rec_off terminal = record {
    at = λ fs h. either fs h (fs.strict || not terminal);
  }
    where
      either :
          (fs : Fs Ctx)
          → HasBuffers fs
          → (refused : Bool)
          → IsOver {A = Unit {0}}
              (if refused then (err corrupt, fs) else clobber_active_tail b rec_off fs)
      either fs h true = tt
      either fs h false = (clobber-Stops rec_off).at fs h

  leave_tail-Stops :
      (rec_off : ℕ) (terminal : Bool) (tail : ℕ) → Stops (leave_tail b rec_off terminal tail)
  unfolding leave_tail
  leave_tail-Stops rec_off terminal tail = search (stops_rules, clobber_or_reject-Stops) depth 8

  span_erased-Stops : (fuel offset size : ℕ) → Stops (span_erased_from b fuel offset size)
  unfolding span_erased_from
  span_erased-Stops zero offset size = Stops-pure true
  span_erased-Stops (suc fuel) offset size =
      search (stops_rules, read-Stops, span_erased-Stops fuel) depth 12

  terminal-Stops :
      (rec_off : ℕ) (chunk : List ℕ) (pos nread end : ℕ)
      → Stops (active_index_record_is_terminal b rec_off chunk pos nread end)
  unfolding active_index_record_is_terminal rest_is_erased index_flash_span_erased
  terminal-Stops rec_off chunk pos nread end =
      search (stops_rules, read-Stops, span_erased-Stops) depth 14

  readable-IsOver :
      (fs : Fs Ctx)
      → HasBuffers fs
      → (r : Result RootMd × Ctx) → Settled (λ a c. Unit {0}) r
      → IsOver (readable (r.0, record fs { ctx = r.1 }))
  unfolding readable passed_over
  readable-IsOver fs h (ok root, c) k = h
  readable-IsOver fs h (err e, c) k = kept e k
    where
      kept : (e : Error) → Ends e → IsOver (passed_over false e, record fs { ctx = c })
      kept invalid k = h
      kept nomem k = h
      kept range k = h
      kept no_space k = h
      kept not_found k = h
      kept exists k = h
      kept name_too_long k = h
      kept corrupt k = h
      kept io k = h
      kept hang k = absurd k

  root_is_readable-Stops : (head slot : ℕ) → Stops (root_is_readable b head slot)
  unfolding root_is_readable on_flash
  root_is_readable-Stops head slot = record {
    at = λ fs h.
        readable-IsOver fs h (read_file_root_md b (geometry fs) head slot false none fs.ctx)
          (read_file_root_md-Settled b (geometry fs) head slot false none fs.ctx h.1);
  }

  insert-Stops : (slot head : ℕ) → Stops {Ctx = Ctx} (index_insert slot head)
  unfolding index_insert cached insert
  insert-Stops slot head = record {
    at = λ fs h.
        done fs h (find_slot_bucket fs.index_cache slot) (find_slot-Settled fs.index_cache slot fs);
  }
    where
      done :
          (fs : Fs Ctx)
          → HasBuffers fs
          → (r : Result (ℕ × Bool)) → Settled (λ x t. Unit {0}) (r, fs)
          → IsOver (
              cached
                (some (elim r [
                  | ok (idx, found) ↦
                      ok (set fs.index_cache idx (record { slot = slot; head = head }))
                  | err e ↦ err e
                ]))
                fs)
      done fs h (ok (idx, found)) k = h
      done fs h (err e) k = Ends-IsStopped e fs k

  remove-Stops : (slot : ℕ) → Stops {Ctx = Ctx} (index_remove slot)
  unfolding index_remove cached remove_found remove find_slot_bucket
  remove-Stops slot = record {
    at = λ fs h. done fs h (remove fs.index_cache slot) refl (
        removed fs (find_slot_bucket fs.index_cache slot)
          (find_slot-Settled fs.index_cache slot fs));
  }
    where
      Removed : Fs Ctx → Option (Result (List Bucket)) → Type 0
      Removed fs none = Unit
      Removed fs (some r) = Settled (λ x t. Unit {0}) (r, fs)

      taken :
          (fs : Fs Ctx) (o : Option (List Bucket))
          → Removed fs (elim o [ some table' ↦ some (ok table') | none ↦ none ])
      taken fs none = tt
      taken fs (some table) = tt

      removed :
          (fs : Fs Ctx) (r : Result (ℕ × Bool))
          → Settled (λ x t. Unit {0}) (r, fs)
          → Removed fs (remove_found (length fs.index_cache) fs.index_cache r)
      removed fs (ok (idx, true)) k = taken fs _
      removed fs (ok (idx, false)) k = tt
      removed fs (err no_space) k = tt
      removed fs (err invalid) k = k
      removed fs (err nomem) k = k
      removed fs (err range) k = k
      removed fs (err not_found) k = k
      removed fs (err exists) k = k
      removed fs (err name_too_long) k = k
      removed fs (err corrupt) k = k
      removed fs (err io) k = k
      removed fs (err hang) k = k

      done :
          (fs : Fs Ctx)
          → HasBuffers fs
          → (r : Option (Result (List Bucket))) → remove fs.index_cache slot ≡ r
          → Removed fs r
          → IsOver (cached r fs)
      done fs h none e k = (slot, e)
      done fs h (some (ok table)) e k = h
      done fs h (some (err x)) e k = Ends-IsStopped x fs k

  note_next-Stops : (active : Bool) (offset : ℕ) → Stops {Ctx = Ctx} (note_next active offset)
  unfolding note_next
  note_next-Stops true offset = record { at = λ fs h. h }
  note_next-Stops false offset = record { at = λ fs h. h }

  head-Stops :
      (rec_off : ℕ) (terminal : Bool) (slot head tail : ℕ)
      → Stops (replay_head b rec_off terminal slot head tail)
  unfolding replay_head
  head-Stops rec_off terminal slot head tail =
      search (stops_rules, leave_tail-Stops, root_is_readable-Stops, insert-Stops) depth 14

  written-Stops :
      (rec_off : ℕ) (terminal : Bool) (slot head tail : ℕ)
      → Stops (replay_written b rec_off terminal slot head tail)
  unfolding replay_written
  written-Stops rec_off terminal slot head tail =
      search (stops_rules, leave_tail-Stops, remove-Stops, head-Stops) depth 10

  record-Stops :
      (active : Bool) (rec_off : ℕ) (chunk : List ℕ) (pos nread end tail : ℕ)
      → Stops (replay_record b active rec_off chunk pos nread end tail)
  unfolding replay_record
  record-Stops active rec_off chunk pos nread end tail =
      search (stops_rules, note_next-Stops, terminal-Stops, written-Stops) depth 12

  records-Stops :
      (left : ℕ) (active : Bool) (off : ℕ) (chunk : List ℕ) (pos nread end tail : ℕ)
      → Stops (records_from b left active off chunk pos nread end tail)
  unfolding records_from
  records-Stops zero active off chunk pos nread end tail = Stops-pure (true, tail)
  records-Stops (suc left) active off chunk pos nread end tail =
      Stops-bind _ _ (record-Stops active (off + pos) chunk pos nread end tail) (λ step.
        Stops-if step.0 _ _ (records-Stops left active off chunk (pos + 4) nread end step.1)
          (Stops-pure (false, step.1)))

  chunk-Stops :
      (active : Bool) (off nread end tail : ℕ) → Stops (replay_chunk b active off nread end tail)
  unfolding replay_chunk
  chunk-Stops active off nread end tail = Stops-bind _ _ (read-Stops off nread) (λ chunk.
      Stops-bind _ _ (records-Stops (nread / 4) active off chunk 0 nread end tail) (λ step.
        Stops-if step.0 _ _
          (Stops-bind _ _ (note_next-Stops active (off + nread)) (λ _. Stops-pure (true, step.1)))
          (Stops-pure (false, step.1))))

  some_bytes : (remaining size : ℕ) → 4 ≤ remaining → 4 ≤ size → 4 ≤ chunk_nread remaining size
  unfolding chunk_nread
  some_bytes remaining size more room = ground arith

  few_bytes : (remaining size : ℕ) → chunk_nread remaining size ≤ remaining
  unfolding chunk_nread
  few_bytes remaining size = ground arith

  -- Each chunk takes a record at least, so that the rounds are enough.
  pub chunks-Stops :
      (fuel : ℕ) (active : Bool) (off end tail : ℕ)
      → off ≤ end
      → end < off + fuel
      → Stops (chunks_from b fuel active off end tail)
  unfolding chunks_from
  chunks-Stops zero active off end tail le enough = absurd (omega arith)
  chunks-Stops (suc fuel) active off end tail le enough = record {
    at = λ fs h.
        by_room fs h (ltb end (off + 4)) (λ e. ground arith)
          (λ nread some fits tail'.
            chunks-Stops fuel active (off + nread) end tail' (omega (arith, le, fits))
              (omega (arith, some, enough)));
  }
    where
      by_room :
          (fs : Fs Ctx)
          → HasBuffers fs
          → (over : Bool) → (over ≡ false → off + 4 ≤ end)
          → ((nread : ℕ)
              → 4 ≤ nread
              → nread ≤ end - off
              → (tail' : ℕ) → Stops (chunks_from b fuel active (off + nread) end tail'))
          → IsOver (
              (if over
                  then pure tail
                  else (gets (λ fs. chunk_nread (end - off) fs.scratch_size) >>= λ nread.
                      replay_chunk b active off nread end tail >>= λ step.
                      if step.0
                      then chunks_from b fuel active (off + nread) end step.1
                      else pure step.1))
                fs)
      by_room fs h true room later = h
      by_room fs h false room later =
          let nread = chunk_nread (end - off) fs.scratch_size in
          let some_room : 4 ≤ nread =
            some_bytes (end - off) fs.scratch_size (omega (arith, room refl)) h.0 in
          (Stops-bind _ _ (chunk-Stops active off nread end tail) (λ step.
              Stops-if step.0 _ _
                (later nread some_room (few_bytes (end - off) fs.scratch_size) step.1)
                (Stops-pure step.1))).at
            fs h
