-- ===== src/Names/Listed.antt =====
-- What a listing counts and stores.
use fastffs.Prelude.{
  ℕ, zero, suc, ◌+◌, ◌-◌, ◌≤◌, ◌<◌, ◌≡◌, refl, ap, ◌∙◌, subst, arith, List, [], ◌∷◌, ◌++◌, Option,
  some, none, Bool, true, false, ◌==◌, ltb, if◌then◌else◌, length, length-append, Bool-cases, inl,
  inr,
}
use fastffs.Status.{
  Error, invalid, nomem, range, no_space, not_found, exists, name_too_long, corrupt, io, hang,
  Result, ok, err, Action, pure, gets, passed_over, ◌>>=◌, ◌>>◌,
}
use fastffs.Flash.{Backend}
use fastffs.Sector.{footer_size}
use fastffs.HashIndex.{Bucket, bucket_at}
use fastffs.Metadata.Root.{RootMd}
use fastffs.Fs.{Fs}
use fastffs.Settled.{Ends, Settled, Runs, Runs-pure, Runs-if, Runs-bind, Runs-weaken}
use fastffs.Names.{Stat, stat_of, read_root}
use fastffs.Names.Reads.{Same, read_root-Runs}
use fastffs.Names.Dir.{
  fresh_dir, Reading, other_prefix, set_status, root_or_status, dir_root, dir_entry, dir_read_from,
  dir_read, list_end, list_from, list,
}

-- The buckets with a slot.
abbrev pub occupied : List Bucket → ℕ
occupied [] = 0
occupied (bucket ∷ table) = if bucket.slot == 0 then occupied table else occupied table + 1

-- Those among `left` buckets from `pos` on.
abbrev occupied_from : List Bucket → ℕ → ℕ → ℕ
occupied_from table zero pos = 0
occupied_from table (suc left) pos =
    let rest = occupied_from table left (pos + 1) in
    if (bucket_at table pos).slot == 0 then rest else rest + 1

occupied_from-suc :
    (bucket : Bucket) (table : List Bucket) (left pos : ℕ)
    → occupied_from (bucket ∷ table) left (suc pos) ≡ occupied_from table left pos
occupied_from-suc bucket table zero pos = refl
occupied_from-suc bucket table (suc left) pos =
    ap (λ rest. if (bucket_at table pos).slot == 0 then rest else rest + 1)
      (ap (occupied_from (bucket ∷ table) left) (along pos)
        ∙ occupied_from-suc bucket table left (pos + 1))
  where
    along : (pos : ℕ) → suc pos + 1 ≡ suc (pos + 1)
    along pos = omega arith

occupied_from-all : (table : List Bucket) → occupied_from table (length table) 0 ≡ occupied table
occupied_from-all [] = refl
occupied_from-all (bucket ∷ table) =
    ap (λ rest. if bucket.slot == 0 then rest else rest + 1)
      (occupied_from-suc bucket table (length table) 0 ∙ occupied_from-all table)

no_prefix : (prefix : List ℕ) (st : Stat) → prefix ≡ [] → other_prefix prefix st ≡ false
unfolding other_prefix
no_prefix prefix st e = rw e refl

module _ {Ctx : Type 0} (b : Backend Ctx) (fs0 : Fs Ctx)
    (whole : footer_size ≤ fs0.sector_size) where
  -- A directory without a prefix whose next bucket is at `pos`.
  abbrev At : ℕ → Reading Ctx → Type 0
  At pos r =
      Same b fs0 whole r.fs × (r.dir.closed ≡ false) × (r.dir.prefix ≡ []) × (r.dir.pos ≡ pos)

  abbrev remaining : ℕ → ℕ
  remaining pos = occupied_from fs0.index_cache (length fs0.index_cache - pos) pos

  abbrev EndsStatus : Option Error → Type 0
  EndsStatus none = Unit
  EndsStatus (some e) = Ends e

  -- An entry is that of the next occupied bucket, and the end is where there is none.
  abbrev Entry : ℕ → Option Stat → Reading Ctx → Type 0
  Entry pos none r = (r.dir.status ≡ none → remaining pos ≡ 0) × EndsStatus r.dir.status
  Entry pos (some st) r =
      (after : ℕ) × (pos < after)
      × (after ≤ length fs0.index_cache)
      × At after r
      × (remaining pos ≡ remaining after + 1)

  remaining-suc :
      (pos : ℕ)
      → pos < length fs0.index_cache
      → remaining pos ≡ (
          if (bucket_at fs0.index_cache pos).slot == 0
          then remaining (pos + 1)
          else remaining (pos + 1) + 1)
  remaining-suc pos lt =
      ap (λ left. occupied_from fs0.index_cache left pos) (less (length fs0.index_cache) pos lt)
    where
      less : (n pos : ℕ) → pos < n → n - pos ≡ suc (n - (pos + 1))
      less n pos lt = omega arith

  -- A root was read, or the status has the error.
  abbrev Root : ℕ → Option RootMd → Reading Ctx → Type 0
  Root pos none r = ¬ (r.dir.status ≡ none) × EndsStatus r.dir.status
  Root pos (some root) r = At pos r

  some_status : (e : Error) → ¬ (some e ≡ none)
  some_status e same = subst is_some same tt
    where
      is_some : Option Error → Type 0
      is_some (some e) = Unit
      is_some none = ⊥

  dir_root-Runs : (head slot pos : ℕ) → Runs (At pos) (dir_root b head slot) (Root pos)
  unfolding dir_root root_or_status passed_over
  dir_root-Runs head slot pos = record {
    at = λ r h.
        read r h (read_root b head slot none r.fs)
          ((read_root-Runs b fs0 whole head slot none).at r.fs h.0);
  }
    where
      read :
          (r : Reading Ctx)
          → At pos r
          → (x : Result RootMd × Fs Ctx) → Settled (λ root. Same b fs0 whole) x
          → Settled (Root pos) (root_or_status r.dir x)
      read r h (ok root, fs) k = (k, h.1, h.2, h.3)
      read r h (err invalid, fs) k = (some_status invalid, tt)
      read r h (err nomem, fs) k = (some_status nomem, tt)
      read r h (err range, fs) k = (some_status range, tt)
      read r h (err no_space, fs) k = (some_status no_space, tt)
      read r h (err not_found, fs) k = (some_status not_found, tt)
      read r h (err exists, fs) k = (some_status exists, tt)
      read r h (err name_too_long, fs) k = (some_status name_too_long, tt)
      read r h (err corrupt, fs) k = (some_status corrupt, tt)
      read r h (err io, fs) k = (some_status io, tt)
      read r h (err hang, fs) k = k

  -- An entry behind buckets without a slot.
  Entry-earlier :
      (pos : ℕ) (o : Option Stat) (r : Reading Ctx)
      → remaining pos ≡ remaining (pos + 1)
      → Entry (pos + 1) o r
      → Entry pos o r
  Entry-earlier pos none r e h = (λ k. e ∙ h.0 k, h.1)
  Entry-earlier pos (some st) r e (after, lt, le, at, count) =
      (after, omega arith, le, at, e ∙ count)

  bucket-Runs :
      {later : Action (Reading Ctx) (Option Stat)} (pos : ℕ)
      → pos < length fs0.index_cache
      → Runs (At (pos + 1)) later (Entry (pos + 1))
      → Runs
          (At (pos + 1))
          (if (bucket_at fs0.index_cache pos).slot == 0
            then later
            else (dir_root b
                  (bucket_at fs0.index_cache pos).head
                  (bucket_at fs0.index_cache pos).slot
                >>= λ root. dir_entry b later root))
          (Entry pos)
  unfolding dir_entry set_status
  bucket-Runs {later} pos lt k =
      Runs-if ((bucket_at fs0.index_cache pos).slot == 0)
        (λ e. Runs-weaken k (λ o r. Entry-earlier pos o r (remaining-suc pos lt ∙ rw e refl)))
        (λ e.
          Runs-bind (dir_root-Runs _ _ (pos + 1))
            (λ root. entry root (remaining-suc pos lt ∙ rw e refl)))
    where
      entry :
          (o : Option RootMd)
          → remaining pos ≡ remaining (pos + 1) + 1
          → Runs (Root (pos + 1) o) (dir_entry b later o) (Entry pos)
      entry none e = Runs-pure none (λ r h. (λ k. absurd (h.0 k), h.1))
      entry (some root) e = record {
        at = λ r h.
            rw (no_prefix r.dir.prefix (stat_of root) h.2)
              (pos + 1, omega arith, omega arith, h, e);
      }

  dir_read_from-Runs :
      (left pos : ℕ)
      → pos + left ≡ length fs0.index_cache
      → Runs (At pos) (dir_read_from b left) (Entry pos)
  unfolding dir_read_from set_status
  dir_read_from-Runs zero pos e = record {
    at = λ r h. (λ k. none_left (length fs0.index_cache) (omega arith), tt);
  }
    where
      none_left : (n : ℕ) → n ≡ pos → occupied_from fs0.index_cache (n - pos) pos ≡ 0
      none_left n e = ap (λ k. occupied_from fs0.index_cache k pos) (all_read n e)
        where
          all_read : (n : ℕ) → n ≡ pos → n - pos ≡ 0
          all_read n e = omega arith
  dir_read_from-Runs (suc left) pos e = record {
    at = λ r h. rw (bucket r h) (
        (bucket-Runs pos (omega arith) (dir_read_from-Runs left (pos + 1) (omega arith))).at
          (record { dir = record r.dir { pos = r.dir.pos + 1 }; fs = r.fs })
          (h.0, h.1, h.2, ap (λ n. n + 1) h.3));
  }
    where
      bucket :
          (r : Reading Ctx)
          → At pos r
          → bucket_at r.fs.index_cache r.dir.pos ≡ bucket_at fs0.index_cache pos
      bucket r h =
          ap (λ (s : Fs Ctx). bucket_at s.index_cache r.dir.pos) h.0
          ∙ ap (bucket_at fs0.index_cache) h.3

  dir_read-Runs : (pos : ℕ) → pos ≤ length fs0.index_cache → Runs (At pos) (dir_read b) (Entry pos)
  unfolding dir_read
  dir_read-Runs pos le = record { at = λ r h. opened r h r.dir.closed h.1 }
    where
      left :
          (r : Reading Ctx)
          → At pos r
          → length r.fs.index_cache - r.dir.pos ≡ length fs0.index_cache - pos
      left r h =
          ap (λ (s : Fs Ctx). length s.index_cache - r.dir.pos) h.0
          ∙ ap (λ k. length fs0.index_cache - k) h.3

      opened :
          (r : Reading Ctx)
          → At pos r
          → (closed : Bool) → closed ≡ false
          → Settled (Entry pos) (
              (if closed
                  then (set_status (some invalid) >> pure none)
                  else (gets (λ r. length r.fs.index_cache - r.dir.pos) >>= λ left.
                      dir_read_from b left))
                r)
      opened r h true e = absurd (differ e)
        where
          differ : ¬ (true ≡ false)
          differ e = ground arith
      opened r h false e =
          rw (left r h)
            ((dir_read_from-Runs (length fs0.index_cache - pos) pos (omega arith)).at r h)

  -- What has been stored, of `count` entries.
  abbrev Stored : ℕ → List Stat × ℕ → Type 0
  Stored capacity (entries, count) =
      length entries ≡ (if ltb count capacity then count else capacity)

  Stored-more :
      (capacity count : ℕ) (entries : List Stat) (st : Stat)
      → Stored capacity (entries, count)
      → Stored capacity (if ltb count capacity then entries ++ st ∷ [] else entries, count + 1)
  Stored-more capacity count entries st stored = elim (Bool-cases (ltb count capacity)) [
    | inl room ↦ rw (room, length-append entries (st ∷ [])) (ground (arith, stored))
    | inr full ↦ rw full (ground (arith, stored))
  ]

  list_from-Runs :
      (fuel capacity pos : ℕ) (entries : List Stat) (count : ℕ)
      → length fs0.index_cache - pos < fuel
      → pos ≤ length fs0.index_cache
      → Stored capacity (entries, count)
      → Runs
          (At pos)
          (list_from b fuel capacity entries count)
          (λ x r. Stored capacity x × (x.1 ≡ count + remaining pos))
  unfolding list_from list_end
  list_from-Runs zero capacity pos entries count enough le stored = absurd (omega arith)
  list_from-Runs (suc fuel) capacity pos entries count enough le stored =
      Runs-bind (dir_read-Runs pos le) (
        after (λ st next lt le'.
          list_from-Runs fuel capacity next _ (count + 1) (omega arith) le'
            (Stored-more capacity count entries st stored)))
    where
      ended :
          (r : Reading Ctx)
          → (status : Option Error) → r.dir.status ≡ status
          → (r.dir.status ≡ none → remaining pos ≡ 0)
          → EndsStatus status
          → Settled
              (λ x s. Stored capacity x × (x.1 ≡ count + remaining pos))
              (list_end status (entries, count) r)
      ended r none e h k = (stored, omega (arith, h e))
      ended r (some x) e h k = k

      after :
          ((st : Stat) (next : ℕ)
            → pos < next
            → next ≤ length fs0.index_cache
            → Runs
                (At next)
                (list_from b fuel capacity
                  (if ltb count capacity then entries ++ st ∷ [] else entries)
                  (count + 1))
                (λ x r. Stored capacity x × (x.1 ≡ count + 1 + remaining next)))
          → (o : Option Stat)
          → Runs
              (Entry pos o)
              (elim o [
                | some st ↦
                    list_from b fuel capacity
                      (if ltb count capacity then entries ++ st ∷ [] else entries)
                      (count + 1)
                | none ↦ gets (λ r. r.dir.status) >>= λ status. list_end status (entries, count)
              ])
              (λ x r. Stored capacity x × (x.1 ≡ count + remaining pos))
      after later none = record { at = λ r h. ended r r.dir.status refl h.0 h.1 }
      after later (some st) = record {
        at = λ r (next, lt, le', at, count').
            (Runs-weaken (later st next lt le') (λ x s k. (k.0, omega (arith, k.1, count')))).at r
              at;
      }

module _ {Ctx : Type 0} (b : Backend Ctx) where
  -- Where a sector has room for a footer, listing a volume comes to an end. Where it succeeds, it
  -- counts as many entries as the cache has buckets with a slot, and has stored them all, or as
  -- many as there is room for.
  pub list-Settled :
      (capacity : ℕ) (fs : Fs Ctx)
      → footer_size ≤ fs.sector_size
      → Settled
          (λ x s.
            (x.1 ≡ occupied fs.index_cache)
            × (length x.0 ≡ (if ltb x.1 capacity then x.1 else capacity)))
          (list b capacity fs)
  unfolding list
  list-Settled capacity fs whole =
      closed
        (list_from b (length fs.index_cache + 1) capacity [] 0
          (record { dir = fresh_dir; fs = fs }))
        ((list_from-Runs b fs whole (length fs.index_cache + 1) capacity 0 [] 0 (omega arith)
            (omega arith) (ground arith)).at
          (record { dir = fresh_dir; fs = fs }) (refl, refl, refl, refl))
    where
      from_start :
          0 + remaining b fs whole 0 ≡ occupied_from fs.index_cache (length fs.index_cache) 0
      from_start =
          plus_zero (remaining b fs whole 0)
          ∙ ap (λ n. occupied_from fs.index_cache n 0) (less_zero (length fs.index_cache))
        where
          plus_zero : (n : ℕ) → 0 + n ≡ n
          plus_zero n = omega arith

          less_zero : (n : ℕ) → n - 0 ≡ n
          less_zero n = omega arith

      closed :
          (x : Result (List Stat × ℕ) × Reading Ctx)
          → Settled (λ y r. Stored b fs whole capacity y × (y.1 ≡ 0 + remaining b fs whole 0)) x
          → Settled
              (λ y s.
                (y.1 ≡ occupied fs.index_cache)
                × (length y.0 ≡ (if ltb y.1 capacity then y.1 else capacity)))
              (let (r, reading) = x in (r, reading.fs))
      closed (ok (entries, count), r) h = (h.1 ∙ from_start ∙ occupied_from-all fs.index_cache, h.0)
      closed (err e, r) h = h
