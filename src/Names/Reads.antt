-- ===== src/Names/Reads.antt =====
-- The reads that resolving a name makes come to an end.
use fastffs.Prelude.{
  ℕ, zero, suc, ◌+◌, ◌*◌, ◌≤◌, ◌≡◌, refl, sym, ap, ◌∙◌, subst, List, Option, Bool, true, false, not,
  ◌||◌, ◌==◌, ltb, leb, if◌then◌else◌, length,
}
use fastffs.Status.{
  invalid, nomem, range, no_space, not_found, exists, name_too_long, corrupt, io, hang, next,
  Result, ok, err, pure, fail, ◌>>=◌,
}
use fastffs.Flash.{Backend, flash_read, map_backend_status}
use fastffs.Sector.{footer_size}
use fastffs.HashIndex.{
  Bucket, bucket_at, next_bucket, find_from, find_slot_bucket, head_of, head_for_slot,
}
use fastffs.Bytes.{byte}
use fastffs.Sector.{Geometry}
use fastffs.Metadata.{MdRecord, md_type_file_root}
use fastffs.Metadata.Find.{match_live, read_md_for_slot}
use fastffs.Metadata.Root.{
  max_name, prefix_buffer, uses_cache, RootPrefix, with_prefix, without_prefix, RootMd,
  read_file_root_md, read_root_prefix, root_prefix,
}
use fastffs.Metadata.Ends.{IsFound, read_md_for_slot-Settled}
use fastffs.Fs.{Fs, geometry, on_flash}
use fastffs.Settled.{Settled, next-Settled, Runs, Runs-pure, Runs-fail, Runs-if, Runs-bind}
use fastffs.Names.{head_of_candidate, read_root}

find_from-Settled :
    {S : Type 0} (table : List Bucket) (slot left pos : ℕ) (s : S)
    → Settled (λ x t. Unit {0}) (find_from table slot left pos, s)
unfolding find_from
find_from-Settled table slot zero pos s = tt
find_from-Settled {S} table slot (suc left) pos s =
    let here = (bucket_at table pos).slot in
    either (here == 0) (here == slot) _
      (find_from-Settled table slot left (next_bucket (length table) pos) s)
  where
    either :
        (empty same : Bool) (rest : Result (ℕ × Bool))
        → Settled (λ x (t : S). Unit {0}) (rest, s)
        → Settled
            (λ x (t : S). Unit {0})
            (if empty then ok (pos, false) else if same then ok (pos, true) else rest, s)
    either true same rest h = tt
    either false true rest h = tt
    either false false rest h = h

pub find_slot-Settled :
    {S : Type 0} (table : List Bucket) (slot : ℕ) (s : S)
    → Settled (λ x t. Unit {0}) (find_slot_bucket table slot, s)
unfolding find_slot_bucket
find_slot-Settled {S} table slot s =
    found (slot == 0) _ (find_from-Settled table slot (length table) _ s)
  where
    found :
        (zeroed : Bool) (rest : Result (ℕ × Bool))
        → Settled (λ x (t : S). Unit {0}) (rest, s)
        → Settled (λ x (t : S). Unit {0}) (if zeroed then err invalid else rest, s)
    found true rest h = tt
    found false rest h = h

head_for_slot-Settled :
    {S : Type 0} (table : List Bucket) (slot : ℕ) (s : S)
    → Settled (λ x t. Unit {0}) (head_for_slot table slot, s)
unfolding head_for_slot head_of
head_for_slot-Settled {S} table slot s = looked _ (find_slot-Settled table slot s)
  where
    looked :
        (r : Result (ℕ × Bool))
        → Settled (λ x (t : S). Unit {0}) (r, s)
        → Settled (λ x (t : S). Unit {0}) (head_of table r, s)
    looked (ok (idx, true)) h = tt
    looked (ok (idx, false)) h = tt
    looked (err invalid) h = tt
    looked (err nomem) h = tt
    looked (err range) h = tt
    looked (err no_space) h = tt
    looked (err not_found) h = tt
    looked (err exists) h = tt
    looked (err name_too_long) h = tt
    looked (err corrupt) h = tt
    looked (err io) h = tt
    looked (err hang) h = h

pub flash_read-Settled :
    {Ctx : Type 0} (b : Backend Ctx) (off n : ℕ) (c : Ctx)
    → Settled (λ bytes c'. Unit {0}) (flash_read b off n c)
unfolding flash_read map_backend_status
flash_read-Settled {Ctx} b off n c =
    either ((b.read off n c).0 == 0) (b.read off n c).1 (b.read off n c).2
  where
    either :
        (success : Bool) (bytes : List ℕ) (c' : Ctx)
        → Settled
            (λ (x : List ℕ) (c'' : Ctx). Unit {0})
            (next (if success then ok tt else err io, c') (λ x. pure bytes))
    either true bytes c' = tt
    either false bytes c' = tt

root_prefix-Settled :
    {Ctx : Type 0} (data_off data_len nread : ℕ) (cached : Bool) (buf : List ℕ) (c : Ctx)
    → Settled (λ p c'. Unit {0}) (root_prefix data_off data_len nread cached buf, c)
unfolding root_prefix
root_prefix-Settled {Ctx} data_off data_len nread cached buf c =
    let name_len = byte buf 0 in
    let vmeta_len_off = 1 + name_len in
    either
      (name_len == 0
        || ltb max_name name_len
        || leb data_len vmeta_len_off
        || leb nread vmeta_len_off)
      (ltb data_len (1 + name_len + 1 + byte buf vmeta_len_off)) _
  where
    either :
        (refused long : Bool) (p : RootPrefix)
        → Settled
            (λ (x : RootPrefix) (c' : Ctx). Unit {0})
            (if refused then err corrupt else if long then err corrupt else ok p, c)
    either true long p = tt
    either false true p = tt
    either false false p = tt

read_root_prefix-Runs :
    {Ctx : Type 0} (b : Backend Ctx) (g : Geometry) (sector data_off data_len : ℕ)
    (cache : Option ℕ)
    → Runs (λ c. Unit {0}) (read_root_prefix b g sector data_off data_len cache) (λ p c. Unit {0})
unfolding read_root_prefix
read_root_prefix-Runs b g sector data_off data_len cache =
    let size = prefix_buffer cache in
    let nread = if ltb data_len size then data_len else size in
    Runs-if (ltb data_len 2) (λ e. Runs-fail corrupt tt)
      (λ e.
        Runs-bind {Q = λ buf c. Unit {0}}
          {m = flash_read b (sector * g.sector_size + data_off) nread}
          (record { at = λ c h. flash_read-Settled b (sector * g.sector_size + data_off) nread c })
          (λ buf. record {
            at = λ c h. root_prefix-Settled data_off data_len nread (uses_cache cache) buf c;
          }))

pub read_file_root_md-Settled :
    {Ctx : Type 0} (b : Backend Ctx) (g : Geometry) (sector want_slot : ℕ) (wanted : Bool)
    (cache : Option ℕ) (c : Ctx)
    → footer_size ≤ g.sector_size
    → Settled (λ root c'. Unit {0}) (read_file_root_md b g sector want_slot wanted cache c)
unfolding read_file_root_md
read_file_root_md-Settled {Ctx} b g sector want_slot wanted cache c whole =
    next-Settled (λ r c'. IsFound g sector want_slot match_live r) (λ root c'. Unit {0})
      (read_md_for_slot b g sector want_slot match_live c) _
      (read_md_for_slot-Settled b g sector want_slot match_live c whole)
      (λ r c' found. (with_root r).at c' tt)
  where
    with_root :
        (r : MdRecord)
        → Runs
            (λ (c' : Ctx). Unit {0})
            (if not (r.type == md_type_file_root)
              then fail corrupt
              else if not wanted
              then pure (without_prefix r)
              else (read_root_prefix b g sector r.data_off r.data_len cache >>= λ p.
                  pure (with_prefix r p)))
            (λ root c'. Unit {0})
    with_root r =
        Runs-if (not (r.type == md_type_file_root)) (λ e. Runs-fail corrupt tt)
          (λ e.
            Runs-if (not wanted) (λ e'. Runs-pure (without_prefix r) (λ s h. tt))
              (λ e'.
                Runs-bind {Q = λ p c'. Unit {0}}
                  (read_root_prefix-Runs b g sector r.data_off r.data_len cache)
                  (λ p. Runs-pure (with_prefix r p) (λ s h. tt))))

module _ {Ctx : Type 0} (b : Backend Ctx) (fs0 : Fs Ctx)
    (whole : footer_size ≤ fs0.sector_size) where
  -- The flash alone may have changed.
  abbrev pub Same : Fs Ctx → Type 0
  Same fs = fs ≡ record fs0 { ctx = fs.ctx }

  pub read_root-Runs :
      (head slot : ℕ) (cache : Option ℕ) → Runs Same (read_root b head slot cache) (λ root. Same)
  unfolding read_root on_flash
  read_root-Runs head slot cache = record {
    at = λ fs h. after fs h (read_file_root_md b (geometry fs) head slot true cache fs.ctx) (
        read_file_root_md-Settled b (geometry fs) head slot true cache fs.ctx
          (subst (λ (s : Fs Ctx). footer_size ≤ s.sector_size) (sym h) whole));
  }
    where
      after :
          (fs : Fs Ctx)
          → Same fs
          → (r : Result RootMd × Ctx) → Settled (λ root c. Unit {0}) r
          → Settled (λ root s. Same s) (r.0, record fs { ctx = r.1 })
      after fs h (ok root, c) k = ap (λ (s : Fs Ctx). record s { ctx = c }) h
      after fs h (err e, c) k = k

  pub head-Runs :
      (slot : ℕ)
      → Runs Same
          (head_of_candidate slot)
          (λ look fs. Same fs × (head_for_slot fs0.index_cache slot ≡ ok look))
  unfolding head_of_candidate
  head-Runs slot = record {
    at = λ fs h.
        looked fs h (head_for_slot fs.index_cache slot) refl
          (head_for_slot-Settled fs.index_cache slot fs);
  }
    where
      looked :
          (fs : Fs Ctx)
          → Same fs
          → (r : Result (ℕ × Bool)) → head_for_slot fs.index_cache slot ≡ r
          → Settled (λ x t. Unit {0}) (r, fs)
          → Settled (λ look s. Same s × (head_for_slot fs0.index_cache slot ≡ ok look)) (r, fs)
      looked fs h (ok look) e k =
          (h, ap (λ (s : Fs Ctx). head_for_slot s.index_cache slot) (sym h) ∙ e)
      looked fs h (err x) e k = k
