-- ===== src/Journal/Follows.antt =====
-- Actions on a volume that change its cache alone, and only read the flash: each follows an action
-- on the cache, in which the contents of the flash are a function. There is one rule for each way
-- to build such an action.
use fastffs.Prelude.{
  ℕ, ◌+◌, ◌≤◌, ◌≡◌, refl, ap, ◌∙◌, List, Option, some, none, Bool, true, false, if◌then◌else◌,
}
use fastffs.Status.{Error, hang, Result, ok, err, Action, next, pure, fail, gets, ◌>>=◌}
use fastffs.Flash.{Backend, flash_read}
use fastffs.Flash.Nor.{IsNor, IsReliable, span}
use fastffs.Flash.Reads.{flash_read_lem, cell-read}
use fastffs.Sector.{Geometry}
use fastffs.HashIndex.{Bucket}
use fastffs.Fs.{Fs, geometry, on_flash}
use fastffs.Journal.Append.{cached}

-- An operation of the table as an action on it.
abbrev pub on_table : Option (Result (List Bucket)) → Action (List Bucket) (Unit {0})
on_table none table = (err hang, table)
on_table (some (ok table')) table = (ok tt, table')
on_table (some (err e)) table = (err e, table)

module _ {Ctx : Type 0} where
  -- The volume after an action on its cache, which has left the flash at `c`.
  abbrev pub with_table : {A : Type 0} → Result A × List Bucket → Ctx → Fs Ctx → Result A × Fs Ctx
  with_table (r, table) c fs = (r, record fs { ctx = c; index_cache = table })

  -- What is known of the volume: its geometry, its scratch, the active sector, and the cells of the
  -- flash.
  pub record View (cell : Ctx → ℕ → ℕ) (g : Geometry) (scratch active : ℕ) (cells : ℕ → ℕ)
      (fs : Fs Ctx) : Type 0 where
    pub shape : geometry fs ≡ g
    pub buffer : fs.scratch_size ≡ scratch
    pub head : fs.active_index_sector ≡ active
    pub contents : cell fs.ctx ≡ cells

module _ {Ctx : Type 0} (cell : Ctx → ℕ → ℕ) (g : Geometry) (scratch active : ℕ)
    (cells : ℕ → ℕ) where
  pub record Follows {A : Type 0} (m : Action (Fs Ctx) A) (m' : Action (List Bucket) A)
      : Type 0 where
    pub at :
        (fs : Fs Ctx)
        → View cell g scratch active cells fs
        → (c : Ctx) × (cell c ≡ cells) × (m fs ≡ with_table (m' fs.index_cache) c fs)

module _ {Ctx : Type 0} {cell : Ctx → ℕ → ℕ} {g : Geometry} {scratch active : ℕ}
    {cells : ℕ → ℕ} where
  pub Follows-pure : {A : Type 0} → (a : A) → Follows cell g scratch active cells (pure a) (pure a)
  Follows-pure a = record { at = λ fs v. (fs.ctx, v.contents, refl) }

  pub Follows-fail :
      {A : Type 0} → (e : Error) → Follows cell g scratch active cells (fail {A = A} e) (fail e)
  Follows-fail e = record { at = λ fs v. (fs.ctx, v.contents, refl) }

  -- What is read from the volume is known.
  pub Follows-gets :
      {A : Type 0} (f : Fs Ctx → A) (a : A)
      → ((fs : Fs Ctx) → View cell g scratch active cells fs → f fs ≡ a)
      → Follows cell g scratch active cells (gets f) (pure a)
  Follows-gets f a known = record {
    at = λ fs v. (fs.ctx, v.contents, ap (λ x. (ok x, fs)) (known fs v));
  }

  pub Follows-if :
      {A : Type 0} (test : Bool) {m n : Action (Fs Ctx) A} {m' n' : Action (List Bucket) A}
      → (test ≡ true → Follows cell g scratch active cells m m')
      → (test ≡ false → Follows cell g scratch active cells n n')
      → Follows cell g scratch active cells (if test then m else n) (if test then m' else n')
  Follows-if true km kn = km refl
  Follows-if false km kn = kn refl

  pub Follows-bind :
      {A B : Type 0} {m : Action (Fs Ctx) A} {f : A → Action (Fs Ctx) B}
      {m' : Action (List Bucket) A} {f' : A → Action (List Bucket) B}
      → Follows cell g scratch active cells m m'
      → ((a : A) → Follows cell g scratch active cells (f a) (f' a))
      → Follows cell g scratch active cells (m >>= f) (m' >>= f')
  Follows-bind {A} {B} {m} {f} {m'} {f'} km kf = record {
    at = λ fs v. bound fs v (m' fs.index_cache) (km.at fs v);
  }
    where
      bound :
          (fs : Fs Ctx)
          → View cell g scratch active cells fs
          → (p : Result A × List Bucket)
          → ((c : Ctx) × (cell c ≡ cells) × (m fs ≡ with_table p c fs))
          → (c : Ctx) × (cell c ≡ cells) × (next (m fs) f ≡ with_table (next p f') c fs)
      bound fs v (err e, table) (c, same, done) = (c, same, ap (λ x. next x f) done)
      bound fs v (ok a, table) (c, same, done) =
          let (c', same', later) =
            (kf a).at (record fs { ctx = c; index_cache = table })
              (record { shape = v.shape; buffer = v.buffer; head = v.head; contents = same }) in
          (c', same', ap (λ x. next x f) done ∙ later)

  -- Where the value is known, what follows it is at that value.
  pub Follows-value :
      {A B : Type 0} {m : Action (Fs Ctx) A} {a : A} {f : A → Action (Fs Ctx) B}
      {m' : Action (List Bucket) B}
      → Follows cell g scratch active cells m (pure a)
      → ((x : A) → x ≡ a → Follows cell g scratch active cells (f x) m')
      → Follows cell g scratch active cells (m >>= f) m'
  Follows-value {a = a} {f = f} km kf = record {
    at = λ fs v.
        let (c, same, done) = km.at fs v in
        let (c', same', later) =
          (kf a refl).at (record fs { ctx = c })
            (record { shape = v.shape; buffer = v.buffer; head = v.head; contents = same }) in
        (c', same', ap (λ x. next x f) done ∙ later);
  }

  pub Follows-table :
      (r : List Bucket → Option (Result (List Bucket)))
      → Follows cell g scratch active cells
          (λ fs. cached (r fs.index_cache) fs)
          (λ table. on_table (r table) table)
  unfolding cached
  Follows-table r = record { at = λ fs v. (fs.ctx, v.contents, same fs (r fs.index_cache)) }
    where
      same :
          (fs : Fs Ctx) (o : Option (Result (List Bucket)))
          → cached o fs ≡ with_table (on_table o fs.index_cache) fs.ctx fs
      same fs none = refl
      same fs (some (ok table)) = refl
      same fs (some (err e)) = refl

  -- On reliable flash a read inside it gives the cells.
  pub Follows-read :
      {b : Backend Ctx}
      → IsNor b cell
      → IsReliable b
      → (off n : ℕ) → off + n ≤ b.size
      → Follows cell g scratch active cells
          (on_flash (flash_read b off n))
          (pure (span cells off n))
  unfolding on_flash
  Follows-read {b} nor works off n inside = record {
    at = λ fs v. (
      (b.read off n fs.ctx).2,
      cell-read nor works off n fs.ctx ∙ v.contents,
      ap (λ (r : Result (List ℕ) × Ctx). (r.0, record fs { ctx = r.1 }))
            (flash_read_lem nor works off n fs.ctx inside)
          ∙ ap (λ x. (ok (span x off n), record fs { ctx = (b.read off n fs.ctx).2 })) v.contents,
    );
  }

  -- The action on the cache in another form.
  pub Follows-same :
      {A : Type 0} {m : Action (Fs Ctx) A} {m' m'' : Action (List Bucket) A}
      → Follows cell g scratch active cells m m'
      → ((table : List Bucket) → m' table ≡ m'' table)
      → Follows cell g scratch active cells m m''
  Follows-same {m = m} k same = record {
    at = λ fs v.
        let (c, kept, done) = k.at fs v in
        (c, kept, done ∙ ap (λ r. with_table r c fs) (same fs.index_cache));
  }
