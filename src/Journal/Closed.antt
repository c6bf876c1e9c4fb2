-- ===== src/Journal/Closed.antt =====
-- What a sector of the journal that is not the active one does to the cache, one record after the
-- other.
use fastffs.Prelude.{
  ℕ, zero, suc, ◌+◌, ◌-◌, ◌*◌, ◌/◌, ◌≤◌, ◌≡◌, refl, ap, ap₂, ◌∙◌, arith, List, some, Bool, true,
  false, not, ◌&&◌, ◌||◌, ◌==◌, ltb, leb, if◌then◌else◌, drop,
}
use fastffs.Status.{corrupt, Result, ok, err, Action, next, pure, fail, ◌>>=◌}
use fastffs.Bytes.{load_le16}
use fastffs.Flash.Nor.{span}
use fastffs.Sector.{Geometry}
use fastffs.Sector.Window.{drop-span}
use fastffs.HashIndex.{Bucket, insert, remove}
use fastffs.IndexHeader.{header_size}
use fastffs.Journal.Replay.{chunk_nread}
use fastffs.Journal.Follows.{on_table}

abbrev pub inserted : ℕ → ℕ → Action (List Bucket) (Bool × ℕ)
inserted slot head =
    (λ table. on_table (some (insert table slot head)) table) >>= λ x. pure (true, head)

-- A record of a closed sector changes the table, ends the sector, or is rejected. Beside whether
-- the sector goes on stands the last head that was put in.
abbrev pub closed_record : Geometry → ℕ → ℕ → ℕ → Action (List Bucket) (Bool × ℕ)
closed_record g slot head tail_head =
    if slot == 0xffff && head == 0xffff
    then pure (false, tail_head)
    else if slot == 0 && head == 0
    then pure (true, tail_head)
    else if slot == 0 || slot == 0xffff || head == 0xffff
    then fail corrupt
    else if head == 0
    then ((λ table. on_table (remove table slot) table) >>= λ x. pure (true, tail_head))
    else if not (leb g.index_sectors head && ltb head g.sector_count)
    then fail corrupt
    else inserted slot head

-- What follows a record or a part of the sector.
abbrev pub go_on :
    (ℕ → Action (List Bucket) (Bool × ℕ)) → Bool × ℕ → Action (List Bucket) (Bool × ℕ)
go_on later step = if step.0 then later step.1 else pure (false, step.1)

module _ (g : Geometry) (cells : ℕ → ℕ) where
  -- `left` records from `off` on.
  abbrev pub closed_records : ℕ → ℕ → ℕ → Action (List Bucket) (Bool × ℕ)
  closed_records zero off tail_head = pure (true, tail_head)
  closed_records (suc left) off tail_head =
      closed_record g (load_le16 (span cells off 2)) (load_le16 (span cells (off + 2) 2)) tail_head
      >>= go_on (closed_records left (off + 4))

  next-go_on :
      (r : Result (Bool × ℕ) × List Bucket) (f f' h : ℕ → Action (List Bucket) (Bool × ℕ))
      → ((tail : ℕ) (table : List Bucket) → f tail table ≡ next (f' tail table) (go_on h))
      → next r (go_on f) ≡ next (next r (go_on f')) (go_on h)
  next-go_on (ok (true, tail), table) f f' h e = e tail table
  next-go_on (ok (false, tail), table) f f' h e = refl
  next-go_on (err x, table) f f' h e = refl

  -- A sector in two parts.
  pub closed_records-add :
      (n m off tail_head : ℕ) (table : List Bucket)
      → closed_records (n + m) off tail_head table
        ≡ (closed_records n off tail_head >>= go_on (closed_records m (off + n * 4))) table
  closed_records-add zero m off tail_head table =
      ap₂ (λ k o. closed_records k o tail_head table) (from_zero m) (at_zero off)
    where
      from_zero : (m : ℕ) → 0 + m ≡ m
      from_zero m = omega arith

      at_zero : (off : ℕ) → off ≡ off + 0 * 4
      at_zero off = omega arith
  closed_records-add (suc n) m off tail_head table =
      ap (λ k. closed_records k off tail_head table) (shift n m)
      ∙ next-go_on
          (closed_record g (load_le16 (span cells off 2)) (load_le16 (span cells (off + 2) 2))
            tail_head table)
          (closed_records (n + m) (off + 4)) (closed_records n (off + 4))
          (closed_records m (off + suc n * 4))
          (λ tail t.
            closed_records-add n m (off + 4) tail t
            ∙ ap (λ o. next (closed_records n (off + 4) tail t) (go_on (closed_records m o)))
                (along off n))
    where
      shift : (n m : ℕ) → suc n + m ≡ suc (n + m)
      shift n m = omega arith

      along : (off n : ℕ) → off + 4 + n * 4 ≡ off + suc n * 4
      along off n = omega arith

-- The sector from its header on.
unfoldable pub closed_sector : Geometry → (ℕ → ℕ) → ℕ → ℕ → Action (List Bucket) ℕ
closed_sector g cells sector tail_head =
    closed_records g cells ((g.sector_size - header_size) / 4)
      (sector * g.sector_size + header_size) tail_head
    >>= λ step. pure step.1

pub next-same :
    (r : Result (Bool × ℕ) × List Bucket)
    → next r (λ step. if step.0 then pure (true, step.1) else pure (false, step.1)) ≡ r
next-same (ok (true, tail), table) = refl
next-same (ok (false, tail), table) = refl
next-same (err e, table) = refl

pub next-tail :
    (r : Result (Bool × ℕ) × List Bucket) (f : ℕ → Action (List Bucket) (Bool × ℕ))
    → next (next r (go_on f)) (λ step. pure step.1)
      ≡ next r (λ step. if step.0 then (f step.1 >>= λ s. pure s.1) else pure step.1)
next-tail (ok (true, tail), table) f = refl
next-tail (ok (false, tail), table) f = refl
next-tail (err e, table) f = refl

-- A chunk is whole records of what remains, and has one at least where both have.
pub chunk_nread-whole :
    (remaining size nread : ℕ)
    → nread ≡ chunk_nread remaining size
    → (nread / 4 * 4 ≡ nread) × (nread ≤ remaining) × (4 ≤ size → 4 ≤ remaining → 4 ≤ nread)
unfolding chunk_nread
chunk_nread-whole remaining size nread e = (ground arith, ground arith, λ h k. ground arith)

two-bytes :
    (cells : ℕ → ℕ) (x n : ℕ) → 2 ≤ n → load_le16 (span cells x n) ≡ load_le16 (span cells x 2)
unfolding load_le16
two-bytes cells x zero h = absurd (omega arith)
two-bytes cells x (suc zero) h = absurd (omega arith)
two-bytes cells x (suc (suc n)) h = refl

-- A word of a chunk is the word of the flash there.
pub word-span :
    (cells : ℕ → ℕ) (off n pos : ℕ)
    → pos + 2 ≤ n
    → load_le16 (drop pos (span cells off n)) ≡ load_le16 (span cells (off + pos) 2)
word-span cells off n pos h =
    ap load_le16 (drop-span cells off n pos (omega arith))
    ∙ two-bytes cells (off + pos) (n - pos) (omega arith)
