-- ===== src/Metadata/Step.antt =====
-- What one step of the walk over metadata records leaves.
use fastffs.Prelude.{
  ℕ, ◌+◌, ◌-◌, ◌≤◌, ◌<◌, ◌≡◌, ◌≢◌, ◌⊎◌, inl, inr, refl, ap, arith, List, take, Bool, true, false,
  Bool-cases, not, ◌||◌, ◌==◌, ◌!=◌, leb, ltb, if◌then◌else◌,
}
use fastffs.Status.{invalid, corrupt, io, Result, ok, err, pure, modify, ◌>>=◌, ◌>>◌}
use fastffs.Bytes.{byte, bytes_erased}
use fastffs.Flash.{Backend}
use fastffs.Sector.{
  Geometry, footer_size, md_file_record_size, SectorReader, sector_reader_view, reader_fill,
}
use fastffs.Settled.{Ends, Settled, Runs, Runs-pure, Runs-fail, Runs-if, Runs-bind}
use fastffs.Metadata.{
  md_type_file_root, md_type_file_cont, WalkResult, walk_record, end_erased, end_claimed_data,
  end_invalid, MdRecord, MdWalk, empty_md_record, record_fields, record_result, decoded_bytes,
  Walking, view, decode_file_md_record, stepped, walked, md_walk_next, with_walk, stopped,
}

-- The data is below the record, and what is committed is an extent of data sectors.
abbrev pub IsExtent : Geometry → ℕ → MdRecord → Type 0
IsExtent g sector r =
    (r.data_off + r.data_len ≤ r.record_start)
    × (r.state ≢ 0xff
        → (1 ≤ r.span_len)
          × (sector + r.span_len ≤ g.sector_count)
          × ((r.next_sector ≡ 0)
              ⊎ ((g.index_sectors ≤ r.next_sector) × (r.next_sector < g.sector_count))))

record_result-IsExtent :
    (g : Geometry) (sector : ℕ) (r : MdRecord)
    → record_result g sector r ≡ walk_record
    → IsExtent g sector r
unfolding record_result
record_result-IsExtent g sector r e = (data_below e, λ committed. extent committed e)
  where
    data_below : record_result g sector r ≡ walk_record → r.data_off + r.data_len ≤ r.record_start
    data_below e = ground arith

    extent :
        r.state ≢ 0xff
        → record_result g sector r ≡ walk_record
        → (1 ≤ r.span_len)
          × (sector + r.span_len ≤ g.sector_count)
          × ((r.next_sector ≡ 0)
              ⊎ ((g.index_sectors ≤ r.next_sector) × (r.next_sector < g.sector_count)))
    extent committed e = ground arith

-- A record that is decoded stands under the cursor.
abbrev IsDecoded : Geometry → ℕ → ℕ → MdRecord × WalkResult → Type 0
IsDecoded g sector cursor (r, walk_record) =
    (r.record_start + md_file_record_size ≡ cursor)
    × (footer_size ≤ r.record_start)
    × IsExtent g sector r
IsDecoded g sector cursor (r, result) = Unit

decoded_bytes-IsDecoded :
    (g : Geometry) (sector cursor type : ℕ) (buf : List ℕ)
    → footer_size + md_file_record_size ≤ cursor
    → IsDecoded g sector cursor (decoded_bytes g sector (cursor - md_file_record_size) type buf)
unfolding decoded_bytes record_fields
decoded_bytes-IsDecoded g sector cursor type buf room =
    elim (Bool-cases (bytes_erased (take md_file_record_size buf))) [
      | inl e ↦ rw e tt
      | inr e ↦ rw e (checked (record_fields start type buf) refl refl _ refl)
    ]
  where
    start : ℕ
    start = cursor - md_file_record_size

    checked :
        (r : MdRecord)
        → r.record_start ≡ start
        → r ≡ record_fields start type buf
        → (result : WalkResult) → record_result g sector r ≡ result
        → IsDecoded g sector cursor (r, result)
    checked r at same walk_record e =
        (omega arith, omega arith, record_result-IsExtent g sector r e)
    checked r at same end_erased e = tt
    checked r at same end_claimed_data e = tt
    checked r at same end_invalid e = tt

module _ {Ctx : Type 0} (b : Backend Ctx) (g : Geometry) where
  abbrev pub Read : Type 0
  Read = Result (List ℕ) × SectorReader × Ctx

  abbrev pub Returned : Result (List ℕ) → Type 0
  Returned (ok bytes) = Unit
  Returned (err e) = Ends e

  -- The read answers, or fails with an error of the code.
  pub record Answers (x : Read) : Type 0 where
    pub ends : Returned x.0

  Answers-if : (test : Bool) (x y : Read) → Answers x → Answers y → Answers (if test then x else y)
  Answers-if true x y h k = h
  Answers-if false x y h k = k

  Answers-ok : (bytes : List ℕ) (reader : SectorReader) (c : Ctx) → Answers (ok bytes, reader, c)
  Answers-ok bytes reader c = record { ends = tt }

  Answers-invalid : (reader : SectorReader) (c : Ctx) → Answers (err invalid, reader, c)
  Answers-invalid reader c = record { ends = tt }

  Answers-io : (reader : SectorReader) (c : Ctx) → Answers (err io, reader, c)
  Answers-io reader c = record { ends = tt }

  pub sector_reader_view-Answers :
      (reader : SectorReader) (sector offset size : ℕ) (c : Ctx)
      → Answers (sector_reader_view b g reader sector offset size c)
  unfolding sector_reader_view reader_fill
  sector_reader_view-Answers reader sector offset size c =
      search (Answers-if, Answers-ok, Answers-invalid, Answers-io) depth 8

  pub view-Runs :
      {P : Walking Ctx → Type 0} (sector offset size : ℕ)
      → ((w : Walking Ctx) (reader : SectorReader) (c : Ctx)
          → P w
          → P (record w { window = reader; ctx = c }))
      → Runs P (view b g sector offset size) (λ bytes. P)
  unfolding view
  view-Runs {P} sector offset size keep = record {
    at = λ w h.
        viewed w h (sector_reader_view b g w.window sector offset size w.ctx)
          (sector_reader_view-Answers w.window sector offset size w.ctx);
  }
    where
      viewed :
          (w : Walking Ctx)
          → P w
          → (x : Read) → Answers x
          → Settled
              (λ bytes. P)
              (let (r, window', c) = x in (r, record w { window = window'; ctx = c }))
      viewed w h (ok bytes, reader, c) k = keep w reader c h
      viewed w h (err e, reader, c) k = k.ends

  -- The walk is where it was while a record is decoded.
  decode_file_md_record-Runs :
      (walk : MdWalk) (sector cursor : ℕ)
      → Runs
          (λ w. w.walk ≡ walk)
          (decode_file_md_record b g sector cursor)
          (λ x w. IsDecoded g sector cursor x × (w.walk ≡ walk))
  unfolding decode_file_md_record
  decode_file_md_record-Runs walk sector cursor =
      Runs-bind (view-Runs sector (cursor - 1) 1 (λ w reader c h. h)) (λ last.
        Runs-if (byte last 0 == 0xff) (λ e. Runs-pure _ (λ w h. (tt, h)))
          (λ e.
            Runs-if (ltb cursor (footer_size + md_file_record_size)) (λ low. Runs-fail corrupt tt)
              (λ room.
                Runs-if (not (byte last 0 == md_type_file_root || byte last 0 == md_type_file_cont))
                  (λ other. Runs-pure _ (λ w h. (tt, h)))
                  (λ known.
                    Runs-bind
                      (view-Runs sector (cursor - md_file_record_size) md_file_record_size
                        (λ w reader c h. h))
                      (λ buf. Runs-pure _ (λ w h. (
                        decoded_bytes-IsDecoded g sector cursor (byte last 0) buf (ground arith),
                        h,
                      )))))))

-- A record is the one under the cursor, and the walk goes on only above the data of all records
-- so far; every other result stops it.
abbrev pub AfterStep :
    {Ctx : Type 0} → Geometry → MdWalk → MdRecord × WalkResult → Walking Ctx → Type 0
AfterStep g walk (r, walk_record) w =
    (r.record_start + md_file_record_size ≡ walk.cursor)
    × (footer_size ≤ r.record_start)
    × IsExtent g walk.walk_sector r
    × (w.walk.cursor ≡ r.record_start)
    × (w.walk.walk_sector ≡ walk.walk_sector)
    × (walk.claimed_data_end ≤ w.walk.claimed_data_end)
    × (r.data_off + r.data_len ≤ w.walk.claimed_data_end)
    × (w.walk.active ≡ true → w.walk.claimed_data_end < r.record_start)
AfterStep g walk (r, result) w = w.walk.active ≡ false

module _ {Ctx : Type 0} (b : Backend Ctx) (g : Geometry) where
  after_walked :
      (walk : MdWalk) (x : MdRecord × WalkResult) (w : Walking Ctx)
      → IsDecoded g walk.walk_sector walk.cursor x
      → w.walk ≡ walk
      → Settled (AfterStep g walk) (walked x w)
  unfolding walked stepped
  after_walked walk (r, walk_record) w (below, above, extent) same = (
    below,
    above,
    extent,
    refl,
    ap (λ x. x.walk_sector) same,
    rw same (ground arith),
    ground arith,
    λ e. ground arith,
  )
  after_walked walk (r, end_erased) w h same = refl
  after_walked walk (r, end_claimed_data) w h same = refl
  after_walked walk (r, end_invalid) w h same = refl

  -- A step of the walk comes to an end whatever is on the flash. If it succeeds, a record that it
  -- gives is the one under the cursor, lies above the footer's length, with its data below it, and,
  -- where it is committed, with an extent in the volume and a next sector that is none or a data
  -- sector; the cursor falls to it, and the walk goes on only above all the data claimed so far.
  -- Any other result stops the walk.
  pub md_walk_next-Settled : (w : Walking Ctx) → Settled (AfterStep g w.walk) (md_walk_next b g w)
  unfolding md_walk_next
  md_walk_next-Settled w =
      either (not w.walk.active || w.walk.walk_sector != w.window.sector)
        (leb w.walk.cursor footer_size)
    where
      decoded :
          Runs
            (λ s. s.walk ≡ w.walk)
            (decode_file_md_record b g w.walk.walk_sector w.walk.cursor >>= walked)
            (AfterStep g w.walk)
      decoded =
          Runs-bind (decode_file_md_record-Runs b g w.walk w.walk.walk_sector w.walk.cursor)
            (λ x. record { at = λ s h. after_walked w.walk x s h.0 h.1 })

      either :
          (refused over : Bool)
          → Settled (AfterStep g w.walk) (
              if refused
              then (err invalid, w)
              else if over
              then (modify (with_walk stopped) >> pure (empty_md_record, end_claimed_data)) w
              else (decode_file_md_record b g w.walk.walk_sector w.walk.cursor >>= walked) w)
      either true over = tt
      either false true = refl
      either false false = decoded.at w refl
