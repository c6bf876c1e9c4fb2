-- ===== src/Metadata/Decode.antt =====
-- A record whose bytes are on the flash is decoded from there, through the window.
use fastffs.Prelude.{
  ℕ, zero, suc, ◌+◌, ◌-◌, ◌*◌, ◌≤◌, ◌<◌, ◌≡◌, ◌⊎◌, refl, sym, ap, ap₂, ◌∙◌, arith, List, [], ◌∷◌,
  ◌++◌, take, drop, get_or, get_or-take, false, not, ◌||◌, ◌==◌, ltb, ltb_ge, if◌then◌else◌,
}
use fastffs.Status.{corrupt, ok, pure, fail, ◌>>=◌}
use fastffs.Bytes.{byte, store_le16, store_le32}
use fastffs.Flash.{Backend}
use fastffs.Flash.Nor.{IsNor, IsReliable, span, get_or-span}
use fastffs.Sector.{Geometry, footer_size}
use fastffs.Sector.Window.{Mirrors, sector_reader_view-Viewed}
use fastffs.Metadata.{
  md_type_file_root, md_type_file_cont, walk_record, end_erased, end_invalid, empty_md_record,
  placed_record, decoded_bytes, Walking, view, decode_file_md_record,
}
use fastffs.Metadata.Step.{IsExtent}
use fastffs.Metadata.Program.{Extent, md_record_bytes}
use fastffs.Metadata.Written.{written_record, Fits, decoded_bytes-md_record_bytes}

take-drop : (n : ℕ) (xs : List ℕ) → xs ≡ take n xs ++ drop n xs
take-drop zero xs = refl
take-drop (suc n) [] = refl
take-drop (suc n) (x ∷ xs) = ap (λ ys. x ∷ ys) (take-drop n xs)

-- The type is the last byte of a record.
last_byte : (e : Extent) → Fits e → get_or (md_record_bytes e) 15 0 ≡ e.extent_type
unfolding md_record_bytes store_le16 store_le32
last_byte e h = rw h.6 (ground arith)

module _ {Ctx : Type 0} {b : Backend Ctx} {cell : Ctx → ℕ → ℕ} (nor : IsNor b cell)
    (works : IsReliable b) (g : Geometry) (room : g.sector_count * g.sector_size ≤ b.size) where
  -- A view of a walk, as a view of its window.
  viewed :
      (w : Walking Ctx) (sector offset size : ℕ)
      → Mirrors g (cell w.ctx) w.window
      → sector < g.sector_count
      → offset + size ≤ g.sector_size
      → size ≤ w.window.capacity
      → (found : List ℕ) × (w' : Walking Ctx) × (view b g sector offset size w ≡ (ok found, w'))
        × (take size found ≡ span (cell w.ctx) (sector * g.sector_size + offset) size)
        × Mirrors g (cell w'.ctx) w'.window
        × (cell w'.ctx ≡ cell w.ctx)
        × (w'.window.capacity ≡ w.window.capacity)
  unfolding view
  viewed w sector offset size mirrors lt le fits =
      let v =
        sector_reader_view-Viewed nor works g room w.window sector offset size w.ctx mirrors lt le
          fits in
      (
        v.found,
        record w { window = v.reader'; ctx = v.ctx' },
        rw v.returned refl,
        v.found_bytes,
        rw v.cells_kept v.mirrors,
        v.cells_kept,
        v.same_capacity,
      )

  first_byte : (found : List ℕ) (x : ℕ) → take 1 found ≡ x ∷ [] → byte found 0 ≡ x
  first_byte found x h = sym (get_or-take 1 found 0 0 (omega arith)) ∙ ap (λ ys. get_or ys 0 0) h

  -- Where the bytes of a live extent stand under the footer, decoding at the cursor above them
  -- gives the record of the extent.
  pub decode_file_md_record-written :
      (sector start : ℕ) (e : Extent) (w : Walking Ctx)
      → Mirrors g (cell w.ctx) w.window
      → sector < g.sector_count
      → footer_size ≤ start
      → start + 16 ≤ g.sector_size
      → 16 ≤ w.window.capacity
      → (e.extent_type ≡ md_type_file_root) ⊎ (e.extent_type ≡ md_type_file_cont)
      → Fits e
      → IsExtent g sector (written_record start e)
      → span (cell w.ctx) (sector * g.sector_size + start) 16 ≡ md_record_bytes e
      → (w' : Walking Ctx) × (decode_file_md_record b g sector (start + 16) w
          ≡ (ok (written_record start e, walk_record), w'))
        × Mirrors g (cell w'.ctx) w'.window
        × (cell w'.ctx ≡ cell w.ctx)
  unfolding decode_file_md_record
  decode_file_md_record-written sector start e w mirrors lt above inside capacity type fits extent
        bytes =
      let (last, w1, r1, last1, mirrors1, cells1, capacity1) =
        viewed w sector (start + 16 - 1) 1 mirrors lt (omega arith) (omega arith) in
      let (buf, w2, r2, buf2, mirrors2, cells2, capacity2) =
        viewed w1 sector (start + 16 - 16) 16 mirrors1 lt (omega arith) (omega arith) in
      (
        w2,
        rw r1 (decoded w1 w2 last buf (typed last last1) (sym (back cells1 buf buf2)) r2),
        mirrors2,
        cells2 ∙ cells1,
      )
    where
      typed :
          (last : List ℕ)
          → take 1 last ≡ span (cell w.ctx) (sector * g.sector_size + (start + 16 - 1)) 1
          → byte last 0 ≡ e.extent_type
      typed last h =
          first_byte last _ h
          ∙ ap (cell w.ctx) (place (sector * g.sector_size) start)
          ∙ sym (get_or-span (cell w.ctx) (sector * g.sector_size + start) 16 15 0 (omega arith))
          ∙ ap (λ xs. get_or xs 15 0) bytes
          ∙ last_byte e fits
        where
          place : (base start : ℕ) → base + (start + 16 - 1) ≡ base + start + 15
          place base start = omega arith

      back :
          {c1 : ℕ → ℕ}
          → c1 ≡ cell w.ctx
          → (buf : List ℕ) → take 16 buf ≡ span c1 (sector * g.sector_size + (start + 16 - 16)) 16
          → buf ≡ md_record_bytes e ++ drop 16 buf
      back {c1} same buf h =
          take-drop 16 buf
          ∙ ap (λ xs. xs ++ drop 16 buf)
              (h ∙ ap₂ (λ c at. span c (sector * g.sector_size + at) 16) same (again start) ∙ bytes)
        where
          again : (start : ℕ) → start + 16 - 16 ≡ start
          again start = omega arith

      decoded :
          (w1 w2 : Walking Ctx) (last buf : List ℕ)
          → byte last 0 ≡ e.extent_type
          → md_record_bytes e ++ drop 16 buf ≡ buf
          → view b g sector (start + 16 - 16) 16 w1 ≡ (ok buf, w2)
          → (if byte last 0 == 0xff
                then pure (empty_md_record, end_erased)
                else if ltb (start + 16) 26
                then fail corrupt
                else if not (byte last 0 == md_type_file_root || byte last 0 == md_type_file_cont)
                then pure (placed_record (start + 16 - 16) (byte last 0), end_invalid)
                else (view b g sector (start + 16 - 16) 16 >>= λ buf.
                    pure (decoded_bytes g sector (start + 16 - 16) (byte last 0) buf)))
              w1
            ≡ (ok (written_record start e, walk_record), w2)
      decoded w1 w2 last buf t whole r =
          rw
            (
              t,
              known type,
              ltb_ge (start + 16) 26 (omega arith),
              of_a_file type,
              r,
              ← whole,
              again start,
              decoded_bytes-md_record_bytes g sector start e (drop 16 buf) fits extent,
            )
            refl
        where
          again : (start : ℕ) → start + 16 - 16 ≡ start
          again start = omega arith

          known :
              (e.extent_type ≡ md_type_file_root) ⊎ (e.extent_type ≡ md_type_file_cont)
              → (e.extent_type == 0xff) ≡ false
          known h = ground arith

          of_a_file :
              (e.extent_type ≡ md_type_file_root) ⊎ (e.extent_type ≡ md_type_file_cont)
              → not (e.extent_type == md_type_file_root || e.extent_type == md_type_file_cont)
                ≡ false
          of_a_file h = ground arith
