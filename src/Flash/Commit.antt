-- ===== src/Flash/Commit.antt =====
-- Programming on a reliable backend, and the commit of a structure: its bytes are programmed on
-- erased cells, and one byte of it is programmed again.
use fastffs.Prelude.{
  ℕ, ◌+◌, ◌-◌, ◌%◌, ◌≤◌, ◌<◌, ◌≡◌, ◌≢◌, refl, ap, ◌∙◌, arith, List, [], ◌∷◌, ◌==◌, if◌then◌else◌,
  get_or, length, bit_and, ltb_ge, lt→ltb, get_or_beyond, get_or_ext, get_or-set_self,
  get_or-set_ne, length-set, set, sym, ==_refl, ==_ne,
}
use native.Mathlib.Decide.{ℕ_discrete, dec_lt}
use fastffs.Status.{ok, ◌>>◌}
use fastffs.Bits.{bit_and_comm}
use fastffs.Flash.{Backend, program_aligned}
use fastffs.Flash.Nor.{IsNor, IsReliable, overlay, span, bit_and-0xff, length-span, get_or-span}
use fastffs.Flash.Aligned.{program_aligned_lem}
use fastffs.Flash.Success.{program_aligned-ok}

0xff-bit_and : (x : ℕ) → x < 256 → bit_and 0xff x ≡ x
0xff-bit_and x h = bit_and_comm 0xff x ∙ bit_and-0xff x h

pub overlay_inside :
    (off : ℕ) (bytes : List ℕ) (i : ℕ) → overlay off bytes (off + i) ≡ get_or bytes i 0xff
overlay_inside off bytes i = rw (ltb_ge (off + i) off (omega arith), same off i) refl
  where
    same : (off i : ℕ) → off + i - off ≡ i
    same off i = omega arith

overlay_at : (off at v : ℕ) → overlay (off + at) (v ∷ []) (off + at) ≡ v
overlay_at off at v = rw (ltb_ge (off + at) (off + at) (omega arith), zero_off (off + at)) refl
  where
    zero_off : (x : ℕ) → x - x ≡ 0
    zero_off x = omega arith

overlay_apart : (off at i v : ℕ) → i ≢ at → overlay (off + at) (v ∷ []) (off + i) ≡ 0xff
overlay_apart off at i v ne = elim (dec_lt i at) [
  | yes before ↦ rw (lt→ltb (off + i) (off + at) (omega arith)) refl
  | no later ↦
      rw (ltb_ge (off + i) (off + at) (omega arith))
        (get_or_beyond (v ∷ []) (off + i - (off + at)) 0xff (omega arith))
]

module _ {Ctx : Type 0} {b : Backend Ctx} {cell : Ctx → ℕ → ℕ} (nor : IsNor b cell)
    (works : IsReliable b) (pos : 0 < b.program_granule)
    (fits : b.size % b.program_granule ≡ 0) where
  -- On reliable NOR flash whose size is a multiple of its granule, a span inside the flash, at any
  -- offset, is programmed: the program succeeds, and leaves each cell with the byte of the span
  -- programmed onto it, or with 0xff, which clears nothing, outside the span.
  pub program_aligned-writes :
      (offset : ℕ) (src : List ℕ) (c : Ctx)
      → offset + length src ≤ b.size
      → (c' : Ctx) × (program_aligned b offset src c ≡ (ok tt, c'))
        × ((i : ℕ) → cell c' i ≡ bit_and (cell c i) (overlay offset src i))
  program_aligned-writes offset src c inside =
      let fine : (program_aligned b offset src c).0 ≡ ok tt =
        program_aligned-ok b works pos fits offset src c inside in
      (
        (program_aligned b offset src c).1,
        ap (λ r. (r, (program_aligned b offset src c).1)) fine,
        (program_aligned_lem b nor offset src c pos).1 fine,
      )

  -- The bytes as they were programmed, but for the one that `v` was programmed onto.
  pub commit_lem :
      (offset : ℕ) (bytes : List ℕ) (at v : ℕ) (c : Ctx)
      → offset + length bytes ≤ b.size
      → at < length bytes
      → v < 256
      → ((i : ℕ) → i < length bytes → get_or bytes i 0xff < 256)
      → ((i : ℕ) → i < length bytes → cell c (offset + i) ≡ 0xff)
      → (c' : Ctx) × ((program_aligned b offset bytes >> program_aligned b (offset + at) (v ∷ [])) c
          ≡ (ok tt, c'))
        × ((i : ℕ)
            → i < length bytes
            → cell c' (offset + i)
              ≡ (if i == at then bit_and (get_or bytes i 0xff) v else get_or bytes i 0xff))
  commit_lem offset bytes at v c inside below byte_v are_bytes erased =
      let (c1, r1, cells1) = program_aligned-writes offset bytes c inside in
      let (c2, r2, cells2) = program_aligned-writes (offset + at) (v ∷ []) c1 (omega arith) in
      (c2, rw (r1, r2) refl, λ i h. cells2 (offset + i) ∙ second c1 cells1 i h)
    where
      second :
          (c1 : Ctx)
          → ((i : ℕ) → cell c1 i ≡ bit_and (cell c i) (overlay offset bytes i))
          → (i : ℕ) → i < length bytes
          → bit_and (cell c1 (offset + i)) (overlay (offset + at) (v ∷ []) (offset + i))
            ≡ (if i == at then bit_and (get_or bytes i 0xff) v else get_or bytes i 0xff)
      second c1 cells1 i h =
          rw
            (
              cells1 (offset + i),
              erased i h,
              overlay_inside offset bytes i,
              0xff-bit_and (get_or bytes i 0xff) (are_bytes i h),
            )
            (elim (ℕ_discrete i at) [
              | yes e ↦ ground (arith, e, overlay_at offset at v)
              | no ne ↦ ground (
                arith,
                overlay_apart offset at i v ne,
                bit_and-0xff (get_or bytes i 0xff) (are_bytes i h),
              )
            ])

  -- Bytes that are programmed on erased cells and then get one byte programmed again read back as
  -- that list with the one byte changed.
  pub commit-span :
      (offset : ℕ) (bytes : List ℕ) (at v : ℕ) (c : Ctx)
      → offset + length bytes ≤ b.size
      → at < length bytes
      → v < 256
      → ((i : ℕ) → i < length bytes → get_or bytes i 0xff < 256)
      → ((i : ℕ) → i < length bytes → cell c (offset + i) ≡ 0xff)
      → (c' : Ctx) × ((program_aligned b offset bytes >> program_aligned b (offset + at) (v ∷ [])) c
          ≡ (ok tt, c'))
        × (span (cell c') offset (length bytes) ≡ set bytes at (bit_and (get_or bytes at 0xff) v))
  commit-span offset bytes at v c inside below byte_v are_bytes erased =
      let (c', r, cells) = commit_lem offset bytes at v c inside below byte_v are_bytes erased in
      (
        c',
        r,
        get_or_ext 0xff (span (cell c') offset (length bytes))
            (set bytes at (bit_and (get_or bytes at 0xff) v))
            (length-span (cell c') offset (length bytes)
              ∙ sym (length-set bytes at (bit_and (get_or bytes at 0xff) v)))
            (λ i lt. same_at c' cells i (rw (length-span (cell c') offset (length bytes)) at lt)),
      )
    where
      same_at :
          (c' : Ctx)
          → ((i : ℕ)
              → i < length bytes
              → cell c' (offset + i)
                ≡ (if i == at then bit_and (get_or bytes i 0xff) v else get_or bytes i 0xff))
          → (i : ℕ) → i < length bytes
          → get_or (span (cell c') offset (length bytes)) i 0xff
            ≡ get_or (set bytes at (bit_and (get_or bytes at 0xff) v)) i 0xff
      same_at c' cells i lt =
          get_or-span (cell c') offset (length bytes) i 0xff lt
          ∙ cells i lt
          ∙ elim (ℕ_discrete i at) [
            | yes e ↦
                rw (e, ==_refl at)
                  (sym (get_or-set_self bytes at (bit_and (get_or bytes at 0xff) v) 0xff below))
            | no ne ↦ rw (==_ne i at ne) (
                sym (
                  get_or-set_ne bytes at i (bit_and (get_or bytes at 0xff) v) 0xff
                    (λ f. ne (sym f))))
          ]
