-- ===== src/Flash/Spans.antt =====
-- A program on erased cells, as the bytes that can then be read, and what it leaves around them.
use fastffs.Prelude.{
  ◌⊎◌, inl, inr, ◌-◌, ltb_ge, get_or_beyond, ℕ, ◌+◌, ◌%◌, ◌≤◌, ◌<◌, ◌≡◌, sym, ◌∙◌, arith, List,
  length, take, get_or, get_or-take, get_or_ext, length-take, bit_and, lt→ltb,
}
use fastffs.Status.{ok}
use fastffs.Bits.{bit_and_comm}
use fastffs.Flash.{Backend, program_aligned}
use fastffs.Flash.Nor.{IsNor, IsReliable, span, overlay, bit_and-0xff, length-span, get_or-span}
use fastffs.Flash.Commit.{program_aligned-writes, overlay_inside}

module _ {Ctx : Type 0} {b : Backend Ctx} {cell : Ctx → ℕ → ℕ} (nor : IsNor b cell)
    (works : IsReliable b) (pos : 0 < b.program_granule)
    (fits : b.size % b.program_granule ≡ 0) where
  pub program_aligned-span :
      (offset : ℕ) (src : List ℕ) (k : ℕ) (c : Ctx)
      → offset + length src ≤ b.size
      → k ≤ length src
      → ((i : ℕ) → i < k → get_or src i 0xff < 256)
      → ((i : ℕ) → i < k → cell c (offset + i) ≡ 0xff)
      → (c' : Ctx) × (program_aligned b offset src c ≡ (ok tt, c'))
        × (span (cell c') offset k ≡ take k src)
        × ((i : ℕ) → (i < offset) ⊎ (offset + length src ≤ i) → cell c' i ≡ cell c i)
  program_aligned-span offset src k c inside part are_bytes erased =
      let (c', r, cells) = program_aligned-writes nor works pos fits offset src c inside in
      (
        c',
        r,
        get_or_ext 0xff (span (cell c') offset k) (take k src)
            (length-span (cell c') offset k ∙ omega (arith, length-take k src))
            (λ i lt. at c' cells i (rw (← length-span (cell c') offset k) lt)),
        λ i apart. cells i ∙ outside i apart,
      )
    where
      outside :
          (i : ℕ)
          → (i < offset) ⊎ (offset + length src ≤ i)
          → bit_and (cell c i) (overlay offset src i) ≡ cell c i
      outside i (inl lt) = rw (lt→ltb i offset lt) (bit_and-0xff (cell c i) (nor.is_byte c i))
      outside i (inr le) =
          rw (ltb_ge i offset (omega arith), get_or_beyond src (i - offset) 0xff (omega arith))
            (bit_and-0xff (cell c i) (nor.is_byte c i))

      at :
          (c' : Ctx)
          → ((i : ℕ) → cell c' i ≡ bit_and (cell c i) (overlay offset src i))
          → (i : ℕ) → i < k
          → get_or (span (cell c') offset k) i 0xff ≡ get_or (take k src) i 0xff
      at c' cells i lt =
          get_or-span (cell c') offset k i 0xff lt
          ∙ (cells (offset + i)
              ∙ rw (erased i lt, overlay_inside offset src i)
                  (bit_and_comm 0xff (get_or src i 0xff)
                    ∙ bit_and-0xff (get_or src i 0xff) (are_bytes i lt)))
          ∙ sym (get_or-take k src i 0xff lt)
