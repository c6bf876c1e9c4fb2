-- ===== src/Flash/Success.antt =====
-- `fffs_backend_program_aligned` calls the backend with whole granules inside the flash only.
use fastffs.Prelude.{
  ℕ, zero, suc, ◌+◌, ◌-◌, ◌%◌, ◌≤◌, ◌<◌, ◌≡◌, refl, arith, List, ltb, ◌&&◌, ◌==◌, Bool, length,
  Bool-cases, ltb→lt, inl, inr,
}
use fastffs.Status.{ok}
use fastffs.Flash.{Backend, chunk_length, chunk_bytes, program_chunks, program_aligned}
use fastffs.Flash.Chunk.{length-chunk_bytes, flash_program_ok}
use fastffs.Flash.Nor.{IsReliable}

-- Between two multiples of `g` there is room for `g`.
multiple_gap : (a s g : ℕ) → 0 < g → a % g ≡ 0 → s % g ≡ 0 → a < s → a + g ≤ s
multiple_gap a s g pos ha hs lt = grind arith

mod_self : (g : ℕ) → g % g ≡ 0
mod_self g = grind arith

floor_multiple : (p g : ℕ) → 0 < g → (p - p % g) % g ≡ 0
floor_multiple p g pos = grind arith

module _ {Ctx : Type 0} (b : Backend Ctx) (works : IsReliable b) (pos : 0 < b.program_granule)
    (fits : b.size % b.program_granule ≡ 0) where
  open b use {size, program_granule as granule}

  round-ok :
      (offset : ℕ) (src : List ℕ) (done : ℕ) (c : Ctx)
      → offset + length src ≤ size
      → done < length src
      → (b.program (offset + done - (offset + done) % granule) (chunk_bytes b offset src done) c).0
        ≡ 0
  round-ok offset src done c inside more =
      works.programs base (chunk_bytes b offset src done) c aligned
        (rw (length-chunk_bytes b offset src done pos more) (mod_self granule))
        (rw (length-chunk_bytes b offset src done pos more)
          (multiple_gap base size granule pos aligned fits (omega arith)))
    where
      base : ℕ
      base = offset + done - (offset + done) % granule

      aligned : base % granule ≡ 0
      aligned = floor_multiple (offset + done) granule pos

  program_chunks-ok :
      (fuel offset : ℕ) (src : List ℕ) (done : ℕ) (c : Ctx)
      → offset + length src ≤ size
      → (program_chunks b fuel offset src done c).0 ≡ ok tt
  unfolding program_chunks
  program_chunks-ok zero offset src done c inside = refl
  program_chunks-ok (suc fuel) offset src done c inside =
      elim (Bool-cases (ltb done (length src))) [
        | inr last ↦ rw last refl
        | inl more ↦
            rw
              (
                more,
                flash_program_ok b (offset + done - (offset + done) % granule)
                    (chunk_bytes b offset src done) c
                    (round-ok offset src done c inside (ltb→lt done (length src) more)),
              )
              (program_chunks-ok fuel offset src (done + chunk_length b offset src done)
                (b.program (offset + done - (offset + done) % granule)
                  (chunk_bytes b offset src done) c).1
                inside)
      ]

  -- On a backend that accepts whole granules only, a span anywhere inside the flash is programmed.
  pub program_aligned-ok :
      (offset : ℕ) (src : List ℕ) (c : Ctx)
      → offset + length src ≤ size
      → (program_aligned b offset src c).0 ≡ ok tt
  unfolding program_aligned
  program_aligned-ok offset src c inside = elim (Bool-cases (length src == 0)) [
    | inl empty ↦ rw empty refl
    | inr some_bytes ↦ rw some_bytes (elim (Bool-cases whole_granules) [
      | inl direct ↦
          rw
            (
              direct,
              flash_program_ok b offset src c
                  (works.programs offset src c (ground arith) (ground arith) inside),
            )
            refl
      | inr chunks ↦ rw chunks (program_chunks-ok (length src) offset src 0 c inside)
    ])
  ]
    where
      whole_granules : Bool
      whole_granules = offset % granule == 0 && length src % granule == 0
