-- ===== src/Flash/Aligned.antt =====
-- `fffs_backend_program_aligned` programs any span as if the backend had no granule.
use native.Mathlib.Decide.{ℕ_discrete}
use fastffs.Prelude.{
  ℕ, zero, suc, ◌+◌, ◌-◌, ◌%◌, ◌≤◌, ◌<◌, bit_and, ◌≡◌, refl, arith, List, ltb, ◌&&◌, ◌==◌, Bool,
  length, Bool-cases, ltb→lt, inl, inr,
}
use fastffs.Status.{Result, ok, err, io, next}
use fastffs.Flash.{
  Backend, flash_program, chunk_length, chunk_bytes, program_chunks, program_aligned,
}
use fastffs.Flash.Between.{Between-trans, Between-same, Between-part}
use fastffs.Flash.Chunk.{
  rest, rest_start, rest_done, chunk_length_bounds, flash_program_ok, flash_program_err,
  overlay_or_rest,
}
use fastffs.Flash.Nor.{IsNor, Between, overlay, bit_and-0xff}

module _ {Ctx : Type 0} (b : Backend Ctx) where
  open b use {program_granule as granule}

  module _ {cell : Ctx → ℕ → ℕ} (nor : IsNor b cell) where
    -- The result of programming the rest of `src`, and what a failure may leave.
    record Programmed (offset : ℕ) (src : List ℕ) (done : ℕ) (c : Ctx)
        (out : Result (Unit {0}) × Ctx) : Type 0 where
      between : (i : ℕ) → Between (cell c i) (rest offset src done i) (cell out.1 i)
      complete :
          out.0 ≡ ok tt → (i : ℕ) → cell out.1 i ≡ bit_and (cell c i) (rest offset src done i)

    nothing-Programmed :
        (offset : ℕ) (src : List ℕ) (done : ℕ) (c : Ctx)
        → length src ≤ done
        → Programmed offset src done c (ok tt, c)
    nothing-Programmed offset src done c h = record {
      between = λ i. Between-same (cell c i) (rest offset src done i) (nor.is_byte c i);
      complete =
          λ e i. rw (rest_done offset src done i h, bit_and-0xff (cell c i) (nor.is_byte c i)) refl;
    }

    module _ (offset : ℕ) (src : List ℕ) (done : ℕ) (c : Ctx) (pos : 0 < granule)
        (more : done < length src) where
      abbrev base : ℕ
      base = offset + done - (offset + done) % granule

      abbrev chunk : List ℕ
      chunk = chunk_bytes b offset src done

      abbrev after : Ctx
      after = (b.program base chunk c).1

      -- A round that fails, whatever it has programmed of its chunk.
      failed-Programmed : Programmed offset src done c (err io, after)
      failed-Programmed = record {
        between = λ i.
            Between-part (cell c i) (overlay base chunk i)
              (rest offset src (done + chunk_length b offset src done) i) (rest offset src done i)
              (cell after i) (nor.is_byte c i) (overlay_or_rest b offset src done i pos more)
              (nor.program_between base chunk c i);
        complete = λ e i. cc;
      }

      -- A round that succeeds, and the rounds after it.
      then-Programmed :
          (out : Result (Unit {0}) × Ctx)
          → Programmed offset src (done + chunk_length b offset src done) after out
          → (b.program base chunk c).0 ≡ 0
          → Programmed offset src done c out
      then-Programmed out h e = record {
        between = λ i.
            Between-trans (cell c i) (overlay base chunk i)
              (rest offset src (done + chunk_length b offset src done) i) (rest offset src done i)
              (cell after i) (cell out.1 i) (nor.is_byte c i) (nor.is_byte after i)
              (overlay_or_rest b offset src done i pos more) (nor.program_between base chunk c i)
              (h.between i);
        complete = λ fine i. ground (
          arith,
          h.complete fine i,
          nor.program_clears base chunk c i e,
          nor.is_byte c i,
          nor.is_byte after i,
          overlay_or_rest b offset src done i pos more,
          bit_and-0xff (cell c i),
          bit_and-0xff (cell after i),
        );
      }

      round-Programmed :
          (rounds : Ctx → Result (Unit {0}) × Ctx)
          → Programmed offset src (done + chunk_length b offset src done) after (rounds after)
          → Dec ((b.program base chunk c).0 ≡ 0)
          → Programmed offset src done c (next (flash_program b base chunk c) (λ _. rounds))
      round-Programmed rounds ih (yes e) =
          rw (flash_program_ok b base chunk c e) (then-Programmed (rounds after) ih e)
      round-Programmed rounds ih (no e) = rw (flash_program_err b base chunk c e) failed-Programmed

    program_chunks-Programmed :
        (fuel : ℕ) (offset : ℕ) (src : List ℕ) (done : ℕ) (c : Ctx)
        → 0 < granule
        → length src ≤ done + fuel
        → Programmed offset src done c (program_chunks b fuel offset src done c)
    unfolding program_chunks
    program_chunks-Programmed zero offset src done c pos enough =
        nothing-Programmed offset src done c (omega arith)
    program_chunks-Programmed (suc fuel) offset src done c pos enough =
        elim (Bool-cases (ltb done (length src))) [
          | inr last ↦ rw last (nothing-Programmed offset src done c (ground arith))
          | inl more ↦
              let lt : done < length src = ltb→lt done (length src) more in
              let done' : ℕ = done + chunk_length b offset src done in
              rw more (
                round-Programmed offset src done c pos lt (program_chunks b fuel offset src done')
                  (program_chunks-Programmed fuel offset src done' (after offset src done c pos lt)
                    pos (omega (arith, chunk_length_bounds b offset src done pos lt)))
                  (ℕ_discrete
                    (b.program (base offset src done c pos lt) (chunk offset src done c pos lt) c).0
                    0))
        ]

    direct-Programmed :
        (offset : ℕ) (src : List ℕ) (c : Ctx)
        → Dec ((b.program offset src c).0 ≡ 0)
        → Programmed offset src 0 c (flash_program b offset src c)
    direct-Programmed offset src c (yes e) = rw (flash_program_ok b offset src c e) record {
      between = λ i. rw (rest_start offset src i) (nor.program_between offset src c i);
      complete = λ fine i. rw (rest_start offset src i) (nor.program_clears offset src c i e);
    }
    direct-Programmed offset src c (no e) = rw (flash_program_err b offset src c e) record {
      between = λ i. rw (rest_start offset src i) (nor.program_between offset src c i);
      complete = λ fine i. cc;
    }

    whole :
        (offset : ℕ) (src : List ℕ) (c : Ctx) (out : Result (Unit {0}) × Ctx)
        → Programmed offset src 0 c out
        → ((i : ℕ) → Between (cell c i) (overlay offset src i) (cell out.1 i))
          × (out.0 ≡ ok tt → (i : ℕ) → cell out.1 i ≡ bit_and (cell c i) (overlay offset src i))
    whole offset src c out h = (
      λ i. rw (← rest_start offset src i) (h.between i),
      λ fine i. rw (← rest_start offset src i) (h.complete fine i),
    )

    -- Both at once: each cell is in between, and has its final value where nothing failed.
    pub program_aligned_lem :
        (offset : ℕ) (src : List ℕ) (c : Ctx)
        → 0 < granule
        → let out = program_aligned b offset src c in
          ((i : ℕ) → Between (cell c i) (overlay offset src i) (cell out.1 i))
          × (out.0 ≡ ok tt → (i : ℕ) → cell out.1 i ≡ bit_and (cell c i) (overlay offset src i))
    unfolding program_aligned
    program_aligned_lem offset src c pos = elim (Bool-cases (length src == 0)) [
      | inl empty ↦
          rw empty
            (whole offset src c (ok tt, c) (nothing-Programmed offset src 0 c (ground arith)))
      | inr some_bytes ↦ rw some_bytes (elim (Bool-cases whole_granules) [
        | inl direct ↦ rw direct (
            whole offset src c (flash_program b offset src c)
              (direct-Programmed offset src c (ℕ_discrete (b.program offset src c).0 0)))
        | inr chunks ↦ rw chunks (
            whole offset src c (program_chunks b (length src) offset src 0 c)
              (program_chunks-Programmed (length src) offset src 0 c pos (omega arith)))
      ])
    ]
      where
        whole_granules : Bool
        whole_granules = offset % granule == 0 && length src % granule == 0

    -- On NOR flash with a granule of a byte at least, programming a span at any offset leaves each
    -- cell between what it was and what it is with the span programmed onto it, wherever a call of
    -- the backend fails; 0xff counts as programmed onto the cells outside the span.
    pub program_aligned-Between :
        (offset : ℕ) (src : List ℕ) (c : Ctx)
        → 0 < granule
        → (i : ℕ)
        → Between (cell c i) (overlay offset src i) (cell (program_aligned b offset src c).1 i)
    program_aligned-Between offset src c pos i = (program_aligned_lem offset src c pos).0 i
