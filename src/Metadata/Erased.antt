-- ===== src/Metadata/Erased.antt =====
-- The loop of `fffs_flash_span_is_erased` succeeds on erased spans only.
use fastffs.Prelude.{
  ℕ, zero, suc, ◌+◌, ◌-◌, ◌<◌, ◌≡◌, refl, sym, ap, fun_ext, ◌∙◌, arith, List, take, Bool, true,
  false, not, ◌==◌, ltb, if◌then◌else◌,
}
use native.Mathlib.Decide.{dec_lt}
use fastffs.Status.{no_space, io, ok, err, Action, next, pure, fail}
use fastffs.Bytes.{bytes_erased}
use fastffs.Flash.{Backend, flash_read, map_backend_status}
use fastffs.Flash.Nor.{IsNor, span}
use fastffs.Settled.{Settled, Settled-weaken, Runs, Runs-pure, Runs-if, Runs-bind}
use fastffs.Metadata.Window.{span_is_erased_from}

-- The cells of a span are erased.
abbrev pub AreErased : (ℕ → ℕ) → ℕ → ℕ → Type 0
AreErased cells off n = (i : ℕ) → i < n → cells (off + i) ≡ 0xff

if_both : (t : Bool) {x : Bool} → (if t then x else false) ≡ true → (t ≡ true) × (x ≡ true)
if_both true e = (refl, e)
if_both false e = absurd (ground arith)

bytes_erased-AreErased :
    (cells : ℕ → ℕ) (off n : ℕ)
    → bytes_erased (take n (span cells off n)) ≡ true
    → AreErased cells off n
unfolding bytes_erased
bytes_erased-AreErased cells off zero e = λ i lt. absurd (omega arith)
bytes_erased-AreErased cells off (suc n) e =
    at (bytes_erased-AreErased cells (suc off) n (if_both (cells off == 0xff) e).1)
      (first (if_both (cells off == 0xff) e).0)
  where
    first : (cells off == 0xff) ≡ true → cells off ≡ 0xff
    first e = ground arith

    at : AreErased cells (suc off) n → cells off ≡ 0xff → AreErased cells off (suc n)
    at later e zero lt = ap cells (omega arith) ∙ e
    at later e (suc i) lt = ap cells (omega arith) ∙ later i (omega arith)

module _ {Ctx : Type 0} {b : Backend Ctx} {cell : Ctx → ℕ → ℕ} (nor : IsNor b cell)
    (cells : ℕ → ℕ) where
  flash_read-Runs :
      (off n : ℕ)
      → Runs
          (λ c. cell c ≡ cells)
          (flash_read b off n)
          (λ bytes c. (bytes ≡ span cells off n) × (cell c ≡ cells))
  unfolding flash_read map_backend_status
  flash_read-Runs off n = record { at = λ c h. read c h ((b.read off n c).0 == 0) refl }
    where
      read :
          (c : Ctx)
          → cell c ≡ cells
          → (works : Bool) → works ≡ ((b.read off n c).0 == 0)
          → Settled
              (λ bytes c. (bytes ≡ span cells off n) × (cell c ≡ cells))
              (next
                (if works then ok tt else err io, (b.read off n c).2)
                (λ x. pure (b.read off n c).1))
      read c h true e = (
        nor.read_bytes off n c (ground arith) ∙ ap (λ x. span x off n) h,
        fun_ext (λ i. nor.read_keeps off n c i) ∙ h,
      )
      read c h false e = tt

  -- The loop ends where it has a round for each byte, and one more, of chunks that are not empty.
  pub span_is_erased_from-Runs :
      (fuel chunk_size off size : ℕ)
      → 0 < chunk_size
      → size < fuel
      → Runs
          (λ c. cell c ≡ cells)
          (span_is_erased_from b fuel chunk_size off size)
          (λ x c. AreErased cells off size × (cell c ≡ cells))
  unfolding span_is_erased_from
  span_is_erased_from-Runs zero chunk_size off size pos lt = absurd (omega arith)
  span_is_erased_from-Runs (suc fuel) chunk_size off size pos lt =
      Runs-if (size == 0) (λ e. Runs-pure tt (λ c h. (λ i lt. absurd (none e i lt), h)))
        (λ e. Runs-bind (flash_read-Runs off n) (λ bytes. record {
          at = λ c h.
              chunk bytes e (span_is_erased_from b fuel chunk_size (off + n) (size - n))
                (span_is_erased_from-Runs fuel chunk_size (off + n) (size - n) pos (fewer e)) c h.0
                h.1 (bytes_erased (take n bytes)) refl;
        }))
    where
      n : ℕ
      n = if ltb size chunk_size then size else chunk_size

      none : (size == 0) ≡ true → (i : ℕ) → i < size → ⊥
      none e i lt = ground arith

      fewer : (size == 0) ≡ false → size - n < fuel
      fewer e = ground arith

      both : AreErased cells off n → AreErased cells (off + n) (size - n) → AreErased cells off size
      both h k i lt = elim (dec_lt i n) [
        | yes le ↦ h i le
        | no ge ↦ ap cells (omega arith) ∙ k (i - n) (omega arith)
      ]

      chunk :
          (bytes : List ℕ)
          → (size == 0) ≡ false
          → (later : Action Ctx (Unit {0}))
          → Runs
              (λ c. cell c ≡ cells)
              later
              (λ x c. AreErased cells (off + n) (size - n) × (cell c ≡ cells))
          → (c : Ctx) → bytes ≡ span cells off n
          → cell c ≡ cells
          → (erased : Bool) → erased ≡ bytes_erased (take n bytes)
          → Settled
              (λ x c. AreErased cells off size × (cell c ≡ cells))
              ((if not erased then fail no_space else later) c)
      chunk bytes e later ends c read h false k = tt
      chunk bytes e later ends c read h true k =
          Settled-weaken (λ x c. AreErased cells (off + n) (size - n) × (cell c ≡ cells)) _
            (later c) (ends.at c h)
            (λ x c' l. (
              both
                  (bytes_erased-AreErased cells off n
                    (sym (k ∙ ap (λ xs. bytes_erased (take n xs)) read)))
                  l.0,
              l.1,
            ))
