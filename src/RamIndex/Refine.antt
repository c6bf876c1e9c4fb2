-- ===== src/RamIndex/Refine.antt =====
-- The table of the default cache and the array of all heads answer alike.
use fastffs.Prelude.{
  ℕ, ◌<◌, ◌≡◌, ◌≢◌, inl, inr, refl, ap, ◌∙◌, sym, arith, List, length, set, get_or-set_self,
  get_or-set_ne, some, Bool, true, false, Bool-cases, ==_refl, ==_ne, length-set, ◌==◌, ◌!=◌,
  if◌then◌else◌,
}
use native.Mathlib.Decide.{ℕ_discrete}
use fastffs.Status.{ok}
use fastffs.HashIndex.{Bucket, set_head, head_for_slot}
use fastffs.HashIndex.Find.{IsValid, slot_at}
use fastffs.HashIndex.Insert.{insert-lookup}
use fastffs.HashIndex.Remove.{remove-lookup}
use fastffs.RamIndex.{insert_head, remove_head, put_head, find_head}

-- The array stands for the table: a lookup of a proper slot answers the same.
abbrev pub Agree : List Bucket → List ℕ → Type 0
Agree table heads =
    (slot : ℕ)
    → slot ≢ 0
    → slot < length heads
    → head_for_slot table slot ≡ ok (find_head heads slot)

put_head-set : (heads : List ℕ) (slot head : ℕ) → put_head heads slot head ≡ set heads slot head
unfolding put_head remove_head insert_head
put_head-set heads slot head = elim (Bool-cases (head == 0)) [
  | inl e ↦ rw e (ap (set heads slot) (none head e))
  | inr e ↦ rw e refl
]
  where
    none : (head : ℕ) → (head == 0) ≡ true → 0 ≡ head
    none head e = ground arith

-- What the array answers after a write.
find_head-put_head :
    (heads : List ℕ) (slot head other : ℕ)
    → slot < length heads
    → find_head (put_head heads slot head) other
      ≡ (if other == slot then (head, head != 0) else find_head heads other)
unfolding find_head
find_head-put_head heads slot head other lt =
    rw (put_head-set heads slot head) (elim (ℕ_discrete other slot) [
      | yes e ↦ rw (e, ==_refl slot, get_or-set_self heads slot head 0 lt) refl
      | no ne ↦
          rw (==_ne other slot ne, get_or-set_ne heads slot other head 0 (λ e. ne (sym e))) refl
    ])

module _ {table : List Bucket} {k : ℕ} (valid : IsValid table k) (heads : List ℕ)
    (agree : Agree table heads) (slot : ℕ) (proper : slot ≢ 0) (inside : slot < length heads) where
  -- A table in which one slot has changed as in the array.
  changed-Agree :
      (head : ℕ) (table' : List Bucket)
      → ((other : ℕ)
          → other ≢ 0
          → head_for_slot table' other
            ≡ (if other == slot then ok (head, head != 0) else head_for_slot table other))
      → Agree table' (put_head heads slot head)
  changed-Agree head table' lookup other some_slot lt =
      lookup other some_slot
      ∙ rest (other == slot)
      ∙ ap ok (sym (find_head-put_head heads slot head other inside))
    where
      rest :
          (same : Bool)
          → (if same then ok (head, head != 0) else head_for_slot table other)
            ≡ ok (if same then (head, head != 0) else find_head heads other)
      rest true = refl
      rest false = agree other some_slot (rw (← same_length) lt)
        where
          same_length : length (put_head heads slot head) ≡ length heads
          same_length = ap length (put_head-set heads slot head) ∙ length-set heads slot head

  -- In a valid table with an empty bucket, which answers every lookup of a proper slot as an array
  -- of heads does, setting or removing the head of a proper slot ends and succeeds, the table stays
  -- valid, and again it answers every lookup as the array does in which the head was written.
  pub set_head-put_head :
      (e : ℕ) (head : ℕ)
      → e < length table
      → slot_at table e ≡ 0
      → (table' : List Bucket) × (set_head table slot head ≡ some (ok table'))
        × IsValid table' k
        × Agree table' (put_head heads slot head)
  unfolding set_head
  set_head-put_head e head he empty = elim (Bool-cases (head == 0)) [
    | inl none ↦
        let (table', r, valid', lookup) = remove-lookup valid e he empty slot proper in
        (
          table',
          rw (none, r) refl,
          valid',
          changed-Agree head table' (λ other some_slot.
              lookup other some_slot
              ∙ ap (λ x. if other == slot then ok x else head_for_slot table other) (gone none)),
        )
    | inr some_head ↦ elim (insert-lookup valid slot head proper) [
      | inl (full, all) ↦ absurd ((all e he).0 empty)
      | inr (table', r, valid', lookup) ↦ (
        table',
        rw (some_head, r) refl,
        valid',
        changed-Agree head table' (λ other some_slot.
            lookup other some_slot
            ∙ ap (λ x. if other == slot then ok (head, x) else head_for_slot table other)
                (kept some_head)),
      )
    ]
  ]
    where
      gone : (head == 0) ≡ true → ◌≡◌ {A = ℕ × Bool} (0, false) (head, head != 0)
      gone h = ground arith

      kept : (head == 0) ≡ false → true ≡ (head != 0)
      kept h = ground arith
