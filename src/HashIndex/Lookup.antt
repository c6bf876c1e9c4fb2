-- ===== src/HashIndex/Lookup.antt =====
-- What a lookup answers, in terms of the entries that the table holds wherever they stand.
use fastffs.Prelude.{ℕ, ◌<◌, ◌≡◌, ◌≢◌, refl, ap, ◌∙◌, sym, arith, List, length, true, false}
use native.Mathlib.Decide.{ℕ_discrete, dec_lt}
use fastffs.Status.{ok}
use fastffs.HashIndex.{Bucket, bucket_at, bucket_for, head_of, head_for_slot}
use fastffs.HashIndex.Cycle.{dist, dist-lt, dist_inj, bucket_for-lt}
use fastffs.HashIndex.Find.{IsValid, Passed, there, free, full, slot_at, find_slot_bucket-Found}

abbrev pub head_at : List Bucket → ℕ → ℕ
head_at table p = (bucket_at table p).head

-- The table maps the slot to the head.
abbrev pub Holds : List Bucket → ℕ → ℕ → Type 0
Holds table slot head =
    (p : ℕ) × (p < length table) × (slot_at table p ≡ slot) × (head_at table p ≡ head)

pub data Looked (table : List Bucket) (slot : ℕ) : Type 0 where
  held :
      (p : ℕ)
      → p < length table
      → slot_at table p ≡ slot
      → head_for_slot table slot ≡ ok (head_at table p, true)
      → Looked table slot
  absent :
      ((q : ℕ) → q < length table → slot_at table q ≢ slot)
      → head_for_slot table slot ≡ ok (0, false)
      → Looked table slot

module _ {table : List Bucket} {k : ℕ} (valid : IsValid table k) (slot : ℕ)
    (proper : slot ≢ 0) where
  open valid use {small, power, reach, unique}

  -- A free bucket on the way of a slot shows that the slot is not in the table.
  pub free-absent :
      (p : ℕ)
      → p < length table
      → slot_at table p ≡ 0
      → Passed table slot (dist (length table) (bucket_for (length table) slot) p)
      → (q : ℕ) → q < length table
      → slot_at table q ≢ slot
  free-absent p hp e before q hq same = elim (dec_lt (way q) (way p)) [
    | yes lt ↦ (before q hq lt).1 same
    | no ge ↦ elim (ℕ_discrete p q) [
      | yes pq ↦ proper (sym same ∙ ap (slot_at table) (sym pq) ∙ e)
      | no apart ↦ reach q p hq hp (λ z. proper (sym same ∙ z)) (rw same (farther ge apart)) e
    ]
  ]
    where
      home : ℕ
      home = bucket_for (length table) slot

      way : ℕ → ℕ
      way = dist (length table) home

      farther : ¬ (way q < way p) → p ≢ q → way p < way q
      farther ge apart = omega (
        arith,
        λ (s : way p ≡ way q). apart (
            dist_inj (length table) home p q (bucket_for-lt (length table) k power small slot) hp hq
              s),
      )

  pub lookup-Looked : Looked table slot
  unfolding head_for_slot head_of
  lookup-Looked = elim (find_slot_bucket-Found table slot k small power proper) [
    | there p h e r ↦ held p h e (rw r refl)
    | free p h e before r ↦ absent (free-absent p h e before) (rw r refl)
    | full all r ↦
        absent
          (λ q hq.
            (all q hq (
              dist-lt (length table) (bucket_for (length table) slot) q
                (bucket_for-lt (length table) k power small slot) hq)).1)
          (rw r refl)
  ]

  -- The answer is the entry's head where the table holds the slot.
  pub head_for_slot-Holds :
      (head : ℕ) → Holds table slot head → head_for_slot table slot ≡ ok (head, true)
  head_for_slot-Holds head (p, hp, e, e') = elim lookup-Looked [
    | held q hq f r ↦
        r
        ∙ ap (λ x. ok (x, true))
            (ap (head_at table) (unique q p hq hp (λ z. proper (sym f ∙ z)) (f ∙ sym e)) ∙ e')
    | absent none_there r ↦ absurd (none_there p hp e)
  ]

-- Two tables that hold the same heads for a slot answer alike.
pub same_lookup :
    {t t' : List Bucket} {k k' : ℕ}
    → IsValid t k
    → IsValid t' k'
    → (slot : ℕ) → slot ≢ 0
    → ((head : ℕ) → Holds t slot head → Holds t' slot head)
    → ((head : ℕ) → Holds t' slot head → Holds t slot head)
    → head_for_slot t slot ≡ head_for_slot t' slot
same_lookup {t} {t'} v v' slot proper to from = elim (lookup-Looked v slot proper) [
  | held p hp e r ↦
      r ∙ sym (head_for_slot-Holds v' slot proper (head_at t p) (to (head_at t p) (p, hp, e, refl)))
  | absent none_there r ↦ elim (lookup-Looked v' slot proper) [
    | held q hq f r' ↦ gone none_there (from (head_at t' q) (q, hq, f, refl))
    | absent none_there' r' ↦ r ∙ sym r'
  ]
]
  where
    gone :
        {head : ℕ}
        → ((q : ℕ) → q < length t → slot_at t q ≢ slot)
        → Holds t slot head
        → head_for_slot t slot ≡ head_for_slot t' slot
    gone none_there (p, hp, e, e') = absurd (none_there p hp e)
