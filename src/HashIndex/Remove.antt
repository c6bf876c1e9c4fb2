-- ===== src/HashIndex/Remove.antt =====
-- `fffs_index_remove` keeps the invariant, and takes one slot out of the mapping.
use fastffs.Prelude.{
  ℕ, zero, suc, ◌-◌, ◌<◌, ◌≡◌, ◌≢◌, refl, ap, ◌∙◌, sym, arith, List, length, set, length-set,
  Option, some, false, ltb, if◌then◌else◌, ◌==◌, ==_ne, ==_refl, lt→ltb, ltb_ge,
}
use native.Mathlib.Decide.{ℕ_discrete, dec_lt}
use fastffs.Status.{ok}
use fastffs.HashIndex.{
  Bucket, bucket_at, empty_bucket, bucket_for, probe_distance, shift_back, remove_bucket_at,
  remove_found, remove, head_for_slot,
}
use fastffs.HashIndex.Cycle.{
  dist, dist-lt, dist_self, dist-from_after, after, after-lt, bucket_for-lt, next_bucket-after,
  probe_distance-dist,
}
use fastffs.HashIndex.Find.{IsValid, there, free, full, slot_at, find_slot_bucket-Found}
use fastffs.HashIndex.Lookup.{Holds, head_at, held, absent, lookup-Looked, free-absent, same_lookup}
use fastffs.HashIndex.Shift.{
  Shifting, HoldsBeside, way, cleared-IsValid, cleared-Holds, Holds-cleared,
}
use fastffs.HashIndex.Move.{
  before_after, stayed, moved_slot, moved-Shifting, moved-Holds, Holds-moved,
}

-- The loop ends with a valid table that holds what stood beside the hole.
abbrev Ended : List Bucket → ℕ → ℕ → Option (List Bucket) → Type 0
Ended table k hole result =
    (table' : List Bucket) × (result ≡ some table')
    × IsValid table' k
    × ((slot head : ℕ) → slot ≢ 0 → Holds table' slot head → HoldsBeside table hole slot head)
    × ((slot head : ℕ) → slot ≢ 0 → HoldsBeside table hole slot head → Holds table' slot head)

closer_test :
    {table : List Bucket} {k hole idx : ℕ}
    → Shifting table k hole idx
    → ltb
        (probe_distance (length table - 1) (bucket_for (length table) (slot_at table idx)) hole)
        (probe_distance (length table - 1) (bucket_for (length table) (slot_at table idx)) idx)
      ≡ ltb (way table idx hole) (way table idx idx)
closer_test {table} {k} {hole} {idx} s =
    rw
      (
        probe_distance-dist (length table) k s.power s.small
            (bucket_for (length table) (slot_at table idx)) hole home_in s.hole_in,
        probe_distance-dist (length table) k s.power s.small
            (bucket_for (length table) (slot_at table idx)) idx home_in s.idx_in,
      )
      refl
  where
    home_in : bucket_for (length table) (slot_at table idx) < length table
    home_in = bucket_for-lt (length table) k s.power s.small (slot_at table idx)

shift_back-Ended :
    (fuel : ℕ)
    → {table : List Bucket} {k hole idx : ℕ} → Shifting table k hole idx
    → (e : ℕ) → e < length table
    → slot_at table e ≡ 0
    → dist (length table) idx e < fuel
    → Ended table k hole (shift_back fuel table hole idx)
unfolding shift_back
shift_back-Ended zero s e he empty lt = absurd (omega arith)
shift_back-Ended (suc fuel) {table} {k} {hole} {idx} s e he empty lt =
    elim (ℕ_discrete (slot_at table idx) 0) [
      | yes stop ↦ (
        set table hole empty_bucket,
        rw stop refl,
        cleared-IsValid s stop,
        cleared-Holds s stop,
        (λ slot head proper. Holds-cleared s stop slot head),
      )
      | no taken ↦ elim (dec_lt (way table idx hole) (way table idx idx)) [
        | yes nearer ↦
            rw
              (
                ==_ne (slot_at table idx) 0 taken,
                closer_test s,
                lt→ltb (way table idx hole) (way table idx idx) nearer,
                next_bucket-after (length table) k s.power s.small idx s.idx_in,
              )
              (through taken nearer (
                shift_back-Ended fuel (moved-Shifting s taken nearer) e
                  (rw (length-set table hole (bucket_at table idx)) he)
                  (moved_slot s taken nearer e (λ f. s.filled (ap (slot_at table) (sym f) ∙ empty))
                    ∙ empty)
                  (rw (length-set table hole (bucket_at table idx)) (left taken))))
        | no far ↦
            rw
              (
                ==_ne (slot_at table idx) 0 taken,
                closer_test s,
                ltb_ge (way table idx hole) (way table idx idx) (omega arith),
                next_bucket-after (length table) k s.power s.small idx s.idx_in,
              )
              (shift_back-Ended fuel (stayed s taken (omega arith)) e he empty (left taken))
      ]
    ]
  where
    left : slot_at table idx ≢ 0 → dist (length table) (after (length table) idx) e < fuel
    left taken = omega (
      arith,
      dist-from_after (length table) idx e s.idx_in he (λ f. taken (ap (slot_at table) f ∙ empty)),
    )

    through :
        {result : Option (List Bucket)}
        → (taken : slot_at table idx ≢ 0) → (nearer : way table idx hole < way table idx idx)
        → Ended (set table hole (bucket_at table idx)) k idx result
        → Ended table k hole result
    through taken nearer (table', r, valid, from, to) = (
      table',
      r,
      valid,
      (λ slot head proper h. moved-Holds s taken nearer slot head (from slot head proper h)),
      (λ slot head proper h. to slot head proper (Holds-moved s taken nearer slot head h)),
    )

module _ {table : List Bucket} {k : ℕ} (valid : IsValid table k) (slot : ℕ)
    (proper : slot ≢ 0) where
  open valid use {small, power, reach, unique}

  -- Before the first round nothing is scanned.
  start-Shifting :
      (p : ℕ) → p < length table → slot_at table p ≢ 0 → Shifting table k p (after (length table) p)
  start-Shifting p hp entry = record {
    small = small;
    power = power;
    hole_in = hp;
    idx_in = after-lt (length table) p p hp hp;
    filled = entry;
    reach = reach;
    unique = λ q r hq hr q_ne r_ne taken same. unique q r hq hr taken same;
    scanned = λ q hq apart taken lt. absurd (
        omega (
          arith,
          before_after (length table) p p q hp hp hq lt apart,
          dist_self (length table) p p hp hp,
        ));
  }

  -- What is left of the mapping without the slot.
  abbrev Without : List Bucket → Type 0
  Without table' =
      IsValid table' k
      × ((other : ℕ)
          → other ≢ 0
          → head_for_slot table' other
            ≡ (if other == slot then ok (0, false) else head_for_slot table other))

  unchanged : ((q : ℕ) → q < length table → slot_at table q ≢ slot) → Without table
  unchanged nowhere = (
    valid,
    λ other some_slot. elim (ℕ_discrete other slot) [
      | yes e ↦ rw (e, ==_refl slot) answer
      | no ne ↦ rw (==_ne other slot ne) refl
    ],
  )
    where
      answer : head_for_slot table slot ≡ ok (0, false)
      answer = elim (lookup-Looked valid slot proper) [
        | held q hq e r ↦ absurd (nowhere q hq e)
        | absent none_there r ↦ r
      ]

  Ended-Without :
      (p : ℕ)
      → p < length table
      → slot_at table p ≡ slot
      → {result : Option (List Bucket)} → Ended table k p result
      → (table' : List Bucket) × (result ≡ some table') × Without table'
  Ended-Without p hp here (table', r, valid', from, to) = (
    table',
    r,
    (
      valid',
      λ other some_slot. elim (ℕ_discrete other slot) [
        | yes e ↦ rw (e, ==_refl slot) gone
        | no ne ↦ rw (==_ne other slot ne) (
            same_lookup valid' valid other some_slot
              (λ head h. beside other head (from other head some_slot h))
              (λ head h. to other head some_slot (apart other head ne h)))
      ],
    ),
  )
    where
      nowhere : (head : ℕ) → ¬ HoldsBeside table p slot head
      nowhere head (q, hq, ne, e, e') =
          ne (unique q p hq hp (λ z. proper (sym e ∙ z)) (e ∙ sym here))

      gone : head_for_slot table' slot ≡ ok (0, false)
      gone = elim (lookup-Looked valid' slot proper) [
        | held q hq e r' ↦
            absurd
              (nowhere (head_at table' q) (from slot (head_at table' q) proper (q, hq, e, refl)))
        | absent none_there r' ↦ r'
      ]

      beside : (other head : ℕ) → HoldsBeside table p other head → Holds table other head
      beside other head (q, hq, ne, e, e') = (q, hq, e, e')

      apart :
          (other head : ℕ) → other ≢ slot → Holds table other head → HoldsBeside table p other head
      apart other head ne (q, hq, e, e') =
          (q, hq, (λ f. ne (sym e ∙ ap (slot_at table) f ∙ here)), e, e')

-- In a valid table with an empty bucket the removal of a slot other than 0 ends, within as many
-- rounds as there are buckets, and succeeds; the table stays valid, the slot is no longer found,
-- and every other slot is looked up as before.
pub remove-lookup :
    {table : List Bucket} {k : ℕ}
    → IsValid table k
    → (e : ℕ) → e < length table
    → slot_at table e ≡ 0
    → (slot : ℕ) → slot ≢ 0
    → (table' : List Bucket) × (remove table slot ≡ some (ok table'))
      × IsValid table' k
      × ((other : ℕ)
          → other ≢ 0
          → head_for_slot table' other
            ≡ (if other == slot then ok (0, false) else head_for_slot table other))
unfolding remove remove_bucket_at remove_found
remove-lookup {table} {k} valid e he empty slot proper =
    elim (find_slot_bucket-Found table slot k valid.small valid.power proper) [
      | there p hp here r ↦
          let (table', ended, left) = Ended-Without valid slot proper p hp here (
            shift_back-Ended (length table)
              (start-Shifting valid slot proper p hp (λ z. proper (sym here ∙ z))) e he empty
              (dist-lt (length table) (after (length table) p) e (after-lt (length table) p p hp hp)
                he)) in
          (
            table',
            rw
                (
                  r,
                  remove_found,
                  next_bucket-after (length table) k valid.power valid.small p hp,
                  ended,
                )
                refl,
            left.0,
            left.1,
          )
      | free p hp none_there before r ↦
          let left : Without valid slot proper table =
            unchanged valid slot proper (free-absent valid slot proper p hp none_there before) in
          (table, rw (r, remove_found) refl, left.0, left.1)
      | full all r ↦ absurd (
          (all e he (
              dist-lt (length table) (bucket_for (length table) slot) e
                (bucket_for-lt (length table) k valid.power valid.small slot) he)).0
            empty)
    ]
