-- ===== src/Slot/Probe.antt =====
-- The probe sequence of a name: every slot on it is one that a record may carry, and it does not
-- come back to a slot within the distance that the resolvers probe.
use fastffs.Prelude.{ℕ, zero, suc, ◌+◌, ◌-◌, ◌%◌, ◌≤◌, ◌<◌, ◌≡◌, ◌≢◌, arith, List}
use fastffs.Slot.{hash16, normalize_slot_base, next_slot}

-- 0 marks an empty bucket and a clobbered record, 0xffff is erased flash.
abbrev pub IsSlot : ℕ → Type 0
IsSlot s = (1 ≤ s) × (s < 0xffff)

-- The candidate after `d` rounds of the loop in `fffs_index_resolve`.
abbrev pub candidate : ℕ → ℕ → ℕ
candidate slot zero = slot
candidate slot (suc d) = candidate (next_slot slot) d

pub first-IsSlot : (name : List ℕ) → IsSlot (normalize_slot_base (hash16 name))
unfolding normalize_slot_base hash16
first-IsSlot name = ground arith

pub next_slot-IsSlot : (s : ℕ) → IsSlot s → IsSlot (next_slot s)
unfolding next_slot
next_slot-IsSlot s h = ground arith

next_slot-mod : (s : ℕ) → IsSlot s → next_slot s ≡ (s - 1 + 1) % 65534 + 1
unfolding next_slot
next_slot-mod s h = ground arith

candidate-mod : (d s : ℕ) → IsSlot s → candidate s d ≡ (s - 1 + d) % 65534 + 1
candidate-mod zero s h = omega arith
candidate-mod (suc d) s h =
    omega (arith, candidate-mod d (next_slot s) (next_slot-IsSlot s h), next_slot-mod s h)

-- Every candidate of a name is a valid slot, and two candidates fewer than 65534 rounds apart are
-- different slots.
pub candidate_distinct :
    (name : List ℕ) (d e : ℕ)
    → d < e
    → e < 65534
    → let first = normalize_slot_base (hash16 name) in
      IsSlot (candidate first d) × (candidate first d ≢ candidate first e)
candidate_distinct name d e lt far =
    let first = normalize_slot_base (hash16 name) in
    omega (
      arith,
      candidate-mod d first (first-IsSlot name),
      candidate-mod e first (first-IsSlot name),
      first-IsSlot name,
    )
