-- ===== src/Lifecycle/Torn.antt =====
-- Programming a state byte can only clear bits, and may be cut off after any of them.
use fastffs.Prelude.{
  ℕ, zero, suc, ◌<◌, bit_and, ◌≡◌, refl, arith, Bool, true, false, ◌==◌, ◌!=◌, ◌↔◌, ◌&&◌, not,
  if◌then◌else◌,
}
use fastffs.Lifecycle.{
  lifecycle_valid_pair, lifecycle_tombstone_pair, lifecycle_is_live, lifecycle_valid,
  lifecycle_tombstoned, lifecycle_full,
}

-- The state byte marks a live sector or record.
unfoldable pub live_state : ℕ → Bool
unfolding lifecycle_is_live lifecycle_valid_pair lifecycle_tombstone_pair
live_state s = lifecycle_is_live (lifecycle_valid_pair s) (lifecycle_tombstone_pair s)

-- `t` lies between `from` and what programming `value` onto it leaves: some of the bits that are
-- to be cleared are cleared, and no other.
abbrev pub IsTorn : ℕ → ℕ → ℕ → Type 0
IsTorn from value t = (bit_and from t ≡ t) × (bit_and t (bit_and from value) ≡ bit_and from value)

torn : ℕ → ℕ → ℕ → Bool
torn from value t = bit_and from t == t && bit_and t (bit_and from value) == bit_and from value

torn_complete : (from value t : ℕ) → IsTorn from value t → torn from value t ≡ true
unfolding torn
torn_complete from value t h = ground arith

-- The test holds of every number under the bound.
table_of : (ℕ → Bool) → ℕ → Bool
table_of test zero = true
table_of test (suc bound) = if test bound then table_of test bound else false

table_of_entry :
    (test : ℕ → Bool) (bound entry : ℕ)
    → entry < bound
    → table_of test bound ≡ true
    → test entry ≡ true
unfolding table_of
table_of_entry test zero entry lt table = absurd (omega arith)
table_of_entry test (suc bound) entry lt table = ground (arith, table_of_entry test bound entry)

-- In every state between, the byte is live exactly if it is `only`.
live_check : ℕ → ℕ → ℕ → ℕ → Bool
unfolding torn live_state
live_check from value only t =
    if torn from value t then if live_state t then t == only else t != only else true

-- In every state between, the byte is live.
stays_check : ℕ → ℕ → ℕ → Bool
unfolding torn live_state
stays_check from value t = if torn from value t then live_state t else true

live_in_between :
    (from value only t : ℕ)
    → table_of (live_check from value only) 256 ≡ true
    → t < 256
    → IsTorn from value t
    → (live_state t ≡ true) ↔ (t ≡ only)
live_in_between from value only t table lt h =
    ground (arith, torn_complete from value t h, unfold_check)
  where
    unfold_check :
        (if torn from value t then if live_state t then t == only else t != only else true) ≡ true
    unfold_check = unfold live_check in table_of_entry (live_check from value only) 256 t lt table

stays_live :
    (from value t : ℕ)
    → table_of (stays_check from value) 256 ≡ true
    → t < 256
    → IsTorn from value t
    → live_state t ≡ true
stays_live from value t table lt h = ground (arith, torn_complete from value t h, unfold_check)
  where
    unfold_check : (if torn from value t then live_state t else true) ≡ true
    unfold_check = unfold stays_check in table_of_entry (stays_check from value) 256 t lt table

commit_table : table_of (live_check 0xff lifecycle_valid lifecycle_valid) 256 ≡ true
unfolding table_of live_check
commit_table = refl

tombstone_table :
    table_of (live_check lifecycle_valid lifecycle_tombstoned lifecycle_valid) 256 ≡ true
unfolding table_of live_check
tombstone_table = refl

full_tombstone_table :
    table_of (live_check lifecycle_full lifecycle_tombstoned lifecycle_full) 256 ≡ true
unfolding table_of live_check
full_tombstone_table = refl

full_table : table_of (stays_check lifecycle_valid lifecycle_full) 256 ≡ true
unfolding table_of stays_check
full_table = refl

-- The programs that change whether a record is live: the commit of a new one, and the tombstones
-- of a live and of a full one. The last index is the state that is live.
pub data Switch : ℕ → ℕ → ℕ → Type 0 where
  commit : Switch 0xff lifecycle_valid lifecycle_valid
  delete : Switch lifecycle_valid lifecycle_tombstoned lifecycle_valid
  delete_full : Switch lifecycle_full lifecycle_tombstoned lifecycle_full

-- However far a commit or a tombstone of a state byte has come when it is cut off, the byte is
-- live exactly if it has one value: the committed one for a new record, and the one before any of
-- the tombstone for a live or a full one.
pub lifecycle_torn :
    {from value live : ℕ}
    → Switch from value live
    → (t : ℕ) → t < 256
    → IsTorn from value t
    → (live_state t ≡ true) ↔ (t ≡ live)
lifecycle_torn commit t lt h =
    live_in_between 0xff lifecycle_valid lifecycle_valid t commit_table lt h
lifecycle_torn delete t lt h =
    live_in_between lifecycle_valid lifecycle_tombstoned lifecycle_valid t tombstone_table lt h
lifecycle_torn delete_full t lt h =
    live_in_between lifecycle_full lifecycle_tombstoned lifecycle_full t full_tombstone_table lt h

-- The mark of a full sector leaves it live, however far its programming has come.
pub lifecycle_torn_full :
    (t : ℕ) → t < 256 → IsTorn lifecycle_valid lifecycle_full t → live_state t ≡ true
lifecycle_torn_full t lt = stays_live lifecycle_valid lifecycle_full t full_table lt

dead_check : ℕ → Bool
unfolding live_state
dead_check x = not (live_state (bit_and x lifecycle_tombstoned))

dead_table : table_of dead_check 256 ≡ true
unfolding table_of dead_check
dead_table = refl

-- With the tombstone programmed onto it no byte is live.
pub tombstoned_dead : (x : ℕ) → x < 256 → live_state (bit_and x lifecycle_tombstoned) ≡ false
tombstoned_dead x lt = ground (arith, dead)
  where
    dead : not (live_state (bit_and x lifecycle_tombstoned)) ≡ true
    dead = unfold dead_check in table_of_entry dead_check 256 x lt dead_table
