-- ===== src/Disk/Memory.antt =====
-- `DiskManagerUnlimitedMemory` of src/disk/bustub/disk_manager_memory.cpp. A call holds `mutex_` until it
-- has the lock of its block, and that to its end; so calls on one block act one after the other. Block
-- numbers are natural numbers, and a block that was never written is `none`.
pub mod RoundTrip
pub mod Fixed
mod Tests
use cpp_wtfsc.Base.{
  ℕ, ◌+◌, ◌-◌, Bool, List, [], ◌++◌, Option, none, some, ltb, length, get_elem?, set, replicate,
  if◌then◌else◌,
}

abbrev pub Memory : Type 0 → Type 0
Memory B = List (Option (List B))

module _ {B : Type 0} where
  -- `data_.resize(block_id + 1)` where the vector is shorter.
  unfoldable pub grow : Memory B → ℕ → Memory B
  grow m block_id =
      if ltb block_id (length m) then m else m ++ replicate (block_id + 1 - length m) none

  unfoldable pub write_block : Memory B → ℕ → List B → Memory B
  unfolding grow
  write_block m block_id block = set (grow m block_id) block_id (some block)

  -- What the caller's buffer holds afterwards; it is left as it is where the block does not exist.
  unfoldable pub read_block : Memory B → ℕ → List B → List B
  read_block m block_id buffer = elim (get_elem? m block_id) [
    | none ↦ buffer
    | some cell ↦ elim cell [ none ↦ buffer | some block ↦ block ]
  ]
