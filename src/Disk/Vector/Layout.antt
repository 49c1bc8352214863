-- ===== src/Disk/Vector/Layout.antt =====
-- How a value of the template argument of the vectors in src/disk/vector lies in memory: the code
-- copies its bytes.
use cpp_wtfsc.Base.{ℕ, ◌≤◌, ◌≡◌, List, length}

pub record Layout (B T : Type 0) : Type 0 where
  -- `sizeof(T)`
  pub size : ℕ
  pub to_bytes : T → List B
  pub from_bytes : List B → T
  pub size_pos : 1 ≤ size
  pub length-to_bytes : (v : T) → length (to_bytes v) ≡ size
  pub from_bytes-to_bytes : (v : T) → from_bytes (to_bytes v) ≡ v
