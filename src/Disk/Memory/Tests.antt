-- ===== src/Disk/Memory/Tests.antt =====
-- A memory of src/disk/bustub/disk_manager_memory.cpp with one block.
use cpp_wtfsc.Base.{ℕ, [], ◌∷◌, some}
use cpp_wtfsc.Disk.Memory.{Memory}

abbrev one_block : Memory ℕ
one_block = some (1 ∷ 2 ∷ []) ∷ []
