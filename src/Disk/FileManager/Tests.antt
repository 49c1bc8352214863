-- ===== src/Disk/FileManager/Tests.antt =====
-- A concrete file of src/disk/vector/disk_manager.cpp; bytes are natural numbers.
use cpp_wtfsc.Base.{
  ℕ, ◌+◌, ◌*◌, ◌^◌, ◌≤◌, ◌<◌, ◌≡◌, ◌≢◌, refl, List, some, none, length, replicate, false, ltb,
  if◌then◌else◌, arith, length-replicate,
}
use cpp_wtfsc.Disk.FileManager.{FileManager, block_size, write_block, read_block}
use cpp_wtfsc.Disk.FileManager.RoundTrip.{block_of, read_block_lem, read-write_block}

abbrev one_block : FileManager ℕ
one_block = record {
  io = record { file = replicate 4096 1; position = 0; failed = false };
  num_writes = 0;
}

abbrev sevens : List ℕ
sevens = replicate 4096 7

-- A block whose offset does not fit in an `int`.
test_overflow : read_block 0 one_block 524288 sevens ≡ none
unfolding read_block
test_overflow = refl

one_block_small : length one_block.io.file < 2 ^ 31
one_block_small = omega (arith, length-replicate {A = ℕ} 4096 1)

read_block_lem_example :
    (m' : FileManager ℕ) × (read_block 0 one_block 0 sevens
      ≡ some (
        (if ltb (length one_block.io.file) (0 * block_size)
            then sevens
            else block_of 0 one_block.io.file 0),
        m',
      ))
    × (m'.io.file ≡ one_block.io.file)
    × (m'.io.failed ≡ false)
    × (m'.num_writes ≡ 0)
read_block_lem_example = read_block_lem 0 one_block 0 sevens refl one_block_small (omega arith)

read-write_block_example :
    let m' = write_block 0 one_block 3 sevens in
    (m'.io.failed ≡ false)
    × (m'.num_writes ≡ 0 + 1)
    × ((n : FileManager ℕ) × (read_block 0 m' 3 (replicate 4096 0) ≡ some (sevens, n))
        × (n.io.failed ≡ false))
    × ((other : ℕ)
        → other ≢ 3
        → (other + 1) * block_size ≤ length one_block.io.file
        → (n n' : FileManager ℕ) × (read_block 0 one_block other (replicate 4096 0)
            ≡ some (block_of 0 one_block.io.file other, n))
          × (read_block 0 m' other (replicate 4096 0)
              ≡ some (block_of 0 one_block.io.file other, n')))
read-write_block_example =
    read-write_block 0 one_block 3 sevens (replicate 4096 0) refl (length-replicate {A = ℕ} 4096 7)
      (omega arith) one_block_small
