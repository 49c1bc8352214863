-- ===== src/Disk/FileManager/RoundTrip.antt =====
-- What `ReadBlock` of src/disk/vector/disk_manager.cpp returns after `WriteBlock`.
use cpp_wtfsc.Base.{
  ℕ, ◌+◌, ◌-◌, ◌*◌, ◌%◌, ◌^◌, ◌≤◌, ◌<◌, ◌≡◌, ◌≢◌, refl, true, false, inl, inr, Bool-cases, ◌⊎◌,
  List, ◌++◌, some, ltb, length, take, drop, replicate, if◌then◌else◌, arith, append-nil,
  length-take,
}
use cpp_wtfsc.Base.Spans.{
  patch, length-patch, span-patch, span-patch_other, lists_agree, get_elem?-take, get_elem?_beyond,
}
use cpp_wtfsc.Disk.Stream.{Stream, seekp, read, write, clear}
use cpp_wtfsc.Disk.FileManager.{FileManager, block_size, past_end, write_block, read_block}

past_end_lem : (offset size : ℕ) → size < 2 ^ 31 → past_end offset size ≡ ltb size offset
unfolding past_end
past_end_lem offset size h =
    let e : size % 2 ^ 32 ≡ size = omega arith in
    let t : ltb size (2 ^ 31) ≡ true = ground arith in rw (e, t) refl

take_all : {A : Type 0} (n : ℕ) (xs : List A) → length xs ≡ n → take n xs ≡ xs
take_all n xs h =
    lists_agree _ _ (λ i. ground (arith, get_elem?-take n xs i, get_elem?_beyond xs i))

blocks_apart :
    (p q k : ℕ)
    → p ≢ q
    → k ≡ block_size
    → (p * block_size + block_size ≤ q * block_size) ⊎ (q * block_size + k ≤ p * block_size)
blocks_apart p q k ne e = ground arith

module _ {B : Type 0} (null_byte : B) where
  -- The bytes of a block, with zeros where the file ends.
  abbrev pub block_of : List B → ℕ → List B
  block_of file block_id =
      let got = take block_size (drop (block_id * block_size) file) in
      got ++ replicate (block_size - length got) null_byte

  -- `ReadBlock` of a block whose offset fits in an `int`, on a file shorter than 2 GiB: it leaves the
  -- buffer alone where the block begins past the end of the file, and otherwise fills it with the
  -- bytes of the block, and with zeros where the file ends. The file stays as it is, and the stream
  -- can be used again.
  pub read_block_lem :
      (m : FileManager B) (block_id : ℕ) (buffer : List B)
      → m.io.failed ≡ false
      → length m.io.file < 2 ^ 31
      → block_id * block_size < 2 ^ 31
      → (m' : FileManager B) × (read_block null_byte m block_id buffer
          ≡ some (
            (if ltb (length m.io.file) (block_id * block_size)
                then buffer
                else block_of m.io.file block_id),
            m',
          ))
        × (m'.io.file ≡ m.io.file)
        × (m'.io.failed ≡ false)
        × (m'.num_writes ≡ m.num_writes)
  unfolding read_block seekp read clear
  read_block_lem m block_id buffer ready small fits =
      let offset = block_id * block_size in
      let t : ltb offset (2 ^ 31) ≡ true = ground arith in
      let got = take block_size (drop offset m.io.file) in
      let moved : Stream B = record {
        file = m.io.file;
        position = offset + length got;
        failed = false;
      } in
      elim (Bool-cases (ltb (length m.io.file) offset)) [
        | inl e ↦
            (m, rw (t, past_end_lem offset (length m.io.file) small, e) refl, refl, ready, refl)
        | inr e ↦ (
          record m { io = moved },
          elim (Bool-cases (ltb (length got) block_size)) [
            | inl short ↦
                rw (t, past_end_lem offset (length m.io.file) small, e, ready) (rw short refl)
            | inr whole ↦
                rw (t, past_end_lem offset (length m.io.file) small, e, ready)
                  (let full : block_size - length got ≡ 0 =
                      ground (arith, length-take block_size (drop offset m.io.file)) in
                    rw (whole, full, append-nil) refl)
          ],
          refl,
          refl,
          refl,
        )
      ]

  write_block_lem :
      (m : FileManager B) (block_id : ℕ) (block : List B)
      → m.io.failed ≡ false
      → length block ≡ block_size
      → let m' = write_block null_byte m block_id block in
        (m'.io.file ≡ patch null_byte m.io.file (block_id * block_size) block)
        × (m'.io.failed ≡ false)
        × (m'.num_writes ≡ m.num_writes + 1)
  unfolding write_block seekp write
  write_block_lem m block_id block ready whole =
      rw (ready, take_all block_size block whole) (refl, refl, refl)

  block_of_whole :
      (file : List B) (block_id : ℕ) (block : List B)
      → take block_size (drop (block_id * block_size) file) ≡ block
      → length block ≡ block_size
      → block_of file block_id ≡ block
  block_of_whole file block_id block e whole =
      let none_left : block_size - length block ≡ 0 = omega arith in
      rw (e, none_left, append-nil) refl

  -- After `WriteBlock` of a whole block, on a stream that can be used: `ReadBlock` of that block returns
  -- it, and `ReadBlock` of another block that lay in the file returns what it would have returned
  -- before. This is for blocks whose offsets fit in an `int`, and a file that is then shorter than 2
  -- GiB. One more write is counted.
  pub read-write_block :
      (m : FileManager B) (block_id : ℕ) (block buffer : List B)
      → m.io.failed ≡ false
      → length block ≡ block_size
      → (block_id + 1) * block_size < 2 ^ 31
      → length m.io.file < 2 ^ 31
      → let m' = write_block null_byte m block_id block in
        (m'.io.failed ≡ false)
        × (m'.num_writes ≡ m.num_writes + 1)
        × ((n : FileManager B) × (read_block null_byte m' block_id buffer ≡ some (block, n))
            × (n.io.failed ≡ false))
        × ((other : ℕ)
            → other ≢ block_id
            → (other + 1) * block_size ≤ length m.io.file
            → (n n' : FileManager B) × (read_block null_byte m other buffer
                ≡ some (block_of m.io.file other, n))
              × (read_block null_byte m' other buffer ≡ some (block_of m.io.file other, n')))
  read-write_block m block_id block buffer ready whole fits small =
      let m' = write_block null_byte m block_id block in
      let offset = block_id * block_size in
      let (file', ready', count) = write_block_lem m block_id block ready whole in
      let long = length-patch null_byte m.io.file offset block in
      let small' : length m'.io.file < 2 ^ 31 = rw file' (ground (arith, long)) in
      let reached : ltb (length m'.io.file) offset ≡ false = rw file' (ground (arith, long)) in
      let (n, e, kept, usable, _) = read_block_lem m' block_id buffer ready' small' (omega arith) in
      let back : block_of m'.io.file block_id ≡ block = rw file' (
        block_of_whole _ block_id block
          (span-patch null_byte m.io.file offset block block_size whole) whole) in
      (
        ready',
        count,
        (n, rw (reached, back) at e, usable),
        λ other ne inside.
            let (k, ek, _, _, _) = read_block_lem m other buffer ready small (omega arith) in
            let (k', ek', _, _, _) = read_block_lem m' other buffer ready' small' (omega arith) in
            let r : ltb (length m.io.file) (other * block_size) ≡ false = ground arith in
            let r' : ltb (length m'.io.file) (other * block_size) ≡ false =
              rw file' (ground (arith, long)) in
            let same : block_of m'.io.file other ≡ block_of m.io.file other =
              rw
                (
                  file',
                  span-patch_other null_byte m.io.file offset block (other * block_size) block_size
                      (omega arith) (blocks_apart other block_id (length block) ne whole),
                )
                refl in
            (k, k', rw r at ek, rw (r', same) at ek'),
      )
