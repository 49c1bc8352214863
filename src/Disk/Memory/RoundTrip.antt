-- ===== src/Disk/Memory/RoundTrip.antt =====
-- Reading what was written, for src/disk/bustub/disk_manager_memory.cpp.
use cpp_wtfsc.Base.{
  ℕ, zero, suc, ◌+◌, ◌-◌, ◌<◌, ◌≡◌, inl, inr, refl, sym, ap, ◌∙◌, false, List, [], ◌∷◌, ◌++◌,
  Option, none, some, ltb, ◌==◌, length, set, replicate, if◌then◌else◌, arith, Bool-cases,
  length-append, length-replicate,
}
use cpp_wtfsc.Disk.Memory.{Memory, grow, write_block, read_block}

module _ {B : Type 0} where
  grow_room : (m : Memory B) (i : ℕ) → i < length (grow m i)
  unfolding grow
  grow_room m i = elim (Bool-cases (ltb i (length m))) [
    | inl e ↦ rw e (ground arith)
    | inr e ↦ rw e (
        let a = length-append m (replicate (i + 1 - length m) none) in
        let r = length-replicate {A = Option (List B)} (i + 1 - length m) none in ground arith)
  ]

  -- More cells without a block do not change what is read.
  read-append :
      (m : Memory B) (n j : ℕ) (buffer : List B)
      → read_block (m ++ replicate n none) j buffer ≡ read_block m j buffer
  unfolding read_block
  read-append [] n j buffer = blank n j
    where
      blank : (n j : ℕ) → read_block (replicate n none) j buffer ≡ buffer
      blank zero j = refl
      blank (suc n) zero = refl
      blank (suc n) (suc j) = blank n j
  read-append (c ∷ m) n zero buffer = refl
  read-append (c ∷ m) n (suc j) buffer = read-append m n j buffer

  read-grow :
      (m : Memory B) (i j : ℕ) (buffer : List B)
      → read_block (grow m i) j buffer ≡ read_block m j buffer
  unfolding grow
  read-grow m i j buffer = elim (Bool-cases (ltb i (length m))) [
    | inl e ↦ rw e refl
    | inr e ↦ rw e (read-append m (i + 1 - length m) j buffer)
  ]

  read-set :
      (m : Memory B) (i j : ℕ) (block buffer : List B)
      → i < length m
      → read_block (set m i (some block)) j buffer
        ≡ (if i == j then block else read_block m j buffer)
  unfolding read_block
  read-set [] i j block buffer h = absurd (omega arith)
  read-set (c ∷ m) zero zero block buffer h = refl
  read-set (c ∷ m) zero (suc j) block buffer h =
      let apart : (0 == suc j) ≡ false = ground arith in rw apart refl
  read-set (c ∷ m) (suc i) zero block buffer h =
      let apart : (suc i == 0) ≡ false = ground arith in rw apart refl
  read-set (c ∷ m) (suc i) (suc j) block buffer h =
      let same : (suc i == suc j) ≡ (i == j) = ground arith in
      read-set m i j block buffer (omega arith)
      ∙ ap (λ b. if b then block else read_block m j buffer) (sym same)

  -- A read returns the block that was last written under its number, and leaves the caller's buffer as
  -- it was where none was; a write to one number changes no other.
  pub read-write :
      (m : Memory B) (i j : ℕ) (block buffer : List B)
      → (read_block (write_block m i block) j buffer
          ≡ (if i == j then block else read_block m j buffer))
        × (read_block {B = B} [] j buffer ≡ buffer)
  unfolding write_block read_block
  read-write m i j block buffer = (
    read-set (grow m i) i j block buffer (grow_room m i)
        ∙ ap (λ b. if i == j then block else b) (read-grow m i j buffer),
    refl,
  )
