-- ===== src/Disk/Leveldb/Posix.antt =====
-- The system calls that src/disk/leveldb/env_posix.cpp makes. The operating system is a parameter: its
-- state, what each call answers, and what the code relies on.
use cpp_wtfsc.Base.{ℕ, ◌≤◌, ◌<◌, ◌≡◌, List, ◌++◌, Option, length, take}

-- What `::write` answers: a number of bytes, or -1 with `errno` `EINTR` or another.
pub data Written : Type 0 where
  wrote : ℕ → Written
  interrupted : Written
  failed : ℕ → Written

pub record Posix (B W : Type 0) : Type 0 where
  pub write : W → List B → Written × W
  -- `::close` and `::fsync`: an `errno` where they fail.
  pub close : W → Option ℕ × W
  pub sync : W → Option ℕ × W
  -- The bytes that the file has received.
  pub written : W → List B
  -- How often a call of `::write` can still be interrupted.
  pub patience : W → ℕ
  pub enoent : ℕ

-- A write of some bytes takes at least one of them and at most all, from the front; an interrupted or
-- failed write takes none; and a file is interrupted only so often.
pub record WritesInOrder {B W : Type 0} (posix : Posix B W) : Type 0 where
  pub takes_front :
      (w : W) (bytes : List B) (k : ℕ) (w' : W)
      → 1 ≤ length bytes
      → posix.write w bytes ≡ (Written.wrote k, w')
      → (1 ≤ k)
        × (k ≤ length bytes)
        × (posix.written w' ≡ posix.written w ++ take k bytes)
        × (posix.patience w' ≤ posix.patience w)
  pub tries_again :
      (w : W) (bytes : List B) (w' : W)
      → posix.write w bytes ≡ (Written.interrupted, w')
      → (posix.written w' ≡ posix.written w) × (posix.patience w' < posix.patience w)
  pub fails :
      (w : W) (bytes : List B) (e : ℕ) (w' : W)
      → posix.write w bytes ≡ (Written.failed e, w')
      → posix.written w' ≡ posix.written w
  pub close_keeps : (w : W) → posix.written ((posix.close w).1) ≡ posix.written w
  pub sync_keeps : (w : W) → posix.written ((posix.sync w).1) ≡ posix.written w
