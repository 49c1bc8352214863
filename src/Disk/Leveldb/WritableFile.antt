-- ===== src/Disk/Leveldb/WritableFile.antt =====
-- `PosixWritableFile` of src/disk/leveldb/env_posix.cpp. `buf` is the part of `buf_` below `pos_`. The
-- loop of `WriteUnbuffered` runs on fuel; `none` says that it was not enough.
pub mod Writes
pub mod Stream
pub mod Session
mod Tests
use cpp_wtfsc.Base.{
  ℕ, zero, suc, ◌+◌, ◌-◌, Bool, true, false, ◌&&◌, List, [], ◌++◌, Option, none, some, ◌>>=◌, ◌==◌,
  ltb, length, take, drop, if◌then◌else◌, min,
}
use cpp_wtfsc.Disk.Leveldb.Posix.{Posix, Written, wrote, interrupted, failed}

-- The statuses that this file makes, each with its `errno`.
pub data Status : Type 0 where
  ok : Status
  not_found : ℕ → Status
  io_error : ℕ → Status

unfoldable pub is_ok : Status → Bool
is_ok ok = true
is_ok (not_found e) = false
is_ok (io_error e) = false

pub record WritableFile (B W : Type 0) : Type 0 where
  pub buf : List B
  pub is_open : Bool
  pub world : W

abbrev pub buffer_size : ℕ
buffer_size = 65536

unfoldable pub init : {B W : Type 0} → W → WritableFile B W
init w = record { buf = []; is_open = true; world = w }

module _ {B W : Type 0} (posix : Posix B W) where
  unfoldable pub posix_error : ℕ → Status
  posix_error error_number =
      if error_number == posix.enoent then not_found error_number else io_error error_number

  unfoldable pub write_unbuffered : ℕ → W → List B → Option (Status × W)
  unfolding posix_error
  write_unbuffered zero w bytes = if length bytes == 0 then some (ok, w) else none
  write_unbuffered (suc fuel) w bytes =
      let (answer, w') = posix.write w bytes in
      let next : Option (Status × W) = elim answer [
        | wrote k ↦ write_unbuffered fuel w' (drop k bytes)
        | interrupted ↦ write_unbuffered fuel w' bytes
        | failed e ↦ some (posix_error e, w')
      ] in
      if length bytes == 0 then some (ok, w) else next

  unfoldable pub flush_buffer : ℕ → WritableFile B W → Option (Status × WritableFile B W)
  flush_buffer fuel f = do
    (status, w) ← write_unbuffered fuel f.world f.buf
    some (status, record f { buf = []; world = w })

  unfoldable pub flush : ℕ → WritableFile B W → Option (Status × WritableFile B W)
  flush fuel f = flush_buffer fuel f

  unfoldable pub append : ℕ → WritableFile B W → List B → Option (Status × WritableFile B W)
  append fuel f bytes =
      let copy_size = min (length bytes) (buffer_size - length f.buf) in
      let rest = drop copy_size bytes in
      let filled = record f { buf = f.buf ++ take copy_size bytes } in
      let written = (do
        (status, g) ← flush_buffer fuel filled
        (if is_ok status
            then (if ltb (length rest) buffer_size
                then some (ok, record g { buf = rest })
                else (write_unbuffered fuel g.world rest >>= λ out.
                    some (out.0, record g { world = out.1 })))
            else some (status, g))) in
      if length rest == 0 then some (ok, filled) else written

  unfoldable pub close : ℕ → WritableFile B W → Option (Status × WritableFile B W)
  close fuel f = do
    (status, g) ← flush_buffer fuel f
    let (failure, w) = posix.close g.world in
        some (
          elim failure [ none ↦ status | some e ↦ if is_ok status then posix_error e else status ],
          record g { is_open = false; world = w },
        )

  -- `fdatasync` or `fsync`; the `fcntl` of macOS is left out.
  abbrev pub sync_fd : W → Status × W
  sync_fd world =
      let (failure, w) = posix.sync world in
      (elim failure [ none ↦ ok | some e ↦ posix_error e ], w)

  unfoldable pub sync : ℕ → WritableFile B W → Option (Status × WritableFile B W)
  sync fuel f = do
    (status, g) ← flush_buffer fuel f
    let (synced, w) = sync_fd g.world in
        some (if is_ok status then (synced, record g { world = w }) else (status, g))
