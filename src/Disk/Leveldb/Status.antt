-- ===== src/Disk/Leveldb/Status.antt =====
-- The class Status of src/disk/leveldb/status.h: the array of bytes that an error status owns. A byte is a
-- natural number below 256; `none` is a failed assertion or an access outside an array.
pub mod Layout
mod Tests
use cpp_wtfsc.Base.{
  ℕ, zero, suc, ◌+◌, ◌%◌, ◌/◌, Bool, true, false, not, ◌&&◌, List, [], ◌∷◌, ◌++◌, Option, none,
  some, ◌>>=◌, ◌==◌, leb, length, take, get_elem?, replicate, if◌then◌else◌,
}
use cpp_wtfsc.Disk.Leveldb.Slice.{Slice}

pub data Code : Type 0 where
  ok : Code
  not_found : Code
  corruption : Code
  not_supported : Code
  invalid_argument : Code
  io_error : Code

abbrev pub code_number : Code → ℕ
code_number ok = 0
code_number not_found = 1
code_number corruption = 2
code_number not_supported = 3
code_number invalid_argument = 4
code_number io_error = 5

abbrev pub code_of : ℕ → Option Code
code_of n =
    if n == 0
    then some ok
    else if n == 1
    then some not_found
    else if n == 2
    then some corruption
    else if n == 3
    then some not_supported
    else if n == 4
    then some invalid_argument
    else if n == 5
    then some io_error
    else none

pub record Status : Type 0 where
  pub state : Option (List ℕ)

unfoldable pub success : Status
success = record { state = none }

abbrev pub uint32 : ℕ → ℕ
uint32 n = n % 4294967296

-- The bytes of a `uint32_t` in memory, the lowest first.
abbrev pub bytes_of : ℕ → List ℕ
bytes_of n = n % 256 ∷ (n / 256) % 256 ∷ (n / 65536) % 256 ∷ (n / 16777216) % 256 ∷ []

abbrev pub store : List ℕ → ℕ → List ℕ → List ℕ
store [] at ys = []
store (x ∷ xs) (suc at) ys = x ∷ store xs at ys
store (x ∷ xs) zero [] = x ∷ xs
store (x ∷ xs) zero (y ∷ ys) = y ∷ store xs zero ys

-- `memcpy(result + at, source, n)`.
abbrev pub memcpy : List ℕ → ℕ → List ℕ → ℕ → Option (List ℕ)
memcpy result at source n =
    if leb n (length source) && leb (at + n) (length result)
    then some (store result at (take n source))
    else none

-- The size that is written in front of a message: of the two parts, with `: ` between them.
abbrev pub message_size : ℕ → ℕ → ℕ
message_size len1 len2 = uint32 (len1 + (if len2 == 0 then 0 else 2 + len2))

-- The second message, if there is one, behind the first.
abbrev pub append_second : List ℕ → ℕ → Slice → ℕ → Option (List ℕ)
append_second result len1 msg2 len2 = if len2 == 0 then some result else do
  result ← memcpy result (5 + len1) (58 ∷ 32 ∷ []) 2
  memcpy result (7 + len1) msg2.bytes len2

-- The size, the code and the messages, written into a new array.
abbrev pub write_state : List ℕ → ℕ → Code → Slice → ℕ → Slice → ℕ → Option (List ℕ)
write_state result size code msg len1 msg2 len2 = do
  result ← memcpy result 0 (bytes_of size) 4
  result ← memcpy result 4 (code_number code ∷ []) 1
  result ← memcpy result 5 msg.bytes len1
  append_second result len1 msg2 len2

-- `fill` is what `new char[]` leaves in the array.
unfoldable pub make : ℕ → Code → Slice → Slice → Option Status
make fill code msg msg2 =
    let len1 = uint32 msg.size in
    let len2 = uint32 msg2.size in
    let size = message_size len1 len2 in
    if code_number code == 0 then none else do
      result ← write_state (replicate (uint32 (size + 5)) fill) size code msg len1 msg2 len2
      some (record { state = some result })

unfoldable pub is_ok : Status → Bool
is_ok s = elim s.state [ none ↦ true | some bytes ↦ false ]

unfoldable pub code_of_status : Status → Option Code
code_of_status s = elim s.state [ none ↦ some ok | some bytes ↦ get_elem? bytes 4 >>= code_of ]
