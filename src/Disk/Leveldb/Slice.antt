-- ===== src/Disk/Leveldb/Slice.antt =====
-- The class Slice of src/disk/leveldb/slice.h: the bytes that can be read from `data_` on, and a size.
-- A byte is a natural number, as `memcmp` reads it. `none` is an assertion that fails.
pub mod Order
mod Tests
use cpp_wtfsc.Base.{
  ℕ, zero, suc, ◌-◌, Bool, true, false, not, ◌&&◌, List, [], ◌∷◌, ◌++◌, Option, none, some, ◌==◌,
  ltb, leb, length, take, drop, get_elem?, if◌then◌else◌,
}

pub record Slice : Type 0 where
  pub bytes : List ℕ
  pub size : ℕ

-- The sign of what `memcmp` and `compare` return.
pub data Sign : Type 0 where
  below : Sign
  same : Sign
  above : Sign

abbrev pub is_same : Sign → Bool
is_same below = false
is_same same = true
is_same above = false

-- `memcmp` of the C library; both arguments must have that many bytes.
abbrev pub memcmp : List ℕ → List ℕ → ℕ → Sign
memcmp xs ys zero = same
memcmp (x ∷ xs) (y ∷ ys) (suc n) =
    if ltb x y then below else if ltb y x then above else memcmp xs ys n
memcmp _ _ (suc n) = same

-- `strlen` of the C library.
abbrev pub strlen : List ℕ → ℕ
strlen [] = 0
strlen (x ∷ xs) = if x == 0 then 0 else suc (strlen xs)

unfoldable pub init : Slice
init = record { bytes = 0 ∷ []; size = 0 }

unfoldable pub of_pointer : List ℕ → ℕ → Slice
of_pointer d n = record { bytes = d; size = n }

-- From a `std::string`, which ends with a null byte that does not count.
unfoldable pub of_string : List ℕ → Slice
of_string s = record { bytes = s ++ 0 ∷ []; size = length s }

unfoldable pub of_c_string : List ℕ → Slice
of_c_string s = record { bytes = s; size = strlen s }

unfoldable pub is_empty : Slice → Bool
is_empty a = a.size == 0

unfoldable pub elem : Slice → ℕ → Option ℕ
elem a n = if ltb n a.size then get_elem? a.bytes n else none

unfoldable pub clear : Slice → Slice
clear a = record { bytes = 0 ∷ []; size = 0 }

unfoldable pub remove_prefix : Slice → ℕ → Option Slice
remove_prefix a n =
    if leb n a.size then some (record { bytes = drop n a.bytes; size = a.size - n }) else none

unfoldable pub to_string : Slice → List ℕ
to_string a = take a.size a.bytes

unfoldable pub starts_with : Slice → Slice → Bool
starts_with a x = leb x.size a.size && is_same (memcmp a.bytes x.bytes x.size)

unfoldable pub equal : Slice → Slice → Bool
equal x y = x.size == y.size && is_same (memcmp x.bytes y.bytes x.size)

unfoldable pub compare : Slice → Slice → Sign
compare a b =
    let min_len = if ltb a.size b.size then a.size else b.size in
    let r = memcmp a.bytes b.bytes min_len in
    if is_same r
    then (if ltb a.size b.size then below else if ltb b.size a.size then above else r)
    else r
