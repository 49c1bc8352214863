-- ===== src/Disk/Leveldb/Slice/Tests.antt =====
-- Concrete slices of src/disk/leveldb/slice.h; bytes are natural numbers.
use cpp_wtfsc.Base.{◌≡◌, ◌↔◌, refl, true, [], ◌∷◌, some, none, take, arith}
use cpp_wtfsc.Disk.Leveldb.Slice.{
  Slice, below, above, init, of_pointer, of_string, of_c_string, is_empty, elem, clear,
  remove_prefix, to_string, starts_with, equal, compare,
}
use cpp_wtfsc.Disk.Leveldb.Slice.Order.{lexicographic, compare_lem}

abbrev key : Slice
key = of_pointer (107 ∷ 101 ∷ 121 ∷ 49 ∷ []) 3

abbrev keyed : Slice
keyed = of_pointer (107 ∷ 101 ∷ 121 ∷ 200 ∷ 0 ∷ []) 4

compare_lem_example :
    (compare keyed key ≡ lexicographic (to_string keyed) (to_string key))
    × (((equal keyed key ≡ true) ↔ (to_string keyed ≡ to_string key))
        × ((starts_with keyed key ≡ true) ↔ (take key.size (to_string keyed) ≡ to_string key)))
unfolding of_pointer
compare_lem_example = compare_lem keyed key (omega arith) (omega arith)

compare-keyed : compare keyed key ≡ above
unfolding compare of_pointer
compare-keyed = refl

compare-key : compare key keyed ≡ below
unfolding compare of_pointer
compare-key = refl

starts_with-keyed : starts_with keyed key ≡ true
unfolding starts_with of_pointer
starts_with-keyed = refl

equal-key : equal key (of_c_string (107 ∷ 101 ∷ 121 ∷ 0 ∷ 9 ∷ [])) ≡ true
unfolding equal of_pointer of_c_string
equal-key = refl

of_string_null : to_string (of_string (1 ∷ 0 ∷ 2 ∷ [])) ≡ 1 ∷ 0 ∷ 2 ∷ []
unfolding to_string of_string
of_string_null = refl

elem_past_size : elem key 3 ≡ none
unfolding elem of_pointer
elem_past_size = refl

remove_prefix-key : remove_prefix key 2 ≡ some (of_pointer (121 ∷ 49 ∷ []) 1)
unfolding remove_prefix of_pointer
remove_prefix-key = refl

clear-key : (is_empty (clear key) ≡ true) × (clear key ≡ init)
unfolding is_empty clear init
clear-key = (refl, refl)
