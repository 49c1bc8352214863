-- ===== src/Disk/Leveldb/Status/Tests.antt =====
-- Concrete statuses of src/disk/leveldb/status.h.
use cpp_wtfsc.Base.{◌>>=◌, ◌≡◌, refl, true, List, [], ◌∷◌, ◌++◌, some, none, length, arith, ℕ}
use cpp_wtfsc.Disk.Leveldb.Slice.{Slice, init, of_pointer, to_string}
use cpp_wtfsc.Disk.Leveldb.Status.{ok, not_found, io_error, success, make, is_ok, code_of_status}
use cpp_wtfsc.Disk.Leveldb.Status.Layout.{layout, second_part, make_lem}

abbrev path : Slice
path = of_pointer (47 ∷ 97 ∷ 0 ∷ []) 2

abbrev reason : Slice
reason = of_pointer (69 ∷ 73 ∷ 79 ∷ []) 3

make_lem_example :
    let size = length (to_string path ++ second_part reason) in
    (make 7 io_error path reason
      ≡ some (record { state = some (layout size io_error path reason) }))
    × ((make 7 io_error path reason >>= code_of_status) ≡ some io_error)
unfolding of_pointer
make_lem_example =
    make_lem 7 io_error path reason (omega arith) (omega arith) (omega arith) (λ e. ground arith)

abbrev io_state : List ℕ
io_state = 7 ∷ 0 ∷ 0 ∷ 0 ∷ 5 ∷ 47 ∷ 97 ∷ 58 ∷ 32 ∷ 69 ∷ 73 ∷ 79 ∷ []

make-io_error : make 7 io_error path reason ≡ some (record { state = some io_state })
unfolding make of_pointer
make-io_error = refl

make-ok : make 7 ok path reason ≡ none
unfolding make
make-ok = refl

make_one :
    make 9 not_found path init ≡ some (record { state = some (2 ∷ 0 ∷ 0 ∷ 0 ∷ 1 ∷ 47 ∷ 97 ∷ []) })
unfolding make of_pointer init
make_one = refl

is_ok-success : is_ok success ≡ true
unfolding is_ok success
is_ok-success = refl
