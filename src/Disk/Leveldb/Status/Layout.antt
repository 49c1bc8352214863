-- ===== src/Disk/Leveldb/Status/Layout.antt =====
-- What the constructor of src/disk/leveldb/status.h puts into its array.
use cpp_wtfsc.Base.{
  append_assoc, append-nil, Bool-cases, sym, ◌∙◌, leb, ◌&&◌, inl, inr, ◌>>=◌, ℕ, zero, suc, ◌+◌,
  ◌≤◌, ◌<◌, ◌≡◌, ◌≢◌, refl, ap, true, false, List, [], ◌∷◌, ◌++◌, some, ◌==◌, length, take,
  replicate, if◌then◌else◌, arith, length-take, length-append, length-replicate,
}
use cpp_wtfsc.Disk.Leveldb.Slice.{Slice, to_string}
use cpp_wtfsc.Disk.Leveldb.Slice.Order.{IsSlice}
use cpp_wtfsc.Disk.Leveldb.Status.{
  Code, ok, not_found, corruption, not_supported, invalid_argument, io_error, write_state,
  code_number, code_of, uint32, bytes_of, store, memcpy, message_size, append_second, make,
  code_of_status,
}

same_rest : (n k : ℕ) → n ≡ 0 + k → n ≡ k
same_rest n k e = omega arith

store-fill :
    (xs ys : List ℕ) (fill n k : ℕ)
    → n ≡ length ys + k
    → store (xs ++ replicate n fill) (length xs) ys ≡ xs ++ (ys ++ replicate k fill)
store-fill (x ∷ xs) ys fill n k e = ap (◌∷◌ x) (store-fill xs ys fill n k e)
store-fill [] [] fill zero k e = ap (λ m. replicate m fill) (same_rest zero k e)
store-fill [] [] fill (suc n) k e = ap (λ m. replicate m fill) (same_rest (suc n) k e)
store-fill [] (y ∷ ys) fill zero k e = absurd (omega arith)
store-fill [] (y ∷ ys) fill (suc n) k e = ap (◌∷◌ y) (store-fill [] ys fill n k (omega arith))

-- Bytes that are copied behind the first part of an array are its next part.
memcpy-fill :
    (xs source : List ℕ) (fill at n r k : ℕ)
    → at ≡ length xs
    → n ≤ length source
    → r ≡ n + k
    → memcpy (xs ++ replicate r fill) at source n ≡ some ((xs ++ take n source) ++ replicate k fill)
memcpy-fill xs source fill at n r k e h f =
    let l : length (take n source) ≡ n = omega (arith, length-take n source) in
    let room : (leb n (length source) && leb (at + n) (length (xs ++ replicate r fill))) ≡ true =
      ground (arith, length-append xs (replicate r fill), length-replicate r fill) in
    let whole : r ≡ length (take n source) + k = omega arith in
    rw (room, e)
      (ap some (
        store-fill xs (take n source) fill r k whole
        ∙ sym (append_assoc xs (take n source) (replicate k fill))))

abbrev pub second_part : Slice → List ℕ
second_part msg2 = if msg2.size == 0 then [] else 58 ∷ 32 ∷ to_string msg2

append_second-fill :
    (xs : List ℕ) (fill r len1 : ℕ) (msg2 : Slice)
    → IsSlice msg2
    → length xs ≡ 5 + len1
    → r ≡ (if msg2.size == 0 then 0 else 2 + msg2.size)
    → append_second (xs ++ replicate r fill) len1 msg2 msg2.size ≡ some (xs ++ second_part msg2)
unfolding to_string
append_second-fill xs fill r len1 msg2 h l e = elim (Bool-cases (msg2.size == 0)) [
  | inl c ↦
      let none_left : r ≡ 0 = rw c at e in rw c (ap (λ k. some (xs ++ replicate k fill)) none_left)
  | inr c ↦
      let left : r ≡ 2 + msg2.size = rw c at e in
      let mark : List ℕ = 58 ∷ 32 ∷ [] in
      let colon : memcpy (xs ++ replicate r fill) (5 + len1) mark 2
          ≡ some ((xs ++ mark) ++ replicate msg2.size fill) =
        memcpy-fill xs mark fill (5 + len1) 2 r msg2.size (sym l) (omega arith) left in
      let behind : 7 + len1 ≡ length (xs ++ mark) = omega (arith, length-append xs mark) in
      let copied : memcpy ((xs ++ mark) ++ replicate msg2.size fill) (7 + len1) msg2.bytes msg2.size
          ≡ some (((xs ++ mark) ++ to_string msg2) ++ []) =
        memcpy-fill (xs ++ mark) msg2.bytes fill (7 + len1) msg2.size msg2.size 0 behind h
          (omega arith) in
      let joined : ((xs ++ mark) ++ to_string msg2) ++ [] ≡ xs ++ (mark ++ to_string msg2) =
        append-nil _ ∙ append_assoc xs mark (to_string msg2) in
      rw c (
        ap (λ o. o >>= λ array. memcpy array (7 + len1) msg2.bytes msg2.size) colon
        ∙ (copied ∙ ap some joined))
]

-- The array of an error status.
abbrev pub layout : ℕ → Code → Slice → Slice → List ℕ
layout size code msg msg2 = bytes_of size ++ code_number code ∷ (to_string msg ++ second_part msg2)

write_state-fill :
    (fill size : ℕ) (code : Code) (msg msg2 : Slice)
    → IsSlice msg
    → IsSlice msg2
    → size ≡ msg.size + (if msg2.size == 0 then 0 else 2 + msg2.size)
    → write_state (replicate (size + 5) fill) size code msg msg.size msg2 msg2.size
      ≡ some (layout size code msg msg2)
unfolding to_string
write_state-fill fill size code msg msg2 h h' e =
    let rest = if msg2.size == 0 then 0 else 2 + msg2.size in
    let head = bytes_of size ++ code_number code ∷ [] in
    let sized : memcpy (replicate (size + 5) fill) 0 (bytes_of size) 4
        ≡ some (bytes_of size ++ replicate (size + 1) fill) =
      memcpy-fill [] (bytes_of size) fill 0 4 (size + 5) (size + 1) refl (omega arith)
        (omega arith) in
    let coded : memcpy (bytes_of size ++ replicate (size + 1) fill) 4 (code_number code ∷ []) 1
        ≡ some (head ++ replicate size fill) =
      memcpy-fill (bytes_of size) (code_number code ∷ []) fill 4 1 (size + 1) size refl
        (omega arith) (omega arith) in
    let told : memcpy (head ++ replicate size fill) 5 msg.bytes msg.size
        ≡ some ((head ++ to_string msg) ++ replicate rest fill) =
      memcpy-fill head msg.bytes fill 5 msg.size size rest refl h e in
    let behind : length (head ++ to_string msg) ≡ 5 + msg.size =
      omega (arith, length-append head (to_string msg), length-take msg.size msg.bytes) in
    ap
      (λ o. o >>= λ array. memcpy array 4 (code_number code ∷ []) 1 >>= λ array.
        memcpy array 5 msg.bytes msg.size >>= λ array. append_second array msg.size msg2 msg2.size)
      sized
    ∙ (ap
          (λ o. o >>= λ array. memcpy array 5 msg.bytes msg.size >>= λ array.
            append_second array msg.size msg2 msg2.size)
          coded
        ∙ (ap (λ o. o >>= λ array. append_second array msg.size msg2 msg2.size) told
            ∙ append_second-fill (head ++ to_string msg) fill rest msg.size msg2 h' behind refl))

error_code : (code : Code) → code ≢ ok → (code_number code == 0) ≡ false
error_code ok error = absurd (error refl)
error_code not_found error = refl
error_code corruption error = refl
error_code not_supported error = refl
error_code invalid_argument error = refl
error_code io_error error = refl

code_of-code_number : (code : Code) → code_of (code_number code) ≡ some code
code_of-code_number ok = refl
code_of-code_number not_found = refl
code_of-code_number corruption = refl
code_of-code_number not_supported = refl
code_of-code_number invalid_argument = refl
code_of-code_number io_error = refl

length-second_part :
    (msg2 : Slice)
    → IsSlice msg2
    → length (second_part msg2) ≡ (if msg2.size == 0 then 0 else 2 + msg2.size)
unfolding to_string
length-second_part msg2 h = ground (arith, length-take msg2.size msg2.bytes)

rest_small : (n m : ℕ) → n + m + 7 < 4294967296 → n + (if m == 0 then 0 else 2 + m) + 5 < 4294967296
rest_small n m h = ground arith

fits : (n : ℕ) → n < 4294967296 → uint32 n ≡ n
fits n h = omega arith

-- The constructor of an error status: if the sizes fit into 32 bits, the array that it leaves is the
-- size of the message, the code and the message, which is the first string and, if it is not empty,
-- the second behind `: `, whatever was in the array before; and `code` reads the code back.
pub make_lem :
    (fill : ℕ) (code : Code) (msg msg2 : Slice)
    → IsSlice msg
    → IsSlice msg2
    → msg.size + msg2.size + 7 < 4294967296
    → code ≢ ok
    → let size = length (to_string msg ++ second_part msg2) in
      (make fill code msg msg2 ≡ some (record { state = some (layout size code msg msg2) }))
      × ((make fill code msg msg2 >>= code_of_status) ≡ some code)
unfolding make code_of_status to_string
make_lem fill code msg msg2 h h' small error =
    let size = length (to_string msg ++ second_part msg2) in
    let rest = if msg2.size == 0 then 0 else 2 + msg2.size in
    let sum : size ≡ msg.size + rest = omega (
      arith,
      length-append (to_string msg) (second_part msg2),
      length-second_part msg2 h',
      length-take msg.size msg.bytes,
    ) in
    let room : size + 5 < 4294967296 = omega (arith, rest_small msg.size msg2.size small, sum) in
    let fits1 = fits msg.size (omega arith) in
    let fits2 = fits msg2.size (omega arith) in
    let fits3 : message_size msg.size msg2.size ≡ size =
      ap uint32 (sym sum) ∙ fits size (omega arith) in
    let made : make fill code msg msg2
        ≡ some (record { state = some (layout size code msg msg2) }) =
      rw (error_code code error, fits1, fits2, fits3, fits (size + 5) room)
        (ap (λ o. o >>= λ array. some (record { state = some array }))
          (write_state-fill fill size code msg msg2 h h' sum)) in
    (made, ap (λ o. o >>= code_of_status) made ∙ code_of-code_number code)
