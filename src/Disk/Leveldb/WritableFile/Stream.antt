-- ===== src/Disk/Leveldb/WritableFile/Stream.antt =====
-- The bytes that a file of src/disk/leveldb/env_posix.cpp was given, in the file or in the buffer.
use cpp_wtfsc.Base.{
  ℕ, ◌+◌, ◌-◌, ◌≤◌, ◌<◌, ◌≡◌, inl, inr, refl, sym, ap, ◌∙◌, true, false, List, [], ◌++◌, some, ◌==◌,
  ltb, length, take, drop, min, arith, append_assoc, append-nil, length-append, take-append-drop,
  length-take, length-drop, Bool-cases,
}
use cpp_wtfsc.Disk.Leveldb.Posix.{Posix, WritesInOrder}
use cpp_wtfsc.Disk.Leveldb.WritableFile.{Status, ok, is_ok, WritableFile, buffer_size, append}
use cpp_wtfsc.Disk.Leveldb.WritableFile.Writes.{
  Received, nothing, write_unbuffered_lem, flush_buffer_lem,
}

module _ {B W : Type 0} (posix : Posix B W) where
  module _ (laws : WritesInOrder posix) where
    -- The bytes that the file was given and has not lost.
    abbrev pub stream : WritableFile B W → List B
    stream f = posix.written f.world ++ f.buf

    -- What a call does to the stream: on success it holds all of `bytes` too; on failure a part at the
    -- end of it may be lost.
    pub record Appends (f : WritableFile B W) (bytes : List B) (status : Status)
        (g : WritableFile B W) : Type 0 where
      pub lost : List B
      pub split : stream g ++ lost ≡ stream f ++ bytes
      pub all : is_ok status ≡ true → lost ≡ []
      pub fits : length g.buf ≤ buffer_size
      pub calmer : is_ok status ≡ true → posix.patience g.world ≤ posix.patience f.world

    whole :
        (w b front rest bytes : List B)
        → front ++ rest ≡ bytes
        → (w ++ (b ++ front)) ++ rest ≡ (w ++ b) ++ bytes
    whole w b front rest bytes e =
        ap (λ l. l ++ rest) (sym (append_assoc w b front))
        ∙ append_assoc (w ++ b) front rest
        ∙ ap (λ l. (w ++ b) ++ l) e

    -- A file whose buffer is full, and what is left to write.
    module _ (fuel : ℕ) (f : WritableFile B W) (front rest bytes : List B)
        (cut : front ++ rest ≡ bytes) (status : Status) (g : WritableFile B W) (empty : g.buf ≡ [])
        (r : Received posix f.world (f.buf ++ front) status g.world) where
      gone : stream g ≡ posix.written g.world
      gone = ap (λ l. posix.written g.world ++ l) empty ∙ append-nil (posix.written g.world)

      flushed : is_ok status ≡ true → posix.written g.world ++ rest ≡ stream f ++ bytes
      flushed o =
          ap (λ l. l ++ rest)
            (sym (append-nil (posix.written g.world))
              ∙ ap (λ l. posix.written g.world ++ l) (sym (r.all o))
              ∙ r.split)
          ∙ whole (posix.written f.world) f.buf front rest bytes cut

      flush_failed : is_ok status ≡ false → Appends f bytes status g
      flush_failed o = record {
        lost = r.lost ++ rest;
        split =
            ap (λ l. l ++ (r.lost ++ rest)) gone
            ∙ sym (append_assoc (posix.written g.world) r.lost rest)
            ∙ ap (λ l. l ++ rest) r.split
            ∙ whole (posix.written f.world) f.buf front rest bytes cut;
        all = λ o'. absurd (ground (arith, o, o'));
        fits = rw empty (omega arith);
        calmer = λ o'. absurd (ground (arith, o, o'));
      }

      buffered :
          is_ok status ≡ true
          → length rest < buffer_size
          → Appends f bytes ok (record g { buf = rest })
      buffered o small = record {
        lost = [];
        split = append-nil (posix.written g.world ++ rest) ∙ flushed o;
        all = λ _. refl;
        fits = omega arith;
        calmer = λ _. r.calmer o;
      }

      direct :
          is_ok status ≡ true
          → (status' : Status) (w : W) → Received posix g.world rest status' w
          → Appends f bytes status' (record g { world = w })
      direct o status' w r' = record {
        lost = r'.lost;
        split =
            ap (λ l. (posix.written w ++ l) ++ r'.lost) empty
            ∙ ap (λ l. l ++ r'.lost) (append-nil (posix.written w))
            ∙ r'.split
            ∙ flushed o;
        all = r'.all;
        fits = rw empty (omega arith);
        calmer = λ o'. let c = r.calmer o in let c' = r'.calmer o' in omega arith;
      }

    -- With fuel for the bytes and the interruptions to come, and the buffer within its bounds, `Append`
    -- ends with a status and keeps the buffer within its bounds. On success the stream has the new bytes
    -- at its end; on failure the stream is a front part of what it would have been.
    pub append-Appends :
        (fuel : ℕ) (f : WritableFile B W) (bytes : List B)
        → length f.buf ≤ buffer_size
        → length f.buf + length bytes + posix.patience f.world ≤ fuel
        → (status : Status) × (g : WritableFile B W) × (append posix fuel f bytes
            ≡ some (status, g))
          × Appends f bytes status g
    unfolding append
    append-Appends fuel f bytes fits enough =
        let copy_size = min (length bytes) (buffer_size - length f.buf) in
        let front = take copy_size bytes in
        let rest = drop copy_size bytes in
        let cut = take-append-drop copy_size bytes in
        let lt = length-take copy_size bytes in
        let ld = length-drop copy_size bytes in
        let lf = length-append f.buf front in
        let (status, g, run, empty, r) =
          flush_buffer_lem posix laws fuel (record f { buf = f.buf ++ front }) (omega arith) in
        elim (Bool-cases (length rest == 0)) [
          | inl e ↦ (
            ok,
            record f { buf = f.buf ++ front },
            rw e refl,
            record {
              lost = [];
              split =
                  ap (λ l. (posix.written f.world ++ (f.buf ++ front)) ++ l)
                    (sym (nothing posix laws rest (ground arith)))
                  ∙ whole (posix.written f.world) f.buf front rest bytes cut;
              all = λ _. refl;
              fits = omega arith;
              calmer = λ _. omega arith;
            },
          )
          | inr e ↦ elim (Bool-cases (is_ok status)) [
            | inr o ↦ (
              status,
              g,
              rw (e, run, o) refl,
              flush_failed fuel f front rest bytes cut status g empty r o,
            )
            | inl o ↦ elim (Bool-cases (ltb (length rest) buffer_size)) [
              | inl small ↦ (
                ok,
                record g { buf = rest },
                rw (e, run, o, small) refl,
                buffered fuel f front rest bytes cut status g empty r o (ground arith),
              )
              | inr large ↦
                  let calm = r.calmer o in
                  let (status', w, run', r') =
                    write_unbuffered_lem posix laws fuel g.world rest (omega arith) in
                  (
                    status',
                    record g { world = w },
                    rw (e, run, o, large, run') refl,
                    direct fuel f front rest bytes cut status g empty r o status' w r',
                  )
            ]
          ]
        ]
