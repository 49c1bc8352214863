-- ===== src/Disk/Leveldb/WritableFile/Writes.antt =====
-- The loop of `WriteUnbuffered` and `FlushBuffer` in src/disk/leveldb/env_posix.cpp.
use cpp_wtfsc.Base.{
  ℕ, zero, suc, ◌+◌, ◌≤◌, ◌≡◌, ◌⊎◌, inl, inr, refl, sym, ap, ◌∙◌, true, false, List, [], ◌∷◌, ◌++◌,
  some, ◌==◌, length, take, drop, arith, append_assoc, append-nil, take-append-drop, length-drop,
  Bool-cases,
}
use cpp_wtfsc.Disk.Leveldb.Posix.{Posix, Written, wrote, interrupted, failed, WritesInOrder}
use cpp_wtfsc.Disk.Leveldb.WritableFile.{
  Status, ok, is_ok, WritableFile, posix_error, write_unbuffered, flush_buffer,
}

Written-cases :
    (a : Written) → ((k : ℕ) × (a ≡ wrote k)) ⊎ ((a ≡ interrupted) ⊎ ((e : ℕ) × (a ≡ failed e)))
Written-cases (wrote k) = inl (k, refl)
Written-cases interrupted = inr (inl refl)
Written-cases (failed e) = inr (inr (e, refl))

module _ {B W : Type 0} (posix : Posix B W) where
  pub posix_error_lem : (e : ℕ) → is_ok (posix_error posix e) ≡ false
  unfolding posix_error is_ok
  posix_error_lem e = elim (Bool-cases (e == posix.enoent)) [
    | inl h ↦ rw h refl
    | inr h ↦ rw h refl
  ]

  -- After a write, the file has received some front part of `bytes`, and all of it on success.
  pub record Received (w : W) (bytes : List B) (status : Status) (w' : W) : Type 0 where
    pub lost : List B
    pub split : posix.written w' ++ lost ≡ posix.written w ++ bytes
    pub all : is_ok status ≡ true → lost ≡ []
    pub calmer : is_ok status ≡ true → posix.patience w' ≤ posix.patience w

  module _ (laws : WritesInOrder posix) where
    pub nothing : (bytes : List B) → length bytes ≡ 0 → bytes ≡ []
    nothing [] e = refl
    nothing (b ∷ bytes) e = absurd (omega arith)

    -- The loop ends when the fuel is at least the bytes to write and the interruptions to come.
    pub write_unbuffered_lem :
        (fuel : ℕ) (w : W) (bytes : List B)
        → length bytes + posix.patience w ≤ fuel
        → (status : Status) × (w' : W) × (write_unbuffered posix fuel w bytes ≡ some (status, w'))
          × Received w bytes status w'
    unfolding write_unbuffered
    write_unbuffered_lem zero w bytes enough = (
      ok,
      w,
      ground arith,
      record {
        lost = [];
        split = rw (nothing bytes (omega arith)) refl;
        all = λ _. refl;
        calmer = λ _. omega arith;
      },
    )
    write_unbuffered_lem (suc fuel) w bytes enough = elim (Bool-cases (length bytes == 0)) [
      | inl e ↦ (
        ok,
        w,
        rw e refl,
        record {
          lost = [];
          split =
              append-nil (posix.written w)
              ∙ sym (append-nil (posix.written w))
              ∙ ap (λ l. posix.written w ++ l) (sym (nothing bytes (ground arith)));
          all = λ _. refl;
          calmer = λ _. omega arith;
        },
      )
      | inr e ↦ elim (Written-cases ((posix.write w bytes).0)) [
        | inl (k, h) ↦
            let w1 = (posix.write w bytes).1 in
            let (low, high, got, calm) =
              laws.takes_front w bytes k w1 (ground arith) (ap (λ a. (a, w1)) h) in
            let shorter = length-drop k bytes in
            let (status, w', run, r) = write_unbuffered_lem fuel w1 (drop k bytes) (omega arith) in
            (
              status,
              w',
              rw (e, h) run,
              record {
                lost = r.lost;
                split =
                    r.split
                    ∙ ap (λ l. l ++ drop k bytes) got
                    ∙ append_assoc (posix.written w) (take k bytes) (drop k bytes)
                    ∙ ap (λ l. posix.written w ++ l) (take-append-drop k bytes);
                all = r.all;
                calmer = λ o. let c = r.calmer o in omega arith;
              },
            )
        | inr (inl h) ↦
            let w1 = (posix.write w bytes).1 in
            let (got, calm) = laws.tries_again w bytes w1 (ap (λ a. (a, w1)) h) in
            let (status, w', run, r) = write_unbuffered_lem fuel w1 bytes (omega arith) in
            (
              status,
              w',
              rw (e, h) run,
              record {
                lost = r.lost;
                split = r.split ∙ ap (λ l. l ++ bytes) got;
                all = r.all;
                calmer = λ o. let c = r.calmer o in omega arith;
              },
            )
        | inr (inr (code, h)) ↦
            let w1 = (posix.write w bytes).1 in
            let got = laws.fails w bytes code w1 (ap (λ a. (a, w1)) h) in
            (
              posix_error posix code,
              w1,
              rw (e, h) refl,
              record {
                lost = bytes;
                split = ap (λ l. l ++ bytes) got;
                all = λ o. absurd (ground (arith, o, posix_error_lem code));
                calmer = λ o. absurd (ground (arith, o, posix_error_lem code));
              },
            )
      ]
    ]

    pub flush_buffer_lem :
        (fuel : ℕ) (f : WritableFile B W)
        → length f.buf + posix.patience f.world ≤ fuel
        → (status : Status) × (g : WritableFile B W) × (flush_buffer posix fuel f
            ≡ some (status, g))
          × (g.buf ≡ [])
          × Received f.world f.buf status g.world
    unfolding flush_buffer
    flush_buffer_lem fuel f enough =
        let (status, w, run, r) = write_unbuffered_lem fuel f.world f.buf enough in
        (status, record f { buf = []; world = w }, rw run refl, refl, r)
