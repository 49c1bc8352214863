-- ===== src/Disk/Leveldb/WritableFile/Tests.antt =====
-- A file of src/disk/leveldb/env_posix.cpp on a concrete operating system.
use cpp_wtfsc.Base.{
  ℕ, zero, suc, ◌≤◌, ◌<◌, ◌≡◌, refl, sym, ap, ◌∙◌, true, false, List, [], ◌∷◌, ◌++◌, none, some,
  length, min, take, arith,
}
use cpp_wtfsc.Disk.Leveldb.Posix.{Posix, Written, wrote, interrupted, failed, WritesInOrder}
use cpp_wtfsc.Disk.Leveldb.WritableFile.{Status, is_ok, WritableFile, append, close, sync}
use cpp_wtfsc.Disk.Leveldb.WritableFile.Stream.{Appends, append-Appends, stream}
use cpp_wtfsc.Disk.Leveldb.WritableFile.Session.{
  Drained, close_sync-Drained, session, session_complete,
}

-- A write takes at most two bytes, and is interrupted a number of times before.
abbrev answer : ℕ × List ℕ → List ℕ → Written × (ℕ × List ℕ)
answer (zero, file) bytes =
    (wrote (min 2 (length bytes)), (0, file ++ take (min 2 (length bytes)) bytes))
answer (suc n, file) bytes = (interrupted, (n, file))

abbrev two_bytes : Posix ℕ (ℕ × List ℕ)
two_bytes = record {
  write = answer;
  close = λ w. (none, w);
  sync = λ w. (none, w);
  written = λ w. w.1;
  patience = λ w. w.0;
  enoent = 2;
}

answer_wrote :
    (w : ℕ × List ℕ) (bytes : List ℕ) (k : ℕ) (w' : ℕ × List ℕ)
    → 1 ≤ length bytes
    → answer w bytes ≡ (wrote k, w')
    → (1 ≤ k) × (k ≤ length bytes) × (w'.1 ≡ w.1 ++ take k bytes) × (w'.0 ≤ w.0)
answer_wrote (zero, file) bytes k w' h e =
    let same : min 2 (length bytes) ≡ k = ground (arith, e) in
    let there : (0, file ++ take (min 2 (length bytes)) bytes) ≡ w' = ap (λ a. a.1) e in
    (
      omega arith,
      omega arith,
      sym (ap (λ a. a.1) there) ∙ ap (λ n. file ++ take n bytes) same,
      rw (sym there) (omega arith),
    )
answer_wrote (suc n, file) bytes k w' h e = absurd (ground (arith, e))

answer_interrupted :
    (w : ℕ × List ℕ) (bytes : List ℕ) (w' : ℕ × List ℕ)
    → answer w bytes ≡ (interrupted, w')
    → (w'.1 ≡ w.1) × (w'.0 < w.0)
answer_interrupted (zero, file) bytes w' e = absurd (ground (arith, e))
answer_interrupted (suc n, file) bytes w' e =
    let there : (n, file) ≡ w' = ap (λ a. a.1) e in
    (sym (ap (λ a. a.1) there), rw (sym there) (omega arith))

answer_failed :
    (w : ℕ × List ℕ) (bytes : List ℕ) (code : ℕ) (w' : ℕ × List ℕ)
    → answer w bytes ≡ (failed code, w')
    → w'.1 ≡ w.1
answer_failed (zero, file) bytes code w' e = absurd (ground (arith, e))
answer_failed (suc n, file) bytes code w' e = absurd (ground (arith, e))

two_bytes-WritesInOrder : WritesInOrder two_bytes
two_bytes-WritesInOrder = record {
  takes_front = answer_wrote;
  tries_again = answer_interrupted;
  fails = answer_failed;
  close_keeps = λ w. refl;
  sync_keeps = λ w. refl;
}

abbrev file : WritableFile ℕ (ℕ × List ℕ)
file = record { buf = 1 ∷ []; is_open = true; world = (3, 9 ∷ []) }

append-Appends_example :
    (status : Status) × (g : WritableFile ℕ (ℕ × List ℕ)) × (append two_bytes 100 file (2 ∷ 3 ∷ [])
      ≡ some (status, g))
    × Appends two_bytes two_bytes-WritesInOrder file (2 ∷ 3 ∷ []) status g
append-Appends_example =
    append-Appends two_bytes two_bytes-WritesInOrder 100 file (2 ∷ 3 ∷ []) (omega arith)
      (omega arith)

close_sync-Drained_example :
    ((status : Status) × (g : WritableFile ℕ (ℕ × List ℕ)) × (close two_bytes 100 file
        ≡ some (status, g))
      × Drained two_bytes two_bytes-WritesInOrder file status g
      × (g.is_open ≡ false))
    × ((status : Status) × (g : WritableFile ℕ (ℕ × List ℕ)) × (sync two_bytes 100 file
          ≡ some (status, g))
        × Drained two_bytes two_bytes-WritesInOrder file status g)
close_sync-Drained_example =
    close_sync-Drained two_bytes two_bytes-WritesInOrder 100 file (omega arith)

session_complete_example :
    (status : Status) × (g : WritableFile ℕ (ℕ × List ℕ)) × (session two_bytes 70000 file
        ((2 ∷ 3 ∷ []) ∷ (4 ∷ []) ∷ [])
      ≡ some (status, g))
    × (is_ok status ≡ true
        → g.world.1 ≡ stream two_bytes two_bytes-WritesInOrder file ++ (2 ∷ 3 ∷ 4 ∷ []))
session_complete_example =
    session_complete two_bytes two_bytes-WritesInOrder 70000 file ((2 ∷ 3 ∷ []) ∷ (4 ∷ []) ∷ [])
      (omega arith) (omega arith)
