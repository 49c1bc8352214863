-- ===== src/Disk/Leveldb/WritableFile/Session.antt =====
-- What a file of src/disk/leveldb/env_posix.cpp holds after `Sync`, `Close` and a whole run of calls.
use cpp_wtfsc.Base.{
  ℕ, ◌+◌, ◌≤◌, ◌≡◌, inl, inr, refl, sym, ap, ◌∙◌, true, false, List, [], ◌∷◌, ◌++◌, Option, some,
  ◌>>=◌, length, if◌then◌else◌, arith, append_assoc, append-nil, length-append, Bool-cases,
  Option-cases,
}
use cpp_wtfsc.Disk.Leveldb.Posix.{Posix, WritesInOrder}
use cpp_wtfsc.Disk.Leveldb.WritableFile.{
  Status, ok, is_ok, WritableFile, buffer_size, posix_error, append, close, sync,
}
use cpp_wtfsc.Disk.Leveldb.WritableFile.Writes.{Received, flush_buffer_lem}
use cpp_wtfsc.Disk.Leveldb.WritableFile.Stream.{stream, append-Appends}

-- The bytes of some chunks.
abbrev pub total : {B : Type 0} → List (List B) → List B
total [] = []
total (bytes ∷ chunks) = bytes ++ total chunks

module _ {B W : Type 0} (posix : Posix B W) where
  -- Appends one after the other until one fails, then a close; the status is the first bad one.
  abbrev pub session : ℕ → WritableFile B W → List (List B) → Option (Status × WritableFile B W)
  session fuel f [] = close posix fuel f
  session fuel f (bytes ∷ chunks) = do
    (status, g) ← append posix fuel f bytes
    (if is_ok status then session fuel g chunks else some (status, g))

module _ {B W : Type 0} (posix : Posix B W) (laws : WritesInOrder posix) where
  -- The buffer is empty, the file has a front part of the stream, and all of it on success.
  pub record Drained (f : WritableFile B W) (status : Status) (g : WritableFile B W) : Type 0 where
    pub lost : List B
    pub split : posix.written g.world ++ lost ≡ stream posix laws f
    pub all : is_ok status ≡ true → posix.written g.world ≡ stream posix laws f
    pub empty : g.buf ≡ []

  drained :
      (f g h : WritableFile B W) (status status' : Status)
      → Received posix f.world f.buf status g.world
      → posix.written h.world ≡ posix.written g.world
      → h.buf ≡ []
      → (is_ok status' ≡ true → is_ok status ≡ true)
      → Drained f status' h
  drained f g h status status' r same empty good = record {
    lost = r.lost;
    split = ap (λ l. l ++ r.lost) same ∙ r.split;
    all = λ o.
        same
        ∙ sym (append-nil (posix.written g.world))
        ∙ ap (λ l. posix.written g.world ++ l) (sym (r.all (good o)))
        ∙ r.split;
    empty = empty;
  }

  close_lem :
      (fuel : ℕ) (f : WritableFile B W)
      → length f.buf + posix.patience f.world ≤ fuel
      → (status : Status) × (g : WritableFile B W) × (close posix fuel f ≡ some (status, g))
        × Drained f status g
        × (g.is_open ≡ false)
  unfolding close
  close_lem fuel f enough =
      let (status, g, run, empty, r) = flush_buffer_lem posix laws fuel f enough in
      let w = (posix.close g.world).1 in
      let h = record g { is_open = false; world = w } in
      let same = laws.close_keeps g.world in
      elim (Option-cases ((posix.close g.world).0)) [
        | inl e ↦
            (status, h, rw (run, e) refl, drained f g h status status r same empty (λ o. o), refl)
        | inr (code, e) ↦ elim (Bool-cases (is_ok status)) [
          | inl o ↦ (
            posix_error posix code,
            h,
            rw (run, e, o) refl,
            drained f g h status (posix_error posix code) r same empty (λ o'. o),
            refl,
          )
          | inr o ↦ (
            status,
            h,
            rw (run, e, o) refl,
            drained f g h status status r same empty (λ o'. o'),
            refl,
          )
        ]
      ]

  sync_lem :
      (fuel : ℕ) (f : WritableFile B W)
      → length f.buf + posix.patience f.world ≤ fuel
      → (status : Status) × (g : WritableFile B W) × (sync posix fuel f ≡ some (status, g))
        × Drained f status g
  unfolding sync
  sync_lem fuel f enough =
      let (status, g, run, empty, r) = flush_buffer_lem posix laws fuel f enough in
      let h = record g { world = (posix.sync g.world).1 } in
      let same = laws.sync_keeps g.world in
      elim (Bool-cases (is_ok status)) [
        | inr o ↦ (status, g, rw (run, o) refl, drained f g g status status r refl empty (λ o'. o'))
        | inl o ↦ elim (Option-cases ((posix.sync g.world).0)) [
          | inl e ↦ (ok, h, rw (run, o, e) refl, drained f g h status ok r same empty (λ o'. o))
          | inr (code, e) ↦ (
            posix_error posix code,
            h,
            rw (run, o, e) refl,
            drained f g h status (posix_error posix code) r same empty (λ o'. o),
          )
        ]
      ]

  -- With fuel for the buffered bytes and the interruptions to come, `Close` and `Sync` end with a status.
  -- When it is good the file has received every byte that was
  -- appended, in order; otherwise a front part of them.
  pub close_sync-Drained :
      (fuel : ℕ) (f : WritableFile B W)
      → length f.buf + posix.patience f.world ≤ fuel
      → ((status : Status) × (g : WritableFile B W) × (close posix fuel f ≡ some (status, g))
          × Drained f status g
          × (g.is_open ≡ false))
        × ((status : Status) × (g : WritableFile B W) × (sync posix fuel f ≡ some (status, g))
            × Drained f status g)
  close_sync-Drained fuel f enough = (close_lem fuel f enough, sync_lem fuel f enough)

  -- With fuel for a full buffer, the bytes and the interruptions to come, a run of appends and a close
  -- ends, and when its status is good the file has received exactly the
  -- bytes that were appended, in order, behind what it had.
  pub session_complete :
      (fuel : ℕ) (f : WritableFile B W) (chunks : List (List B))
      → length f.buf ≤ buffer_size
      → buffer_size + length (total chunks) + posix.patience f.world ≤ fuel
      → (status : Status) × (g : WritableFile B W) × (session posix fuel f chunks
          ≡ some (status, g))
        × (is_ok status ≡ true → posix.written g.world ≡ stream posix laws f ++ total chunks)
  session_complete fuel f [] fits enough =
      let ((status, g, run, d, _), _) = close_sync-Drained fuel f (omega arith) in
      (status, g, run, λ o. d.all o ∙ sym (append-nil (stream posix laws f)))
  session_complete fuel f (bytes ∷ chunks) fits enough =
      let l = length-append bytes (total chunks) in
      let (status, g, run, a) = append-Appends posix laws fuel f bytes fits (omega arith) in
      elim (Bool-cases (is_ok status)) [
        | inl o ↦
            let calm = a.calmer o in
            let room = a.fits in
            let (status', h, run', done) = session_complete fuel g chunks room (omega arith) in
            (
              status',
              h,
              rw (run, o) run',
              λ o'.
                  done o'
                  ∙ ap (λ l. l ++ total chunks)
                      (sym (append-nil (stream posix laws g))
                        ∙ ap (λ l. stream posix laws g ++ l) (sym (a.all o))
                        ∙ a.split)
                  ∙ append_assoc (stream posix laws f) bytes (total chunks),
            )
        | inr o ↦ (status, g, rw (run, o) refl, λ o'. absurd (ground (arith, o, o')))
      ]
