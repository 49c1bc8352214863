-- ===== src/Disk/Vector/DiskVector/RoundTrip.antt =====
-- What `get` of src/disk/vector/disk_vector.h returns after `put`, and after a `get` past the end.
use cpp_wtfsc.Base.{
  ℕ, ◌+◌, ◌*◌, ◌%◌, ◌^◌, ◌≤◌, ◌<◌, ◌≡◌, ◌≢◌, ◌⊎◌, inl, inr, refl, sym, ap, true, false, Bool-cases,
  List, none, some, ltb, length, take, drop, arith, length-take, length-drop,
}
use cpp_wtfsc.Base.Spans.{patch, length-patch, span-patch, span-patch_other}
use cpp_wtfsc.Disk.Stream.{Stream, seekp, read, write}
use cpp_wtfsc.Disk.Vector.Layout.{Layout}
use cpp_wtfsc.Disk.Vector.DiskVector.{seek, get, put}

module _ {B T : Type 0} (null_byte : B) (layout : Layout B T) where
  -- The bytes of an element.
  abbrev bytes_of : List B → ℕ → List B
  bytes_of file pos = take layout.size (drop (pos * layout.size) file)

  length-bytes_of :
      (file : List B) (pos : ℕ)
      → pos * layout.size + layout.size ≤ length file
      → length (bytes_of file pos) ≡ layout.size
  length-bytes_of file pos h = omega (
    arith,
    length-take layout.size (drop (pos * layout.size) file),
    length-drop (pos * layout.size) file,
  )

  -- An offset that is neither wrapped nor negative.
  seek_lem :
      (io : Stream B) (pos : ℕ)
      → pos * layout.size < 2 ^ 63
      → seek null_byte layout io pos ≡ seekp io (pos * layout.size)
  unfolding seek
  seek_lem io pos h =
      let same : pos * layout.size % 2 ^ 64 ≡ pos * layout.size = omega arith in
      let small : ltb (pos * layout.size) (2 ^ 63) ≡ true = ground arith in rw (same, small) refl

  -- A `get` inside the file.
  get_inside :
      (io : Stream B) (pos : ℕ)
      → io.failed ≡ false
      → pos * layout.size < 2 ^ 63
      → pos * layout.size + layout.size ≤ length io.file
      → (io' : Stream B) × (get null_byte layout io pos
          ≡ (some (layout.from_bytes (bytes_of io.file pos)), io'))
        × (io'.failed ≡ false)
        × (io'.file ≡ io.file)
  unfolding get seekp read
  get_inside io pos ready near h =
      let whole : ltb (length (bytes_of io.file pos)) layout.size ≡ false =
        ground (arith, length-bytes_of io.file pos h) in
      (
        record {
          file = io.file;
          position = pos * layout.size + length (bytes_of io.file pos);
          failed = false;
        },
        rw (seek_lem io pos near, ready, whole) refl,
        refl,
        refl,
      )

  put_lem :
      (io : Stream B) (pos : ℕ) (v : T)
      → io.failed ≡ false
      → pos * layout.size < 2 ^ 63
      → ((put null_byte layout io pos v).failed ≡ false)
        × ((put null_byte layout io pos v).file
            ≡ patch null_byte io.file (pos * layout.size) (layout.to_bytes v))
  unfolding put seekp write
  put_lem io pos v ready near = rw (seek_lem io pos near, ready) (refl, refl)

  lt_or_ge : (p q : ℕ) → (p < q) ⊎ (q ≤ p)
  lt_or_ge p q = ground arith

  rows_below : (p q s : ℕ) → p < q → p * s + s ≤ q * s
  rows_below p q s h = grind arith

  elements_apart : (p q s k : ℕ) → p ≢ q → k ≡ s → (p * s + s ≤ q * s) ⊎ (q * s + k ≤ p * s)
  elements_apart p q s k ne e = elim (lt_or_ge p q) [
    | inl h ↦ inl (rows_below p q s h)
    | inr h ↦ inr (let r = rows_below q p s (omega arith) in omega arith)
  ]

  -- On a stream that can be used, and at an offset that is below 2 ^ 63, `get` after `put` at the same
  -- position returns the value that was put, and at any other position inside the file, at such an
  -- offset, what it would have returned before. The file then reaches at least to the end of that
  -- element, and every one of these calls leaves the stream so that it can be used.
  pub get-put :
      (io : Stream B) (pos : ℕ) (v : T)
      → io.failed ≡ false
      → pos * layout.size < 2 ^ 63
      → let io' = put null_byte layout io pos v in
        (io'.failed ≡ false)
        × ((pos + 1) * layout.size ≤ length io'.file)
        × ((n : Stream B) × (get null_byte layout io' pos ≡ (some v, n)) × (n.failed ≡ false))
        × ((other : ℕ)
            → other ≢ pos
            → (other + 1) * layout.size ≤ length io.file
            → other * layout.size < 2 ^ 63
            → (w : T) × (n n' : Stream B) × (get null_byte layout io other ≡ (some w, n))
              × (get null_byte layout io' other ≡ (some w, n'))
              × (n'.failed ≡ false))
  get-put io pos v ready near =
      let io' = put null_byte layout io pos v in
      let (ready', file') = put_lem io pos v ready near in
      let len = layout.length-to_bytes v in
      let long = length-patch null_byte io.file (pos * layout.size) (layout.to_bytes v) in
      let reach : pos * layout.size + layout.size ≤ length io'.file =
        rw file' (ground (arith, long)) in
      let (n, e, r, _) = get_inside io' pos ready' near reach in
      let back : bytes_of io'.file pos ≡ layout.to_bytes v =
        rw file' (span-patch null_byte io.file _ (layout.to_bytes v) layout.size len) in
      (
        ready',
        omega arith,
        (n, rw (back, layout.from_bytes-to_bytes v) at e, r),
        λ other ne h near'.
            let reach' : other * layout.size + layout.size ≤ length io'.file =
              rw file' (ground (arith, long)) in
            let (k, ek, _, _) = get_inside io other ready near' (omega arith) in
            let (k', ek', r', _) = get_inside io' other ready' near' reach' in
            let same : bytes_of io'.file other ≡ bytes_of io.file other = rw file' (
              span-patch_other null_byte io.file (pos * layout.size) (layout.to_bytes v)
                (other * layout.size) layout.size (omega arith)
                (elements_apart other pos layout.size (length (layout.to_bytes v)) ne len)) in
            (layout.from_bytes (bytes_of io.file other), k, k', ek, rw same at ek', r'),
      )

  -- A stream that failed.
  seek_failed : (io : Stream B) (pos : ℕ) → io.failed ≡ true → seek null_byte layout io pos ≡ io
  unfolding seek seekp
  seek_failed io pos f = elim (Bool-cases (ltb (pos * layout.size % 2 ^ 64) (2 ^ 63))) [
    | inl e ↦ rw e (ground (arith, f))
    | inr e ↦ rw e (ap (λ b. record io { failed = b }) (sym f))
  ]

  get_failed :
      (io : Stream B) (pos : ℕ) → io.failed ≡ true → get null_byte layout io pos ≡ (none, io)
  unfolding get read
  get_failed io pos f =
      let none_read : ltb 0 layout.size ≡ true = let s = layout.size_pos in ground arith in
      rw (seek_failed io pos f) (ground (arith, f, none_read))

  put_failed :
      (io : Stream B) (pos : ℕ) (v : T) → io.failed ≡ true → put null_byte layout io pos v ≡ io
  unfolding put write
  put_failed io pos v f = rw (seek_failed io pos f) (ground (arith, f))

  get_short :
      (io : Stream B) (pos : ℕ)
      → io.failed ≡ false
      → pos * layout.size < 2 ^ 63
      → length io.file < (pos + 1) * layout.size
      → get null_byte layout io pos ≡ (
        none,
        record {
          file = io.file;
          position = pos * layout.size + length (bytes_of io.file pos);
          failed = true;
        },
      )
  unfolding get seekp read
  get_short io pos r near h =
      let short : ltb (length (bytes_of io.file pos)) layout.size ≡ true = ground (
        arith,
        length-take layout.size (drop (pos * layout.size) io.file),
        length-drop (pos * layout.size) io.file,
      ) in
      rw (seek_lem io pos near, r, short) refl

  -- A `get` past the end of the file, at an offset below 2 ^ 63, leaves the stream failed: after it, no `put` changes the file any
  -- more, and no `get` returns a value.
  pub get_past_end :
      (io : Stream B) (pos : ℕ)
      → pos * layout.size < 2 ^ 63
      → length io.file < (pos + 1) * layout.size
      → let (got, io') = get null_byte layout io pos in
        (got ≡ none)
        × (io'.file ≡ io.file)
        × ((p : ℕ) (v : T) → put null_byte layout io' p v ≡ io')
        × ((p : ℕ) → get null_byte layout io' p ≡ (none, io'))
  get_past_end io pos near h = elim (Bool-cases io.failed) [
    | inl f ↦
        rw (get_failed io pos f) (refl, refl, λ p v. put_failed io p v f, λ p. get_failed io p f)
    | inr r ↦
        let stuck : Stream B = record {
          file = io.file;
          position = pos * layout.size + length (bytes_of io.file pos);
          failed = true;
        } in
        rw (get_short io pos r near h)
          (refl, refl, λ p v. put_failed stuck p v refl, λ p. get_failed stuck p refl)
  ]
