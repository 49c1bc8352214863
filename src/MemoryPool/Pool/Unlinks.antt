-- ===== src/MemoryPool/Pool/Unlinks.antt =====
-- Taking a block out of the chain in src/memory_pool/MemoryPool.h, at each of the three places.
use cpp_wtfsc.Base.{ℕ, ◌≤◌, ◌≡◌, ◌≢◌, refl, sym, List, [], ◌∷◌, none, some, arith}
use native.Mathlib.Decide.{ℕ_discrete}
use cpp_wtfsc.MemoryPool.Pool.{BlockHeader, UnitHeader, MemoryPool, ok, store, unlink}
use cpp_wtfsc.MemoryPool.Pool.Chain.{
  IsChain, IsChain-same, has_next, has_prev, remove_first-IsChain, remove_current-IsChain,
  remove_between-IsChain,
}
use cpp_wtfsc.MemoryPool.Pool.Units.{next_of, prev_of, offset_of, count_in, AllInside, IsPool}
use cpp_wtfsc.MemoryPool.Pool.Links.{
  Alike, Alike-trans, Alike-next, Alike-prev, Alike-gone, next_after_next, prev_after_next,
  next_after_prev, prev_after_prev, next_after_gone, prev_after_gone, Alike-ends, block_of,
  block_of_next, between_run,
}

-- The other blocks are filled as before.
inside_without :
    (pool pool' : MemoryPool) (us : List UnitHeader) (x : ℕ)
    → count_in us x ≡ 0
    → ((z : ℕ) → z ≢ x → offset_of pool z ≤ offset_of pool' z)
    → AllInside pool us
    → AllInside pool' us
inside_without pool pool' [] x c h v = tt
inside_without pool pool' (u ∷ us) x c h v =
    ((let k = h u.container in ground arith), inside_without pool pool' us x (ground arith) h v.1)

module _ (pool : MemoryPool) (us : List UnitHeader) (v : IsPool pool us) (x : ℕ) (b : BlockHeader)
    (here : pool.blocks x ≡ some b) (unused : count_in us x ≡ 0) where
  -- A pool without the block, and with the others as they were.
  removed-IsPool :
      (pool' : MemoryPool) (f c : ℕ)
      → pool'.first_block ≡ some f
      → pool'.current_block ≡ some c
      → IsChain (next_of pool') (prev_of pool') f c
      → pool'.blocks x ≡ none
      → ((z : ℕ) → z ≢ x → Alike pool pool' z)
      → pool'.next_address ≡ pool.next_address
      → pool'.default_block_size ≡ pool.default_block_size
      → IsPool pool' us
  removed-IsPool pool' f c e1 e2 chain gone alike next default = record {
    first = f;
    current = c;
    is_first = e1;
    is_current = e2;
    chain = chain;
    fresh = λ a h. elim (ℕ_discrete a x) [
      | yes e ↦ rw e gone
      | no ne ↦ (alike a ne).absent (v.fresh a (omega arith))
    ];
    bounded = λ z. elim (ℕ_discrete z x) [
      | yes e ↦ rw e (ground (arith, gone, unused))
      | no ne ↦ let k = alike z ne in rw (← k.offsets, ← k.sizes) (v.bounded z)
    ];
    sized = λ z. elim (ℕ_discrete z x) [
      | yes e ↦ rw e (ground (arith, gone, unused))
      | no ne ↦ let k = alike z ne in rw (← k.sizes) (v.sized z)
    ];
    counted = λ z. elim (ℕ_discrete z x) [
      | yes e ↦ rw e (ground (arith, gone, unused))
      | no ne ↦ let k = alike z ne in rw (← k.deletions, ← k.allocations) (v.counted z)
    ];
    small = rw default v.small;
    inside =
        inside_without pool pool' us x unused (λ z ne. let k = (alike z ne).offsets in omega arith)
          v.inside;
    apart = v.apart;
  }

  abbrev pub Unlinked : Type 0
  Unlinked = (pool' : MemoryPool) × (unlink pool x b ≡ ok pool') × IsPool pool' us

  unlink_first_at :
      (n : ℕ) (nb : BlockHeader)
      → next_of pool v.first ≡ some (some n)
      → b.next ≡ some n
      → pool.blocks n ≡ some nb
      → x ≡ v.first
      → Unlinked
  unfolding unlink
  unlink_first_at n nb en next_n nb_here e =
      let pool0 = record pool { first_block = b.next } in
      let pool1 = store pool0 n (some (record nb { prev = none })) in
      let pool' = store pool1 x none in
      let alike : (z : ℕ) → z ≢ x → Alike pool pool' z = λ z ne'.
        Alike-ends pool pool' b.next pool.current_block z (
          Alike-trans pool0 pool1 pool' z (Alike-prev pool0 n nb none nb_here z)
            (Alike-gone pool1 x z ne')) in
      let chain : IsChain (next_of pool') (prev_of pool') n v.current =
        IsChain-same
          (remove_first-IsChain (next_of pool) (prev_of pool) v.first v.current v.chain n en)
          (λ z. ground (arith, nb_here, e)) (λ z. ground (arith, nb_here, e)) in
      (
        pool',
        ground (arith, here, next_n, nb_here, v.is_first, e),
        removed-IsPool pool' n v.current next_n v.is_current chain (ground arith) alike refl refl,
      )

  unlink_first : x ≡ v.first → v.current ≢ v.first → Unlinked
  unlink_first e ne =
      let (n, en) = has_next _ _ _ _ v.chain v.first (ground (arith, here, e)) (λ f. ne (sym f)) in
      let (nb, nb_here) = block_of pool n (ground (arith, v.chain.forth v.first n en)) in
      unlink_first_at n nb en (ground (arith, here, en, e)) nb_here e

  unlink_current_at :
      (p : ℕ) (pb : BlockHeader)
      → prev_of pool v.current ≡ some (some p)
      → b.prev ≡ some p
      → pool.blocks p ≡ some pb
      → x ≡ v.current
      → v.current ≢ v.first
      → Unlinked
  unfolding unlink
  unlink_current_at p pb ep prev_p pb_here e ne =
      let pool0 = record pool { current_block = b.prev } in
      let pool1 = store pool0 p (some (record pb { next = none })) in
      let pool' = store pool1 x none in
      let alike : (z : ℕ) → z ≢ x → Alike pool pool' z = λ z ne'.
        Alike-ends pool pool' pool.first_block b.prev z (
          Alike-trans pool0 pool1 pool' z (Alike-next pool0 p pb none pb_here z)
            (Alike-gone pool1 x z ne')) in
      let chain : IsChain (next_of pool') (prev_of pool') v.first p =
        IsChain-same
          (remove_current-IsChain (next_of pool) (prev_of pool) v.first v.current v.chain p ep)
          (λ z. ground (arith, pb_here, e)) (λ z. ground (arith, pb_here, e)) in
      (
        pool',
        ground (arith, here, prev_p, pb_here, v.is_first, v.is_current, e, ne),
        removed-IsPool pool' v.first p v.is_first prev_p chain (ground arith) alike refl refl,
      )

  unlink_current : x ≡ v.current → v.current ≢ v.first → Unlinked
  unlink_current e ne =
      let (p, ep) = has_prev _ _ _ _ v.chain v.current (ground (arith, here, e)) ne in
      let (pb, pb_here) = block_of_next pool p (ground (arith, v.chain.back p v.current ep)) in
      unlink_current_at p pb ep (ground (arith, here, ep, e)) pb_here e ne

  unlink_between_at :
      (p n : ℕ) (pb nb : BlockHeader)
      → prev_of pool x ≡ some (some p)
      → next_of pool x ≡ some (some n)
      → b.prev ≡ some p
      → b.next ≡ some n
      → pool.blocks p ≡ some pb
      → (store pool p (some (record pb { next = b.next }))).blocks n ≡ some nb
      → x ≢ v.first
      → x ≢ v.current
      → Unlinked
  unlink_between_at p n pb nb ep en prev_p next_n pb_here nb_here nf nc =
      let pool1 = store pool p (some (record pb { next = b.next })) in
      let pool2 = store pool1 n (some (record nb { prev = b.prev })) in
      let pool' = store pool2 x none in
      let alike : (z : ℕ) → z ≢ x → Alike pool pool' z = λ z ne'.
        Alike-trans pool pool1 pool' z (Alike-next pool p pb b.next pb_here z) (
          Alike-trans pool1 pool2 pool' z (Alike-prev pool1 n nb b.prev nb_here z)
            (Alike-gone pool2 x z ne')) in
      let chain : IsChain (next_of pool') (prev_of pool') v.first v.current =
        IsChain-same
          (remove_between-IsChain (next_of pool) (prev_of pool) v.first v.current v.chain x p n ep
            en)
          (λ z.
            rw
              (
                next_after_gone pool2 x z,
                next_after_prev pool1 n nb b.prev nb_here z,
                next_after_next pool p pb b.next pb_here z,
                next_n,
              )
              refl)
          (λ z.
            rw
              (
                prev_after_gone pool2 x z,
                prev_after_prev pool1 n nb b.prev nb_here z,
                prev_after_next pool p pb b.next pb_here z,
                prev_p,
              )
              refl) in
      (
        pool',
        between_run pool x b p n pb nb (let f = v.is_first in ground arith)
            (let c = v.is_current in ground arith) prev_p next_n pb_here nb_here,
        removed-IsPool pool' v.first v.current v.is_first v.is_current chain (ground arith) alike
            refl refl,
      )

  unlink_between : x ≢ v.first → x ≢ v.current → Unlinked
  unlink_between nf nc =
      let (p, ep) = has_prev _ _ _ _ v.chain x (ground (arith, here)) nf in
      let (n, en) = has_next _ _ _ _ v.chain x (ground (arith, here)) nc in
      let (pb, pb_here) = block_of_next pool p (ground (arith, v.chain.back p x ep)) in
      let back_n = v.chain.forth x n en in
      let pool1 = store pool p (some (record pb { next = b.next })) in
      let (nb, nb_here) =
        block_of pool1 n
          (rw (prev_after_next pool p pb b.next pb_here n) (ground (arith, back_n))) in
      unlink_between_at p n pb nb ep en (ground (arith, here, ep)) (ground (arith, here, en))
        pb_here nb_here nf nc

  -- A block without a unit in use can be taken out of a chain of more than one.
  pub unlink_lem : v.current ≢ v.first → Unlinked
  unlink_lem ne = elim (ℕ_discrete x v.first) [
    | yes e ↦ unlink_first e ne
    | no nf ↦ elim (ℕ_discrete x v.current) [
      | yes e ↦ unlink_current e ne
      | no nc ↦ unlink_between nf nc
    ]
  ]
