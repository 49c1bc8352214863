-- ===== src/MemoryPool/Pool/Deallocates.antt =====
-- `deallocate` of src/memory_pool/MemoryPool.h keeps a pool in order.
use cpp_wtfsc.Base.{
  ℕ, suc, ◌+◌, ◌-◌, ◌^◌, ◌≤◌, ◌<◌, ◌≡◌, ◌≢◌, inl, inr, refl, ◌∙◌, Bool, true, false, not, ◌&&◌,
  ◌||◌, Bool-cases, List, [], ◌∷◌, ◌++◌, Option, none, some, ◌==◌, if◌then◌else◌, arith,
}
use cpp_wtfsc.MemoryPool.Pool.{
  BlockHeader, UnitHeader, MemoryPool, ok, unit_header, add_size, sub_size, store, deref,
  same_pointer, retire, unlink, deallocate,
}
use cpp_wtfsc.MemoryPool.Pool.Chain.{IsChain-same}
use cpp_wtfsc.MemoryPool.Pool.Units.{
  offset_of, end_of, count_in, AllInside, ApartFrom, IsPool, front-IsPool, inside_still,
}
use cpp_wtfsc.MemoryPool.Pool.Unlinks.{unlink_lem}

-- A block that is not filled holds no unit.
none_inside :
    (pool : MemoryPool) (us : List UnitHeader) (x : ℕ)
    → offset_of pool x ≡ 0
    → AllInside pool us
    → count_in us x ≡ 0
none_inside pool [] x h v = refl
none_inside pool (u ∷ us) x h v = ground (arith, none_inside pool us x h v.1)

-- The units behind the last one of a block are filled as before without it.
inside_below :
    (pool pool' : MemoryPool) (u : UnitHeader) (us : List UnitHeader)
    → end_of u ≡ offset_of pool u.container
    → offset_of pool' u.container ≡ u.position
    → ((z : ℕ) → z ≢ u.container → offset_of pool z ≡ offset_of pool' z)
    → ApartFrom u us
    → AllInside pool us
    → AllInside pool' us
inside_below pool pool' u [] e f h a v = tt
inside_below pool pool' u (w ∷ us) e f h a v =
    ((let k = h w.container in ground arith), inside_below pool pool' u us e f h a.1 v.1)

-- A pool in which the block of a unit has another count and is filled no further.
restored-IsPool :
    (pool : MemoryPool) (u : UnitHeader) (us : List UnitHeader) (b b' : BlockHeader)
    → IsPool pool (u ∷ us)
    → pool.blocks u.container ≡ some b
    → b'.next ≡ b.next
    → b'.prev ≡ b.prev
    → b'.block_size ≡ b.block_size
    → b'.offset ≤ b.offset
    → b'.deleted + count_in us u.container ≡ b'.allocated
    → AllInside (store pool u.container (some b')) us
    → IsPool (store pool u.container (some b')) us
restored-IsPool pool u us b b' v here en ep es eo ec inside = record {
  first = v.first;
  current = v.current;
  is_first = v.is_first;
  is_current = v.is_current;
  chain = IsChain-same v.chain (λ z. ground (arith, here, en)) (λ z. ground (arith, here, ep));
  fresh = λ a h. ground (arith, v.fresh a, here);
  bounded = λ z. ground (arith, v.bounded z, here, es, eo);
  sized = λ z. ground (arith, v.sized z, here, es);
  counted = λ z. ground (arith, v.counted z, here, ec);
  small = v.small;
  inside = inside;
  apart = v.apart.1;
}

-- A pool whose block took note that a unit is not used any more.
retire_lem :
    (pool : MemoryPool) (u : UnitHeader) (us : List UnitHeader) (b : BlockHeader)
    → IsPool pool (u ∷ us)
    → pool.blocks u.container ≡ some b
    → IsPool (store pool u.container (some (retire b u))) us
unfolding retire
retire_lem pool u us b v here =
    let c = u.container in
    let small : b.block_size < 2 ^ 63 = ground (arith, v.sized c, here) in
    let filled : b.offset ≤ b.block_size = ground (arith, v.bounded c, here) in
    let total : b.deleted + suc (count_in us c) ≡ b.allocated = ground (arith, v.counted c, here) in
    elim (Bool-cases (b.offset == end_of u)) [
      | inl last ↦
          let b' : BlockHeader = record b {
            offset = sub_size b.offset (add_size unit_header u.length);
            allocated = b.allocated - 1;
          } in
          let at_end : b.offset ≡ end_of u = ground arith in
          let back : sub_size b.offset (add_size unit_header u.length) ≡ u.position = omega arith in
          rw last (
            restored-IsPool pool u us b b' v here refl refl refl (omega arith) (omega arith) (
              inside_below pool (store pool c (some b')) u us (ground (arith, here, at_end))
                (ground (arith, back)) (λ z ne. ground (arith, here)) v.apart.0 v.inside.1))
      | inr far ↦
          let b' : BlockHeader = record b { deleted = b.deleted + 1 } in
          rw far (
            restored-IsPool pool u us b b' v here refl refl refl (omega arith) (omega arith) (
              inside_still pool (store pool c (some b')) us (λ z. ground (arith, here)) v.inside.1))
    ]

chosen : {A : Type 0} {t : Bool} → t ≡ true → (a b : A) → (if t then a else b) ≡ a
chosen e a b = rw e refl

skipped : {A : Type 0} {t : Bool} → t ≡ false → (a b : A) → (if t then a else b) ≡ b
skipped e a b = rw e refl

block_of_filled :
    (pool : MemoryPool) (x : ℕ)
    → 1 ≤ offset_of pool x
    → (b : BlockHeader) × (pool.blocks x ≡ some b)
block_of_filled pool x h = go (pool.blocks x) refl
  where
    go : (o : Option BlockHeader) → pool.blocks x ≡ o → (b : BlockHeader) × (pool.blocks x ≡ some b)
    go none e = absurd (ground arith)
    go (some b) e = (b, e)

-- When the block of the unit is taken out.
abbrev unlinks : MemoryPool → BlockHeader → Bool
unlinks pool block =
    not (same_pointer pool.current_block pool.first_block)
    && (block.offset == 0 || block.allocated == block.deleted)

-- Then no unit of it is in use, and it is not the only block.
unlinks_lem :
    (pool : MemoryPool) (us : List UnitHeader) (v : IsPool pool us) (x : ℕ) (b : BlockHeader)
    → pool.blocks x ≡ some b
    → unlinks pool b ≡ true
    → (count_in us x ≡ 0) × (v.current ≢ v.first)
unlinks_lem pool us v x b here t =
    let empty : offset_of pool x ≡ 0 → count_in us x ≡ 0 = λ h. none_inside pool us x h v.inside in
    let total : b.deleted + count_in us x ≡ b.allocated = ground (arith, v.counted x, here) in
    let filled : offset_of pool x ≡ b.offset = ground (arith, here) in
    (
      ground (arith, empty, total, filled, t),
      λ e. let f = v.is_first in let c = v.is_current in ground (arith, t, e),
    )

deallocate_run :
    (pool : MemoryPool) (u : UnitHeader) (b : BlockHeader)
    → pool.blocks u.container ≡ some b
    → deallocate pool (some u) ≡ (
        let pool' = store pool u.container (some (retire b u)) in
        if unlinks pool (retire b u) then unlink pool' u.container (retire b u) else ok pool')
unfolding deallocate
deallocate_run pool u b here =
    let d : deref pool u.container ≡ ok b = ground (arith, here) in rw d refl

deallocate_front :
    (pool : MemoryPool) (u : UnitHeader) (us : List UnitHeader)
    → IsPool pool (u ∷ us)
    → (pool' : MemoryPool) × (deallocate pool (some u) ≡ ok pool') × IsPool pool' us
deallocate_front pool u us v =
    let (b, here) = block_of_filled pool u.container (let i = v.inside.0 in omega arith) in
    let run = deallocate_run pool u b here in
    let block = retire b u in
    let pool1 = store pool u.container (some block) in
    let w = retire_lem pool u us b v here in
    let now : pool1.blocks u.container ≡ some block = ground arith in
    elim (Bool-cases (unlinks pool block)) [
      | inl t ↦
          let (unused, ne) = unlinks_lem pool1 us w u.container block now t in
          let (pool', e, order) = unlink_lem pool1 us w u.container block now unused ne in
          (pool', run ∙ chosen t _ _ ∙ e, order)
      | inr t ↦ (pool1, run ∙ skipped t _ _, w)
    ]

-- Any unit in use of a pool that is in order can be given back: `deallocate` is defined, and leaves the
-- pool in order with the other units in use. So a block that it frees holds none of them.
pub deallocate_lem :
    (pool : MemoryPool) (vs : List UnitHeader) (u : UnitHeader) (us : List UnitHeader)
    → IsPool pool (vs ++ u ∷ us)
    → (pool' : MemoryPool) × (deallocate pool (some u) ≡ ok pool') × IsPool pool' (vs ++ us)
deallocate_lem pool vs u us v = deallocate_front pool u (vs ++ us) (front-IsPool u us pool vs v)
