-- ===== src/MemoryPool/Pool/Destroys.antt =====
-- The destructor of src/memory_pool/MemoryPool.h frees every block.
use cpp_wtfsc.Base.{
  ℕ, zero, suc, ◌+◌, ◌≤◌, ◌<◌, ◌≡◌, ◌≢◌, refl, ap, ◌∙◌, List, Option, none, some, ◌==◌,
  if◌then◌else◌, arith,
}
use mathlib.Core.Path.{subst, sym}
use cpp_wtfsc.MemoryPool.Pool.{
  BlockHeader, UnitHeader, MemoryPool, ok, undefined, ◌>>=◌, store, free_from, destroy,
}
use cpp_wtfsc.MemoryPool.Pool.Chain.{IsChain, IsChain-same, remove_first-IsChain}
use cpp_wtfsc.MemoryPool.Pool.Units.{next_of, prev_of, IsPool}

-- A chain that ends where it begins has no other block.
one_block :
    (next prev : ℕ → Option (Option ℕ)) (a : ℕ)
    → IsChain next prev a a
    → (n x : ℕ) → x < n
    → x ≢ a
    → next x ≡ none
one_block next prev a chain zero x h ne = absurd (omega arith)
one_block next prev a chain (suc n) x h ne = go (one_block next prev a chain n) (prev x) refl
  where
    go :
        ((y : ℕ) → y < n → y ≢ a → next y ≡ none)
        → (o : Option (Option ℕ)) → prev x ≡ o
        → next x ≡ none
    go below none e = chain.there' x e
    go below (some none) e = absurd (ne (chain.begin_only x e))
    go below (some (some y)) e =
        let f = chain.back y x e in
        let less = chain.grows y x f in ground (arith, f, chain.ends, below y)

-- The block that has no next one is the only one left, where it is the first.
only :
    (pool : MemoryPool) (prev : ℕ → Option (Option ℕ)) (a current : ℕ)
    → IsChain (next_of pool) prev a current
    → next_of pool a ≡ some none
    → (x : ℕ) → x ≢ a
    → pool.blocks x ≡ none
only pool prev a current chain last x ne =
    let same = chain.end_only a last in
    let whole : IsChain (next_of pool) prev a a =
      subst (λ c. IsChain (next_of pool) prev a c) (sym same) chain in
    let dead = one_block (next_of pool) prev a whole (suc x) x (omega arith) ne in
    ground (arith, dead)

free_from_run :
    (rounds : ℕ) (pool : MemoryPool) (a : ℕ) (b : BlockHeader)
    → pool.blocks a ≡ some b
    → free_from (suc rounds) pool (some a) ≡ free_from rounds (store pool a none) b.next
unfolding free_from
free_from_run rounds pool a b here =
    ap
      (λ o. elim o [ none ↦ undefined | some block ↦ ok block ] >>= λ block.
        free_from rounds (store pool a none) block.next)
      here

-- What is left of a chain of blocks is freed, in as many rounds as there are addresses ahead.
free_from_lem :
    (rounds : ℕ) (pool : MemoryPool) (prev : ℕ → Option (Option ℕ)) (a current : ℕ)
    → IsChain (next_of pool) prev a current
    → ((x : ℕ) → pool.next_address ≤ x → pool.blocks x ≡ none)
    → pool.next_address ≤ a + rounds
    → (pool' : MemoryPool) × (free_from rounds pool (some a) ≡ ok pool')
      × ((x : ℕ) → pool'.blocks x ≡ none)
unfolding free_from
free_from_lem zero pool prev a current chain fresh enough =
    absurd (let dead = fresh a (omega arith) in ground (arith, dead, chain.there a, chain.begins))
free_from_lem (suc rounds) pool prev a current chain fresh enough =
    go (λ n. free_from_lem rounds (store pool a none) (minus n) n current) (pool.blocks a) refl
  where
    minus : ℕ → ℕ → Option (Option ℕ)
    minus n z = if z == a then none else if z == n then some none else prev z

    go :
        ((n : ℕ)
          → IsChain (next_of (store pool a none)) (minus n) n current
          → ((x : ℕ) → pool.next_address ≤ x → (store pool a none).blocks x ≡ none)
          → pool.next_address ≤ n + rounds
          → (pool' : MemoryPool) × (free_from rounds (store pool a none) (some n) ≡ ok pool')
            × ((x : ℕ) → pool'.blocks x ≡ none))
        → (o : Option BlockHeader) → pool.blocks a ≡ o
        → (pool' : MemoryPool) × (free_from (suc rounds) pool (some a) ≡ ok pool')
          × ((x : ℕ) → pool'.blocks x ≡ none)
    go rest none dead = absurd (ground (arith, dead, chain.there a, chain.begins))
    go rest (some b) here =
        let (pool', e, dead) = after b.next refl in
        (pool', free_from_run rounds pool a b here ∙ e, dead)
      where
        after :
            (o : Option ℕ)
            → b.next ≡ o
            → (pool' : MemoryPool) × (free_from rounds (store pool a none) o ≡ ok pool')
              × ((x : ℕ) → pool'.blocks x ≡ none)
        after none e =
            let last : next_of pool a ≡ some none = ground (arith, here, e) in
            let alone = only pool prev a current chain last in
            (store pool a none, refl, λ x. ground (arith, alone x))
        after (some n) e =
            let link : next_of pool a ≡ some (some n) = ground (arith, here, e) in
            rest n
              (IsChain-same (remove_first-IsChain (next_of pool) prev a current chain n link)
                (λ z. ground arith) (λ z. refl))
              (λ x h. ground (arith, fresh x h)) (let more = chain.grows a n link in omega arith)

-- The destructor of a pool in order frees every block of it, and none twice: the loop ends, reads no
-- block that was freed, and leaves no block live, whatever units are still in use.
pub destroy_lem :
    (pool : MemoryPool) (us : List UnitHeader)
    → IsPool pool us
    → (pool' : MemoryPool) × (destroy pool ≡ ok pool') × ((x : ℕ) → pool'.blocks x ≡ none)
unfolding destroy
destroy_lem pool us v =
    let (pool', e, dead) =
      free_from_lem pool.next_address pool (prev_of pool) v.first v.current v.chain v.fresh
        (omega arith) in
    (pool', ap (free_from pool.next_address pool) v.is_first ∙ e, dead)
