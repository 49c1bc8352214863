-- ===== src/MemoryPool/Pool/Chain.antt =====
-- The chain of blocks in src/memory_pool/MemoryPool.h: `next` and `prev` of the live blocks, and what
-- adding a block at the end and taking one out do to them.
use cpp_wtfsc.Base.{ℕ, ◌<◌, ◌≡◌, ◌≢◌, refl, Option, none, some, ◌==◌, if◌then◌else◌, arith, fun_ext}
use mathlib.Core.Path.{subst}

-- The `next` and the `prev` of each live block, as maps from addresses, agree with each other: they
-- form one chain from `first` to `current`, along which the addresses grow, as `malloc` gave them out.
pub record IsChain (next prev : ℕ → Option (Option ℕ)) (first current : ℕ) : Type 0 where
  pub there : (x : ℕ) → next x ≡ none → prev x ≡ none
  pub there' : (x : ℕ) → prev x ≡ none → next x ≡ none
  pub forth : (x y : ℕ) → next x ≡ some (some y) → prev y ≡ some (some x)
  pub back : (x y : ℕ) → prev y ≡ some (some x) → next x ≡ some (some y)
  pub ends : next current ≡ some none
  pub begins : prev first ≡ some none
  pub end_only : (x : ℕ) → next x ≡ some none → x ≡ current
  pub begin_only : (x : ℕ) → prev x ≡ some none → x ≡ first
  pub grows : (x y : ℕ) → next x ≡ some (some y) → x < y

-- Maps that answer alike make the same chain.
pub IsChain-same :
    {next next' prev prev' : ℕ → Option (Option ℕ)} {first current : ℕ}
    → IsChain next prev first current
    → ((z : ℕ) → next z ≡ next' z)
    → ((z : ℕ) → prev z ≡ prev' z)
    → IsChain next' prev' first current
IsChain-same {next} {next'} {prev} {prev'} {first} {current} chain h k =
    subst (λ n. IsChain n prev' first current) (fun_ext h)
      (subst (λ p. IsChain next p first current) (fun_ext k) chain)

module _ (next prev : ℕ → Option (Option ℕ)) (first current : ℕ)
    (chain : IsChain next prev first current) where
  pub append-IsChain :
      (a : ℕ)
      → next a ≡ none
      → current < a
      → IsChain
          (λ z. if z == current then some (some a) else if z == a then some none else next z)
          (λ z. if z == a then some (some current) else prev z)
          first
          a
  append-IsChain a new above = record {
    there = λ x h. ground (arith, chain.there x);
    there' = λ x h. ground (arith, chain.there' x, chain.ends, chain.there' current);
    forth = λ x y h. ground (arith, chain.forth x y, chain.ends, chain.there y);
    back = λ x y h. ground (arith, chain.back x y, chain.ends, chain.there a new);
    ends = ground (arith, chain.ends);
    begins = ground (arith, chain.begins, chain.there a new);
    end_only = λ x h. ground (arith, chain.end_only x, chain.ends);
    begin_only = λ x h. ground (arith, chain.begin_only x);
    grows = λ x y h. ground (arith, chain.grows x y);
  }

  -- Only the last block has no next one, and only the first has no previous one.
  pub has_next : (x : ℕ) → next x ≢ none → x ≢ current → (n : ℕ) × (next x ≡ some (some n))
  has_next x live ne = go (next x) refl
    where
      go : (o : Option (Option ℕ)) → next x ≡ o → (n : ℕ) × (next x ≡ some (some n))
      go none e = absurd (live e)
      go (some none) e = absurd (ne (chain.end_only x e))
      go (some (some n)) e = (n, e)

  pub has_prev : (x : ℕ) → prev x ≢ none → x ≢ first → (p : ℕ) × (prev x ≡ some (some p))
  has_prev x live ne = go (prev x) refl
    where
      go : (o : Option (Option ℕ)) → prev x ≡ o → (p : ℕ) × (prev x ≡ some (some p))
      go none e = absurd (live e)
      go (some none) e = absurd (ne (chain.begin_only x e))
      go (some (some p)) e = (p, e)

  pub remove_first-IsChain :
      (n : ℕ)
      → next first ≡ some (some n)
      → IsChain
          (λ z. if z == first then none else next z)
          (λ z. if z == first then none else if z == n then some none else prev z)
          n
          current
  remove_first-IsChain n e = record {
    there = λ x h. ground (arith, chain.there x, chain.forth first n e);
    there' = λ x h. ground (arith, chain.there' x);
    forth = λ x y h. ground (arith, chain.forth x y, chain.begins, chain.forth first n e);
    back = λ x y h. ground (arith, chain.back x y, e);
    ends = ground (arith, chain.ends, e);
    begins = ground (arith, chain.begins, chain.forth first n e);
    end_only = λ x h. ground (arith, chain.end_only x);
    begin_only = λ x h. ground (arith, chain.begin_only x);
    grows = λ x y h. ground (arith, chain.grows x y);
  }

  pub remove_current-IsChain :
      (p : ℕ)
      → prev current ≡ some (some p)
      → IsChain
          (λ z. if z == current then none else if z == p then some none else next z)
          (λ z. if z == current then none else prev z)
          first
          p
  remove_current-IsChain p e = record {
    there = λ x h. ground (arith, chain.there x);
    there' = λ x h. ground (arith, chain.there' x, chain.back p current e);
    forth = λ x y h. ground (arith, chain.forth x y, e);
    back = λ x y h. ground (arith, chain.back x y, chain.ends, chain.back p current e);
    ends = ground (arith, chain.ends, chain.back p current e);
    begins = ground (arith, chain.begins, e);
    end_only = λ x h. ground (arith, chain.end_only x);
    begin_only = λ x h. ground (arith, chain.begin_only x);
    grows = λ x y h. ground (arith, chain.grows x y);
  }

  pub remove_between-IsChain :
      (x p n : ℕ)
      → prev x ≡ some (some p)
      → next x ≡ some (some n)
      → IsChain
          (λ z. if z == x then none else if z == p then some (some n) else next z)
          (λ z. if z == x then none else if z == n then some (some p) else prev z)
          first
          current
  remove_between-IsChain x p n e f = record {
    there = λ z h. ground (arith, chain.there z, chain.forth x n f, chain.back p x e);
    there' = λ z h. ground (arith, chain.there' z, chain.forth x n f, chain.back p x e);
    forth = λ z y h. ground (arith, chain.forth z y, e, f, chain.back p x e, chain.forth x n f);
    back = λ z y h. ground (arith, chain.back z y, e, f, chain.forth x n f, chain.back p x e);
    ends = ground (arith, chain.ends, f, chain.back p x e);
    begins = ground (arith, chain.begins, e, chain.forth x n f);
    end_only = λ z h. ground (arith, chain.end_only z);
    begin_only = λ z h. ground (arith, chain.begin_only z);
    grows = λ z y h.
        ground (arith, chain.grows z y, chain.grows x n f, chain.grows p x (chain.back p x e));
  }
