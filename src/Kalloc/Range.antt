-- ===== src/Kalloc/Range.antt =====
-- `freerange` of xv6/kalloc.c frees every whole page of a range.
use buffer_overflow_attack.Base.{
  List, [], arith, leb, some, suc, true, zero, ℕ, ◌%◌, ◌*◌, ◌+◌, ◌<◌, ◌∷◌, ◌≡◌, ◌≤◌,
}
use buffer_overflow_attack.Mmu.{page_size, phys_top, kern_base, pg_round_up}
use buffer_overflow_attack.Kalloc.{ok, Kmem, free_pages, freerange}
use buffer_overflow_attack.Kalloc.Chain.{NotIn, IsPage, Holds, kfree-push}

-- The pages from `p` on, the last first, in front of those that were free.
abbrev pub pages_from : ℕ → ℕ → List ℕ → List ℕ
pages_from p zero free = free
pages_from p (suc n) free = pages_from (p + page_size) n (p ∷ free)

-- Every page of the list stands below `p`.
abbrev pub Below : ℕ → List ℕ → Type 0
Below p [] = Unit {0}
Below p (x ∷ xs) = (x < p) × Below p xs

Below-NotIn : (p : ℕ) (xs : List ℕ) → Below p xs → NotIn p xs
Below-NotIn p [] b = tt
Below-NotIn p (x ∷ xs) b = (omega arith, Below-NotIn p xs b.1)

Below-mono : (p q : ℕ) (xs : List ℕ) → p ≤ q → Below p xs → Below q xs
Below-mono p q [] le b = tt
Below-mono p q (x ∷ xs) le b = (omega arith, Below-mono p q xs le b.1)

module _ (end : ℕ) where
  free_pages-lem :
      (n fuel : ℕ) {k : Kmem} {free : List ℕ} (p vend : ℕ)
      → n < fuel
      → p % page_size ≡ 0
      → end ≤ p
      → kern_base ≤ p
      → p + n * page_size ≤ vend
      → vend < p + n * page_size + page_size
      → vend ≤ kern_base + phys_top
      → Below p free
      → Holds end k free
      → (k' : Kmem) × (free_pages end fuel k p vend ≡ some (ok k'))
        × Holds end k' (pages_from p n free)
  unfolding free_pages
  free_pages-lem n zero p vend f al ab kb lo hi top below holds = absurd (omega arith)
  free_pages-lem zero (suc fuel) {k} p vend f al ab kb lo hi top below holds =
      (k, ground arith, holds)
  free_pages-lem (suc n) (suc fuel) {k} {free} p vend f al ab kb lo hi top below holds =
      let page : IsPage end p = omega arith in
      let (k1, e, holds1, same) = kfree-push end p holds page (Below-NotIn p free below) in
      let room : leb (p + page_size) vend ≡ true = ground arith in
      let (k2, e2, holds2) =
        free_pages-lem n fuel {k = k1} {free = p ∷ free} (p + page_size) vend (omega arith)
          (omega arith) (omega arith) (omega arith) (omega arith) (omega arith) top
          (omega arith, Below-mono p (p + page_size) free (omega arith) below) holds1 in
      (k2, rw (room, e) e2, holds2)

  -- `freerange` between kernel addresses behind the kernel ends without a panic, and puts every
  -- whole page of the range on the list, in front of free pages that stand below the range. The
  -- number of pages is `n`, and `n + 1` rounds are enough.
  pub freerange-pages :
      (n fuel : ℕ) {k : Kmem} {free : List ℕ} (vstart vend : ℕ)
      → n < fuel
      → end ≤ vstart
      → kern_base ≤ vstart
      → vend ≤ kern_base + phys_top
      → vstart ≤ kern_base + phys_top
      → pg_round_up vstart + n * page_size ≤ vend
      → vend < pg_round_up vstart + n * page_size + page_size
      → Below (pg_round_up vstart) free
      → Holds end k free
      → (k' : Kmem) × (freerange end fuel k vstart vend ≡ some (ok k'))
        × Holds end k' (pages_from (pg_round_up vstart) n free)
  unfolding freerange
  freerange-pages n fuel vstart vend f ab kb top top' lo hi below holds =
      free_pages-lem n fuel (pg_round_up vstart) vend f (omega arith) (omega arith) (omega arith) lo
        hi top below holds
