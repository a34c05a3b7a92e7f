-- ===== src/Vm/Rounds.antt =====
-- The loop of `deallocuvm` of xv6/vm.c ends.
use buffer_overflow_attack.Base.{
  Bool, Option, arith, false, if◌then◌else◌, ltb, refl, suc, true, zero, ℕ, ◌%◌, ◌*◌, ◌+◌, ◌≡◌, ◌≤◌,
}
use buffer_overflow_attack.Mmu.{page_size, kern_base, pdx, pg_addr}
use buffer_overflow_attack.Kalloc.{Kmem}
use buffer_overflow_attack.Vm.{find_pte}
use buffer_overflow_attack.Vm.Space.{dealloc_from, free_page}
use buffer_overflow_attack.Dir.Walk.{Ended, Ended-option, Ended-outcome}

Ended-if :
    {A : Type 0} (t : Bool) (x y : Option A)
    → (t ≡ true → Ended x)
    → (t ≡ false → Ended y)
    → Ended (if t then x else y)
Ended-if true x y h k = h refl
Ended-if false x y h k = k refl

module _ (end pgdir oldsz : ℕ) where
  -- The loop of `deallocuvm` ends, whatever the page table holds: from the start of a page on, so many
  -- rounds as take it up to the old size, a page in each, and one more are enough. The old size is at
  -- most KERNBASE.
  pub dealloc_from-Ended :
      (rounds a : ℕ) (k : Kmem)
      → a % page_size ≡ 0
      → oldsz ≤ kern_base
      → oldsz ≤ a + rounds * page_size
      → Ended (dealloc_from end (suc rounds) pgdir a oldsz k)
  unfolding dealloc_from
  dealloc_from-Ended zero a k aligned below enough =
      Ended-if (ltb a oldsz) _ _ (λ inside. absurd (ground arith)) (λ past. (_, refl))
  dealloc_from-Ended (suc rounds) a k aligned below enough =
      Ended-if (ltb a oldsz) _ _
        (λ inside.
          Ended-option (find_pte k.mem pgdir a) _ _
            (dealloc_from-Ended rounds (pg_addr (pdx a + 1) 0 0) k (omega arith) below
              (ground arith))
            λ p there.
              Ended-outcome (free_page end p k) _ λ k'.
                dealloc_from-Ended rounds (a + page_size) k' (omega arith) below (omega arith))
        (λ past. (_, refl))
