-- ===== src/Kalloc.antt =====
-- xv6/kalloc.c: the free pages, linked through their first words. The lock of the list stands for
-- the atomicity of each call and is not part of the state.
pub mod Chain
pub mod Range
use buffer_overflow_attack.Base.{
  Option, if◌then◌else◌, leb, ltb, none, not, some, suc, zero, ℕ, ◌%◌, ◌+◌, ◌==◌, ◌||◌,
}
use buffer_overflow_attack.Mmu.{page_size, phys_top, v2p, pg_round_up}
use buffer_overflow_attack.Str.{Memory, memset, write_word, word_at}

-- What a call of the kernel leads to: a value, or `panic`, which halts the machine.
pub data Outcome (A : Type 0) : Type 0 where
  ok : A → Outcome A
  panic : Outcome A

infixl 5 ◌>>=◌
abbrev pub ◌>>=◌ : {A B : Type 0} → Outcome A → (A → Outcome B) → Outcome B
ok a >>= k = k a
panic >>= k = panic

-- `kmem` and the memory that it manages.
pub record Kmem : Type 0 where
  pub mem : Memory
  pub freelist : ℕ

-- `end` is the first address behind the kernel, set by the linker.
module _ (end : ℕ) where
  unfoldable pub kfree : Kmem → ℕ → Outcome Kmem
  kfree k v =
      if not (v % page_size == 0) || ltb v end || leb phys_top (v2p v)
      then panic
      else (let junk = memset k.mem v 1 page_size in
          ok (record { mem = write_word junk v k.freelist; freelist = v }))

  -- The loop of `freerange` on fuel: `none` is a loop that goes on.
  unfoldable pub free_pages : ℕ → Kmem → ℕ → ℕ → Option (Outcome Kmem)
  unfolding kfree
  free_pages zero k p vend = none
  free_pages (suc fuel) k p vend =
      if leb (p + page_size) vend
      then elim (kfree k p) [ ok k' ↦ free_pages fuel k' (p + page_size) vend | panic ↦ some panic ]
      else some (ok k)

  unfoldable pub freerange : ℕ → Kmem → ℕ → ℕ → Option (Outcome Kmem)
  unfolding free_pages
  freerange fuel k vstart vend = free_pages fuel k (pg_round_up vstart) vend

-- The address is 0 if there is no free page.
unfoldable pub kalloc : Kmem → ℕ × Kmem
kalloc k =
    if k.freelist == 0
    then (0, k)
    else (k.freelist, record k { freelist = word_at k.mem k.freelist })
