-- ===== src/Vm.antt =====
-- xv6/vm.c: the page tables of processes, which lie in memory as words. An address is a kernel
-- address of 32 bits.
pub mod Map
pub mod Space
pub mod Rounds
pub mod Empty
use buffer_overflow_attack.Base.{
  Bool, List, Option, drop, false, if◌then◌else◌, length, min, none, not, some, suc, take, true,
  zero, ℕ, ◌%◌, ◌*◌, ◌+◌, ◌-◌, ◌/◌, ◌==◌, ◌^◌,
}
use buffer_overflow_attack.Mmu.{page_size, p2v, pdx, pg_round_down, ptx, v2p}
use buffer_overflow_attack.Str.{Memory, memset, word_at, write_word}
use buffer_overflow_attack.Inode.Content.{blit}
use buffer_overflow_attack.Kalloc.{Kmem, kalloc, Outcome, ok, panic, ◌>>=◌}

-- PTE_P, PTE_W and PTE_U are the bits 0, 1 and 2 of an entry. PTE_ADDR and PTE_FLAGS are its high
-- twenty bits and its low twelve.
abbrev pub pte_present : ℕ → Bool
pte_present e = e % 2 == 1

abbrev pub pte_user : ℕ → Bool
pte_user e = e / 4 % 2 == 1

abbrev pub pte_addr : ℕ → ℕ
pte_addr e = e / page_size * page_size

abbrev pub pte_flags : ℕ → ℕ
pte_flags e = e % page_size

abbrev pub n_entries : ℕ
n_entries = 1024

-- The addresses of `pgdir[PDX(va)]`, and of `pgtab[PTX(va)]` in the table that an entry of the
-- directory names.
abbrev pub pde_at : ℕ → ℕ → ℕ
pde_at pgdir va = pgdir + pdx va * 4

abbrev pub pte_at : ℕ → ℕ → ℕ
pte_at pgtab va = pgtab + ptx va * 4

abbrev pub table_of : ℕ → ℕ
table_of pde = p2v (pte_addr pde)

-- `walkpgdir` with `alloc` 0: the address of the entry; `none` is the null pointer.
unfoldable pub find_pte : Memory → ℕ → ℕ → Option ℕ
find_pte m pgdir va =
    let pde = word_at m (pde_at pgdir va) in
    if pte_present pde then some (pte_at (table_of pde) va) else none

-- The new table of `walkpgdir`, in the page at `pgtab`. Its address is that of a page, so that the
-- flags PTE_P, PTE_W and PTE_U are added.
unfoldable pub new_table : ℕ → ℕ → ℕ → Kmem → Option ℕ × Kmem
new_table pgdir va pgtab k =
    let zeroed = memset k.mem pgtab 0 page_size in
    (some (pte_at pgtab va), record k { mem = write_word zeroed (pde_at pgdir va) (v2p pgtab + 7) })

-- `walkpgdir` with `alloc` 1.
unfoldable pub walk_alloc : ℕ → ℕ → Kmem → Option ℕ × Kmem
unfolding find_pte new_table
walk_alloc pgdir va k = elim (find_pte k.mem pgdir va) [
  | some a ↦ (some a, k)
  | none ↦
      let (pgtab, k') = kalloc k in if pgtab == 0 then (none, k') else new_table pgdir va pgtab k'
]

-- `pa | perm | PTE_P`, where `pa` is the address of a page and `perm` has bits below the twelfth.
abbrev pub make_pte : ℕ → ℕ → ℕ
make_pte pa perm = if pte_present perm then pa + perm else pa + perm + 1

-- The entry for one page, behind `walkpgdir`; `false` is the result -1.
abbrev pub map_at : ℕ → ℕ → Option ℕ × Kmem → Outcome (Bool × Kmem)
map_at pa perm (none, k) = ok (false, k)
map_at pa perm (some p, k) =
    if pte_present (word_at k.mem p)
    then panic
    else ok (true, record k { mem = write_word k.mem p (make_pte pa perm) })

unfoldable pub map_page : ℕ → ℕ → ℕ → ℕ → Kmem → Outcome (Bool × Kmem)
unfolding walk_alloc
map_page pgdir a pa perm k = map_at pa perm (walk_alloc pgdir a k)

-- The loop of `mappages` over `left` pages behind the first.
unfoldable pub map_loop : ℕ → ℕ → ℕ → ℕ → ℕ → Kmem → Outcome (Bool × Kmem)
unfolding map_page
map_loop zero pgdir a pa perm k = map_page pgdir a pa perm k
map_loop (suc left) pgdir a pa perm k = do
  (whole, k') ← map_page pgdir a pa perm k
  if whole
      then map_loop left pgdir ((a + page_size) % 2 ^ 32) ((pa + page_size) % 2 ^ 32) perm k'
      else ok (false, k')

-- The loop runs from the page of `va` to that of the last byte.
unfoldable pub mappages : ℕ → ℕ → ℕ → ℕ → ℕ → Kmem → Outcome (Bool × Kmem)
unfolding map_loop
mappages pgdir va size pa perm k =
    let a = pg_round_down va in
    let last = pg_round_down ((va + size + 2 ^ 32 - 1) % 2 ^ 32) in
    map_loop ((last + 2 ^ 32 - a) % 2 ^ 32 / page_size) pgdir a pa perm k

unfoldable pub clearpteu : ℕ → ℕ → Memory → Outcome Memory
unfolding find_pte
clearpteu pgdir uva m = elim (find_pte m pgdir uva) [
  | none ↦ panic
  | some p ↦ let e = word_at m p in ok (write_word m p (if pte_user e then e - 4 else e))
]

-- `uva2ka` reads `*pte` where there is no table too: `at_null` is the word at address 0, as the
-- processor's own page table maps it.
module _ (at_null : ℕ) where
  unfoldable pub pte_of : Memory → ℕ → ℕ → ℕ
  unfolding find_pte
  pte_of m pgdir uva = elim (find_pte m pgdir uva) [ none ↦ at_null | some p ↦ word_at m p ]

  unfoldable pub uva2ka : Memory → ℕ → ℕ → Option ℕ
  unfolding pte_of
  uva2ka m pgdir uva =
      let e = pte_of m pgdir uva in
      if not (pte_present e)
      then none
      else if not (pte_user e)
      then none
      else some (p2v (pte_addr e))

  -- The loop of `copyout`, a page in a round: at most as many rounds as bytes. `false` is the result -1.
  unfoldable pub copy_pages : ℕ → Memory → ℕ → ℕ → List ℕ → Bool × Memory
  unfolding uva2ka blit
  copy_pages zero m pgdir va bytes = (true, m)
  copy_pages (suc rounds) m pgdir va bytes =
      let va0 = pg_round_down va in
      if length bytes == 0 then (true, m) else elim (uva2ka m pgdir va0) [
        | none ↦ (false, m)
        | some p ↦
            let n = min (page_size - (va - va0)) (length bytes) in
            copy_pages rounds (blit m (p + (va - va0)) (take n bytes)) pgdir
              ((va0 + page_size) % 2 ^ 32) (drop n bytes)
      ]

  unfoldable pub copyout : Memory → ℕ → ℕ → List ℕ → Bool × Memory
  unfolding copy_pages
  copyout m pgdir va bytes = copy_pages (length bytes) m pgdir va bytes
