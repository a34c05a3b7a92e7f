-- ===== src/Vm/Space.antt =====
-- xv6/vm.c: the user part of an address space, as it grows, shrinks, is copied and freed.
use buffer_overflow_attack.Base.{
  Bool, List, Option, [], false, if◌then◌else◌, leb, ltb, none, not, some, suc, true, zero, ℕ, ◌%◌,
  ◌*◌, ◌+◌, ◌-◌, ◌/◌, ◌==◌, ◌^◌, ◌∷◌,
}
use buffer_overflow_attack.Mmu.{page_size, kern_base, p2v, pdx, pg_addr, pg_round_up, phys_top, v2p}
use buffer_overflow_attack.Str.{memset, memmove, word_at, write_word}
use buffer_overflow_attack.Kalloc.{Kmem, kalloc, Outcome, ok, panic, ◌>>=◌, kfree}
use buffer_overflow_attack.Vm.{pte_present, find_pte, mappages, n_entries, pte_addr, pte_flags}

-- `end` is the first address behind the kernel, set by the linker.
module _ (end : ℕ) where
  -- One page of `deallocuvm`, whose entry is at `p`.
  unfoldable pub free_page : ℕ → Kmem → Outcome Kmem
  unfolding kfree
  free_page p k =
      let pa = pte_addr (word_at k.mem p) in
      if not (pte_present (word_at k.mem p))
      then ok k
      else if pa == 0
      then panic
      else (do k' ← kfree end k (p2v pa); ok (record k' { mem = write_word k'.mem p 0 }))

  -- The loop of `deallocuvm` from address `a` on. A round moves by a page at least; where there is no
  -- table, it moves to the start of the next table.
  -- `none` is a loop that goes on.
  unfoldable pub dealloc_from : ℕ → ℕ → ℕ → ℕ → Kmem → Option (Outcome Kmem)
  unfolding find_pte free_page
  dealloc_from zero pgdir a oldsz k = none
  dealloc_from (suc rounds) pgdir a oldsz k =
      if ltb a oldsz
      then elim (find_pte k.mem pgdir a) [
        | none ↦ dealloc_from rounds pgdir (pg_addr (pdx a + 1) 0 0) oldsz k
        | some p ↦ elim (free_page p k) [
          | panic ↦ some panic
          | ok k' ↦ dealloc_from rounds pgdir (a + page_size) oldsz k'
        ]
      ]
      else some (ok k)

  -- The loop ends (Vm.Rounds), so that the first case is not reached.
  abbrev pub when_done : Option (Outcome Kmem) → Outcome Kmem
  when_done none = panic
  when_done (some r) = r

  -- With the result. A round for each page, one for the page that `oldsz` is in, and one for the end.
  unfoldable pub deallocuvm : ℕ → ℕ → ℕ → Kmem → Outcome (ℕ × Kmem)
  unfolding dealloc_from
  deallocuvm pgdir oldsz newsz k = if leb oldsz newsz then ok (oldsz, k) else (do
    k' ← when_done (dealloc_from (oldsz / page_size + 2) pgdir (pg_round_up newsz) oldsz k)
    ok (newsz, k'))

  -- One page of `allocuvm`: `none` is that there is no memory for it, with the page to free if there
  -- is one.
  unfoldable pub alloc_page : ℕ → ℕ → Kmem → Outcome (Bool × Option ℕ × Kmem)
  unfolding kalloc mappages
  alloc_page pgdir a k =
      let (mem, k1) = kalloc k in
      if mem == 0 then ok (false, none, k1) else (do
        (whole, k2) ←
            mappages pgdir a page_size (v2p mem) 6
              (record k1 { mem = memset k1.mem mem 0 page_size })
        ok (whole, if whole then none else some mem, k2))

  -- The loop of `allocuvm` over `left` more pages, with its result: 0 if memory runs out.
  unfoldable pub alloc_from : ℕ → ℕ → ℕ → ℕ → ℕ → Kmem → Outcome (ℕ × Kmem)
  unfolding alloc_page deallocuvm
  alloc_from zero pgdir a oldsz newsz k = ok (newsz, k)
  alloc_from (suc left) pgdir a oldsz newsz k = do
    (whole, page, k1) ← alloc_page pgdir a k
    if whole then alloc_from left pgdir (a + page_size) oldsz newsz k1 else (do
      (size, k2) ← deallocuvm pgdir newsz oldsz k1
      elim page [ none ↦ ok (0, k2) | some mem ↦ (do k3 ← kfree end k2 mem; ok (0, k3)) ])

  -- The pages from PGROUNDUP(oldsz) up to `newsz`.
  unfoldable pub allocuvm : ℕ → ℕ → ℕ → Kmem → Outcome (ℕ × Kmem)
  unfolding alloc_from
  allocuvm pgdir oldsz newsz k =
      let a = pg_round_up oldsz in
      if leb kern_base newsz
      then ok (0, k)
      else if ltb newsz oldsz
      then ok (oldsz, k)
      else alloc_from ((newsz + page_size - 1 - a) / page_size) pgdir a oldsz newsz k

  -- The loop of `freevm` over the tables, from entry `i` on.
  unfoldable pub free_tables : ℕ → ℕ → ℕ → Kmem → Outcome Kmem
  unfolding kfree
  free_tables zero i pgdir k = ok k
  free_tables (suc left) i pgdir k =
      let e = word_at k.mem (pgdir + i * 4) in
      if pte_present e
      then (do k' ← kfree end k (p2v (pte_addr e)); free_tables left (i + 1) pgdir k')
      else free_tables left (i + 1) pgdir k

  unfoldable pub freevm : ℕ → Kmem → Outcome Kmem
  unfolding deallocuvm free_tables
  freevm pgdir k = if pgdir == 0 then panic else (do
    (size, k1) ← deallocuvm pgdir kern_base 0 k
    k2 ← free_tables n_entries 0 pgdir k1
    kfree end k2 pgdir)

  -- `kmap`, and the loop of `setupkvm` over it. `data` of the kernel is set by the linker.
  unfoldable pub map_kernel : List (ℕ × ℕ × ℕ × ℕ) → ℕ → Kmem → Outcome (Bool × Kmem)
  unfolding mappages
  map_kernel [] pgdir k = ok (true, k)
  map_kernel ((virt, first, past, perm) ∷ maps) pgdir k = do
    (whole, k') ← mappages pgdir virt ((past + 2 ^ 32 - first) % 2 ^ 32) first perm k
    if whole then map_kernel maps pgdir k' else ok (false, k')

  abbrev pub kmap : ℕ → List (ℕ × ℕ × ℕ × ℕ)
  kmap kernel_data =
      (kern_base, 0, 0x100000, 2)
      ∷ (kern_base + 0x100000, 0x100000, v2p kernel_data, 0)
      ∷ (kernel_data, v2p kernel_data, phys_top, 2)
      ∷ (0xFE000000, 0xFE000000, 0, 2)
      ∷ []

  -- The address is 0 if memory runs out. PHYSTOP is below the devices, so that the panic is not reached.
  unfoldable pub setupkvm : ℕ → Kmem → Outcome (ℕ × Kmem)
  unfolding kalloc map_kernel freevm
  setupkvm kernel_data k =
      let (pgdir, k1) = kalloc k in
      if pgdir == 0 then ok (0, k1) else (do
        (whole, k2) ←
            map_kernel (kmap kernel_data) pgdir
              (record k1 { mem = memset k1.mem pgdir 0 page_size })
        if whole then ok (pgdir, k2) else (do k3 ← freevm pgdir k2; ok (0, k3)))

  -- The loop of `copyuvm` from page `i` on, over `left` more pages, into the space `d`; `false` is the
  -- jump to `bad`.
  unfoldable pub copy_from : ℕ → ℕ → ℕ → ℕ → Kmem → Outcome (Bool × Kmem)
  unfolding find_pte kalloc mappages memmove
  copy_from zero i pgdir d k = ok (true, k)
  copy_from (suc left) i pgdir d k = elim (find_pte k.mem pgdir i) [
    | none ↦ panic
    | some p ↦
        let e = word_at k.mem p in
        let (mem, k1) = kalloc k in
        if not (pte_present e) then panic else if mem == 0 then ok (false, k1) else (do
          (whole, k2) ←
              mappages d i page_size (v2p mem) (pte_flags e)
                (record k1 { mem = memmove k1.mem mem (p2v (pte_addr e)) page_size })
          if whole
              then copy_from left (i + page_size) pgdir d k2
              else (do k3 ← kfree end k2 mem; ok (false, k3)))
  ]

  unfoldable pub copyuvm : ℕ → ℕ → ℕ → Kmem → Outcome (ℕ × Kmem)
  unfolding setupkvm copy_from freevm
  copyuvm kernel_data pgdir sz k = do
    (d, k1) ← setupkvm kernel_data k
    if d == 0 then ok (0, k1) else (do
      (whole, k2) ← copy_from ((sz + page_size - 1) / page_size) 0 pgdir d k1
      if whole then ok (d, k2) else (do k3 ← freevm d k2; ok (0, k3)))
