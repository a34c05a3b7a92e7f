-- ===== src/Vm/Empty.antt =====
-- `freevm` of xv6/vm.c on a directory without tables.
use buffer_overflow_attack.Base.{
  Bool-cases, Option, ap, arith, false, if◌then◌else◌, inl, inr, leb, ltb, none, refl, some, suc,
  zero, ℕ, ◌*◌, ◌+◌, ◌/◌, ◌<◌, ◌==◌, ◌∙◌, ◌≡◌, ◌≤◌,
}
use buffer_overflow_attack.Mmu.{pg_round_up, kern_base, page_size, pg_addr, pdx}
use buffer_overflow_attack.Str.{Memory, word_at}
use buffer_overflow_attack.Kalloc.{Kmem, Outcome, ok, panic, kfree, ◌>>=◌}
use buffer_overflow_attack.Vm.{find_pte, n_entries, pte_present, pde_at, table_of, pte_at}
use buffer_overflow_attack.Vm.Space.{
  dealloc_from, deallocuvm, free_tables, freevm, when_done, free_page,
}

-- No entry of the directory is present.
abbrev pub NoTables : Memory → ℕ → Type 0
NoTables m pgdir = (i : ℕ) → i < n_entries → pte_present (word_at m (pgdir + i * 4)) ≡ false

find_pte-NoTables :
    (m : Memory) (pgdir t : ℕ)
    → NoTables m pgdir
    → t < n_entries
    → find_pte m pgdir (t * 0x400000) ≡ none
unfolding find_pte
find_pte-NoTables m pgdir t h lt =
    let at : pdx (t * 0x400000) ≡ t = omega arith in
    let entry : pte_present (word_at m (pde_at pgdir (t * 0x400000))) ≡ false =
      ap (λ d. pte_present (word_at m (pgdir + d * 4))) at ∙ h t lt in
    ap
      (λ b.
        if b
        then some (pte_at (table_of (word_at m (pde_at pgdir (t * 0x400000)))) (t * 0x400000))
        else none)
      entry

module _ (end : ℕ) where
  dealloc_from-NoTables :
      (rounds t pgdir : ℕ) (k : Kmem)
      → NoTables k.mem pgdir
      → t ≤ 512
      → 512 < t + rounds
      → dealloc_from end rounds pgdir (t * 0x400000) kern_base k ≡ some (ok k)
  unfolding dealloc_from
  dealloc_from-NoTables zero t pgdir k h small enough = absurd (omega arith)
  dealloc_from-NoTables (suc rounds) t pgdir k h small enough =
      elim (Bool-cases (ltb (t * 0x400000) kern_base)) [
        | inr out ↦
            ap (λ b. if b then on_entry (find_pte k.mem pgdir (t * 0x400000)) else some (ok k)) out
        | inl inside ↦
            let below : t < 512 = ground arith in
            let next : pg_addr (pdx (t * 0x400000) + 1) 0 0 ≡ (t + 1) * 0x400000 = omega arith in
            ap (λ b. if b then on_entry (find_pte k.mem pgdir (t * 0x400000)) else some (ok k))
              inside
            ∙ ap on_entry (find_pte-NoTables k.mem pgdir t h (omega arith))
            ∙ ap (λ a. dealloc_from end rounds pgdir a kern_base k) next
            ∙ dealloc_from-NoTables rounds (t + 1) pgdir k h (omega arith) (omega arith)
      ]
    where
      on_entry : Option ℕ → Option (Outcome Kmem)
      on_entry none =
          dealloc_from end rounds pgdir (pg_addr (pdx (t * 0x400000) + 1) 0 0) kern_base k
      on_entry (some p) = elim (free_page end p k) [
        | panic ↦ some panic
        | ok k' ↦ dealloc_from end rounds pgdir (t * 0x400000 + page_size) kern_base k'
      ]

  free_tables-NoTables :
      (left i pgdir : ℕ) (k : Kmem)
      → NoTables k.mem pgdir
      → i + left ≤ n_entries
      → free_tables end left i pgdir k ≡ ok k
  unfolding free_tables
  free_tables-NoTables zero i pgdir k h fits = refl
  free_tables-NoTables (suc left) i pgdir k h fits =
      rw (h i (omega arith)) (free_tables-NoTables left (i + 1) pgdir k h (omega arith))

  dealloc_from-start :
      (rounds a oldsz pgdir : ℕ) (k : Kmem)
      → NoTables k.mem pgdir
      → a ≡ 0
      → oldsz ≡ kern_base
      → 512 < rounds
      → dealloc_from end rounds pgdir a oldsz k ≡ some (ok k)
  dealloc_from-start rounds a oldsz pgdir k h start top enough =
      ap (λ x. dealloc_from end rounds pgdir x oldsz k) start
      ∙ ap (λ x. dealloc_from end rounds pgdir 0 x k) top
      ∙ dealloc_from-NoTables rounds 0 pgdir k h (omega arith) (omega arith)

  deallocuvm-NoTables :
      (pgdir oldsz : ℕ) (k : Kmem)
      → NoTables k.mem pgdir
      → oldsz ≡ kern_base
      → leb oldsz 0 ≡ false
      → deallocuvm end pgdir oldsz 0 k ≡ ok (0, k)
  unfolding deallocuvm
  deallocuvm-NoTables pgdir oldsz k h top shrinks =
      let loop : Outcome (ℕ × Kmem) =
        when_done end (dealloc_from end (oldsz / page_size + 2) pgdir (pg_round_up 0) oldsz k)
        >>= λ k'. ok (0, k') in
      ap (λ b. if b then ok (oldsz, k) else loop) shrinks
      ∙ ap (λ o. when_done end o >>= λ k'. ok (0, k'))
          (dealloc_from-start (oldsz / page_size + 2) (pg_round_up 0) oldsz pgdir k h refl top
            (omega arith))

  -- The chain of `freevm`, when its first two calls change nothing.
  behind :
      (m : Outcome (ℕ × Kmem)) (f g : Kmem → Outcome Kmem) (k : Kmem)
      → m ≡ ok (0, k)
      → f k ≡ ok k
      → (m >>= λ (size, k1). f k1 >>= g) ≡ g k
  behind m f g k e e' = ap (λ o. o >>= λ (size, k1). f k1 >>= g) e ∙ ap (λ o. o >>= g) e'

  pub freevm-NoTables :
      (pgdir : ℕ) (k : Kmem)
      → NoTables k.mem pgdir
      → (pgdir == 0) ≡ false
      → freevm end pgdir k ≡ kfree end k pgdir
  unfolding freevm
  freevm-NoTables pgdir k h some_dir =
      let whole : Outcome Kmem = deallocuvm end pgdir kern_base 0 k >>= λ (size, k1).
      free_tables end n_entries 0 pgdir k1 >>= λ k2. kfree end k2 pgdir in
      let first : freevm end pgdir k ≡ whole = ap (λ b. if b then panic else whole) some_dir in
      let second : whole ≡ kfree end k pgdir =
        behind (deallocuvm end pgdir kern_base 0 k) (free_tables end n_entries 0 pgdir)
          (λ k2. kfree end k2 pgdir) k (deallocuvm-NoTables pgdir kern_base k h refl refl)
          (free_tables-NoTables n_entries 0 pgdir k h (omega arith)) in
      first ∙ second
