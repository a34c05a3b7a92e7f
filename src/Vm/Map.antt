-- ===== src/Vm/Map.antt =====
-- What `uva2ka` of xv6/vm.c finds behind `mappages` of a page.
use buffer_overflow_attack.Base.{
  ap, arith, false, if◌then◌else◌, refl, some, true, ℕ, ◌%◌, ◌+◌, ◌/◌, ◌<◌, ◌==◌, ◌^◌, ◌∙◌, ◌≡◌,
  ◌≤◌, ◌⊎◌,
}
use buffer_overflow_attack.Mmu.{page_size, kern_base, p2v, v2p}
use buffer_overflow_attack.Str.{Memory, memset, word_at, write_word}
use buffer_overflow_attack.Str.Word.{word_at-write_word, word_at-write_word_ne}
use buffer_overflow_attack.Str.Fill.{memset-fill}
use buffer_overflow_attack.Kalloc.{Kmem, kalloc, ok, panic}
use buffer_overflow_attack.Vm.{
  pte_present, find_pte, make_pte, pde_at, pte_addr, pte_at, pte_of, pte_user, table_of, uva2ka,
  map_page, new_table, walk_alloc, map_at,
}

-- Two pages that have no byte in common.
abbrev pub Apart : ℕ → ℕ → Type 0
Apart t pgdir = (t + page_size ≤ pgdir) ⊎ (pgdir + page_size ≤ t)

-- A page can be mapped at `a`: its table is there and the entry is free, or there is no table and a
-- free page for one.
pub data CanMap (pgdir a : ℕ) (k : Kmem) : Type 0 where
  in_table :
      pte_present (word_at k.mem (pde_at pgdir a)) ≡ true
      → Apart (table_of (word_at k.mem (pde_at pgdir a))) pgdir
      → pte_present (word_at k.mem (pte_at (table_of (word_at k.mem (pde_at pgdir a))) a)) ≡ false
      → CanMap pgdir a k
  by_table :
      pte_present (word_at k.mem (pde_at pgdir a)) ≡ false
      → k.freelist % page_size ≡ 0
      → kern_base ≤ k.freelist
      → k.freelist < 2 ^ 32
      → Apart k.freelist pgdir
      → CanMap pgdir a k

-- A page of user memory with its permissions.
pub record IsUserPage (pa perm : ℕ) : Type 0 where
  pub aligned : pa % page_size ≡ 0
  pub small : pa < 2 ^ 32
  pub flags : perm < page_size
  pub user : perm / 4 % 2 ≡ 1

make_pte-parts :
    (pa perm : ℕ)
    → IsUserPage pa perm
    → (make_pte pa perm < 2 ^ 32)
      × (pte_present (make_pte pa perm) ≡ true)
      × (pte_user (make_pte pa perm) ≡ true)
      × (pte_addr (make_pte pa perm) ≡ pa)
make_pte-parts pa perm h =
    let a = h.aligned in
    let b = h.small in
    let c = h.flags in let d = h.user in (ground arith, ground arith, ground arith, ground arith)

find_pte-some :
    (m : Memory) (pgdir a t : ℕ)
    → pte_present (word_at m (pde_at pgdir a)) ≡ true
    → table_of (word_at m (pde_at pgdir a)) ≡ t
    → find_pte m pgdir a ≡ some (pte_at t a)
unfolding find_pte
find_pte-some m pgdir a t present at = rw (find_pte, present) (ap (λ t. some (pte_at t a)) at)

-- A store in the page of the table keeps the directory, and is what is found.
module _ (at_null : ℕ) (m : Memory) (pgdir a t pa perm : ℕ) where
  abbrev mapped : Memory
  mapped = write_word m (pte_at t a) (make_pte pa perm)

  entry-uva2ka :
      pte_present (word_at m (pde_at pgdir a)) ≡ true
      → table_of (word_at m (pde_at pgdir a)) ≡ t
      → Apart t pgdir
      → IsUserPage pa perm
      → uva2ka at_null mapped pgdir a ≡ some (p2v pa)
  unfolding uva2ka pte_of
  entry-uva2ka present at apart page =
      let (small, on, user, addr) = make_pte-parts pa perm page in
      let far : (pde_at pgdir a + 4 ≤ pte_at t a) ⊎ (pte_at t a + 4 ≤ pde_at pgdir a) =
        omega arith in
      let same = word_at-write_word_ne m (pte_at t a) (make_pte pa perm) (pde_at pgdir a) far in
      let found =
        find_pte-some mapped pgdir a t (ap pte_present same ∙ present) (ap table_of same ∙ at) in
      let stored = word_at-write_word m (pte_at t a) (make_pte pa perm) small in
      let word : pte_of at_null mapped pgdir a ≡ make_pte pa perm = rw (pte_of, found) stored in
      rw (uva2ka, word, on, user) (ap (λ p. some (p2v p)) addr)

zeroed-word :
    (m : Memory) (t b : ℕ) → t ≤ b → b + 4 ≤ t + page_size → word_at (memset m t 0 page_size) b ≡ 0
unfolding word_at
zeroed-word m t b lo hi =
    let z : (i : ℕ) → i < 4 → memset m t 0 page_size (b + i) ≡ 0 =
      λ i lt. ground (arith, memset-fill m t 0 page_size (b + i)) in
    let z0 : memset m t 0 page_size b ≡ 0 = ground (arith, memset-fill m t 0 page_size b) in
    let z1 = z 1 (omega arith) in
    let z2 = z 2 (omega arith) in let z3 = z 3 (omega arith) in omega arith

module _ (at_null pgdir a pa perm : ℕ) where
  in_table-uva2ka :
      (k k1 : Kmem) (t : ℕ)
      → walk_alloc pgdir a k ≡ (some (pte_at t a), k1)
      → pte_present (word_at k1.mem (pde_at pgdir a)) ≡ true
      → table_of (word_at k1.mem (pde_at pgdir a)) ≡ t
      → pte_present (word_at k1.mem (pte_at t a)) ≡ false
      → Apart t pgdir
      → IsUserPage pa perm
      → (k' : Kmem) × (map_page pgdir a pa perm k ≡ ok (true, k'))
        × (uva2ka at_null k'.mem pgdir a ≡ some (p2v pa))
  unfolding map_page
  in_table-uva2ka k k1 t walked present at free apart page = (
    record k1 { mem = mapped at_null k1.mem pgdir a t pa perm },
    ap (map_at pa perm) walked
        ∙ ap
            (λ u.
              if u
              then panic
              else ok (true, record k1 { mem = mapped at_null k1.mem pgdir a t pa perm }))
            free,
    entry-uva2ka at_null k1.mem pgdir a t pa perm present at apart page,
  )

  -- A round of `mappages` for a page of user memory, that is with PTE_U among its permissions, whose
  -- physical address is a multiple of PGSIZE: it succeeds where the page can be mapped (its table is there
  -- and its entry is free, or there is no table but a page for one), and `uva2ka` of the page's address
  -- gives the kernel's address of the physical page then. A table must not overlap the directory.
  pub map_page-uva2ka :
      (k : Kmem)
      → CanMap pgdir a k
      → IsUserPage pa perm
      → (k' : Kmem) × (map_page pgdir a pa perm k ≡ ok (true, k'))
        × (uva2ka at_null k'.mem pgdir a ≡ some (p2v pa))
  unfolding walk_alloc find_pte new_table kalloc
  map_page-uva2ka k (in_table present apart free) page =
      let t = table_of (word_at k.mem (pde_at pgdir a)) in
      in_table-uva2ka k k t (rw (walk_alloc, find_pte, present) refl) present refl free apart page
  map_page-uva2ka k (by_table absent aligned low high apart) page =
      let t = k.freelist in
      let some_page : (t == 0) ≡ false = ground arith in
      let zeroed = memset k.mem t 0 page_size in
      let pde = pde_at pgdir a in
      let m1 = write_word zeroed pde (v2p t + 7) in
      let k1 : Kmem = record { mem = m1; freelist = word_at k.mem k.freelist } in
      let entry_is : word_at m1 pde ≡ v2p t + 7 =
        word_at-write_word zeroed pde (v2p t + 7) (omega arith) in
      let far : (pte_at t a + 4 ≤ pde) ⊎ (pde + 4 ≤ pte_at t a) = omega arith in
      let empty : word_at m1 (pte_at t a) ≡ 0 =
        word_at-write_word_ne zeroed pde (v2p t + 7) (pte_at t a) far
        ∙ zeroed-word k.mem t (pte_at t a) (omega arith) (omega arith) in
      let there : pte_present (v2p t + 7) ≡ true = ground arith in
      let is_t : table_of (v2p t + 7) ≡ t = omega arith in
      in_table-uva2ka k k1 t (rw (walk_alloc, find_pte, absent, kalloc, some_page, some_page) refl)
        (ap pte_present entry_is ∙ there) (ap table_of entry_is ∙ is_t) (rw empty refl) apart page
