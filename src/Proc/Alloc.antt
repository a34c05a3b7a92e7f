-- ===== src/Proc/Alloc.antt =====
-- `allocproc` of xv6/proc.c, and what it takes over from the slot.
use buffer_overflow_attack.Base.{
  List, [], ap, arith, false, get_elem?, get_elem?-modify_ne, get_elem?-modify_self, modify, none,
  pos, refl, some, suc, sym, true, wrap, zero, ℕ, ◌+ℤ◌, ◌+◌, ◌-◌, ◌<◌, ◌==◌, ◌^◌, ◌∙◌, ◌∷◌, ◌≡◌,
  ◌≢◌, ◌≤◌, ◌⊎◌,
}
use buffer_overflow_attack.Mmu.{page_size, kstack_size}
use buffer_overflow_attack.Str.{Memory, memset, write_word, word_at}
use buffer_overflow_attack.Str.Fill.{memset-fill}
use buffer_overflow_attack.Str.Word.{
  word_at-write_word, write_word-outside, word_at-congr, word_at-write_word_ne,
}
use buffer_overflow_attack.Kalloc.Chain.{Holds, Chain-frame, kalloc-pop, kalloc-nil}
use buffer_overflow_attack.Proc.{
  unused, embryo, Proc, Kernel, find_unused, fresh, init_stack, allocproc, trapframe_size,
  context_size, kill_proc, kill,
}
use buffer_overflow_attack.Proc.Table.{First, on_pid-First}

-- Slot `i` is the first that is free.
pub record Free (ps : List Proc) (i : ℕ) (p : Proc) : Type 0 where
  pub at : get_elem? ps i ≡ some p
  pub free : p.state ≡ unused
  pub before : (j : ℕ) (q : Proc) → j < i → get_elem? ps j ≡ some q → q.state ≢ unused

find_unused-first :
    (ps : List Proc) (i n : ℕ) (p : Proc) → Free ps i p → find_unused ps n ≡ some (n + i)
unfolding find_unused
find_unused-first [] i n p h = let e = h.at in cc
find_unused-first (q ∷ ps) zero n p h =
    let same : q ≡ p = (let e = h.at in cc) in
    let e : q.state ≡ unused = ap (λ (r : Proc). r.state) same ∙ h.free in
    rw e (ap some (omega arith))
find_unused-first (q ∷ ps) (suc i) n p h =
    let no = h.before 0 q (omega arith) refl in
    let later : Free ps i p = record {
      at = h.at;
      free = h.free;
      before = λ j r lt e. h.before (suc j) r (omega arith) e;
    } in
    ground (arith, find_unused-first ps i (n + 1) p later)

find_unused-full :
    (ps : List Proc) (n : ℕ)
    → ((j : ℕ) (q : Proc) → get_elem? ps j ≡ some q → q.state ≢ unused)
    → find_unused ps n ≡ none
unfolding find_unused
find_unused-full [] n h = refl
find_unused-full (q ∷ ps) n h =
    ground (arith, h 0 q, find_unused-full ps (n + 1) (λ j r e. h (suc j) r e))

module _ (trapret forkret : ℕ) where
  -- With no unused slot `allocproc` returns 0 and changes nothing.
  pub allocproc-full :
      (k : Kernel)
      → ((j : ℕ) (q : Proc) → get_elem? k.procs j ≡ some q → q.state ≢ unused)
      → allocproc trapret forkret k ≡ (none, k)
  unfolding allocproc
  allocproc-full k full = rw (allocproc, find_unused-full k.procs 0 full)

  -- With no free page `allocproc` returns 0; the slot is unused as before, and every other slot
  -- and the free list are as they were. (The pid is used up.)
  allocproc_no_page :
      (end : ℕ) (k : Kernel) (i : ℕ) (p : Proc)
      → Free k.procs i p
      → Holds end k.kmem []
      → let (slot, k') = allocproc trapret forkret k in
        (slot ≡ none)
        × ((q : Proc) → get_elem? k'.procs i ≡ some q → q.state ≡ unused)
        × ((j : ℕ) → i ≢ j → get_elem? k'.procs j ≡ get_elem? k.procs j)
        × (k'.kmem ≡ k.kmem)
  unfolding allocproc
  allocproc_no_page end k i p h empty =
      let e : find_unused k.procs 0 ≡ some i =
        find_unused-first k.procs i 0 p h ∙ ap some (omega arith) in
      let g = λ (r : Proc). record (fresh k.nextpid r) { kstack = 0; state = unused } in
      let at = get_elem?-modify_self k.procs i g p h.at in
      rw (allocproc, e, kalloc-nil end empty)
        (refl, (λ q eq. ground (arith, at)), (λ j ne. get_elem?-modify_ne k.procs i j g ne), refl)

  -- `swtch` to the new process returns to `forkret`, and `forkret` returns to `trapret`: these are
  -- the words at offset 16 of the context and behind the context; the other bytes of the context
  -- are 0, and no other byte is changed.
  init_stack_lem :
      (m : Memory) (kstack : ℕ)
      → trapret < 2 ^ 32
      → forkret < 2 ^ 32
      → let context = kstack + kstack_size - trapframe_size - 4 - context_size in
        let m' = init_stack trapret forkret m kstack in
        (word_at m' (context + 16) ≡ forkret)
        × (word_at m' (context + context_size) ≡ trapret)
        × ((x : ℕ) → context ≤ x → x < context + 16 → m' x ≡ 0)
        × ((x : ℕ) → (x < context) ⊎ (context + context_size + 4 ≤ x) → m' x ≡ m x)
  unfolding init_stack
  init_stack_lem m kstack ht hf =
      let tf = kstack + kstack_size - trapframe_size in
      let context = tf - 4 - context_size in
      let m1 = write_word m (tf - 4) trapret in
      let m2 = memset m1 context 0 context_size in
      let m3 = write_word m2 (context + 16) forkret in
      let keep : word_at m3 (tf - 4) ≡ word_at m1 (tf - 4) =
        word_at-write_word_ne m2 (context + 16) forkret (tf - 4) (omega arith)
        ∙ word_at-congr m1 m2 (tf - 4)
            (λ i lt. ground (arith, memset-fill m1 context 0 context_size (tf - 4 + i))) in
      (
        word_at-write_word m2 (context + 16) forkret hf,
        ap (word_at m3) (omega arith) ∙ keep ∙ word_at-write_word m (tf - 4) trapret ht,
        λ x lo hi. ground (
          arith,
          write_word-outside m2 (context + 16) forkret x (omega arith),
          memset-fill m1 context 0 context_size x,
        ),
        λ x out. ground (
          arith,
          write_word-outside m2 (context + 16) forkret x (omega arith),
          memset-fill m1 context 0 context_size x,
          write_word-outside m (tf - 4) trapret x (omega arith),
        ),
      )

  -- With a free slot and a free page `allocproc` takes the first such slot, gives it the next pid,
  -- state EMBRYO and the page as its kernel stack; the page leaves the free list, and every other
  -- slot and every byte outside of the page are as they were.
  pub allocproc_lem :
      (end : ℕ) (k : Kernel) (i page : ℕ) (p : Proc) (pages : List ℕ)
      → trapret < 2 ^ 32
      → forkret < 2 ^ 32
      → Free k.procs i p
      → Holds end k.kmem (page ∷ pages)
      → let (slot, k') = allocproc trapret forkret k in
        (slot ≡ some i)
        × (k'.nextpid ≡ wrap (k.nextpid +ℤ pos 1))
        × ((q : Proc)
            → get_elem? k'.procs i ≡ some q
            → (q.state ≡ embryo) × (q.pid ≡ k.nextpid) × (q.kstack ≡ page) × (q.killed ≡ p.killed))
        × ((j : ℕ) → i ≢ j → get_elem? k'.procs j ≡ get_elem? k.procs j)
        × ((x : ℕ) → (x < page) ⊎ (page + page_size ≤ x) → k'.kmem.mem x ≡ k.kmem.mem x)
        × Holds end k'.kmem pages
  unfolding allocproc
  allocproc_lem end k i page p pages ht hf h holds =
      let e : find_unused k.procs 0 ≡ some i =
        find_unused-first k.procs i 0 p h ∙ ap some (omega arith) in
      let (kmem, popped, rest, is_page, new, same) = kalloc-pop end holds in
      let g = λ (r : Proc). record (fresh k.nextpid r) {
        kstack = page;
        tf = page + kstack_size - trapframe_size;
        context = page + kstack_size - trapframe_size - 4 - context_size;
      } in
      let at = get_elem?-modify_self k.procs i g p h.at in
      let (_, _, _, frame) = init_stack_lem kmem.mem page ht hf in
      let some_page : (page == 0) ≡ false = ground (arith, is_page.real) in
      rw (allocproc, e, popped, some_page)
        (
          refl,
          refl,
          (λ q eq. ground (arith, at)),
          (λ j ne. get_elem?-modify_ne k.procs i j g ne),
          (λ x out. frame x (omega arith) ∙ ap (λ (m : Memory). m x) same),
          record {
            chain =
                Chain-frame end kmem.mem (init_stack trapret forkret kmem.mem page) kmem.freelist
                  page pages is_page new (λ x out. frame x (omega arith)) rest.chain;
          },
        )

-- A slot that is unused, has pid 0, and stands before all others that are unused or have pid 0: such is the
-- first slot of the table when the system starts.
-- `kill` of pid 0 marks such a slot and returns 0, and the process that is next created in the
-- slot starts with the mark on it: `allocproc` does not clear it.
pub killed_before_birth :
    (trapret forkret end : ℕ) (k : Kernel) (i page : ℕ) (p : Proc) (pages : List ℕ)
    → trapret < 2 ^ 32
    → forkret < 2 ^ 32
    → Free k.procs i p
    → First (pos 0) k.procs i p
    → Holds end k.kmem (page ∷ pages)
    → let (r, k1) = kill (pos 0) k in
      let (slot, k2) = allocproc trapret forkret k1 in
      (r ≡ pos 0)
      × (slot ≡ some i)
      × ((q : Proc)
          → get_elem? k2.procs i ≡ some q
          → (q.state ≡ embryo) × (q.pid ≡ k.nextpid) × (q.killed ≡ true))
unfolding kill
killed_before_birth trapret forkret end k i page p pages ht hf free first holds =
    let k1 = record k { procs = modify k.procs i kill_proc } in
    let free1 : Free k1.procs i (kill_proc p) = record {
      at = get_elem?-modify_self k.procs i kill_proc p free.at;
      free = ground (arith, free.free);
      before = λ j q lt e.
          free.before j q lt (sym (get_elem?-modify_ne k.procs i j kill_proc (omega arith)) ∙ e);
    } in
    let (slot, _, born, _, _, _) =
      allocproc_lem trapret forkret end k1 i page (kill_proc p) pages ht hf free1 holds in
    rw (kill, on_pid-First (pos 0) kill_proc k.procs i p first)
      (refl, slot, λ q e. let b = born q e in (b.0, b.1, b.3))
