-- ===== src/Tests/KernelTests.antt =====
-- xv6/kalloc.c and xv6/proc.c on a small kernel.
use buffer_overflow_attack.Base.{
  List, [], arith, false, get_elem?, inl, none, pos, refl, some, suc, true, wrap, zero, ℕ, ◌+ℤ◌,
  ◌+◌, ◌<◌, ◌∷◌, ◌≡◌, ◌≢◌, ◌≤◌, ◌⊎◌,
}
use buffer_overflow_attack.Mmu.{page_size}
use buffer_overflow_attack.Str.{word_at}
use buffer_overflow_attack.Kalloc.{Kmem, ok, panic, kfree, kalloc, freerange}
use buffer_overflow_attack.Kalloc.Chain.{IsPage, NotIn, Holds, kfree-push, kalloc-pop}
use buffer_overflow_attack.Kalloc.Range.{freerange-pages}
use buffer_overflow_attack.Proc.{unused, embryo, runnable, Proc, Kernel, allocproc, kill}
use buffer_overflow_attack.Proc.Table.{First}
use buffer_overflow_attack.Proc.Alloc.{Free, allocproc_lem, killed_before_birth}
use buffer_overflow_attack.Proc.Sched.{select}
use buffer_overflow_attack.Proc.Sched.Pick.{Le, select-earliest_deadline}
use buffer_overflow_attack.Proc.Policy.{change_sched_policy}
use buffer_overflow_attack.Proc.Policy.Admit.{change_sched_policy-panic}

-- The kernel ends at 0x80100000.
abbrev end : ℕ
end = 0x80100000

abbrev pub no_memory : Kmem
no_memory = record { mem = λ x. 0; freelist = 0 }

pub no_memory-Holds : Holds end no_memory []
no_memory-Holds = record { chain = refl }

abbrev first_page : ℕ
first_page = 0x80200000

first_page-IsPage : IsPage end first_page
first_page-IsPage = omega arith

abbrev one_page : Kmem
one_page = record { mem = λ x. 0; freelist = first_page }

one_page-Holds : Holds end one_page (first_page ∷ [])
unfolding word_at
one_page-Holds = record { chain = (refl, first_page-IsPage, tt, refl) }

kfree-push_example :
    (k' : Kmem) × (kfree end no_memory first_page ≡ ok k')
    × Holds end k' (first_page ∷ [])
    × ((x : ℕ) → (x < first_page) ⊎ (first_page + page_size ≤ x) → k'.mem x ≡ 0)
kfree-push_example = kfree-push end first_page no_memory-Holds first_page-IsPage tt

kalloc-pop_example :
    (k' : Kmem) × (kalloc one_page ≡ (first_page, k'))
    × Holds end k' []
    × IsPage end first_page
    × NotIn first_page []
    × (k'.mem ≡ one_page.mem)
kalloc-pop_example = kalloc-pop end one_page-Holds

freerange-pages_example :
    (k' : Kmem) × (freerange end 3 no_memory 0x80100001 0x80103fff ≡ some (ok k'))
    × Holds end k' (0x80102000 ∷ 0x80101000 ∷ [])
freerange-pages_example =
    freerange-pages end 2 3 0x80100001 0x80103fff (omega arith) (omega arith) (omega arith)
      (omega arith) (omega arith) (omega arith) (omega arith) tt no_memory-Holds

-- An unused slot and a task.
abbrev pub empty_slot : Proc
empty_slot = record {
  sz = 0;
  pgdir = 0;
  kstack = 0;
  state = unused;
  pid = pos 0;
  parent = none;
  tf = 0;
  context = 0;
  chan = 0;
  killed = false;
  ofile = [];
  cwd = 0;
  name = [];
  deadline = pos 0;
  exec_time = pos 0;
  elapsed_time = pos 0;
  arrival_elapsed_time = pos 0;
  policy = pos 0;
  arrival_time = pos 0;
  priority = pos 0;
  rate = pos 0;
}

abbrev pub task : ℕ → ℕ → ℕ → ℕ → Proc
task pid policy deadline exec_time = record empty_slot {
  state = runnable;
  pid = pos pid;
  policy = pos policy;
  deadline = pos deadline;
  exec_time = pos exec_time;
  kstack = 0x80300000;
  pgdir = 0x80400000;
}

abbrev pub kernel_of : List Proc → Kmem → Kernel
kernel_of ps kmem = record {
  procs = ps;
  nextpid = pos 4;
  u = pos 0;
  ticks = 100;
  kmem = kmem;
  cpu_proc = none;
  esp0 = 0;
  cr3 = 0;
}

abbrev k0 : Kernel
k0 = kernel_of (task 1 0 20 5 ∷ task 2 1 8 4 ∷ empty_slot ∷ []) one_page

empty-before : (j : ℕ) (q : Proc) → j < 2 → get_elem? k0.procs j ≡ some q → q.state ≢ unused
empty-before zero q lt e h = ground arith
empty-before (suc zero) q lt e h = ground arith
empty-before (suc (suc j)) q lt e h = absurd (omega arith)

empty-Free : Free k0.procs 2 empty_slot
empty-Free = record { at = refl; free = refl; before = empty-before }

zero-before : (j : ℕ) (q : Proc) → j < 2 → get_elem? k0.procs j ≡ some q → q.pid ≢ pos 0
zero-before zero q lt e h = ground arith
zero-before (suc zero) q lt e h = ground arith
zero-before (suc (suc j)) q lt e h = absurd (omega arith)

zero-First : First (pos 0) k0.procs 2 empty_slot
zero-First = record { at = refl; has_pid = refl; before = zero-before }

two-before : (j : ℕ) (q : Proc) → j < 1 → get_elem? k0.procs j ≡ some q → q.pid ≢ pos 2
two-before zero q lt e h = ground arith
two-before (suc j) q lt e h = absurd (omega arith)

two-First : First (pos 2) k0.procs 1 (task 2 1 8 4)
two-First = record { at = refl; has_pid = refl; before = two-before }

one-First : First (pos 1) k0.procs 0 (task 1 0 20 5)
one-First = record { at = refl; has_pid = refl; before = λ j q lt e h. absurd (omega arith) }

one-only : (j : ℕ) (q : Proc) → 0 < j → get_elem? k0.procs j ≡ some q → q.pid ≢ pos 1
one-only zero q lt e h = absurd (omega arith)
one-only (suc zero) q lt e h = ground arith
one-only (suc (suc zero)) q lt e h = ground arith
one-only (suc (suc (suc j))) q lt e h = cc

-- `trapret` at 0x80105000 and `forkret` at 0x80104000.
allocproc_lem_example :
    let (slot, k') = allocproc 0x80105000 0x80104000 k0 in
    (slot ≡ some 2)
    × (k'.nextpid ≡ wrap (pos 4 +ℤ pos 1))
    × ((q : Proc)
        → get_elem? k'.procs 2 ≡ some q
        → (q.state ≡ embryo) × (q.pid ≡ pos 4) × (q.kstack ≡ first_page) × (q.killed ≡ false))
    × ((j : ℕ) → 2 ≢ j → get_elem? k'.procs j ≡ get_elem? k0.procs j)
    × ((x : ℕ) → (x < first_page) ⊎ (first_page + page_size ≤ x) → k'.kmem.mem x ≡ 0)
    × Holds end k'.kmem []
allocproc_lem_example =
    allocproc_lem 0x80105000 0x80104000 end k0 2 first_page empty_slot [] (omega arith)
      (omega arith) empty-Free one_page-Holds

killed_before_birth_example :
    let (r, k1) = kill (pos 0) k0 in
    let (slot, k2) = allocproc 0x80105000 0x80104000 k1 in
    (r ≡ pos 0)
    × (slot ≡ some 2)
    × ((q : Proc)
        → get_elem? k2.procs 2 ≡ some q
        → (q.state ≡ embryo) × (q.pid ≡ pos 4) × (q.killed ≡ true))
killed_before_birth_example =
    killed_before_birth 0x80105000 0x80104000 end k0 2 first_page empty_slot [] (omega arith)
      (omega arith) empty-Free zero-First one_page-Holds

select-earliest_deadline_example :
    (get_elem? k0.procs (select k0.procs 0 (task 1 0 20 5)).0
      ≡ some (select k0.procs 0 (task 1 0 20 5)).1)
    × ((select k0.procs 0 (task 1 0 20 5)).1.state ≡ runnable)
    × ((j : ℕ) (q : Proc)
        → get_elem? k0.procs j ≡ some q
        → q.state ≡ runnable
        → Le (λ r. r.deadline) (select k0.procs 0 (task 1 0 20 5)).1 q)
select-earliest_deadline_example =
    select-earliest_deadline k0.procs 0 (task 1 0 20 5) refl refl refl

select_test : (select k0.procs 0 (task 1 0 20 5)).0 ≡ 1
unfolding select
select_test = refl

abbrev stay : ℕ → Kernel → Kernel
stay i k = k

-- A deadline of 3 for an execution time of 5.
change_sched_policy-panic_example :
    change_sched_policy stay 0 (pos 1) (pos 0) (kernel_of (task 1 0 3 5 ∷ []) no_memory) ≡ panic
change_sched_policy-panic_example =
    change_sched_policy-panic stay 0 (pos 1) (kernel_of (task 1 0 3 5 ∷ []) no_memory) 0
      (task 1 0 3 5) 3 5
      (record { at = refl; has_pid = refl; before = λ j q lt e h. absurd (omega arith) }) refl refl
      (inl (omega arith))
