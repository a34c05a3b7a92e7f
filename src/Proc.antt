-- ===== src/Proc.antt =====
-- xv6/proc.h and xv6/proc.c: the process table. A process is named by its slot; `ptable.lock`
-- stands for the atomicity of each block that holds it and is not part of the state.
pub mod Table
pub mod Alloc
pub mod Sched
pub mod Policy
pub mod Family
use buffer_overflow_attack.Base.{
  Bool, List, Option, [], false, if◌then◌else◌, minus_one, modify, none, pos, some, true, wrap, ℕ,
  ℤ, ◌&&◌, ◌+ℤ◌, ◌+◌, ◌-◌, ◌==ℤ◌, ◌==◌, ◌∷◌,
}
use buffer_overflow_attack.Mmu.{page_size, kstack_size, v2p}
use buffer_overflow_attack.Str.{Memory, memset, write_word}
use buffer_overflow_attack.Kalloc.{Kmem, kalloc, Outcome, ok, panic}

-- `enum procstate`
pub data State : Type 0 where
  unused embryo sleeping runnable running zombie : State

abbrev pub is_unused : State → Bool
is_unused unused = true
is_unused _ = false

abbrev pub is_sleeping : State → Bool
is_sleeping sleeping = true
is_sleeping _ = false

abbrev pub is_runnable : State → Bool
is_runnable runnable = true
is_runnable _ = false

-- `struct proc`, its trap frame and context as addresses
pub record Proc : Type 0 where
  pub sz : ℕ
  pub pgdir : ℕ
  pub kstack : ℕ
  pub state : State
  pub pid : ℤ
  pub parent : Option ℕ
  pub tf : ℕ
  pub context : ℕ
  pub chan : ℕ
  pub killed : Bool
  pub ofile : List ℕ
  pub cwd : ℕ
  pub name : List ℕ
  pub deadline : ℤ
  pub exec_time : ℤ
  pub elapsed_time : ℤ
  pub arrival_elapsed_time : ℤ
  pub policy : ℤ
  pub arrival_time : ℤ
  pub priority : ℤ
  pub rate : ℤ

-- `ptable`, `nextpid`, `U`, `ticks`, the free pages, and the fields of `struct cpu` and of the
-- processor that the scheduler sets.
pub record Kernel : Type 0 where
  pub procs : List Proc
  pub nextpid : ℤ
  pub u : ℤ
  pub ticks : ℕ
  pub kmem : Kmem
  pub cpu_proc : Option ℕ
  pub esp0 : ℕ
  pub cr3 : ℕ

-- The first slot in state UNUSED, counted from `i`.
unfoldable pub find_unused : List Proc → ℕ → Option ℕ
find_unused [] i = none
find_unused (p ∷ ps) i = if is_unused p.state then some i else find_unused ps (i + 1)

-- The slot as `allocproc` leaves it behind `found:`.
abbrev pub fresh : ℤ → Proc → Proc
fresh pid p = record p {
  state = embryo;
  pid = pid;
  deadline = pos 10;
  exec_time = pos 5;
  policy = minus_one;
  elapsed_time = pos 0;
  arrival_elapsed_time = pos 0;
  arrival_time = minus_one;
}

-- `sizeof(struct trapframe)` and `sizeof(struct context)`
abbrev pub trapframe_size : ℕ
trapframe_size = 76

abbrev pub context_size : ℕ
context_size = 20

-- The addresses of `trapret` and `forkret` are the linker's.
module _ (trapret forkret : ℕ) where
  -- What `allocproc` writes into the new kernel stack.
  unfoldable pub init_stack : Memory → ℕ → Memory
  init_stack m kstack =
      let tf = kstack + kstack_size - trapframe_size in
      let context = tf - 4 - context_size in
      let m1 = write_word m (tf - 4) trapret in
      let m2 = memset m1 context 0 context_size in write_word m2 (context + 16) forkret

  -- Behind `found:`: the slot without a page, and the slot with its kernel stack.
  unfoldable pub no_stack : Kernel → ℕ → Kmem → Kernel
  no_stack k i kmem = record k {
    procs = modify k.procs i (λ p. record (fresh k.nextpid p) { kstack = 0; state = unused });
    nextpid = wrap (k.nextpid +ℤ pos 1);
    kmem = kmem;
  }

  unfoldable pub with_stack : Kernel → ℕ → ℕ → Kmem → Kernel
  unfolding init_stack
  with_stack k i page kmem = record k {
    procs = modify k.procs i λ p. record (fresh k.nextpid p) {
      kstack = page;
      tf = page + kstack_size - trapframe_size;
      context = page + kstack_size - trapframe_size - 4 - context_size;
    };
    nextpid = wrap (k.nextpid +ℤ pos 1);
    kmem = record kmem { mem = init_stack kmem.mem page };
  }

  unfoldable pub allocproc : Kernel → Option ℕ × Kernel
  unfolding find_unused no_stack with_stack
  allocproc k = elim (find_unused k.procs 0) [
    | none ↦ (none, k)
    | some i ↦
        let (page, kmem) = kalloc k.kmem in
        if page == 0 then (none, no_stack k i kmem) else (some i, with_stack k i page kmem)
  ]

-- `wakeup1`, and `wakeup`, which holds the lock round it.
abbrev pub wake : ℕ → Proc → Proc
wake chan p = if is_sleeping p.state && p.chan == chan then record p { state = runnable } else p

unfoldable pub wakeup1 : ℕ → List Proc → List Proc
wakeup1 chan [] = []
wakeup1 chan (p ∷ ps) = wake chan p ∷ wakeup1 chan ps

unfoldable pub wakeup : ℕ → Kernel → Kernel
unfolding wakeup1
wakeup chan k = record k { procs = wakeup1 chan k.procs }

abbrev pub kill_proc : Proc → Proc
kill_proc p = record p { killed = true; state = if is_sleeping p.state then runnable else p.state }

-- The loops that stop at the first slot with the pid: the new table, and whether there was one.
unfoldable pub on_pid : ℤ → (Proc → Proc) → List Proc → List Proc × Bool
on_pid pid f [] = ([], false)
on_pid pid f (p ∷ ps) =
    let (ps', found) = on_pid pid f ps in
    if p.pid ==ℤ pid then (f p ∷ ps, true) else (p ∷ ps', found)

unfoldable pub kill : ℤ → Kernel → ℤ × Kernel
unfolding on_pid
kill pid k =
    let (procs, found) = on_pid pid kill_proc k.procs in
    (if found then pos 0 else minus_one, record k { procs = procs })

-- `sleep` up to `sched()`, on the process in slot `i`.
unfoldable pub go_to_sleep : ℕ → ℕ → Kernel → Kernel
go_to_sleep i chan k = record k {
  procs = modify k.procs i (λ p. record p { chan = chan; state = sleeping });
}

-- `yield` up to `sched()`.
unfoldable pub give_up : ℕ → Kernel → Kernel
give_up i k = record k { procs = modify k.procs i (λ p. record p { state = runnable }) }

unfoldable pub change_exec_time : ℤ → ℤ → Kernel → ℤ × Kernel
unfolding on_pid
change_exec_time pid exec_time k =
    (pos 0, record k { procs = (on_pid pid (λ p. record p { exec_time = exec_time }) k.procs).0 })

unfoldable pub change_deadline : ℤ → ℤ → Kernel → ℤ × Kernel
unfolding on_pid
change_deadline pid deadline k =
    (pos 0, record k { procs = (on_pid pid (λ p. record p { deadline = deadline }) k.procs).0 })
