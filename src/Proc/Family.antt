-- ===== src/Proc/Family.antt =====
-- xv6/proc.c: `growproc`, `fork`, `exit` and `wait`. A process is named by its slot; `ptable` is the
-- address of the first slot, `end` the first address behind the kernel, and `kernel_data`, `trapret`
-- and `forkret` are addresses of the linker too. A descriptor, and `cwd`, is a slot and one, or 0.
pub mod Awaited
pub mod Scan
pub mod Leave
pub mod Exit
pub mod Reaped
pub mod Wait
pub mod Grow
use buffer_overflow_attack.Base.{
  Bool, List, Option, [], drop, false, get_elem?, get_or, if◌then◌else◌, length, ltb_ℤ, minus_one,
  modify, none, not, pos, replicate, set, some, suc, true, word_of_int, zero, ℕ, ℤ, ◌%◌, ◌&&◌, ◌*◌,
  ◌+◌, ◌-◌, ◌==ℤ◌, ◌==◌, ◌^◌, ◌||◌, ◌∷◌,
}
use buffer_overflow_attack.Mmu.{n_ofile}
use buffer_overflow_attack.Str.{memmove, write_word}
use buffer_overflow_attack.Kalloc.{Kmem, kfree, Outcome, ok, panic, ◌>>=◌}
use buffer_overflow_attack.Vm.Space.{allocuvm, copyuvm, deallocuvm, freevm}
use buffer_overflow_attack.Fs.{Super}
use buffer_overflow_attack.Icache.{Fs, idup, iput}
use buffer_overflow_attack.File.Io.{Sys, fileclose, finish}
use buffer_overflow_attack.File.{File, drop_file, fd_inode, fd_none, fd_pipe, filedup}
use buffer_overflow_attack.Proc.{
  State, Kernel, Proc, allocproc, go_to_sleep, runnable, trapframe_size, unused, wakeup1, zombie,
}
use buffer_overflow_attack.Proc.Sched.{switchuvm}

-- The process table and the pages, and the files; a page of a pipe that is closed is listed in the latter.
pub record World : Type 0 where
  pub kernel : Kernel
  pub sys : Sys

abbrev pub is_zombie : State → Bool
is_zombie zombie = true
is_zombie _ = false

-- `p->parent == curproc`
abbrev pub is_child : ℕ → Proc → Bool
is_child i p = elim p.parent [ none ↦ false | some j ↦ j == i ]

-- `sizeof(struct proc)`
abbrev pub proc_size : ℕ
proc_size = 156

-- The loop of `wait` from slot `n` on: the first child that is a zombie, and `havekids`.
unfoldable pub find_zombie : ℕ → Bool → List Proc → ℕ → Option ℕ × Bool
find_zombie i havekids [] n = (none, havekids)
find_zombie i havekids (p ∷ ps) n =
    let rest = find_zombie i (havekids || is_child i p) ps (n + 1) in
    if is_child i p && is_zombie p.state then (some n, true) else rest

-- What a round of `wait` ends with: the pid of the child that it frees, -1, or the process asleep.
pub data Waited : Type 0 where
  reaped : ℤ → Kernel → Waited
  refused : Waited
  asleep : Kernel → Waited

-- The slot of the child behind `kfree` and `freevm`.
abbrev pub vacant : Proc → Proc
vacant p = record p {
  kstack = 0;
  pid = pos 0;
  parent = none;
  name = set p.name 0 0;
  killed = false;
  state = unused;
}

module _ (ptable : ℕ) where
  -- The address of a slot, on which its process sleeps in `wait`.
  abbrev pub proc_at : ℕ → ℕ
  proc_at i = ptable + i * proc_size

  abbrev pub parent_chan : Option ℕ → ℕ
  parent_chan none = 0
  parent_chan (some i) = proc_at i

  -- A child of the process in slot `c` that exits becomes one of `init`.
  unfoldable pub adopt_child : ℕ → ℕ → Proc → List Proc → List Proc
  unfolding wakeup1
  adopt_child init j p ps =
      let ps' = modify ps j (λ q. record q { parent = some init }) in
      if is_zombie p.state then wakeup1 (proc_at init) ps' else ps'

  -- A round of the loop of `exit`.
  unfoldable pub adopt : ℕ → ℕ → ℕ → List Proc → List Proc
  unfolding adopt_child
  adopt c init j ps = elim (get_elem? ps j) [
    | none ↦ ps
    | some p ↦ if is_child c p then adopt_child init j p ps else ps
  ]

  unfoldable pub adopt_from : ℕ → ℕ → ℕ → ℕ → List Proc → List Proc
  unfolding adopt
  adopt_from zero j c init ps = ps
  adopt_from (suc left) j c init ps = adopt_from left (j + 1) c init (adopt c init j ps)

  -- The part of `exit` that holds `ptable.lock`, for the process in slot `c` with this parent.
  unfoldable pub leave : ℕ → ℕ → Option ℕ → List Proc → List Proc
  unfolding adopt_from wakeup1
  leave c init parent ps =
      modify (adopt_from (length ps) 0 c init (wakeup1 (parent_chan parent) ps)) c
        λ p. record p { state = zombie }

  module _ (end : ℕ) where
    unfoldable pub reap : ℕ → Proc → Kernel → Outcome Waited
    unfolding kfree freevm
    reap j p k = do
      kmem1 ← kfree end k.kmem p.kstack
      kmem2 ← freevm end p.pgdir kmem1
      ok (reaped p.pid (record k { kmem = kmem2; procs = modify k.procs j vacant }))

    -- No child of the process in slot `i` is a zombie.
    unfoldable pub stay : ℕ → Bool → Kernel → Outcome Waited
    unfolding go_to_sleep
    stay i havekids k = elim (get_elem? k.procs i) [
      | none ↦ panic
      | some p ↦
          if not havekids || p.killed then ok refused else ok (asleep (go_to_sleep i (proc_at i) k))
    ]

    abbrev pub reap_at : ℕ → Kernel → Option Proc → Outcome Waited
    reap_at j k none = panic
    reap_at j k (some p) = reap j p k

    -- Behind the inner loop of `wait`.
    abbrev pub scanned : ℕ → Kernel → Option ℕ × Bool → Outcome Waited
    scanned i k (none, havekids) = stay i havekids k
    scanned i k (some j, havekids) = reap_at j k (get_elem? k.procs j)

    -- A round of the outer loop of `wait`, up to the `sched()` of its `sleep`.
    unfoldable pub wait : ℕ → Kernel → Outcome Waited
    unfolding find_zombie reap stay
    wait i k = scanned i k (find_zombie i false k.procs 0)

-- The new size of the memory of a process: `sz` and `n` wrap.
module _ (end : ℕ) where
  unfoldable pub resize : ℤ → Proc → Kmem → Outcome (ℕ × Kmem)
  unfolding allocuvm deallocuvm
  resize n p kmem =
      let newsz = (p.sz + word_of_int n) % 2 ^ 32 in
      if ltb_ℤ (pos 0) n
      then allocuvm end p.pgdir p.sz newsz kmem
      else if ltb_ℤ n (pos 0)
      then deallocuvm end p.pgdir p.sz newsz kmem
      else ok (p.sz, kmem)

  -- Behind the change of the memory.
  abbrev pub grown : ℤ → ℕ → Proc → Kernel → Outcome (ℕ × Kmem) → Outcome (ℤ × Kernel)
  grown n i p k panic = panic
  grown n i p k (ok (sz, kmem)) =
      if not (n ==ℤ pos 0) && sz == 0 then ok (minus_one, record k { kmem = kmem }) else (do
        let changed : Proc = record p { sz = sz }
        k' ←
            switchuvm changed
              (record k { kmem = kmem; procs = modify k.procs i (λ q. record q { sz = sz }) })
        ok (pos 0, k'))

  abbrev pub on_slot : ℤ → ℕ → Kernel → Option Proc → Outcome (ℤ × Kernel)
  on_slot n i k none = panic
  on_slot n i k (some p) = grown n i p k (resize n p k.kmem)

  -- For the process in slot `i`.
  unfoldable pub growproc : ℤ → ℕ → Kernel → Outcome (ℤ × Kernel)
  unfolding resize switchuvm
  growproc n i k = on_slot n i k (get_elem? k.procs i)

-- `safestrcpy` of the first `n` bytes of a name, over the old name of the slot. It writes a NUL
-- behind the NUL that it copies.
unfoldable pub copy_name : ℕ → List ℕ → List ℕ → List ℕ
copy_name zero old name = 0 ∷ drop 1 old
copy_name (suc n) old [] = 0 ∷ 0 ∷ drop 2 old
copy_name (suc n) old (c ∷ name) =
    if c == 0 then 0 ∷ 0 ∷ drop 2 old else c ∷ copy_name n (drop 1 old) name

-- The loop of `fork` over the descriptors.
unfoldable pub dup_all : List ℕ → List File → Outcome (List File)
unfolding filedup
dup_all [] files = ok files
dup_all (zero ∷ fds) files = dup_all fds files
dup_all (suc f ∷ fds) files = do files' ← filedup f files; dup_all fds files'

-- The descriptors of the child, where the parent has a file or the slot's own.
unfoldable pub child_fds : List ℕ → List ℕ → List ℕ
child_fds [] old = old
child_fds (zero ∷ fds) old = get_or old 0 0 ∷ child_fds fds (drop 1 old)
child_fds (suc f ∷ fds) old = suc f ∷ child_fds fds (drop 1 old)

module _ (trapret forkret end kernel_data : ℕ) where
  -- `fork` by the process `p` in slot `i`, with the new space `pgdir` of the process in slot `j`. The
  -- field `eax` of a trap frame is at its byte 28.
  unfoldable pub birth : ℕ → Proc → ℕ → Proc → ℕ → World → Outcome (ℤ × World)
  unfolding dup_all child_fds copy_name idup memmove
  birth i p j np pgdir w = do
    files ← dup_all p.ofile w.sys.files
    let mem = write_word (memmove w.kernel.kmem.mem np.tf p.tf trapframe_size) (np.tf + 28) 0
    ok (
      np.pid,
      record w {
        sys = record (w.sys) {
          files = files;
          fs = record (w.sys.fs) { icache = idup (p.cwd - 1) w.sys.fs.icache };
        };
        kernel = record (w.kernel) {
          kmem = record (w.kernel.kmem) { mem = mem };
          procs = modify w.kernel.procs j λ q. record q {
            pgdir = pgdir;
            sz = p.sz;
            parent = some i;
            ofile = child_fds p.ofile q.ofile;
            cwd = p.cwd;
            name = copy_name 15 q.name p.name;
            state = runnable;
          };
        };
      },
    )

  -- Without memory for the copy of the space.
  unfoldable pub stillborn : ℕ → Proc → World → Outcome (ℤ × World)
  unfolding kfree
  stillborn j np w = do
    kmem ← kfree end w.kernel.kmem np.kstack
    ok (
      minus_one,
      record w {
        kernel = record (w.kernel) {
          kmem = kmem;
          procs = modify w.kernel.procs j (λ q. record q { pgdir = 0; kstack = 0; state = unused });
        };
      },
    )

  unfoldable pub fork_into : ℕ → Proc → ℕ → Proc → World → Outcome (ℤ × World)
  unfolding copyuvm birth stillborn
  fork_into i p j np w = do
    (pgdir, kmem) ← copyuvm end kernel_data p.pgdir p.sz w.kernel.kmem
    let w1 = record w { kernel = record (w.kernel) { kmem = kmem } }
    if pgdir == 0 then stillborn j np w1 else birth i p j np pgdir w1

  unfoldable pub fork : ℕ → World → Outcome (ℤ × World)
  unfolding allocproc fork_into
  fork i w =
      let (made, k) = allocproc trapret forkret w.kernel in
      elim made [
        | none ↦ ok (minus_one, record w { kernel = k })
        | some j ↦ elim (get_elem? k.procs i) [
          | none ↦ panic
          | some p ↦ elim (get_elem? k.procs j) [
            | none ↦ panic
            | some np ↦ fork_into i p j np (record w { kernel = k })
          ]
        ]
      ]

-- `killed` is `curproc->killed`.
module _ (sb : Super) (outstanding : ℕ) (killed : Bool) where
  -- The first loop of `exit`.
  unfoldable pub close_all : List ℕ → Sys → Outcome Sys
  unfolding fileclose
  close_all [] sys = ok sys
  close_all (zero ∷ fds) sys = close_all fds sys
  close_all (suc f ∷ fds) sys = do sys' ← fileclose sb outstanding killed f sys; close_all fds sys'

  -- Up to `sched()`, for the process in slot `c`.
  unfoldable pub exit : ℕ → ℕ → ℕ → World → Outcome World
  unfolding close_all iput leave
  exit ptable init c w = elim (get_elem? w.kernel.procs c) [
    | none ↦ panic
    | some p ↦ if c == init then panic else (do
      sys ← close_all p.ofile w.sys
      fs ← iput sb outstanding (p.cwd - 1) sys.fs
      let bare = modify w.kernel.procs c λ q. record q { ofile = replicate n_ofile 0; cwd = 0 }
      ok (record {
        sys = record sys { fs = finish sb outstanding killed fs };
        kernel = record (w.kernel) { procs = leave ptable c init p.parent bare };
      }))
  ]
