-- ===== src/Proc/Sched.antt =====
-- `scheduler` of xv6/proc.c: one pass over the table, and which process each turn runs.
pub mod Pick
use buffer_overflow_attack.Base.{
  Bool, List, Option, [], false, get_elem?, if◌then◌else◌, leb_ℤ, length, ltb, ltb_ℤ, modify, none,
  pos, some, suc, true, wrap, zero, ℕ, ℤ, ◌%◌, ◌&&◌, ◌+ℤ◌, ◌+◌, ◌==ℤ◌, ◌==◌, ◌^◌, ◌||◌, ◌∷◌,
}
use buffer_overflow_attack.Mmu.{kstack_size, v2p}
use buffer_overflow_attack.Kalloc.{Outcome, ok, panic, ◌>>=◌}
use buffer_overflow_attack.Proc.{running, is_runnable, Proc, Kernel}

-- Whether `q` takes the place of the candidate `p`, by the deadline or the priority, then the pid.
unfoldable pub overtakes : (Proc → ℤ) → Proc → Proc → Bool
overtakes key p q =
    if leb_ℤ (key q) (key p) then (if key p ==ℤ key q then ltb_ℤ q.pid p.pid else true) else false

-- The inner loop: the candidate, with its slot, after the processes from slot `i` on.
unfoldable pub scan : (Proc → ℤ) → List Proc → ℕ → ℕ × Proc → ℕ × Proc
unfolding overtakes
scan key [] i best = best
scan key (q ∷ qs) i best =
    scan key qs (i + 1) (if is_runnable q.state && overtakes key best.1 q then (i, q) else best)

-- The three branches on the policy of the process that the outer loop has reached.
unfoldable pub select : List Proc → ℕ → Proc → ℕ × Proc
unfolding scan
select procs i p =
    if p.policy ==ℤ pos 0
    then scan (λ q. q.deadline) procs 0 (i, p)
    else if p.policy ==ℤ pos 1
    then scan (λ q. q.priority) procs 0 (i, p)
    else (i, p)

-- The first loop of a pass: the runnable processes age.
unfoldable pub age : List Proc → List Proc
age [] = []
age (p ∷ ps) =
    (if is_runnable p.state
      then record p { arrival_elapsed_time = wrap (p.arrival_elapsed_time +ℤ pos 1) }
      else p)
    ∷ age ps

-- xv6/vm.c: `switchuvm`, with the kernel stack and the page table that it loads.
unfoldable pub switchuvm : Proc → Kernel → Outcome Kernel
switchuvm p k =
    if p.kstack == 0 || p.pgdir == 0
    then panic
    else ok (record k { esp0 = (p.kstack + kstack_size) % 2 ^ 32; cr3 = v2p p.pgdir })

-- `resume j` is what happens from `swtch` to the process in slot `j` until it switches back;
-- `kpgdir` is the kernel's page table.
module _ (resume : ℕ → Kernel → Kernel) (kpgdir : ℕ) where
  -- Running the process in slot `j`, up to `c->proc = 0`.
  unfoldable pub dispatch : ℕ → Proc → Kernel → Outcome Kernel
  unfolding switchuvm
  dispatch j p k = do
    k1 ← switchuvm p (record k { cpu_proc = some j })
    let k2 = record k1 { procs = modify k1.procs j (λ q. record q { state = running }) }
    let k3 = resume j k2
    ok (record k3 { cr3 = v2p kpgdir; cpu_proc = none })

  -- One round of the outer loop at slot `i`, with the slot at which it goes on.
  unfoldable pub turn : Kernel → ℕ → Outcome (Kernel × ℕ)
  unfolding select dispatch
  turn k i = elim (get_elem? k.procs i) [
    | none ↦ ok (k, i)
    | some p ↦
        if is_runnable p.state
        then (let (j, q) = select k.procs i p in do k' ← dispatch j q k; ok (k', j + 1))
        else ok (k, i + 1)
  ]

  -- A pass of the scheduler on fuel: `none` is a pass that goes on.
  unfoldable pub pass_from : ℕ → Kernel → ℕ → Option (Outcome Kernel)
  unfolding turn
  pass_from zero k i = none
  pass_from (suc fuel) k i =
      if ltb i (length k.procs)
      then elim (turn k i) [ ok (k', i') ↦ pass_from fuel k' i' | panic ↦ some panic ]
      else some (ok k)

  unfoldable pub pass : ℕ → Kernel → Option (Outcome Kernel)
  unfolding age pass_from
  pass fuel k = pass_from fuel (record k { procs = age k.procs }) 0
