-- ===== src/Trap.antt =====
-- xv6/trap.c: the trap handler, with the clock tick that ends a real-time task.
pub mod Budget
use buffer_overflow_attack.Base.{
  Bool, Option, false, get_elem?, if◌then◌else◌, leb_ℤ, modify, none, not, pos, some, true, wrap, ℕ,
  ◌%◌, ◌&&◌, ◌+ℤ◌, ◌+◌, ◌==◌, ◌^◌, ◌||◌,
}
use buffer_overflow_attack.Kalloc.{Outcome, ok, panic}
use buffer_overflow_attack.Proc.{State, Kernel, Proc, give_up, running, wakeup}

-- T_SYSCALL; T_IRQ0 with IRQ_TIMER, IRQ_IDE, IRQ_KBD, IRQ_COM1 and IRQ_SPURIOUS added.
abbrev pub t_syscall : ℕ
t_syscall = 64

abbrev pub t_timer : ℕ
t_timer = 32

abbrev pub t_ide : ℕ
t_ide = 46

abbrev pub t_kbd : ℕ
t_kbd = 33

abbrev pub t_com1 : ℕ
t_com1 = 36

abbrev pub t_spurious : ℕ
t_spurious = 63

abbrev pub is_running : State → Bool
is_running running = true
is_running _ = false

-- How the handler ends: it goes back to the process, calls `exit`, or calls `yield`.
pub data TrapEnd : Type 0 where
  resumes : Kernel → TrapEnd
  exits : Kernel → TrapEnd
  yields : Kernel → TrapEnd

-- `myproc()`, with its slot.
abbrev pub with_slot : ℕ → Option Proc → Option (ℕ × Proc)
with_slot i none = none
with_slot i (some p) = some (i, p)

abbrev pub in_slot : Kernel → Option ℕ → Option (ℕ × Proc)
in_slot k none = none
in_slot k (some i) = with_slot i (get_elem? k.procs i)

abbrev pub current : Kernel → Option (ℕ × Proc)
current k = in_slot k k.cpu_proc

abbrev pub is_killed : Kernel → Bool
is_killed k = elim (current k) [ none ↦ false | some (i, p) ↦ p.killed ]

-- `if(myproc() && myproc()->killed && (tf->cs&3) == DPL_USER) exit();`
abbrev pub exit_if_killed : Bool → Kernel → TrapEnd
exit_if_killed from_user k = if is_killed k && from_user then exits k else resumes k

-- The tick of the process in slot `i`: its time is counted, and a real-time task ends with its time.
abbrev pub count_tick : Proc → Proc
count_tick p = record p { elapsed_time = wrap (p.elapsed_time +ℤ pos 1) }

abbrev pub is_over : Proc → Bool
is_over p = leb_ℤ (pos 0) p.policy && leb_ℤ p.exec_time p.elapsed_time

abbrev pub end_tick : ℕ → Proc → Kernel → TrapEnd
end_tick i p k = if is_over p then exits k else yields (give_up i k)

unfoldable pub tick : ℕ → Proc → Kernel → TrapEnd
unfolding give_up
tick i p k = end_tick i (count_tick p) (record k { procs = modify k.procs i count_tick })

-- Behind the `switch`, where a process of user space has not been killed. Behind `yield`, when the
-- process runs again, the last test stands too.
abbrev pub preempted : Bool → ℕ → Kernel → Option (ℕ × Proc) → TrapEnd
preempted from_user trapno k none = resumes k
preempted from_user trapno k (some (i, p)) =
    if is_running p.state && trapno == t_timer then tick i p k else exit_if_killed from_user k

unfoldable pub preempt : Bool → ℕ → Kernel → TrapEnd
unfolding tick
preempt from_user trapno k = preempted from_user trapno k (current k)

-- `ticks_chan` is the address of `ticks`, and `cpu` the number of the processor. `syscall` and `device`
-- are what the system call and the driver of a device do.
module _ (ticks_chan cpu : ℕ) (syscall : Kernel → Kernel) (device : ℕ → Kernel → Kernel) where
  unfoldable pub clock : Kernel → Kernel
  unfolding wakeup
  clock k = if cpu == 0 then wakeup ticks_chan (record k { ticks = (k.ticks + 1) % 2 ^ 32 }) else k

  -- The last branch: a fault of the kernel, or of a process, which is killed.
  unfoldable pub fault : Bool → Kernel → Outcome Kernel
  fault from_user k = elim (current k) [
    | none ↦ panic
    | some (i, p) ↦
        if not from_user
        then panic
        else ok (record k { procs = modify k.procs i (λ q. record q { killed = true }) })
  ]

  -- The `switch`. The interrupts that it only reports or ignores change nothing.
  unfoldable pub handle : Bool → ℕ → Kernel → Outcome Kernel
  unfolding clock fault
  handle from_user trapno k =
      if trapno == t_timer
      then ok (clock k)
      else if trapno == t_ide || trapno == t_kbd || trapno == t_com1
      then ok (device trapno k)
      else if trapno == t_ide + 1 || trapno == t_timer + 7 || trapno == t_spurious
      then ok k
      else fault from_user k

  unfoldable pub system_call : Kernel → TrapEnd
  system_call k =
      if is_killed k
      then exits k
      else (let k' = syscall k in if is_killed k' then exits k' else resumes k')

  unfoldable pub trap : Bool → ℕ → Kernel → Outcome TrapEnd
  unfolding handle system_call preempt
  trap from_user trapno k =
      if trapno == t_syscall then ok (system_call k) else elim (handle from_user trapno k) [
        | panic ↦ panic
        | ok k' ↦ ok (if is_killed k' && from_user then exits k' else preempt from_user trapno k')
      ]
