-- ===== src/Tests/TrapTests.antt =====
-- The clock tick of xv6/trap.c on a task.
use buffer_overflow_attack.Base.{
  Option, [], ap, arith, none, pos, refl, some, suc, true, wrap, ◌+ℤ◌, ◌+◌, ◌<◌, ◌^◌, ◌∷◌, ◌≡◌,
}
use buffer_overflow_attack.Proc.{Kernel, Proc, runnable, running}
use buffer_overflow_attack.Trap.{preempt, exits, t_timer, yields}
use buffer_overflow_attack.Trap.Budget.{
  Slices, OnBudget, Resumed, no_tick, one_more, ticks_within_budget,
}
use buffer_overflow_attack.Tests.KernelTests.{task, kernel_of, no_memory}

-- A task with an execution time of 3 ticks.
abbrev short_task : Proc
short_task = record (task 1 0 20 3) { state = running }

abbrev k_start : Kernel
k_start = record (kernel_of (short_task ∷ []) no_memory) { cpu_proc = some 0 }

-- One tick later, before and behind the scheduler.
abbrev k_given_up : Kernel
k_given_up = record k_start {
  procs = record short_task { state = runnable; elapsed_time = pos 1 } ∷ [];
}

abbrev k_again : Kernel
k_again = record k_start { procs = record short_task { elapsed_time = pos 1 } ∷ [] }

abbrev or_task : Option Proc → Proc
or_task none = short_task
or_task (some p) = p

gives_up : preempt true t_timer k_start ≡ yields k_given_up
unfolding preempt ◌+ℤ◌ wrap
gives_up = refl

gets_back : Resumed 0 k_given_up k_again
gets_back = record {
  again = refl;
  same = λ p at.
      let e = ap or_task at in
      (
        record short_task { elapsed_time = pos 1 },
        refl,
        (
          refl,
          ap (λ (r : Proc). r.policy) e,
          ap (λ (r : Proc). r.elapsed_time) e,
          ap (λ (r : Proc). r.exec_time) e,
        ),
      );
}

start-OnBudget : OnBudget 0 0 3 k_start
start-OnBudget = record {
  proc = short_task;
  here = refl;
  at = refl;
  runs = refl;
  real_time = refl;
  elapsed = refl;
  allowed = refl;
}

some_left : 0 < 3
some_left = omega arith

bounded : 3 < 2 ^ 31
bounded = omega arith

one_tick : Slices 0 1 k_start k_again
one_tick = one_more 0 k_start k_start k_given_up k_again true (no_tick k_start) gives_up gets_back

ticks_within_budget_example :
    (0 + 1 < 3) × (3 ≡ suc (0 + 1) → (last : Kernel) × (preempt true t_timer k_again ≡ exits last))
ticks_within_budget_example =
    ticks_within_budget 0 0 3 1 k_start k_again true one_tick start-OnBudget some_left bounded
