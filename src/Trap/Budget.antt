-- ===== src/Trap/Budget.antt =====
-- The clock tick of xv6/trap.c: how many ticks a real-time task gets.
use buffer_overflow_attack.Base.{
  Bool, Bool-cases, ap, ap₂, arith, get_elem?, get_elem?-modify_self, if-no, if-yes, inl, inr,
  int_of_word, leb, leb_ℤ, modify, pos, refl, some, subst, suc, sym, true, word_of_int, wrap, ℕ,
  ◌&&◌, ◌+ℤ◌, ◌+◌, ◌<◌, ◌==◌, ◌^◌, ◌∙◌, ◌≡◌, ◌≤◌,
}
use buffer_overflow_attack.Proc.{Kernel, Proc, running, give_up, runnable}
use buffer_overflow_attack.Trap.{
  tick, exits, preempt, t_timer, yields, count_tick, current, end_tick, in_slot, is_over,
  is_running, preempted, with_slot,
}

-- The process in slot `i` runs, has policy 0 or more, and has used `used` ticks of its `budget`.
pub record OnBudget (i used budget : ℕ) (k : Kernel) : Type 0 where
  pub proc : Proc
  pub here : k.cpu_proc ≡ some i
  pub at : get_elem? k.procs i ≡ some proc
  pub runs : proc.state ≡ running
  pub real_time : leb_ℤ (pos 0) proc.policy ≡ true
  pub elapsed : proc.elapsed_time ≡ pos used
  pub allowed : proc.exec_time ≡ pos budget

-- The process is on the processor again, its times and its policy as they were when it gave it up.
pub record Resumed (i : ℕ) (k k' : Kernel) : Type 0 where
  pub again : k'.cpu_proc ≡ some i
  pub same :
      (p : Proc)
      → get_elem? k.procs i ≡ some p
      → (q : Proc) × (get_elem? k'.procs i ≡ some q)
        × ((q.state ≡ running)
            × (q.policy ≡ p.policy)
            × (q.elapsed_time ≡ p.elapsed_time)
            × (q.exec_time ≡ p.exec_time))

-- `n` ticks of the process in slot `i`, at each of which it gave up the processor and got it again.
pub data Slices (i : ℕ) : ℕ → Kernel → Kernel → Type 0 where
  no_tick : (k : Kernel) → Slices i 0 k k
  one_more :
      (n : ℕ) (k k1 k2 k3 : Kernel) (from_user : Bool)
      → Slices i n k k1
      → preempt from_user t_timer k1 ≡ yields k2
      → Resumed i k2 k3
      → Slices i (suc n) k k3

current_task :
    (i used budget : ℕ) (k : Kernel) (t : OnBudget i used budget k) → current k ≡ some (i, t.proc)
current_task i used budget k t = ap (in_slot k) t.here ∙ ap (with_slot i) t.at

-- What the tick makes of the table.
abbrev counted : ℕ → Kernel → Kernel
counted i k = record k { procs = modify k.procs i count_tick }

tick_of :
    (from_user : Bool) (i used budget : ℕ) (k : Kernel) (t : OnBudget i used budget k)
    → preempt from_user t_timer k ≡ end_tick i (count_tick t.proc) (counted i k)
unfolding preempt tick
tick_of from_user i used budget k t =
    ap (preempted from_user t_timer k) (current_task i used budget k t)
    ∙ if-yes {t = is_running t.proc.state && t_timer == t_timer} _ _ (rw (t.runs) refl)

wrap_small : (n : ℕ) → suc n < 2 ^ 31 → wrap (pos n +ℤ pos 1) ≡ pos (suc n)
unfolding wrap int_of_word word_of_int ◌+ℤ◌
wrap_small n small = ground arith

counted_elapsed :
    (i used budget : ℕ) (k : Kernel) (t : OnBudget i used budget k)
    → suc used < 2 ^ 31
    → (count_tick t.proc).elapsed_time ≡ pos (suc used)
counted_elapsed i used budget k t small =
    ap (λ e. wrap (e +ℤ pos 1)) t.elapsed ∙ wrap_small used small

is_over_iff :
    (i used budget : ℕ) (k : Kernel) (t : OnBudget i used budget k)
    → suc used < 2 ^ 31
    → is_over (count_tick t.proc) ≡ leb budget (suc used)
is_over_iff i used budget k t small =
    ap₂ (λ a b. leb_ℤ (pos 0) t.proc.policy && leb_ℤ a b) t.allowed
      (counted_elapsed i used budget k t small)
    ∙ ap (λ b. b && leb_ℤ (pos budget) (pos (suc used))) t.real_time
    ∙ ap₂ leb (omega arith) (omega arith)

-- The slot behind a tick that is not the last.
gave_up :
    (i used budget : ℕ) (k : Kernel) (t : OnBudget i used budget k)
    → get_elem? (give_up i (counted i k)).procs i
      ≡ some (record (count_tick t.proc) { state = runnable })
unfolding give_up
gave_up i used budget k t =
    get_elem?-modify_self (modify k.procs i count_tick) i _ (count_tick t.proc)
      (get_elem?-modify_self k.procs i count_tick t.proc t.at)

overdue :
    (from_user : Bool) (i used budget : ℕ) (k : Kernel)
    → (t : OnBudget i used budget k) → suc used < 2 ^ 31
    → budget ≤ suc used
    → preempt from_user t_timer k ≡ exits (counted i k)
overdue from_user i used budget k t small over =
    tick_of from_user i used budget k t
    ∙ if-yes _ _ (is_over_iff i used budget k t small ∙ ground arith)

in_time :
    (from_user : Bool) (i used budget : ℕ) (k k2 k3 : Kernel)
    → OnBudget i used budget k
    → suc used < 2 ^ 31
    → preempt from_user t_timer k ≡ yields k2
    → Resumed i k2 k3
    → (suc used < budget) × OnBudget i (suc used) budget k3
in_time from_user i used budget k k2 k3 t small gives again =
    elim (Bool-cases (leb budget (suc used))) [
      | inl over ↦ let e = overdue from_user i used budget k t small (ground arith) in absurd cc
      | inr more ↦
          let e =
            tick_of from_user i used budget k t
            ∙ if-no _ _ (is_over_iff i used budget k t small ∙ more) in
          let left : give_up i (counted i k) ≡ k2 = cc in
          let (q, q_at, (q_runs, q_policy, q_elapsed, q_exec)) =
            again.same (record (count_tick t.proc) { state = runnable })
              (ap (λ (k : Kernel). get_elem? k.procs i) (sym left) ∙ gave_up i used budget k t) in
          (
            ground arith,
            record {
              proc = q;
              here = again.again;
              at = q_at;
              runs = q_runs;
              real_time = ap (leb_ℤ (pos 0)) q_policy ∙ t.real_time;
              elapsed = q_elapsed ∙ counted_elapsed i used budget k t small;
              allowed = q_exec ∙ t.allowed;
            },
          )
    ]

within :
    (i used budget n : ℕ) (k k' : Kernel)
    → Slices i n k k'
    → OnBudget i used budget k
    → used < budget
    → budget < 2 ^ 31
    → (used + n < budget) × OnBudget i (used + n) budget k'
within i used budget _ _ _ (no_tick k) t some_left small =
    let e : used ≡ used + 0 = omega arith in (omega arith, subst (λ u. OnBudget i u budget k) e t)
within i used budget _ _ _ (one_more n k k1 k2 k' from_user before gives again) t some_left small =
    let (less, t1) = within i used budget n k k1 before t some_left small in
    let (less', t') = in_time from_user i (used + n) budget k1 k2 k' t1 (omega arith) gives again in
    let e : suc (used + n) ≡ used + suc n = omega arith in
    (omega arith, subst (λ u. OnBudget i u budget k') e t')

-- A real-time task on the processor that has used less than its execution time, and gives up the
-- processor at each of `n` ticks and gets it back with its times unchanged: what it has used then is
-- still less than its execution time, and if only one tick is left, the handler ends it at the next.
pub ticks_within_budget :
    (i used budget n : ℕ) (k k' : Kernel) (from_user : Bool)
    → Slices i n k k'
    → OnBudget i used budget k
    → used < budget
    → budget < 2 ^ 31
    → (used + n < budget)
      × (budget ≡ suc (used + n) → (last : Kernel) × (preempt from_user t_timer k' ≡ exits last))
ticks_within_budget i used budget n k k' from_user h t some_left small =
    let (less, t') = within i used budget n k k' h t some_left small in
    (less, λ last. (_, overdue from_user i (used + n) budget k' t' (omega arith) (omega arith)))
