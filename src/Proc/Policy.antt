-- ===== src/Proc/Policy.antt =====
-- `change_sched_policy` and `change_rate` of xv6/proc.c, and the timer tick of xv6/trap.c.
pub mod Admit
pub mod Rate
use buffer_overflow_attack.Base.{
  List, Option, [], get_elem?, if◌then◌else◌, int_of_word, leb_ℤ, length, ltb_ℤ, minus_one, modify,
  negsuc, none, pos, quot, some, suc, wrap, zero, ℕ, ℤ, ◌&&◌, ◌*ℤ◌, ◌+ℤ◌, ◌+◌, ◌-ℤ◌, ◌-◌, ◌==ℤ◌,
  ◌==◌, ◌^◌, ◌||◌, ◌∷◌,
}
use buffer_overflow_attack.Kalloc.{Outcome, ok, panic, ◌>>=◌}
use buffer_overflow_attack.Proc.{
  State, unused, embryo, sleeping, runnable, running, zombie, is_sleeping, Proc, Kernel, on_pid,
  kill_proc, kill,
}

-- `a / b` on `int`: `none` is the divide error of the processor.
unfoldable pub div_int : ℤ → ℤ → Option ℤ
div_int a b =
    if b ==ℤ pos 0 || (a ==ℤ negsuc (2 ^ 31 - 1) && b ==ℤ minus_one) then none else some (quot a b)

-- `10/((p->deadline)/(p->exec_time))`
unfoldable pub fraction : Proc → Option ℤ
unfolding div_int
fraction p = elim (div_int p.deadline p.exec_time) [ none ↦ none | some d ↦ div_int (pos 10) d ]

-- The loop of policy 0 over `n` slots from `i` on. A divide error in the kernel ends in `panic`. A
-- process that is refused is killed, and the loop goes on.
unfoldable pub admit_edf : ℤ → ℕ → ℕ → Kernel → Outcome Kernel
unfolding fraction
admit_edf pid zero i k = ok k
admit_edf pid (suc n) i k =
    let next = λ (k' : Kernel). admit_edf pid n (i + 1) k' in
    elim (get_elem? k.procs i) [
      | none ↦ ok k
      | some p ↦
          if p.pid ==ℤ pid
          then elim (fraction p) [
            | none ↦ panic
            | some f ↦
                let test = wrap (k.u +ℤ f) in
                if leb_ℤ test (pos 10)
                then ok (record k {
                  u = test;
                  procs =
                      modify k.procs i
                        λ q. record q { policy = pos 0; arrival_time = int_of_word k.ticks };
                })
                else next (kill p.pid k).1
          ]
          else next k
    ]

-- `n` of policy 1: one more than the slots that have the policy.
unfoldable pub count_rma : List Proc → ℕ
count_rma [] = 1
count_rma (p ∷ ps) = if p.policy ==ℤ pos 1 then suc (count_rma ps) else count_rma ps

-- The bounds on the load, a thousand times the least upper bound for `n` tasks.
unfoldable pub rma_bound : ℕ → ℤ
rma_bound n =
    if n == 1
    then pos 1000
    else if n == 2
    then pos 828
    else if n == 3
    then pos 779
    else if n == 4
    then pos 757
    else if n == 5
    then pos 744
    else if n == 6
    then pos 735
    else if n == 7
    then pos 728
    else if n == 8
    then pos 724
    else if n == 9
    then pos 721
    else if n == 10
    then pos 717
    else pos 690

-- The first slot with the pid, from slot `i` on.
unfoldable pub find_pid : ℤ → List Proc → ℕ → Option (ℕ × Proc)
find_pid pid [] i = none
find_pid pid (p ∷ ps) i = if p.pid ==ℤ pid then some (i, p) else find_pid pid ps (i + 1)

-- `sched me` is what happens from the call of `sched` by the process in slot `me` until it runs
-- again.
module _ (sched : ℕ → Kernel → Kernel) where
  unfoldable pub admit_rma : ℕ → ℤ → Kernel → ℤ × Kernel
  unfolding count_rma rma_bound find_pid
  admit_rma me pid k =
      let test = rma_bound (count_rma k.procs) in
      elim (find_pid pid k.procs 0) [
        | none ↦ (negsuc 21, k)
        | some (i, p) ↦
            let load = wrap (wrap (pos 10 *ℤ p.exec_time) *ℤ p.rate) in
            let total = wrap (k.u +ℤ load) in
            if ltb_ℤ test total
            then (let k1 = (kill p.pid (record k { u = total })).1 in
                (negsuc 21, record k1 { u = wrap (k1.u -ℤ load) }))
            else (let procs =
                  modify k.procs i
                    λ q. record q { policy = pos 1; arrival_time = int_of_word k.ticks } in
                let k1 = record k {
                  u = total;
                  procs = modify procs me (λ q. record q { state = runnable });
                } in
                (pos 0, sched me k1))
      ]

  unfoldable pub change_sched_policy : ℕ → ℤ → ℤ → Kernel → Outcome (ℤ × Kernel)
  unfolding admit_edf admit_rma
  change_sched_policy me pid policy k =
      if policy ==ℤ pos 0
      then (do k' ← admit_edf pid (length k.procs) 0 k; ok (pos 0, k'))
      else if policy ==ℤ pos 1
      then ok (admit_rma me pid k)
      else ok (pos 0, k)

-- `w = 300*(30-rate)/29` and the priority that it gives. The divisor is never zero.
unfoldable pub weight : ℤ → ℤ
weight rate = quot (wrap (pos 300 *ℤ wrap (pos 30 -ℤ rate))) (pos 29)

unfoldable pub priority_of : ℤ → ℤ
unfolding weight
priority_of rate =
    let w = weight rate in
    if leb_ℤ (pos 0) w && leb_ℤ w (pos 100)
    then pos 1
    else if ltb_ℤ (pos 100) w && leb_ℤ w (pos 200)
    then pos 2
    else pos 3

unfoldable pub change_rate : ℤ → ℤ → Kernel → ℤ × Kernel
unfolding priority_of on_pid
change_rate pid rate k = (
  pos 0,
  record k {
    procs = (on_pid pid (λ p. record p { rate = rate; priority = priority_of rate }) k.procs).0;
  },
)
