-- ===== src/Proc/Policy/Admit.antt =====
-- Policy 0 of `change_sched_policy` in xv6/proc.c: who is admitted, and what becomes of the load.
use buffer_overflow_attack.Base.{
  ==ℤ_iff, Option-cases, ap, ap₂, arith, false, get_elem?, get_elem?-lt_length, get_elem?-modify_ne,
  get_elem?-modify_self, get_elem?-none_above, inl, inr, int_of_word, leb_ℤ, length, modify, none,
  pos, quot, refl, some, suc, sym, true, wrap, zero, ℕ, ℤ, ◌+ℤ◌, ◌+◌, ◌-◌, ◌/◌, ◌<ℤ◌, ◌<◌, ◌==ℤ◌,
  ◌∙◌, ◌≡◌, ◌≢◌, ◌≤ℤ◌, ◌≤◌, ◌⊎◌,
}
use buffer_overflow_attack.Kalloc.{ok, panic}
use buffer_overflow_attack.Proc.{Proc, Kernel, kill}
use buffer_overflow_attack.Proc.Policy.{div_int, fraction, admit_edf, change_sched_policy}
use buffer_overflow_attack.Proc.Table.{First, kill-First}

div_int-pos : (a b : ℕ) → b ≢ 0 → div_int (pos a) (pos b) ≡ some (pos (a / b))
unfolding div_int quot
div_int-pos a b ne =
    let z : a / 0 ≡ 0 = omega arith in let z' : 0 / b ≡ 0 = omega arith in ground arith

div_int-zero : (a b : ℤ) → b ≡ pos 0 → div_int a b ≡ none
unfolding div_int
div_int-zero a b e = rw e

-- The load of a task with a deadline `d` and an execution time `e`.
pub fraction-pos :
    (p : Proc) (d e : ℕ)
    → p.deadline ≡ pos d
    → p.exec_time ≡ pos e
    → e ≢ 0
    → e ≤ d
    → fraction p ≡ some (pos (10 / (d / e)))
unfolding fraction
fraction-pos p d e hd he ne le =
    let q : d / e ≢ 0 = grind arith in
    let step : div_int p.deadline p.exec_time ≡ some (pos (d / e)) =
      ap₂ div_int hd he ∙ div_int-pos d e ne in
    rw (fraction, step) (div_int-pos 10 (d / e) q)

-- A deadline below the execution time, or an execution time of 0, is a division by zero.
fraction-none :
    (p : Proc) (d e : ℕ)
    → p.deadline ≡ pos d
    → p.exec_time ≡ pos e
    → (d < e) ⊎ (e ≡ 0)
    → fraction p ≡ none
unfolding fraction
fraction-none p d e hd he (inr z) =
    let step : div_int p.deadline p.exec_time ≡ none =
      div_int-zero p.deadline p.exec_time (he ∙ ap pos z) in
    rw (fraction, step)
fraction-none p d e hd he (inl lt) =
    let q : d / e ≡ 0 = grind arith in
    let step : div_int p.deadline p.exec_time ≡ some (pos (d / e)) =
      ap₂ div_int hd he ∙ div_int-pos d e (omega arith) in
    rw (fraction, step) (div_int-zero (pos 10) (pos (d / e)) (ap pos q))

-- The slots before the first one with the pid are passed over.
admit_edf-skip :
    (pid : ℤ) (d n i r : ℕ) (k : Kernel) (j : ℕ) (p : Proc)
    → First pid k.procs j p
    → n ≡ d + suc r
    → j ≡ i + d
    → admit_edf pid n i k ≡ admit_edf pid (suc r) j k
unfolding admit_edf
admit_edf-skip pid zero n i r k j p h e ej =
    let e1 : n ≡ suc r = omega arith in
    let e2 : i ≡ j = omega arith in ap₂ (λ a b. admit_edf pid a b k) e1 e2
admit_edf-skip pid (suc d) zero i r k j p h e ej = absurd (omega arith)
admit_edf-skip pid (suc d) (suc n) i r k j p h e ej = elim (Option-cases (get_elem? k.procs i)) [
  | inl out ↦ (let e = h.at in let e' = get_elem?-none_above k.procs i j (omega arith) out in cc)
  | inr (q, at) ↦
      let ne = h.before i q (omega arith) at in
      let miss : (q.pid ==ℤ pid) ≡ false = ground (arith, ==ℤ_iff q.pid pid) in
      rw (admit_edf, at, miss)
        (admit_edf-skip pid d n (i + 1) r k j p h (omega arith) (omega arith))
]

admit_edf-absent :
    (pid : ℤ) (n i : ℕ) (k : Kernel)
    → ((j : ℕ) (q : Proc) → i ≤ j → get_elem? k.procs j ≡ some q → q.pid ≢ pid)
    → admit_edf pid n i k ≡ ok k
unfolding admit_edf
admit_edf-absent pid zero i k none_left = refl
admit_edf-absent pid (suc n) i k none_left = elim (Option-cases (get_elem? k.procs i)) [
  | inl out ↦ rw (admit_edf, out)
  | inr (q, at) ↦
      let ne = none_left i q (omega arith) at in
      let miss : (q.pid ==ℤ pid) ≡ false = ground (arith, ==ℤ_iff q.pid pid) in
      rw (admit_edf, at, miss)
        (admit_edf-absent pid n (i + 1) k (λ j r lt e. none_left j r (omega arith) e))
]

killed_absent :
    (pid : ℤ) (k : Kernel) (i : ℕ) (p : Proc)
    → First pid k.procs i p
    → ((j : ℕ) (q : Proc) → i < j → get_elem? k.procs j ≡ some q → q.pid ≢ pid)
    → (j : ℕ) (q : Proc) → i + 1 ≤ j
    → get_elem? (kill pid k).1.procs j ≡ some q
    → q.pid ≢ pid
killed_absent pid k i p h only j q lt e =
    let same = (kill-First pid k i p h).2 j (omega arith) in only j q (omega arith) (sym same ∙ e)

module _ (sched : ℕ → Kernel → Kernel) where
  find-First :
      (me : ℕ) (pid : ℤ) (k : Kernel) (i : ℕ) (p : Proc)
      → First pid k.procs i p
      → (r : ℕ) × (admit_edf pid (length k.procs) 0 k ≡ admit_edf pid (suc r) i k)
        × (suc r ≡ length k.procs - i)
  find-First me pid k i p h =
      let lt = get_elem?-lt_length k.procs i p h.at in
      let r = length k.procs - i - 1 in
      (
        r,
        admit_edf-skip pid i (length k.procs) 0 r k i p h (omega arith) (omega arith),
        omega arith,
      )

  -- A process with a deadline of at least its execution time, whose load fits under the bound of
  -- 10, is admitted: it gets policy 0 and the tick as its arrival time, the load is added to `U`, and
  -- no other slot changes.
  change_sched_policy-admits :
      (me : ℕ) (pid : ℤ) (k : Kernel) (i : ℕ) (p : Proc) (d e : ℕ)
      → First pid k.procs i p
      → p.deadline ≡ pos d
      → p.exec_time ≡ pos e
      → e ≢ 0
      → e ≤ d
      → wrap (k.u +ℤ pos (10 / (d / e))) ≤ℤ pos 10
      → (k' : Kernel) × (change_sched_policy sched me pid (pos 0) k ≡ ok (pos 0, k'))
        × (k'.u ≡ wrap (k.u +ℤ pos (10 / (d / e))))
        × (get_elem? k'.procs i
            ≡ some (record p { policy = pos 0; arrival_time = int_of_word k.ticks }))
        × ((j : ℕ) → i ≢ j → get_elem? k'.procs j ≡ get_elem? k.procs j)
  unfolding change_sched_policy
  change_sched_policy-admits me pid k i p d e h hd he ne le fits =
      let (r, skip, _) = find-First me pid k i p h in
      let total = wrap (k.u +ℤ pos (10 / (d / e))) in
      let g = λ (q : Proc). record q { policy = pos 0; arrival_time = int_of_word k.ticks } in
      let hit = (==ℤ_iff p.pid pid).1 h.has_pid in
      let under : leb_ℤ total (pos 10) ≡ true = ground arith in
      let step : admit_edf pid (suc r) i k
          ≡ ok (record k { u = total; procs = modify k.procs i g }) =
        unfold admit_edf in rw (admit_edf, h.at, hit, fraction-pos p d e hd he ne le, under) in
      (
        record k { u = total; procs = modify k.procs i g },
        rw (change_sched_policy, skip, step),
        refl,
        get_elem?-modify_self k.procs i g p h.at,
        λ j ne. get_elem?-modify_ne k.procs i j g ne,
      )

  -- A process whose load does not fit is killed, if no second slot has its pid: the call returns 0
  -- all the same, and `U` stays as it was.
  change_sched_policy-refuses :
      (me : ℕ) (pid : ℤ) (k : Kernel) (i : ℕ) (p : Proc) (d e : ℕ)
      → First pid k.procs i p
      → ((j : ℕ) (q : Proc) → i < j → get_elem? k.procs j ≡ some q → q.pid ≢ pid)
      → p.deadline ≡ pos d
      → p.exec_time ≡ pos e
      → e ≢ 0
      → e ≤ d
      → pos 10 <ℤ wrap (k.u +ℤ pos (10 / (d / e)))
      → change_sched_policy sched me pid (pos 0) k ≡ ok (pos 0, (kill pid k).1)
  unfolding change_sched_policy
  change_sched_policy-refuses me pid k i p d e h only hd he ne le over =
      let (r, skip, _) = find-First me pid k i p h in
      let total = wrap (k.u +ℤ pos (10 / (d / e))) in
      let hit = (==ℤ_iff p.pid pid).1 h.has_pid in
      let above : leb_ℤ total (pos 10) ≡ false = ground arith in
      let step : admit_edf pid (suc r) i k ≡ admit_edf pid r (i + 1) (kill p.pid k).1 =
        unfold admit_edf in rw (admit_edf, h.at, hit, fraction-pos p d e hd he ne le, above) in
      let done = admit_edf-absent pid r (i + 1) (kill pid k).1 (killed_absent pid k i p h only) in
      rw (change_sched_policy, skip, step, h.has_pid, done)

  -- `change_sched_policy` to policy 0, for the first process with the pid, whose deadline and execution
  -- time are not negative: if the deadline is below the execution time, or the execution time is 0, the
  -- kernel divides by zero, and the machine panics.
  pub change_sched_policy-panic :
      (me : ℕ) (pid : ℤ) (k : Kernel) (i : ℕ) (p : Proc) (d e : ℕ)
      → First pid k.procs i p
      → p.deadline ≡ pos d
      → p.exec_time ≡ pos e
      → (d < e) ⊎ (e ≡ 0)
      → change_sched_policy sched me pid (pos 0) k ≡ panic
  unfolding change_sched_policy
  change_sched_policy-panic me pid k i p d e h hd he bad =
      let (r, skip, _) = find-First me pid k i p h in
      let hit = (==ℤ_iff p.pid pid).1 h.has_pid in
      let step : admit_edf pid (suc r) i k ≡ panic =
        unfold admit_edf in rw (admit_edf, h.at, hit, fraction-none p d e hd he bad) in
      rw (change_sched_policy, skip, step)
