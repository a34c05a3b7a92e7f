-- ===== src/Proc/Family/Wait.antt =====
-- `wait` of xv6/proc.c does not fall asleep while a child is a zombie.
use buffer_overflow_attack.Base.{
  Bool, List, Option, ap, false, get_elem?, inl, inr, modify, none, not, refl, some, sym, ℕ, ◌||◌,
  ◌∙◌, ◌≡◌, ◌≢◌,
}
use buffer_overflow_attack.Kalloc.{ok, panic, kfree}
use buffer_overflow_attack.Proc.{Kernel, Proc, go_to_sleep, sleeping, unused, zombie}
use buffer_overflow_attack.Vm.Space.{freevm}
use buffer_overflow_attack.Proc.Family.{
  wait, Waited, asleep, find_zombie, proc_at, reap, reap_at, reaped, refused, scanned, stay, vacant,
}
use buffer_overflow_attack.Proc.Family.Awaited.{Awaited, modified}
use buffer_overflow_attack.Proc.Family.Scan.{find_zombie-finds}
use buffer_overflow_attack.Fs.Covered.{Ends, Ends-after, Ends-if, Ends-option}

module _ (ptable : ℕ) where
  -- What holds of the table behind a round of `wait`.
  abbrev pub Keeps : Waited → Type 0
  Keeps (reaped pid k) = Awaited ptable k.procs
  Keeps refused = Unit {0}
  Keeps (asleep k) = Awaited ptable k.procs

  vacant-Awaited :
      (ps : List Proc) (j : ℕ) → Awaited ptable ps → Awaited ptable (modify ps j vacant)
  vacant-Awaited ps j h i n p' q' at_p at_q asleep_p on_slot child dead =
      let (p, p_at, p_how) = modified ps j vacant i p' at_p in
      let (q, q_at, q_how) = modified ps j vacant n q' at_q in
      elim p_how [
        | inl (here, same) ↦
            let e : unused ≡ sleeping = ap (λ (r : Proc). r.state) (sym same) ∙ asleep_p in
            absurd cc
        | inr same_p ↦ elim q_how [
          | inl (here, same) ↦
              let e : unused ≡ zombie = ap (λ (r : Proc). r.state) (sym same) ∙ dead in absurd cc
          | inr same_q ↦
              h i n p q p_at q_at (ap (λ (r : Proc). r.state) (sym same_p) ∙ asleep_p)
                (ap (λ (r : Proc). r.chan) (sym same_p) ∙ on_slot)
                (ap (λ (r : Proc). r.parent) (sym same_q) ∙ child)
                (ap (λ (r : Proc). r.state) (sym same_q) ∙ dead)
        ]
      ]

  -- Going to sleep on the own slot, without a zombie child.
  sleep-Awaited :
      (i : ℕ) (k : Kernel)
      → Awaited ptable k.procs
      → ((n : ℕ) (q : Proc) → get_elem? k.procs n ≡ some q → q.parent ≡ some i → q.state ≢ zombie)
      → Awaited ptable (go_to_sleep i (proc_at ptable i) k).procs
  unfolding go_to_sleep
  sleep-Awaited i k h none_dead m n p' q' at_p at_q asleep_p on_slot child dead =
      let f : Proc → Proc = λ r. record r { chan = proc_at ptable i; state = sleeping } in
      let (p, p_at, p_how) = modified k.procs i f m p' at_p in
      let (q, q_at, q_how) = modified k.procs i f n q' at_q in
      elim q_how [
        | inl (here, same) ↦
            let e : sleeping ≡ zombie = ap (λ (r : Proc). r.state) (sym same) ∙ dead in absurd cc
        | inr same_q ↦
            let q_child = ap (λ (r : Proc). r.parent) (sym same_q) ∙ child in
            let q_dead = ap (λ (r : Proc). r.state) (sym same_q) ∙ dead in
            elim p_how [
              | inl (here, same) ↦ none_dead n q q_at (q_child ∙ ap some here) q_dead
              | inr same_p ↦
                  h m n p q p_at q_at (ap (λ (r : Proc). r.state) (sym same_p) ∙ asleep_p)
                    (ap (λ (r : Proc). r.chan) (sym same_p) ∙ on_slot) q_child q_dead
            ]
      ]

  stay-Keeps :
      (end i : ℕ) (kids : Bool) (k : Kernel)
      → Awaited ptable k.procs
      → ((n : ℕ) (q : Proc) → get_elem? k.procs n ≡ some q → q.parent ≡ some i → q.state ≢ zombie)
      → Ends (stay ptable end i kids k) Keeps
  unfolding stay
  stay-Keeps end i kids k h none_dead = Ends-option (get_elem? k.procs i) panic _ Keeps tt λ p.
      Ends-if (not kids || p.killed) (ok refused) (ok (asleep (go_to_sleep i (proc_at ptable i) k)))
        Keeps tt (sleep-Awaited i k h none_dead)

  reap-Keeps :
      (end j : ℕ) (p : Proc) (k : Kernel)
      → Awaited ptable k.procs
      → Ends (reap ptable end j p k) Keeps
  unfolding reap
  reap-Keeps end j p k h =
      Ends-after (kfree end k.kmem p.kstack) _ Keeps
        λ kmem1. Ends-after (freevm end p.pgdir kmem1) _ Keeps λ kmem2. vacant-Awaited k.procs j h

  reap_at-Keeps :
      (end j : ℕ) (k : Kernel) (o : Option Proc)
      → Awaited ptable k.procs
      → Ends (reap_at ptable end j k o) Keeps
  reap_at-Keeps end j k none h = tt
  reap_at-Keeps end j k (some p) h = reap-Keeps end j p k h

  scanned-Keeps :
      (end i : ℕ) (k : Kernel) (r : Option ℕ × Bool)
      → find_zombie i false k.procs 0 ≡ r
      → Awaited ptable k.procs
      → Ends (scanned ptable end i k r) Keeps
  scanned-Keeps end i k (none, kids) e h = stay-Keeps end i kids k h λ n q at child dead.
      let (j, found, who) = find_zombie-finds i false k.procs 0 n (q, at, (child, dead)) in cc
  scanned-Keeps end i k (some j, kids) e h = reap_at-Keeps end j k (get_elem? k.procs j) h

  -- A round of `wait` in a table in which nobody sleeps in `wait` with a zombie child leaves such a table,
  -- if it does not panic: behind freeing a child, and behind falling asleep.
  pub wait-Keeps :
      (end i : ℕ) (k : Kernel) → Awaited ptable k.procs → Ends (wait ptable end i k) Keeps
  unfolding wait
  wait-Keeps end i k h = scanned-Keeps end i k (find_zombie i false k.procs 0) refl h
