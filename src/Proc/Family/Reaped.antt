-- ===== src/Proc/Family/Reaped.antt =====
-- `exit` and `wait` of xv6/proc.c: the parent that sleeps in `wait` frees the child that exits.
use buffer_overflow_attack.Base.{
  List, ap, arith, false, get_elem?, get_elem?-modify_ne, get_elem?-modify_self, inl, inr, length,
  modify, refl, some, sym, true, ℕ, ◌∙◌, ◌≡◌, ◌≢◌,
}
use buffer_overflow_attack.Kalloc.{Kmem, Outcome, ok, kfree, ◌>>=◌}
use buffer_overflow_attack.Vm.Space.{freevm}
use buffer_overflow_attack.Proc.{Proc, Kernel, wakeup1, wake, sleeping, zombie}
use buffer_overflow_attack.Proc.Table.{get_elem?-wakeup1}
use buffer_overflow_attack.Proc.Family.{
  leave, proc_at, Waited, adopt, find_zombie, on_slot, reap, reap_at, reaped, scanned, vacant, wait,
}
use buffer_overflow_attack.Proc.Family.Awaited.{Awaited, woken, modified}
use buffer_overflow_attack.Proc.Family.Scan.{Runs, find_zombie-finds}
use buffer_overflow_attack.Proc.Family.Leave.{adopt_by, adopt_child_by, adopt_from-keeps}
use buffer_overflow_attack.Proc.Family.Exit.{leave-Runs}

-- What `exit` leaves of the process `q` for its parent.
record Kept (q r : Proc) : Type 0 where
  parent_same : r.parent ≡ q.parent
  kstack_same : r.kstack ≡ q.kstack
  pgdir_same : r.pgdir ≡ q.pgdir
  pid_same : r.pid ≡ q.pid

-- The slot of `q`, and no other child of its parent that is a zombie.
abbrev Stands : ℕ → Proc → List Proc → Type 0
Stands c q ps = (r : Proc) × (get_elem? ps c ≡ some r) × Kept q r

abbrev Living : ℕ → List Proc → Type 0
Living parent ps =
    (j : ℕ) (r : Proc) → get_elem? ps j ≡ some r → r.parent ≡ some parent → r.state ≢ zombie

wake-Kept : (chan : ℕ) (q r : Proc) → Kept q r → Kept q (wake chan r)
wake-Kept chan q r h =
    let e1 = h.parent_same in
    let e2 = h.kstack_same in
    let e3 = h.pgdir_same in
    let e4 = h.pid_same in
    record {
      parent_same = ground arith;
      kstack_same = ground arith;
      pgdir_same = ground arith;
      pid_same = ground arith;
    }

wakeup1-Stands :
    (chan c : ℕ) (q : Proc) (ps : List Proc) → Stands c q ps → Stands c q (wakeup1 chan ps)
wakeup1-Stands chan c q ps (r, at, h) =
    (wake chan r, get_elem?-wakeup1 chan ps c r at, wake-Kept chan q r h)

wakeup1-Living :
    (chan parent : ℕ) (ps : List Proc) → Living parent ps → Living parent (wakeup1 chan ps)
wakeup1-Living chan parent ps h j r' at mine dead =
    let (r, r_at, old) = woken chan ps j r' at in
    h j r r_at (sym old.parent_kept ∙ mine) (old.was_zombie dead)

module _ (ptable : ℕ) where
  adopt-Stands :
      (parent c init j : ℕ) (q : Proc) (ps : List Proc)
      → parent ≢ c
      → q.parent ≡ some parent
      → Stands c q ps
      → Stands c q (adopt ptable c init j ps)
  adopt-Stands parent c init j q ps ne of_parent (r, r_at, h) =
      adopt_by ptable (Stands c q) c init j ps (r, r_at, h)
        λ p there kid.
          let apart : j ≢ c = λ same.
            let at_c : get_elem? ps c ≡ some p = ap (get_elem? ps) (sym same) ∙ there in
            let both : r ≡ p = cc in
            let mine : p.parent ≡ some parent =
              ap (λ (s : Proc). s.parent) (sym both) ∙ h.parent_same ∙ of_parent in
            ne cc in
          adopt_child_by ptable (Stands c q) init j p ps
            (λ chan qs hq. wakeup1-Stands chan c q qs hq)
            (r, get_elem?-modify_ne ps j c _ apart ∙ r_at, h)

  adopt-Living :
      (parent c init j : ℕ) (ps : List Proc)
      → init ≢ parent
      → Living parent ps
      → Living parent (adopt ptable c init j ps)
  adopt-Living parent c init j ps ne h = adopt_by ptable (Living parent) c init j ps h λ p at kid.
      adopt_child_by ptable (Living parent) init j p ps
        (λ chan qs hq. wakeup1-Living chan parent qs hq)
        λ n r' r_at mine dead.
          let (r, old_at, how) = modified ps j (λ s. record s { parent = some init }) n r' r_at in
          elim how [
            | inl (here, same) ↦
                let new : r'.parent ≡ some init = ap (λ (s : Proc). s.parent) same in
                let both : some init ≡ some parent = sym new ∙ mine in ne cc
            | inr same ↦
                h n r old_at (ap (λ (s : Proc). s.parent) (sym same) ∙ mine)
                  (ap (λ (s : Proc). s.state) (sym same) ∙ dead)
          ]

  leave-Stands :
      (c parent init : ℕ) (q : Proc) (ps : List Proc)
      → parent ≢ c
      → q.parent ≡ some parent
      → get_elem? ps c ≡ some q
      → (r : Proc) × (get_elem? (leave ptable c init (some parent) ps) c ≡ some r)
        × (Kept q r × (r.state ≡ zombie))
  unfolding leave
  leave-Stands c parent init q ps ne of_parent at =
      let whole : Kept q q = record {
        parent_same = refl;
        kstack_same = refl;
        pgdir_same = refl;
        pid_same = refl;
      } in
      let (r, r_at, h) =
        adopt_from-keeps ptable (Stands c q) c init
          (λ j qs hq. adopt-Stands parent c init j q qs ne of_parent hq) (length ps) 0
          (wakeup1 (proc_at ptable parent) ps)
          (wakeup1-Stands (proc_at ptable parent) c q ps (q, at, whole)) in
      (
        record r { state = zombie },
        get_elem?-modify_self _ c _ r r_at,
        (
          record {
            parent_same = h.parent_same;
            kstack_same = h.kstack_same;
            pgdir_same = h.pgdir_same;
            pid_same = h.pid_same;
          },
          refl,
        ),
      )

  -- The only zombie among the children of the parent is the process that left.
  leave_sole :
      (c parent init : ℕ) (ps : List Proc)
      → init ≢ parent
      → Living parent ps
      → (j : ℕ) (r : Proc) → get_elem? (leave ptable c init (some parent) ps) j ≡ some r
      → r.parent ≡ some parent
      → r.state ≡ zombie
      → j ≡ c
  unfolding leave
  leave_sole c parent init ps ne h j r' at mine dead =
      let living =
        adopt_from-keeps ptable (Living parent) c init
          (λ n qs hq. adopt-Living parent c init n qs ne hq) (length ps) 0
          (wakeup1 (proc_at ptable parent) ps)
          (wakeup1-Living (proc_at ptable parent) parent ps h) in
      let (r, r_at, how) = modified _ c (λ p. record p { state = zombie }) j r' at in
      elim how [
        | inl (here, same) ↦ here
        | inr same ↦ absurd (
            living j r r_at (ap (λ (s : Proc). s.parent) (sym same) ∙ mine)
              (ap (λ (s : Proc). s.state) (sym same) ∙ dead))
      ]

  wait-found :
      (end i j : ℕ) (k : Kernel) (q : Proc)
      → find_zombie i false k.procs 0 ≡ (some j, true)
      → get_elem? k.procs j ≡ some q
      → wait ptable end i k ≡ reap ptable end j q k
  unfolding wait
  wait-found end i j k q found at =
      ap (scanned ptable end i k) found ∙ ap (reap_at ptable end j k) at

  reap_lem :
      (end c : ℕ) (q r : Proc) (k : Kernel) (kmem1 kmem2 : Kmem)
      → Kept q r
      → kfree end k.kmem q.kstack ≡ ok kmem1
      → freevm end q.pgdir kmem1 ≡ ok kmem2
      → reap ptable end c r k
        ≡ ok (reaped q.pid (record k { kmem = kmem2; procs = modify k.procs c vacant }))
  unfolding reap
  reap_lem end c q r k kmem1 kmem2 h stack space =
      let freed : Kmem → Outcome Waited =
        λ m. ok (reaped r.pid (record k { kmem = m; procs = modify k.procs c vacant })) in
      ap (λ m. m >>= λ m1. freevm end r.pgdir m1 >>= freed)
        (ap (kfree end k.kmem) h.kstack_same ∙ stack)
      ∙ ap (λ m. m >>= freed) (ap (λ d. freevm end d kmem1) h.pgdir_same ∙ space)
      ∙ ap (λ n. ok (reaped n (record k { kmem = kmem2; procs = modify k.procs c vacant })))
          h.pid_same

  -- The part of `exit` that holds `ptable.lock`, run by the process `q`, a child of a process other than
  -- itself and `init` that sleeps in `wait`, in a table in which nobody sleeps in `wait` with a zombie
  -- child. If `kfree` and `freevm` can free the stack and the space of `q`, then the parent is
  -- runnable behind it, and the next round of its `wait`, on the table and the memory that `exit`
  -- left, frees exactly `q`: it returns the pid of `q`, and the slot of `q` is vacant.
  pub leave_wakes :
      (end c parent init : ℕ) (k : Kernel) (p q : Proc) (kmem1 kmem2 : Kmem)
      → parent ≢ c
      → init ≢ parent
      → Awaited ptable k.procs
      → get_elem? k.procs parent ≡ some p
      → p.state ≡ sleeping
      → p.chan ≡ proc_at ptable parent
      → get_elem? k.procs c ≡ some q
      → q.parent ≡ some parent
      → kfree end k.kmem q.kstack ≡ ok kmem1
      → freevm end q.pgdir kmem1 ≡ ok kmem2
      → Runs parent (leave ptable c init (some parent) k.procs)
        × (wait ptable end parent (record k { procs = leave ptable c init (some parent) k.procs })
            ≡ ok (
                reaped q.pid (record k {
                  kmem = kmem2;
                  procs = modify (leave ptable c init (some parent) k.procs) c vacant;
                })))
  leave_wakes end c parent init k p q kmem1 kmem2 ne other h at asleep_p on_slot q_at mine stack
        space =
      let left = leave ptable c init (some parent) k.procs in
      let living : Living parent k.procs =
        λ j r r_at of_parent. h parent j p r at r_at asleep_p on_slot of_parent in
      let (r, r_at, (same, dead)) = leave-Stands c parent init q k.procs ne mine q_at in
      let (j, found, (s, s_at, (s_mine, s_dead))) =
        find_zombie-finds parent false left 0 c (r, r_at, (same.parent_same ∙ mine, dead)) in
      let here = leave_sole c parent init k.procs other living j s s_at s_mine s_dead in
      let stops : find_zombie parent false left 0 ≡ (some c, true) =
        found ∙ ap (λ m. (some m, true)) (omega arith) in
      (
        leave-Runs ptable c parent init k.procs p ne at asleep_p on_slot,
        wait-found end parent c (record k { procs = left }) r stops r_at
            ∙ reap_lem end c q r (record k { procs = left }) kmem1 kmem2 same stack space,
      )
