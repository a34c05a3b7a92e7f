-- ===== src/Proc/Family/Exit.antt =====
-- `exit` of xv6/proc.c: the wakeup of the parent, and what `wait` relies on.
use buffer_overflow_attack.Base.{
  ==_iff, Bool, List, ap, get_elem?, get_elem?-modify_ne, inl, inr, length, modify, refl, replicate,
  some, subst, sym, ℕ, ◌-◌, ◌==◌, ◌∙◌, ◌≡◌, ◌≢◌, ◌⊎◌,
}
use buffer_overflow_attack.Kalloc.{panic}
use buffer_overflow_attack.Proc.{Proc, sleeping, wakeup1, zombie, runnable, wake}
use buffer_overflow_attack.Proc.Table.{get_elem?-wakeup1, none_asleep}
use buffer_overflow_attack.Proc.Family.{
  leave, adopt, adopt_from, proc_at, World, close_all, exit, on_slot,
}
use buffer_overflow_attack.Proc.Family.Awaited.{Awaited, Quiet, modified, wakeup1-Awaited}
use buffer_overflow_attack.Proc.Family.Scan.{Runs, Child, wakeup1-Child, modify_at}
use buffer_overflow_attack.Proc.Family.Leave.{
  adopt-Runs, adopt-Awaited, adopt-Child, adopt-Quiet, adopt_from-keeps,
}
use buffer_overflow_attack.Fs.{Super}
use buffer_overflow_attack.Mmu.{n_ofile}
use buffer_overflow_attack.Icache.{iput}
use buffer_overflow_attack.Fs.Covered.{Ends, Ends-after, Ends-if, Ends-some}

module _ (ptable : ℕ) where
  -- Before the last step of `exit`.
  record Leaving (c parent : ℕ) (ps : List Proc) : Type 0 where
    awaited : Awaited ptable ps
    quiet : Quiet ptable (proc_at ptable parent) ps
    child : Child c parent ps

  adopt-Leaving :
      (c parent init : ℕ)
      → parent ≢ c
      → (j : ℕ) (ps : List Proc) → Leaving c parent ps
      → Leaving c parent (adopt ptable c init j ps)
  adopt-Leaving c parent init ne j ps h = record {
    awaited = adopt-Awaited ptable c init j ps h.awaited;
    quiet = adopt-Quiet ptable (proc_at ptable parent) c init j ps h.quiet;
    child = adopt-Child ptable parent c init j ps ne h.child;
  }

  bury : ℕ → List Proc → List Proc
  bury c ps = modify ps c (λ p. record p { state = zombie })

  bury-Awaited : (c parent : ℕ) (ps : List Proc) → Leaving c parent ps → Awaited ptable (bury c ps)
  unfolding bury
  bury-Awaited c parent ps l i n p' q' at_p at_q asleep_p on_slot child dead =
      let (p, p_at, p_how) = modified ps c (λ r. record r { state = zombie }) i p' at_p in
      let (q, q_at, q_how) = modified ps c (λ r. record r { state = zombie }) n q' at_q in
      let p_same : p' ≡ p = elim p_how [
        | inl (here, same) ↦
            absurd
              (let e : zombie ≡ sleeping = ap (λ (r : Proc). r.state) (sym same) ∙ asleep_p in cc)
        | inr same ↦ same
      ] in
      let p_asleep = ap (λ (r : Proc). r.state) (sym p_same) ∙ asleep_p in
      let p_chan = ap (λ (r : Proc). r.chan) (sym p_same) ∙ on_slot in
      elim q_how [
        | inl (here, same) ↦
            let (r, r_at, mine) = l.child in
            let at_c : get_elem? ps c ≡ some q = ap (get_elem? ps) (sym here) ∙ q_at in
            let both : r ≡ q = cc in
            let of_parent : q.parent ≡ some parent =
              ap (λ (s : Proc). s.parent) (sym both) ∙ mine in
            let of_i : q.parent ≡ some i = ap (λ (s : Proc). s.parent) (sym same) ∙ child in
            let e : i ≡ parent = cc in l.quiet i p p_at (p_asleep, p_chan ∙ ap (proc_at ptable) e)
        | inr same ↦
            l.awaited i n p q p_at q_at p_asleep p_chan
              (ap (λ (s : Proc). s.parent) (sym same) ∙ child)
              (ap (λ (s : Proc). s.state) (sym same) ∙ dead)
      ]

  woken-Leaving :
      (c parent : ℕ) (ps : List Proc)
      → Awaited ptable ps
      → Child c parent ps
      → Leaving c parent (wakeup1 (proc_at ptable parent) ps)
  woken-Leaving c parent ps h child = record {
    awaited = wakeup1-Awaited ptable (proc_at ptable parent) ps h;
    quiet = none_asleep (proc_at ptable parent) ps;
    child = wakeup1-Child (proc_at ptable parent) c parent ps child;
  }

  adopted-Leaving :
      (c parent init : ℕ) (ps : List Proc)
      → parent ≢ c
      → Awaited ptable ps
      → Child c parent ps
      → Leaving c parent
          (adopt_from ptable (length ps) 0 c init (wakeup1 (proc_at ptable parent) ps))
  adopted-Leaving c parent init ps ne h child =
      adopt_from-keeps ptable (Leaving c parent) c init (adopt-Leaving c parent init ne) (length ps)
        0 (wakeup1 (proc_at ptable parent) ps) (woken-Leaving c parent ps h child)

  -- The part of `exit` that holds `ptable.lock` keeps what `wait` relies on.
  leave-Awaited :
      (c parent init : ℕ) (ps : List Proc)
      → parent ≢ c
      → Awaited ptable ps
      → Child c parent ps
      → Awaited ptable (leave ptable c init (some parent) ps)
  unfolding leave bury
  leave-Awaited c parent init ps ne h child =
      bury-Awaited c parent _ (adopted-Leaving c parent init ps ne h child)

  pub leave-Runs :
      (c parent init : ℕ) (ps : List Proc) (p : Proc)
      → parent ≢ c
      → get_elem? ps parent ≡ some p
      → p.state ≡ sleeping
      → p.chan ≡ proc_at ptable parent
      → Runs parent (leave ptable c init (some parent) ps)
  unfolding leave
  leave-Runs c parent init ps p ne at asleep_p on_slot =
      let chan = proc_at ptable parent in
      let woke : (wake chan p).state ≡ runnable =
        rw (asleep_p, (==_iff p.chan chan).1 on_slot) refl in
      let first : Runs parent (wakeup1 chan ps) =
        (wake chan p, get_elem?-wakeup1 chan ps parent p at, woke) in
      let (q, q_at, q_runs) =
        adopt_from-keeps ptable (Runs parent) c init
          (λ j qs h. adopt-Runs ptable parent c init j qs h) (length ps) 0 (wakeup1 chan ps)
          first in
      (q, get_elem?-modify_ne _ c parent _ (λ e. ne (sym e)) ∙ q_at, q_runs)

  -- The descriptors and the directory of the process that exits are cleared first.
  bare-Awaited :
      (c : ℕ) (f : Proc → Proc) (ps : List Proc)
      → ((p : Proc) → ((f p).state ≡ p.state) × ((f p).chan ≡ p.chan) × ((f p).parent ≡ p.parent))
      → Awaited ptable ps
      → Awaited ptable (modify ps c f)
  bare-Awaited c f ps keeps h i n p' q' at_p at_q asleep_p on_slot child dead =
      let (p, p_at, p_how) = modified ps c f i p' at_p in
      let (q, q_at, q_how) = modified ps c f n q' at_q in
      let (p_state, p_chan, p_parent) = kept p p' p_how in
      let (q_state, q_chan, q_parent) = kept q q' q_how in
      h i n p q p_at q_at (sym p_state ∙ asleep_p) (sym p_chan ∙ on_slot) (sym q_parent ∙ child)
        (sym q_state ∙ dead)
    where
      kept :
          {i : ℕ} (p p' : Proc)
          → ((i ≡ c) × (p' ≡ f p)) ⊎ (p' ≡ p)
          → (p'.state ≡ p.state) × (p'.chan ≡ p.chan) × (p'.parent ≡ p.parent)
      kept p p' (inl (here, same)) = rw same (keeps p)
      kept p p' (inr same) = rw same (refl, refl, refl)

  module _ (sb : Super) (outstanding : ℕ) (killed : Bool) where
    -- `exit` by a process with another parent, in a table in which nobody sleeps in `wait` with a zombie
    -- child, leaves such a table, if it does not panic.
    pub exit-Awaited :
        (init c parent : ℕ) (w : World)
        → parent ≢ c
        → Child c parent w.kernel.procs
        → Awaited ptable w.kernel.procs
        → Ends (exit sb outstanding killed ptable init c w) (λ w'. Awaited ptable w'.kernel.procs)
    unfolding exit
    exit-Awaited init c parent w ne (p, at, mine) h =
        let Q : World → Type 0 = λ w'. Awaited ptable w'.kernel.procs in
        let bare = modify w.kernel.procs c λ q. record q { ofile = replicate n_ofile 0; cwd = 0 } in
        Ends-some (get_elem? w.kernel.procs c) panic _ Q p at (
          Ends-if (c == init) panic _ Q tt (
            Ends-after (close_all sb outstanding killed p.ofile w.sys) _ Q λ sys.
              Ends-after (iput sb outstanding (p.cwd - 1) sys.fs) _ Q λ fs.
                subst (λ o. Awaited ptable (leave ptable c init o bare)) (sym mine)
                  (leave-Awaited c parent init bare ne
                    (bare-Awaited c _ w.kernel.procs (λ q. (refl, refl, refl)) h)
                    (modify_at (λ q. q.parent ≡ some parent) w.kernel.procs c c _ (λ q e. e)
                      (p, at, mine)))))
