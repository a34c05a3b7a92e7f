-- ===== src/Proc/Family/Leave.antt =====
-- `exit` of xv6/proc.c: what the loop over the children keeps.
use buffer_overflow_attack.Base.{
  Bool-cases, List, Option, ap, get_elem?, get_elem?-modify_ne, if◌then◌else◌, inl, inr, none, refl,
  some, suc, sym, zero, ℕ, ◌+◌, ◌∙◌, ◌≡◌, ◌≢◌,
}
use buffer_overflow_attack.Proc.{Proc, runnable, wakeup1}
use buffer_overflow_attack.Proc.Family.{
  adopt, adopt_child, adopt_from, is_child, is_zombie, proc_at,
}
use buffer_overflow_attack.Proc.Family.Awaited.{
  Awaited, Quiet, adopt_child-Awaited, adopted, modified, wakeup1-Quiet,
}
use buffer_overflow_attack.Proc.Family.Scan.{
  Runs, Child, is_child-parent, modify_at, wakeup1-Child, wakeup1-Runs,
}

module _ (ptable : ℕ) where
  pub adopt_by :
      (P : List Proc → Type 0) (c init j : ℕ) (ps : List Proc)
      → P ps
      → ((p : Proc)
          → get_elem? ps j ≡ some p
          → p.parent ≡ some c
          → P (adopt_child ptable init j p ps))
      → P (adopt ptable c init j ps)
  unfolding adopt
  adopt_by P c init j ps h k = at (get_elem? ps j) (λ p e. k p e)
    where
      at :
          (o : Option Proc)
          → ((p : Proc) → o ≡ some p → p.parent ≡ some c → P (adopt_child ptable init j p ps))
          → P (elim o [
            | none ↦ ps
            | some p ↦ if is_child c p then adopt_child ptable init j p ps else ps
          ])
      at none k = h
      at (some p) k = elim (Bool-cases (is_child c p)) [
        | inl kid ↦ rw kid (k p refl (is_child-parent c p kid))
        | inr other ↦ rw other h
      ]

  pub adopt_from-keeps :
      (P : List Proc → Type 0) (c init : ℕ)
      → ((j : ℕ) (ps : List Proc) → P ps → P (adopt ptable c init j ps))
      → (left j : ℕ) (ps : List Proc) → P ps
      → P (adopt_from ptable left j c init ps)
  unfolding adopt_from
  adopt_from-keeps P c init step zero j ps h = h
  adopt_from-keeps P c init step (suc left) j ps h =
      adopt_from-keeps P c init step left (j + 1) (adopt ptable c init j ps) (step j ps h)

  -- What a new parent and a wakeup keep, `adopt_child` keeps.
  pub adopt_child_by :
      (P : List Proc → Type 0) (init j : ℕ) (p : Proc) (ps : List Proc)
      → ((chan : ℕ) (qs : List Proc) → P qs → P (wakeup1 chan qs))
      → P (adopted ptable init j ps)
      → P (adopt_child ptable init j p ps)
  unfolding adopt_child
  adopt_child_by P init j p ps wakes h = elim (Bool-cases (is_zombie p.state)) [
    | inl dead ↦ rw dead (wakes (proc_at ptable init) (adopted ptable init j ps) h)
    | inr alive ↦ rw alive h
  ]

  pub adopt-Awaited :
      (c init j : ℕ) (ps : List Proc)
      → Awaited ptable ps
      → Awaited ptable (adopt ptable c init j ps)
  adopt-Awaited c init j ps h =
      adopt_by (Awaited ptable) c init j ps h
        λ p at kid. adopt_child-Awaited ptable init j p ps at h

  pub adopt-Quiet :
      (chan c init j : ℕ) (ps : List Proc)
      → Quiet ptable chan ps
      → Quiet ptable chan (adopt ptable c init j ps)
  adopt-Quiet chan c init j ps h = adopt_by (Quiet ptable chan) c init j ps h λ p at kid.
      adopt_child_by (Quiet ptable chan) init j p ps
        (λ other qs hq. wakeup1-Quiet ptable chan other qs hq)
        λ i p' at' asleep.
          let (q, q_at, how) = modified ps j (λ r. record r { parent = some init }) i p' at' in
          h i q q_at (elim how [
            | inl (here, same) ↦ (
              ap (λ (r : Proc). r.state) (sym same) ∙ asleep.0,
              ap (λ (r : Proc). r.chan) (sym same) ∙ asleep.1,
            )
            | inr same ↦ (
              ap (λ (r : Proc). r.state) (sym same) ∙ asleep.0,
              ap (λ (r : Proc). r.chan) (sym same) ∙ asleep.1,
            )
          ])

  pub adopt-Runs : (i c init j : ℕ) (ps : List Proc) → Runs i ps → Runs i (adopt ptable c init j ps)
  adopt-Runs i c init j ps h = adopt_by (Runs i) c init j ps h λ p at kid.
      adopt_child_by (Runs i) init j p ps (λ chan qs hq. wakeup1-Runs chan i qs hq)
        (modify_at (λ q. q.state ≡ runnable) ps i j _ (λ q e. e) h)

  -- A child of another process is not adopted.
  pub adopt-Child :
      (parent c init j : ℕ) (ps : List Proc)
      → parent ≢ c
      → Child c parent ps
      → Child c parent (adopt ptable c init j ps)
  adopt-Child parent c init j ps ne (q, q_at, e) =
      adopt_by (Child c parent) c init j ps (q, q_at, e)
        λ p there kid.
          let apart : j ≢ c = λ same.
            let at_c : get_elem? ps c ≡ some p = ap (get_elem? ps) (sym same) ∙ there in
            let both : q ≡ p = cc in
            let mine : p.parent ≡ some parent = ap (λ (r : Proc). r.parent) (sym both) ∙ e in
            ne cc in
          adopt_child_by (Child c parent) init j p ps
            (λ chan qs hq. wakeup1-Child chan c parent qs hq)
            (q, get_elem?-modify_ne ps j c _ apart ∙ q_at, e)
