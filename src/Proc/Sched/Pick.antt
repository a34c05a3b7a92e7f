-- ===== src/Proc/Sched/Pick.antt =====
-- Which process a turn of `scheduler` in xv6/proc.c runs.
use buffer_overflow_attack.Base.{
  ==ℤ_iff, Bool-cases, List, [], ap, arith, false, get_elem?, if◌then◌else◌, inl, inr, pos, refl,
  some, suc, sym, take, true, zero, ℕ, ℤ, ◌&&◌, ◌+◌, ◌==ℤ◌, ◌∙◌, ◌∷◌, ◌≡◌, ◌≢◌, ◌≤ℤ◌, ◌⊎◌,
}
use buffer_overflow_attack.Proc.{runnable, is_runnable, Proc}
use buffer_overflow_attack.Proc.Sched.{overtakes, scan, select}

-- `a` comes before `b`, or ties with it: by the key, then by the pid.
abbrev pub Le : (Proc → ℤ) → Proc → Proc → Type 0
Le key a b = (key a ≤ℤ key b) × (key b ≤ℤ key a → a.pid ≤ℤ b.pid)

Le-refl : (key : Proc → ℤ) (a : Proc) → Le key a a
Le-refl key a = omega arith

Le-trans : (key : Proc → ℤ) (a b c : Proc) → Le key a b → Le key b c → Le key a c
Le-trans key a b c h g = omega arith

Le-overtakes : (key : Proc → ℤ) (p q : Proc) → overtakes key p q ≡ true → Le key q p
unfolding overtakes
Le-overtakes key p q h = ground arith

Le-stays : (key : Proc → ℤ) (p q : Proc) → overtakes key p q ≡ false → Le key p q
unfolding overtakes
Le-stays key p q h = ground arith

-- What the loop returns: a process that comes before the first candidate and before every
-- runnable process of the rest; it is the candidate, or runnable and in the slot returned.
pub record Best (key : Proc → ℤ) (ps : List Proc) (n : ℕ) (best r : ℕ × Proc) : Type 0 where
  pub first : Le key r.1 best.1
  pub least : (i : ℕ) (q : Proc) → get_elem? ps i ≡ some q → q.state ≡ runnable → Le key r.1 q
  pub from :
      (r ≡ best) ⊎ ((i : ℕ) × (get_elem? ps i ≡ some r.1) × (r.0 ≡ n + i) × (r.1.state ≡ runnable))

-- The candidate after one more process.
abbrev better : (Proc → ℤ) → Proc → ℕ → ℕ × Proc → ℕ × Proc
better key q n best = if is_runnable q.state && overtakes key best.1 q then (n, q) else best

better-Le :
    (key : Proc → ℤ) (q : Proc) (n : ℕ) (best : ℕ × Proc) → Le key (better key q n best).1 best.1
better-Le key q n best = elim (Bool-cases (is_runnable q.state && overtakes key best.1 q)) [
  | inl take ↦ rw take (Le-overtakes key best.1 q (ground arith))
  | inr keep ↦ rw keep (Le-refl key best.1)
]

better-least :
    (key : Proc → ℤ) (q : Proc) (n : ℕ) (best : ℕ × Proc)
    → q.state ≡ runnable
    → Le key (better key q n best).1 q
better-least key q n best e = elim (Bool-cases (overtakes key best.1 q)) [
  | inl take ↦
      let t : (is_runnable q.state && overtakes key best.1 q) ≡ true = ground arith in
      rw t (Le-refl key q)
  | inr keep ↦
      let t : (is_runnable q.state && overtakes key best.1 q) ≡ false = ground arith in
      rw t (Le-stays key best.1 q keep)
]

better-from :
    (key : Proc → ℤ) (q : Proc) (n : ℕ) (best : ℕ × Proc)
    → (better key q n best ≡ best) ⊎ ((better key q n best ≡ (n, q)) × (q.state ≡ runnable))
better-from key q n best = ground arith

Best-step :
    (key : Proc → ℤ) (q : Proc) (qs : List Proc) (n : ℕ) (best r : ℕ × Proc)
    → Best key qs (n + 1) (better key q n best) r
    → Best key (q ∷ qs) n best r
Best-step key q qs n best r ih =
    let b = better key q n best in
    record {
      first = Le-trans key r.1 b.1 best.1 ih.first (better-Le key q n best);
      least = least;
      from = from ih.from (better-from key q n best);
    }
  where
    least :
        (i : ℕ) (q' : Proc) → get_elem? (q ∷ qs) i ≡ some q' → q'.state ≡ runnable → Le key r.1 q'
    least zero q' e run =
        let same : q ≡ q' = cc in
        let run' : q.state ≡ runnable = ap (λ (p : Proc). p.state) same ∙ run in
        rw (← same)
          (Le-trans key r.1 (better key q n best).1 q ih.first (better-least key q n best run'))
    least (suc i) q' e run = ih.least i q' e run

    from :
        (r ≡ better key q n best)
          ⊎ ((i : ℕ) × (get_elem? qs i ≡ some r.1) × (r.0 ≡ n + 1 + i) × (r.1.state ≡ runnable))
        → (better key q n best ≡ best) ⊎ ((better key q n best ≡ (n, q)) × (q.state ≡ runnable))
        → (r ≡ best)
          ⊎ ((i : ℕ) × (get_elem? (q ∷ qs) i ≡ some r.1) × (r.0 ≡ n + i) × (r.1.state ≡ runnable))
    from (inl e) (inl e') = inl (e ∙ e')
    from (inl e) (inr (e', run)) =
        let e2 : r ≡ (n, q) = e ∙ e' in
        inr (
          0,
          ap (λ (t : ℕ × Proc). some t.1) (sym e2),
          ap (λ (t : ℕ × Proc). t.0) e2 ∙ omega arith,
          ap (λ (t : ℕ × Proc). t.1.state) e2 ∙ run,
        )
    from (inr (i, at, eq, run)) _ = inr (suc i, at, omega arith, run)

scan-Best :
    (key : Proc → ℤ) (ps : List Proc) (n : ℕ) (best : ℕ × Proc)
    → Best key ps n best (scan key ps n best)
unfolding scan
scan-Best key [] n best = record {
  first = Le-refl key best.1;
  least = λ i q e. cc;
  from = inl refl;
}
scan-Best key (q ∷ qs) n best =
    Best-step key q qs n best _ (scan-Best key qs (n + 1) (better key q n best))

Best-runnable :
    (key : Proc → ℤ) (procs : List Proc) (i : ℕ) (p : Proc) (r : ℕ × Proc)
    → get_elem? procs i ≡ some p
    → p.state ≡ runnable
    → Best key procs 0 (i, p) r
    → (get_elem? procs r.0 ≡ some r.1) × (r.1.state ≡ runnable)
Best-runnable key procs i p r at run best = go best.from
  where
    go :
        (r ≡ (i, p))
          ⊎ ((j : ℕ) × (get_elem? procs j ≡ some r.1) × (r.0 ≡ 0 + j) × (r.1.state ≡ runnable))
        → (get_elem? procs r.0 ≡ some r.1) × (r.1.state ≡ runnable)
    go (inl e) = rw e (at, run)
    go (inr (j, at', eq, run')) = (ap (get_elem? procs) (eq ∙ omega arith) ∙ at', run')

-- The process that a turn at a runnable process `p` runs is runnable and stands in the slot that
-- the turn goes on behind.
select-runnable :
    (procs : List Proc) (i : ℕ) (p : Proc)
    → get_elem? procs i ≡ some p
    → p.state ≡ runnable
    → let (j, q) = select procs i p in (get_elem? procs j ≡ some q) × (q.state ≡ runnable)
unfolding select
select-runnable procs i p at run = elim (Bool-cases (p.policy ==ℤ pos 0)) [
  | inl edf ↦
      rw edf (Best-runnable _ procs i p _ at run (scan-Best (λ q. q.deadline) procs 0 (i, p)))
  | inr other ↦ elim (Bool-cases (p.policy ==ℤ pos 1)) [
    | inl rma ↦
        rw (other, rma)
          (Best-runnable _ procs i p _ at run (scan-Best (λ q. q.priority) procs 0 (i, p)))
    | inr rr ↦ rw (other, rr) (at, run)
  ]
]

-- A turn at a runnable process of policy 0 picks a process that is runnable and stands in the slot that
-- the turn goes on behind, and of all runnable processes of the table it has the earliest deadline, and
-- among those with this deadline the least pid.
pub select-earliest_deadline :
    (procs : List Proc) (i : ℕ) (p : Proc)
    → get_elem? procs i ≡ some p
    → p.state ≡ runnable
    → p.policy ≡ pos 0
    → (get_elem? procs (select procs i p).0 ≡ some (select procs i p).1)
      × ((select procs i p).1.state ≡ runnable)
      × ((j : ℕ) (q : Proc)
          → get_elem? procs j ≡ some q
          → q.state ≡ runnable
          → Le (λ r. r.deadline) (select procs i p).1 q)
unfolding select
select-earliest_deadline procs i p at run edf =
    let best = scan-Best (λ r. r.deadline) procs 0 (i, p) in
    let (there, runs) = Best-runnable (λ r. r.deadline) procs i p _ at run best in
    rw ((==ℤ_iff p.policy (pos 0)).1 edf) (there, runs, λ j q at_q run_q. best.least j q at_q run_q)

-- At a process of policy 1 a turn runs the runnable process with the least priority number, and
-- among those the one with the least pid.
select-priority :
    (procs : List Proc) (i : ℕ) (p : Proc)
    → p.policy ≡ pos 1
    → (j : ℕ) (q : Proc) → get_elem? procs j ≡ some q
    → q.state ≡ runnable
    → Le (λ r. r.priority) (select procs i p).1 q
unfolding select
select-priority procs i p rma =
    let not_edf : (p.policy ==ℤ pos 0) ≡ false = ground arith in
    rw (not_edf, (==ℤ_iff p.policy (pos 1)).1 rma)
      (λ j q at run. (scan-Best (λ r. r.priority) procs 0 (i, p)).least j q at run)

-- At any other process a turn runs that process.
pub select_round_robin :
    (procs : List Proc) (i : ℕ) (p : Proc)
    → p.policy ≢ pos 0
    → p.policy ≢ pos 1
    → select procs i p ≡ (i, p)
unfolding select
select_round_robin procs i p n0 n1 =
    ground (arith, ==ℤ_iff p.policy (pos 0), ==ℤ_iff p.policy (pos 1))
