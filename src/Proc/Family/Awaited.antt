-- ===== src/Proc/Family/Awaited.antt =====
-- `exit` and `wait` of xv6/proc.c on the process table: no wakeup of a parent is lost.
use buffer_overflow_attack.Base.{
  Bool-cases, List, [], ap, false, get_elem?, inl, inr, modify, refl, some, suc, sym, zero, ℕ, ◌&&◌,
  ◌==◌, ◌∙◌, ◌∷◌, ◌≡◌, ◌≢◌, ◌⊎◌,
}
use buffer_overflow_attack.Proc.{Proc, is_sleeping, sleeping, wake, zombie, wakeup1}
use buffer_overflow_attack.Proc.Table.{none_asleep}
use buffer_overflow_attack.Proc.Family.{proc_at, adopt_child, is_zombie, on_slot}

-- `p'` is `p`, or `p` woken up.
pub record Older (p p' : Proc) : Type 0 where
  pub chan_kept : p'.chan ≡ p.chan
  pub parent_kept : p'.parent ≡ p.parent
  pub was_sleeping : p'.state ≡ sleeping → p.state ≡ sleeping
  pub was_zombie : p'.state ≡ zombie → p.state ≡ zombie

wake-Older : (chan : ℕ) (p : Proc) → Older p (wake chan p)
wake-Older chan p = elim (Bool-cases (is_sleeping p.state && p.chan == chan)) [
  | inl hit ↦ rw hit (record {
    chan_kept = refl;
    parent_kept = refl;
    was_sleeping = λ h. absurd cc;
    was_zombie = λ h. absurd cc;
  })
  | inr miss ↦
      rw miss (record {
        chan_kept = refl;
        parent_kept = refl;
        was_sleeping = λ h. h;
        was_zombie = λ h. h;
      })
]

pub woken :
    (chan : ℕ) (ps : List Proc) (i : ℕ) (p' : Proc)
    → get_elem? (wakeup1 chan ps) i ≡ some p'
    → (p : Proc) × (get_elem? ps i ≡ some p) × Older p p'
unfolding wakeup1
woken chan [] i p' e = cc
woken chan (q ∷ ps) zero p' e =
    let same : wake chan q ≡ p' = cc in (q, refl, rw (sym same) (wake-Older chan q))
woken chan (q ∷ ps) (suc i) p' e = woken chan ps i p' e

pub modified :
    (ps : List Proc) (j : ℕ) (f : Proc → Proc) (i : ℕ) (p' : Proc)
    → get_elem? (modify ps j f) i ≡ some p'
    → (p : Proc) × (get_elem? ps i ≡ some p) × (((i ≡ j) × (p' ≡ f p)) ⊎ (p' ≡ p))
modified [] j f i p' e = cc
modified (q ∷ ps) zero f zero p' e = let same : f q ≡ p' = cc in (q, refl, inl (refl, sym same))
modified (q ∷ ps) zero f (suc i) p' e = (p', e, inr refl)
modified (q ∷ ps) (suc j) f zero p' e = let same : q ≡ p' = cc in (q, refl, inr (sym same))
modified (q ∷ ps) (suc j) f (suc i) p' e =
    let (p, at, how) = modified ps j f i p' e in
    (p, at, elim how [ inl (here, same) ↦ inl (ap suc here, same) | inr same ↦ inr same ])

module _ (ptable : ℕ) where
  -- Whoever sleeps on its own slot, as `wait` does, has no child that is a zombie.
  abbrev pub Awaited : List Proc → Type 0
  Awaited ps =
      (i j : ℕ) (p q : Proc)
      → get_elem? ps i ≡ some p
      → get_elem? ps j ≡ some q
      → p.state ≡ sleeping
      → p.chan ≡ proc_at ptable i
      → q.parent ≡ some i
      → q.state ≢ zombie

  -- No process sleeps on the channel.
  abbrev pub Quiet : ℕ → List Proc → Type 0
  Quiet chan ps =
      (i : ℕ) (p : Proc) → get_elem? ps i ≡ some p → ¬ ((p.state ≡ sleeping) × (p.chan ≡ chan))

  pub wakeup1-Awaited : (chan : ℕ) (ps : List Proc) → Awaited ps → Awaited (wakeup1 chan ps)
  wakeup1-Awaited chan ps h i j p' q' at_p at_q asleep_p on_slot child dead =
      let (p, p_at, p_old) = woken chan ps i p' at_p in
      let (q, q_at, q_old) = woken chan ps j q' at_q in
      h i j p q p_at q_at (p_old.was_sleeping asleep_p) (sym p_old.chan_kept ∙ on_slot)
        (sym q_old.parent_kept ∙ child) (q_old.was_zombie dead)

  pub wakeup1-Quiet :
      (chan other : ℕ) (ps : List Proc) → Quiet chan ps → Quiet chan (wakeup1 other ps)
  wakeup1-Quiet chan other ps h i p' at (asleep_p, on_chan) =
      let (p, p_at, old) = woken other ps i p' at in
      h i p p_at (old.was_sleeping asleep_p, sym old.chan_kept ∙ on_chan)

  -- The child in slot `j` of a process that exits, which is a zombie or not.
  abbrev pub adopted : ℕ → ℕ → List Proc → List Proc
  adopted init j ps = modify ps j (λ q. record q { parent = some init })

  -- A zombie among the children, if it has been one of them before or the parent does not sleep.
  adopted-Awaited :
      (init j : ℕ) (ps ps' : List Proc)
      → Awaited ps
      → ((i : ℕ) (p' : Proc)
          → get_elem? ps' i ≡ some p'
          → (p : Proc) × (get_elem? (adopted init j ps) i ≡ some p) × Older p p')
      → ((p : Proc) → get_elem? ps j ≡ some p → p.state ≡ zombie → Quiet (proc_at ptable init) ps')
      → Awaited ps'
  adopted-Awaited init j ps ps' h back quiet i n p' q' at_p at_q asleep_p on_slot child dead =
      let (p1, p1_at, p_old) = back i p' at_p in
      let (q1, q1_at, q_old) = back n q' at_q in
      let (p, p_at, p_how) = modified ps j _ i p1 p1_at in
      let (q, q_at, q_how) = modified ps j _ n q1 q1_at in
      let q1_dead = q_old.was_zombie dead in
      let p1_asleep = p_old.was_sleeping asleep_p in
      let p_asleep : p.state ≡ sleeping = elim p_how [
        | inl (here, same) ↦ ap (λ (r : Proc). r.state) (sym same) ∙ p1_asleep
        | inr same ↦ ap (λ (r : Proc). r.state) (sym same) ∙ p1_asleep
      ] in
      let p_chan : p.chan ≡ p1.chan = elim p_how [
        | inl (here, same) ↦ ap (λ (r : Proc). r.chan) (sym same)
        | inr same ↦ ap (λ (r : Proc). r.chan) (sym same)
      ] in
      elim q_how [
        | inl (here, same) ↦
            let new_parent : q1.parent ≡ some init = ap (λ (r : Proc). r.parent) same in
            let is_init : init ≡ i = (let e = q_old.parent_kept in cc) in
            let q_dead : q.state ≡ zombie = ap (λ (r : Proc). r.state) (sym same) ∙ q1_dead in
            let at_j : get_elem? ps j ≡ some q = ap (get_elem? ps) (sym here) ∙ q_at in
            quiet q at_j q_dead i p' at_p (asleep_p, on_slot ∙ ap (proc_at ptable) (sym is_init))
        | inr same ↦
            h i n p q p_at q_at p_asleep (p_chan ∙ sym p_old.chan_kept ∙ on_slot)
              (ap (λ (r : Proc). r.parent) (sym same) ∙ sym q_old.parent_kept ∙ child)
              (ap (λ (r : Proc). r.state) (sym same) ∙ q1_dead)
      ]

  unwoken : (p : Proc) → Older p p
  unwoken p = record {
    chan_kept = refl;
    parent_kept = refl;
    was_sleeping = λ h. h;
    was_zombie = λ h. h;
  }

  pub adopt_child-Awaited :
      (init j : ℕ) (p : Proc) (ps : List Proc)
      → get_elem? ps j ≡ some p
      → Awaited ps
      → Awaited (adopt_child ptable init j p ps)
  unfolding adopt_child
  adopt_child-Awaited init j p ps at h = elim (Bool-cases (is_zombie p.state)) [
    | inl dead ↦ rw dead (
        adopted-Awaited init j ps (wakeup1 (proc_at ptable init) (adopted init j ps)) h
          (woken (proc_at ptable init) (adopted init j ps))
          λ q at_q dead_q. none_asleep (proc_at ptable init) (adopted init j ps))
    | inr alive ↦ rw alive (
        adopted-Awaited init j ps (adopted init j ps) h (λ i p' e. (p', e, unwoken p'))
          λ q at_q dead_q.
            let same : p ≡ q = cc in
            let lives : is_zombie q.state ≡ false = rw same at alive in
            absurd (let no : is_zombie zombie ≡ false = rw dead_q at lives in cc))
  ]
