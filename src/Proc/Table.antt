-- ===== src/Proc/Table.antt =====
-- `sleep`, `wakeup` and `kill` of xv6/proc.c on the process table.
use buffer_overflow_attack.Base.{
  ==ℤ_iff, Bool-cases, List, [], ap, arith, false, get_elem?, get_elem?-modify_ne,
  get_elem?-modify_self, inl, inr, minus_one, modify, pos, refl, some, suc, true, zero, ℕ, ℤ, ◌<◌,
  ◌==ℤ◌, ◌∙◌, ◌∷◌, ◌≡◌, ◌≢◌, ◌⊎◌,
}
use buffer_overflow_attack.Proc.{
  sleeping, runnable, Proc, Kernel, wake, wakeup1, wakeup, kill_proc, on_pid, kill, go_to_sleep,
}

pub get_elem?-wakeup1 :
    (chan : ℕ) (ps : List Proc) (i : ℕ) (p : Proc)
    → get_elem? ps i ≡ some p
    → get_elem? (wakeup1 chan ps) i ≡ some (wake chan p)
unfolding wakeup1
get_elem?-wakeup1 chan [] i p e = cc
get_elem?-wakeup1 chan (q ∷ ps) zero p e =
    let same : q ≡ p = cc in ap (λ r. some (wake chan r)) same
get_elem?-wakeup1 chan (q ∷ ps) (suc i) p e = get_elem?-wakeup1 chan ps i p e

pub none_asleep :
    (chan : ℕ) (ps : List Proc) (i : ℕ) (p : Proc)
    → get_elem? (wakeup1 chan ps) i ≡ some p
    → ¬ ((p.state ≡ sleeping) × (p.chan ≡ chan))
unfolding wakeup1
none_asleep chan [] i p e h = cc
none_asleep chan (q ∷ ps) zero p e h = ground arith
none_asleep chan (q ∷ ps) (suc i) p e h = none_asleep chan ps i p e h

-- A process that has gone to sleep on a channel is runnable after a `wakeup` of the channel, and
-- after a `wakeup` no process sleeps on the channel.
pub wakeup-go_to_sleep :
    (i chan : ℕ) (k : Kernel) (p : Proc)
    → get_elem? k.procs i ≡ some p
    → (get_elem? (wakeup chan (go_to_sleep i chan k)).procs i
        ≡ some (record p { chan = chan; state = runnable }))
      × ((j : ℕ) (q : Proc)
          → get_elem? (wakeup chan (go_to_sleep i chan k)).procs j ≡ some q
          → ¬ ((q.state ≡ sleeping) × (q.chan ≡ chan)))
unfolding wakeup go_to_sleep
wakeup-go_to_sleep i chan k p at =
    let f : Proc → Proc = λ p. record p { chan = chan; state = sleeping } in
    let asleep = get_elem?-modify_self k.procs i f p at in
    (
      get_elem?-wakeup1 chan (modify k.procs i f) i (f p) asleep ∙ ground arith,
      none_asleep chan (modify k.procs i f),
    )

-- `wakeup` leaves a process alone that does not sleep on the channel.
pub wakeup_other :
    (i chan : ℕ) (k : Kernel) (p : Proc)
    → get_elem? k.procs i ≡ some p
    → (p.state ≢ sleeping) ⊎ (p.chan ≢ chan)
    → get_elem? (wakeup chan k).procs i ≡ some p
unfolding wakeup
wakeup_other i chan k p at other = get_elem?-wakeup1 chan k.procs i p at ∙ ap some (ground arith)

-- `p` stands in slot `i`, and no slot before it has its pid.
pub record First (pid : ℤ) (ps : List Proc) (i : ℕ) (p : Proc) : Type 0 where
  pub at : get_elem? ps i ≡ some p
  pub has_pid : p.pid ≡ pid
  pub before : (j : ℕ) (q : Proc) → j < i → get_elem? ps j ≡ some q → q.pid ≢ pid

abbrev pub Absent : ℤ → List Proc → Type 0
Absent pid ps = (j : ℕ) (q : Proc) → get_elem? ps j ≡ some q → q.pid ≢ pid

pub on_pid-First :
    (pid : ℤ) (f : Proc → Proc) (ps : List Proc) (i : ℕ) (p : Proc)
    → First pid ps i p
    → on_pid pid f ps ≡ (modify ps i f, true)
unfolding on_pid
on_pid-First pid f [] i p h = let e = h.at in cc
on_pid-First pid f (q ∷ ps) zero p h =
    let same : q ≡ p = (let e = h.at in cc) in
    let e : (q.pid ==ℤ pid) ≡ true =
      (==ℤ_iff q.pid pid).1 (ap (λ (r : Proc). r.pid) same ∙ h.has_pid) in
    rw e
on_pid-First pid f (q ∷ ps) (suc i) p h =
    let no = h.before 0 q (omega arith) refl in
    let later : First pid ps i p = record {
      at = h.at;
      has_pid = h.has_pid;
      before = λ j r lt e. h.before (suc j) r (omega arith) e;
    } in
    elim (Bool-cases (q.pid ==ℤ pid)) [
      | inl hit ↦ absurd (no ((==ℤ_iff q.pid pid).0 hit))
      | inr miss ↦ rw (miss, on_pid-First pid f ps i p later)
    ]

pub on_pid-Absent :
    (pid : ℤ) (f : Proc → Proc) (ps : List Proc) → Absent pid ps → on_pid pid f ps ≡ (ps, false)
unfolding on_pid
on_pid-Absent pid f [] h = refl
on_pid-Absent pid f (q ∷ ps) h = elim (Bool-cases (q.pid ==ℤ pid)) [
  | inl hit ↦ absurd (h 0 q refl ((==ℤ_iff q.pid pid).0 hit))
  | inr miss ↦ rw (miss, on_pid-Absent pid f ps (λ j r e. h (suc j) r e))
]

-- `kill` of a pid that the table holds returns 0, marks the first process with the pid, makes it
-- runnable if it slept, and changes no other slot.
pub kill-First :
    (pid : ℤ) (k : Kernel) (i : ℕ) (p : Proc)
    → First pid k.procs i p
    → ((kill pid k).0 ≡ pos 0)
      × (get_elem? (kill pid k).1.procs i ≡ some (kill_proc p))
      × ((j : ℕ) → i ≢ j → get_elem? (kill pid k).1.procs j ≡ get_elem? k.procs j)
      × ((p.state ≡ sleeping → (kill_proc p).state ≡ runnable)
          × (p.state ≢ sleeping → (kill_proc p).state ≡ p.state))
unfolding kill
kill-First pid k i p h = rw (on_pid-First pid kill_proc k.procs i p h) (
  refl,
  get_elem?-modify_self k.procs i kill_proc p h.at,
  (λ j ne. get_elem?-modify_ne k.procs i j kill_proc ne),
  (ground arith, ground arith),
)

-- `kill` of a pid that no slot has returns -1 and changes nothing.
pub kill-Absent : (pid : ℤ) (k : Kernel) → Absent pid k.procs → kill pid k ≡ (minus_one, k)
unfolding kill
kill-Absent pid k h = rw (on_pid-Absent pid kill_proc k.procs h)
