-- ===== src/Proc/Family/Scan.antt =====
-- The loop of `wait` of xv6/proc.c finds a zombie child if there is one.
use buffer_overflow_attack.Base.{
  ==_iff, Bool, Bool-cases, List, Option, [], ap, arith, false, get_elem?, inl, inr, modify, none,
  refl, some, suc, true, zero, ℕ, ◌&&◌, ◌+◌, ◌==◌, ◌||◌, ◌∙◌, ◌∷◌, ◌≡◌,
}
use buffer_overflow_attack.Proc.{
  State, Proc, runnable, wake, wakeup1, zombie, embryo, running, sleeping, unused,
}
use buffer_overflow_attack.Proc.Table.{get_elem?-wakeup1}
use buffer_overflow_attack.Proc.Family.{find_zombie, is_child, is_zombie}

pub is_child-parent : (i : ℕ) (p : Proc) → is_child i p ≡ true → p.parent ≡ some i
is_child-parent i p h = of p.parent h
  where
    of : (o : Option ℕ) → elim o [ none ↦ false | some j ↦ j == i ] ≡ true → o ≡ some i
    of none h = cc
    of (some j) h = ap some ((==_iff j i).0 h)

pub is_child_self : (i : ℕ) (p : Proc) → p.parent ≡ some i → is_child i p ≡ true
is_child_self i p e = rw e ((==_iff i i).1 refl)

is_zombie-zombie : (s : State) → is_zombie s ≡ true → s ≡ zombie
is_zombie-zombie zombie h = refl
is_zombie-zombie unused h = cc
is_zombie-zombie embryo h = cc
is_zombie-zombie sleeping h = cc
is_zombie-zombie runnable h = cc
is_zombie-zombie running h = cc

&&_split : (a b : Bool) → a && b ≡ true → (a ≡ true) × (b ≡ true)
&&_split true true h = (refl, refl)
&&_split true false h = cc
&&_split false b h = cc

-- A process in the slot that is a child of this parent.
abbrev pub Child : ℕ → ℕ → List Proc → Type 0
Child c parent ps = (p : Proc) × (get_elem? ps c ≡ some p) × (p.parent ≡ some parent)

abbrev pub Runs : ℕ → List Proc → Type 0
Runs i ps = (p : Proc) × (get_elem? ps i ≡ some p) × (p.state ≡ runnable)

wake_keeps :
    (chan : ℕ) (p : Proc)
    → ((wake chan p).parent ≡ p.parent)
      × (p.state ≡ runnable → (wake chan p).state ≡ runnable)
      × (p.state ≡ zombie → (wake chan p).state ≡ zombie)
wake_keeps chan p = (ground arith, ground arith, ground arith)

pub wakeup1-Child :
    (chan c parent : ℕ) (ps : List Proc) → Child c parent ps → Child c parent (wakeup1 chan ps)
wakeup1-Child chan c parent ps (p, at, e) =
    (wake chan p, get_elem?-wakeup1 chan ps c p at, (wake_keeps chan p).0 ∙ e)

pub wakeup1-Runs : (chan i : ℕ) (ps : List Proc) → Runs i ps → Runs i (wakeup1 chan ps)
wakeup1-Runs chan i ps (p, at, e) =
    (wake chan p, get_elem?-wakeup1 chan ps i p at, (wake_keeps chan p).1 e)

pub modify_at :
    (P : Proc → Type 0) (ps : List Proc) (i j : ℕ) (f : Proc → Proc)
    → ((p : Proc) → P p → P (f p))
    → (p : Proc) × (get_elem? ps i ≡ some p) × P p
    → (p : Proc) × (get_elem? (modify ps j f) i ≡ some p) × P p
modify_at P [] i j f h (p, at, e) = (p, at, e)
modify_at P (q ∷ ps) zero zero f h (p, at, e) =
    let same : q ≡ p = cc in (f q, refl, h q (rw same e))
modify_at P (q ∷ ps) zero (suc j) f h (p, at, e) = (p, at, e)
modify_at P (q ∷ ps) (suc i) zero f h (p, at, e) = (p, at, e)
modify_at P (q ∷ ps) (suc i) (suc j) f h (p, at, e) = modify_at P ps i j f h (p, at, e)

-- A zombie child, if there is one, stops the scan of `wait` at itself or at one before it.
pub find_zombie-finds :
    (i : ℕ) (kids : Bool) (ps : List Proc) (n c : ℕ)
    → (q : Proc) × (get_elem? ps c ≡ some q) × ((q.parent ≡ some i) × (q.state ≡ zombie))
    → (j : ℕ) × (find_zombie i kids ps n ≡ (some (n + j), true))
      × ((q : Proc) × (get_elem? ps j ≡ some q) × ((q.parent ≡ some i) × (q.state ≡ zombie)))
unfolding find_zombie
find_zombie-finds i kids [] n c (q, at, ch) = cc
find_zombie-finds i kids (p ∷ ps) n c (q, at, ch) =
    elim (Bool-cases (is_child i p && is_zombie p.state)) [
      | inl hit ↦
          let (is_kid, is_dead) = &&_split (is_child i p) (is_zombie p.state) hit in
          (
            0,
            rw hit (ap (λ m. (some m, true)) (omega arith)),
            (p, refl, (is_child-parent i p is_kid, is_zombie-zombie p.state is_dead)),
          )
      | inr miss ↦
          let later = behind c at miss in
          let (j, found, who) =
            find_zombie-finds i (kids || is_child i p) ps (n + 1) later.0 (q, later.1, ch) in
          (suc j, rw miss (found ∙ ap (λ m. (some m, true)) (omega arith)), who)
    ]
  where
    behind :
        (c : ℕ)
        → get_elem? (p ∷ ps) c ≡ some q
        → is_child i p && is_zombie p.state ≡ false
        → (c' : ℕ) × (get_elem? ps c' ≡ some q)
    behind zero at miss =
        let same : p ≡ q = cc in
        let kid = is_child_self i p (rw same ch.0) in
        let dead : is_zombie p.state ≡ true = rw (same, ch.1) refl in
        absurd (let no : true ≡ false = (rw (kid, dead) at miss) in cc)
    behind (suc c) at miss = (c, at)
