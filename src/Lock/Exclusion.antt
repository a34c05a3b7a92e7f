-- ===== src/Lock/Exclusion.antt =====
-- Many processors at one spin lock of xv6/spinlock.c: each step is one access to the lock that the
-- hardware keeps apart, and the processors take their steps in any order.
use buffer_overflow_attack.Base.{
  ==_iff, Bool, Bool-cases, Option, ap, arith, false, if◌then◌else◌, inl, inr, none, refl, some,
  sym, true, ℕ, ◌==◌, ◌∙◌, ◌≡◌, ◌≢◌, ◌⊎◌,
}
use buffer_overflow_attack.Lock.{Spinlock, initlock, is_cpu, test_holding}

-- Where a processor stands: outside, in the loop of `acquire`, behind its `xchg`, between `acquire`
-- and `release`, and behind the `lk->cpu = 0` of `release`.
pub data Pc : Type 0 where
  outside : Pc
  spinning : Pc
  taken : Pc
  critical : Pc
  leaving : Pc

abbrev pub holds_lock : Pc → Bool
holds_lock outside = false
holds_lock spinning = false
holds_lock taken = true
holds_lock critical = true
holds_lock leaving = true

abbrev pub is_owner : Pc → Bool
is_owner critical = true
is_owner _ = false

pub record World : Type 0 where
  pub lk : Spinlock
  pub pc : ℕ → Pc

abbrev pub put_pc : (ℕ → Pc) → ℕ → Pc → ℕ → Pc
put_pc pc i v j = if j == i then v else pc j

-- What `xchg` does for processor `i`.
abbrev pub exchange : ℕ → World → World
exchange i w = record {
  lk = record { locked = true; cpu = w.lk.cpu };
  pc = put_pc w.pc i (if w.lk.locked then spinning else taken);
}

pub data Step : World → World → Type 0 where
  enter :
      (w : World) (i : ℕ)
      → w.pc i ≡ outside
      → test_holding i w.lk ≡ false
      → Step w (record { lk = w.lk; pc = put_pc w.pc i spinning })
  xchg : (w : World) (i : ℕ) → w.pc i ≡ spinning → Step w (exchange i w)
  own :
      (w : World) (i : ℕ)
      → w.pc i ≡ taken
      → Step w (record {
        lk = record { locked = w.lk.locked; cpu = some i };
        pc = put_pc w.pc i critical;
      })
  disown :
      (w : World) (i : ℕ)
      → w.pc i ≡ critical
      → test_holding i w.lk ≡ true
      → Step w
          (record { lk = record { locked = w.lk.locked; cpu = none }; pc = put_pc w.pc i leaving })
  unlock :
      (w : World) (i : ℕ)
      → w.pc i ≡ leaving
      → Step w
          (record { lk = record { locked = false; cpu = w.lk.cpu }; pc = put_pc w.pc i outside })

-- What the steps keep: one holder, the flag is set for it, and `cpu` names it between the two calls.
pub record IsGuarded (w : World) : Type 0 where
  pub single : (i j : ℕ) → holds_lock (w.pc i) ≡ true → holds_lock (w.pc j) ≡ true → i ≡ j
  pub flag : (i : ℕ) → holds_lock (w.pc i) ≡ true → w.lk.locked ≡ true
  pub named : (i : ℕ) → is_cpu i w.lk.cpu ≡ is_owner (w.pc i)

-- Who holds the lock behind a step of `i` to `v`: another holder, or `i`.
holds_lock-put_pc :
    (pc : ℕ → Pc) (i : ℕ) (v : Pc) (a : ℕ)
    → holds_lock (put_pc pc i v a) ≡ true
    → ((a ≡ i) × (holds_lock v ≡ true)) ⊎ ((a ≢ i) × (holds_lock (pc a) ≡ true))
holds_lock-put_pc pc i v a h = elim (Bool-cases (a == i)) [
  | inl same ↦ inl ((==_iff a i).0 same, rw same at h)
  | inr other ↦ inr (ground (arith, ==_iff a i), rw other at h)
]

-- A step of `i` that frees or takes no lock.
keep-single :
    (w : World) (i : ℕ) (v : Pc)
    → (holds_lock v ≡ true → holds_lock (w.pc i) ≡ true)
    → IsGuarded w
    → (a b : ℕ) → holds_lock (put_pc w.pc i v a) ≡ true
    → holds_lock (put_pc w.pc i v b) ≡ true
    → a ≡ b
keep-single w i v k g a b ha hb =
    let ca = holds_lock-put_pc w.pc i v a ha in
    let cb = holds_lock-put_pc w.pc i v b hb in
    elim ca [
      | inl (ea, va) ↦ elim cb [
        | inl (eb, vb) ↦ ea ∙ sym eb
        | inr (nb, hb') ↦ ea ∙ g.single i b (k va) hb'
      ]
      | inr (na, ha') ↦ elim cb [
        | inl (eb, vb) ↦ g.single a i ha' (k vb) ∙ sym eb
        | inr (nb, hb') ↦ g.single a b ha' hb'
      ]
    ]

-- If the flag was set behind such a step, it is for every holder.
keep-flag :
    (w : World) (i : ℕ) (v : Pc)
    → (holds_lock v ≡ true → holds_lock (w.pc i) ≡ true)
    → IsGuarded w
    → (a : ℕ) → holds_lock (put_pc w.pc i v a) ≡ true
    → w.lk.locked ≡ true
keep-flag w i v k g a ha = elim (holds_lock-put_pc w.pc i v a ha) [
  | inl (ea, va) ↦ g.flag i (k va)
  | inr (na, ha') ↦ g.flag a ha'
]

named-put_pc :
    (w : World) (i : ℕ) (v : Pc) (o : Option ℕ)
    → (is_cpu i o ≡ is_owner v)
    → ((a : ℕ) → a ≢ i → is_cpu a o ≡ is_owner (w.pc a))
    → (a : ℕ) → is_cpu a o ≡ is_owner (put_pc w.pc i v a)
named-put_pc w i v o at_i others a = elim (Bool-cases (a == i)) [
  | inl same ↦ let e = (==_iff a i).0 same in rw (same, e) at_i
  | inr other ↦ rw other (others a (ground (arith, ==_iff a i)))
]

holds_lock-is_owner : (p : Pc) → is_owner p ≡ true → holds_lock p ≡ true
holds_lock-is_owner outside e = cc
holds_lock-is_owner spinning e = cc
holds_lock-is_owner taken e = cc
holds_lock-is_owner critical e = refl
holds_lock-is_owner leaving e = cc

other-is_owner :
    (w : World) (i : ℕ)
    → IsGuarded w
    → holds_lock (w.pc i) ≡ true
    → (a : ℕ) → a ≢ i
    → is_owner (w.pc a) ≡ false
other-is_owner w i g hi a ne = elim (Bool-cases (is_owner (w.pc a))) [
  | inl owner ↦ absurd (ne (g.single a i (holds_lock-is_owner (w.pc a) owner) hi))
  | inr free ↦ free
]

exchange-IsGuarded :
    (w : World) (i : ℕ) → w.pc i ≡ spinning → IsGuarded w → IsGuarded (exchange i w)
exchange-IsGuarded w i at g = elim (Bool-cases w.lk.locked) [
  | inl busy ↦ record {
    single = rw busy (keep-single w i spinning (λ h. cc) g);
    flag = λ a ha. refl;
    named =
        rw busy
          (named-put_pc w i spinning w.lk.cpu (g.named i ∙ ap is_owner at) (λ a ne. g.named a));
  }
  | inr free ↦
      let only : (a : ℕ) → holds_lock ((exchange i w).pc a) ≡ true → a ≡ i = λ a ha.
        elim (holds_lock-put_pc w.pc i taken a (rw free at ha)) [
          | inl (ea, va) ↦ ea
          | inr (na, ha') ↦ let b = g.flag a ha' in cc
        ] in
      record {
        single = λ a b ha hb. only a ha ∙ sym (only b hb);
        flag = λ a ha. refl;
        named =
            rw free
              (named-put_pc w i taken w.lk.cpu (g.named i ∙ ap is_owner at) (λ a ne. g.named a));
      }
]

Step-IsGuarded : {w w' : World} → Step w w' → IsGuarded w → IsGuarded w'
Step-IsGuarded (enter w i at test) g = record {
  single = keep-single w i spinning (λ h. cc) g;
  flag = keep-flag w i spinning (λ h. cc) g;
  named = named-put_pc w i spinning w.lk.cpu (g.named i ∙ ap is_owner at) (λ a ne. g.named a);
}
Step-IsGuarded (xchg w i at) g = exchange-IsGuarded w i at g
Step-IsGuarded (own w i at) g = record {
  single = keep-single w i critical (λ h. rw at refl) g;
  flag = keep-flag w i critical (λ h. rw at refl) g;
  named =
      named-put_pc w i critical (some i) (ground arith)
        (λ a ne. ground (arith, other-is_owner w i g (rw at refl) a ne));
}
Step-IsGuarded (disown w i at test) g = record {
  single = keep-single w i leaving (λ h. rw at refl) g;
  flag = keep-flag w i leaving (λ h. rw at refl) g;
  named = named-put_pc w i leaving none refl (λ a ne. sym (other-is_owner w i g (rw at refl) a ne));
}
Step-IsGuarded (unlock w i at) g = record {
  single = keep-single w i outside (λ h. cc) g;
  flag = λ a ha. elim (holds_lock-put_pc w.pc i outside a ha) [
    | inl (ea, va) ↦ cc
    | inr (na, ha') ↦ absurd (na (g.single a i ha' (rw at refl)))
  ];
  named = named-put_pc w i outside w.lk.cpu (g.named i ∙ ap is_owner at) (λ a ne. g.named a);
}

-- Steps of the processors, in any order, from the lock as `initlock` leaves it.
pub data Reachable : World → Type 0 where
  begin : Reachable (record { lk = initlock; pc = λ i. outside })
  next : {w w' : World} → Reachable w → Step w w' → Reachable w'

Reachable-IsGuarded : {w : World} → Reachable w → IsGuarded w
Reachable-IsGuarded begin = record {
  single = λ a b ha hb. cc;
  flag = λ a ha. cc;
  named = λ a. refl;
}
Reachable-IsGuarded (next r s) = Step-IsGuarded s (Reachable-IsGuarded r)

-- In every state that processors reach by steps of `acquire` and `release` in any order, while one
-- is between the `xchg` that took the lock and the store that gives it back, no other one is.
pub mutual_exclusion :
    (w : World) (i j : ℕ)
    → Reachable w
    → i ≢ j
    → holds_lock (w.pc i) ≡ true
    → holds_lock (w.pc j) ≡ false
mutual_exclusion w i j r ne hi = elim (Bool-cases (holds_lock (w.pc j))) [
  | inl hj ↦ absurd (ne ((Reachable-IsGuarded r).single i j hi hj))
  | inr free ↦ free
]

-- In every such state the test that guards the panics of `acquire` and `release` is right: it finds
-- that processor `i` holds the lock exactly when `i` is between the two calls.
test_holding-is_owner : (w : World) (i : ℕ) → Reachable w → test_holding i w.lk ≡ is_owner (w.pc i)
test_holding-is_owner w i r =
    let g = Reachable-IsGuarded r in
    elim (Bool-cases (is_owner (w.pc i))) [
      | inl owner ↦
          let set = g.flag i (holds_lock-is_owner (w.pc i) owner) in
          rw (set, owner) (g.named i ∙ owner)
      | inr free ↦ let other = g.named i ∙ free in ground arith
    ]
