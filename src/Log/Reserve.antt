-- ===== src/Log/Reserve.antt =====
-- The room that `begin_op` and `end_op` of xv6/log.c keep: a call that writes no more blocks than
-- the bound of param.h allows, less one, meets no full log.
use buffer_overflow_attack.Base.{
  ==_iff, Bool-cases, List, [], ap, arith, false, inl, inr, leb, leb_ℤ, length, ltb, none, pos,
  refl, some, suc, true, ℕ, ◌*◌, ◌+◌, ◌-ℤ◌, ◌-◌, ◌<◌, ◌==◌, ◌||◌, ◌∙◌, ◌∷◌, ◌≡◌, ◌≤◌, ◌⊎◌,
}
use buffer_overflow_attack.Kalloc.{ok, panic}
use buffer_overflow_attack.Log.Moves.{elem}
use buffer_overflow_attack.Log.{
  absorb, log_size, log_write, max_op_blocks, LogState, begin_op, end_op, end_commit,
}

-- How many blocks a call may note.
abbrev op_budget : ℕ
op_budget = max_op_blocks - 1

-- What the calls under way may still note, each and all together.
abbrev pub Bounded : List ℕ → Type 0
Bounded [] = Unit {0}
Bounded (r ∷ rs) = (r < max_op_blocks) × Bounded rs

abbrev pub total : List ℕ → ℕ
total [] = 0
total (r ∷ rs) = r + total rs

-- One of the calls notes a block; one of them ends.
pub data Spend : List ℕ → List ℕ → Type 0 where
  spend : (r : ℕ) (rs : List ℕ) → Spend (suc r ∷ rs) (r ∷ rs)
  skip : (r : ℕ) (rs rs' : List ℕ) → Spend rs rs' → Spend (r ∷ rs) (r ∷ rs')

pub data Leave : List ℕ → List ℕ → Type 0 where
  leave : (r : ℕ) (rs : List ℕ) → Leave (r ∷ rs) rs
  pass_by : (r : ℕ) (rs rs' : List ℕ) → Leave rs rs' → Leave (r ∷ rs) (r ∷ rs')

-- A step of any call, with how many blocks the calls may still note; `size` is `log.size`. A call may
-- note one block less than MAXOPBLOCKS. A write of a block that is noted already costs it nothing.
pub data Step (size : ℕ) : LogState → List ℕ → LogState → List ℕ → Type 0 where
  begins :
      (l l' : LogState) (rs : List ℕ) → begin_op l ≡ some l' → Step size l rs l' (op_budget ∷ rs)
  writes :
      (l : LogState) (rs rs' : List ℕ) (b : ℕ) (lh' : List ℕ)
      → Spend rs rs'
      → log_write size l.outstanding b l.lh ≡ ok lh'
      → Step size l rs (record l { lh = lh' }) rs'
  absorbs :
      (l : LogState) (rs : List ℕ) (b : ℕ) (lh' : List ℕ)
      → elem b l.lh ≡ true
      → log_write size l.outstanding b l.lh ≡ ok lh'
      → Step size l rs (record l { lh = lh' }) rs
  ends :
      (l l' : LogState) (rs rs' : List ℕ) → Leave rs rs' → end_op l ≡ ok l' → Step size l rs l' rs'
  commits : (l : LogState) (rs : List ℕ) → l.committing ≡ true → Step size l rs (end_commit l) rs

pub data Reachable (size : ℕ) : LogState → List ℕ → Type 0 where
  booted : Reachable size (record { outstanding = 0; committing = false; lh = [] }) []
  stepped :
      {l l' : LogState} {rs rs' : List ℕ}
      → Reachable size l rs
      → Step size l rs l' rs'
      → Reachable size l' rs'

pub record IsReserved (l : LogState) (rs : List ℕ) : Type 0 where
  pub counted : l.outstanding ≡ length rs
  pub bounded : Bounded rs
  pub room : length l.lh + total rs + 2 ≤ log_size
  pub starts_empty : l.outstanding ≡ 0 → (l.committing ≡ true) ⊎ (l.lh ≡ [])

total-Bounded : (rs : List ℕ) → Bounded rs → total rs + length rs ≤ length rs * max_op_blocks
total-Bounded [] h = omega arith
total-Bounded (r ∷ rs) (le, h) = let ih = total-Bounded rs h in omega arith

Spend-total :
    {rs rs' : List ℕ} → Spend rs rs' → (total rs ≡ suc (total rs')) × (length rs ≡ length rs')
Spend-total (spend r rs) = (omega arith, refl)
Spend-total (skip r rs rs' s) = let (t, n) = Spend-total s in (omega arith, omega arith)

some_call : {rs rs' : List ℕ} → Spend rs rs' → 0 < length rs
some_call (spend r rs) = omega arith
some_call (skip r rs rs' s) = omega arith

Spend-Bounded : {rs rs' : List ℕ} → Spend rs rs' → Bounded rs → Bounded rs'
Spend-Bounded (spend r rs) (le, h) = (omega arith, h)
Spend-Bounded (skip r rs rs' s) (le, h) = (le, Spend-Bounded s h)

Leave-total :
    {rs rs' : List ℕ} → Leave rs rs' → (total rs' ≤ total rs) × (length rs ≡ suc (length rs'))
Leave-total (leave r rs) = (omega arith, refl)
Leave-total (pass_by r rs rs' s) = let (t, n) = Leave-total s in (omega arith, omega arith)

Leave-Bounded : {rs rs' : List ℕ} → Leave rs rs' → Bounded rs → Bounded rs'
Leave-Bounded (leave r rs) (le, h) = h
Leave-Bounded (pass_by r rs rs' s) (le, h) = (le, Leave-Bounded s h)

pub length-absorb : (b : ℕ) (bs : List ℕ) → length (absorb b bs) ≤ suc (length bs)
unfolding absorb
length-absorb b [] = omega arith
length-absorb b (x ∷ xs) = elim (Bool-cases (x == b)) [
  | inl same ↦ rw (absorb, same) (omega arith)
  | inr other ↦ rw (absorb, other) (let ih = length-absorb b xs in omega arith)
]

pub log_write-absorb :
    (size outstanding b : ℕ) (bs bs' : List ℕ)
    → log_write size outstanding b bs ≡ ok bs'
    → bs' ≡ absorb b bs
unfolding log_write
log_write-absorb size outstanding b bs bs' e =
    elim (Bool-cases (leb log_size (length bs) || leb_ℤ (pos size -ℤ pos 1) (pos (length bs)))) [
      | inl full ↦ let stuck : panic ≡ ok bs' = rw (log_write, full) at e in cc
      | inr room ↦ elim (Bool-cases (ltb outstanding 1)) [
        | inl outside ↦ let stuck : panic ≡ ok bs' = rw (log_write, room, outside) at e in cc
        | inr inside ↦
            let done : ok (absorb b bs) ≡ ok bs' = rw (log_write, room, inside) at e in cc
      ]
    ]

pred_size : (size : ℕ) → 1 ≤ size → pos size -ℤ pos 1 ≡ pos (size - 1)
unfolding ◌-ℤ◌
pred_size size h =
    let le : leb (0 + 1) (size + 0) ≡ true = ground arith in rw (◌-ℤ◌, le) (ap pos (omega arith))

-- `log_write` inside of a call notes the block if there is room for one.
pub log_write-ok :
    (size outstanding b : ℕ) (bs : List ℕ)
    → 1 ≤ outstanding
    → length bs < log_size
    → length bs + 1 < size
    → log_write size outstanding b bs ≡ ok (absorb b bs)
unfolding log_write
log_write-ok size outstanding b bs out short fits =
    let minus = pred_size size (omega arith) in
    let room : (leb log_size (length bs) || leb_ℤ (pos size -ℤ pos 1) (pos (length bs))) ≡ false =
      rw minus (ground arith) in
    let inside : ltb outstanding 1 ≡ false = ground arith in rw (log_write, room, inside) refl

begin_op-some :
    (l l' : LogState)
    → begin_op l ≡ some l'
    → (l' ≡ record { outstanding = l.outstanding + 1; committing = false; lh = l.lh })
      × (length l.lh + (l.outstanding + 1) * max_op_blocks ≤ log_size)
unfolding begin_op
begin_op-some l l' e = elim (Bool-cases l.committing) [
  | inl busy ↦ let stuck : none ≡ some l' = rw (begin_op, busy) at e in cc
  | inr free ↦
      elim (Bool-cases (ltb log_size (length l.lh + (l.outstanding + 1) * max_op_blocks))) [
        | inl full ↦ let stuck : none ≡ some l' = rw (begin_op, free, full) at e in cc
        | inr room ↦
            let done : some
                  (record { outstanding = l.outstanding + 1; committing = false; lh = l.lh })
                ≡ some l' =
              rw (begin_op, free, room) at e in
            (cc, ground arith)
      ]
]

end_op-ok :
    (l l' : LogState)
    → end_op l ≡ ok l'
    → l' ≡ record l { outstanding = l.outstanding - 1; committing = l.outstanding - 1 == 0 }
unfolding end_op
end_op-ok l l' e = elim (Bool-cases l.committing) [
  | inl busy ↦ let stuck : panic ≡ ok l' = rw (end_op, busy) at e in cc
  | inr free ↦
      let done : ok
            (record l { outstanding = l.outstanding - 1; committing = l.outstanding - 1 == 0 })
          ≡ ok l' =
        rw (end_op, free) at e in
      cc
]

absorb-noted : (b : ℕ) (bs : List ℕ) → elem b bs ≡ true → length (absorb b bs) ≡ length bs
unfolding absorb
absorb-noted b [] h = cc
absorb-noted b (x ∷ xs) h = elim (Bool-cases (x == b)) [
  | inl same ↦ rw (absorb, same) refl
  | inr other ↦
      let apart : (b == x) ≡ false = ground (arith, ==_iff x b, ==_iff b x) in
      let ih = absorb-noted b xs (rw apart at h) in rw (absorb, other) (ap suc ih)
]

log_write-inside :
    (size outstanding b : ℕ) (bs bs' : List ℕ)
    → log_write size outstanding b bs ≡ ok bs'
    → 1 ≤ outstanding
unfolding log_write
log_write-inside size outstanding b bs bs' e =
    elim (Bool-cases (leb log_size (length bs) || leb_ℤ (pos size -ℤ pos 1) (pos (length bs)))) [
      | inl full ↦ let stuck : panic ≡ ok bs' = rw (log_write, full) at e in cc
      | inr room ↦ elim (Bool-cases (ltb outstanding 1)) [
        | inl outside ↦ let stuck : panic ≡ ok bs' = rw (log_write, room, outside) at e in cc
        | inr inside ↦ ground arith
      ]
    ]

-- A call begins: alone, in an empty log, or with others, whose blocks and its own it leaves room for.
begins-room :
    (l : LogState) (rs : List ℕ)
    → IsReserved l rs
    → l.committing ≡ false
    → length l.lh + (l.outstanding + 1) * max_op_blocks ≤ log_size
    → length l.lh + (op_budget + total rs) + 2 ≤ log_size
begins-room l rs h free room =
    let bound = total-Bounded rs h.bounded in
    let count = h.counted in
    elim (Bool-cases (l.outstanding == 0)) [
      | inl alone ↦
          let none_left = (==_iff l.outstanding 0).0 alone in
          elim (h.starts_empty none_left) [
            | inl busy ↦ absurd cc
            | inr empty ↦ let e : length l.lh ≡ 0 = ap length empty in omega arith
          ]
      | inr others ↦ let some_left : 1 ≤ l.outstanding = ground arith in omega arith
    ]

begin_op-free : (l l' : LogState) → begin_op l ≡ some l' → l.committing ≡ false
unfolding begin_op
begin_op-free l l' e = elim (Bool-cases l.committing) [
  | inl busy ↦ let stuck : none ≡ some l' = rw (begin_op, busy) at e in cc
  | inr free ↦ free
]

Step-IsReserved :
    {size : ℕ} {l l' : LogState} {rs rs' : List ℕ}
    → Step size l rs l' rs'
    → IsReserved l rs
    → IsReserved l' rs'
unfolding begin_op end_op end_commit
Step-IsReserved (begins l l' rs e) h =
    let (is_next, room) = begin_op-some l l' e in
    let left = begins-room l rs h (begin_op-free l l' e) room in
    let count = h.counted in
    rw is_next (record {
      counted = omega arith;
      bounded = (omega arith, h.bounded);
      room = left;
      starts_empty = λ z. absurd (omega arith);
    })
Step-IsReserved (writes l rs rs' b lh' s e) h =
    let (t, n) = Spend-total s in
    let is_absorb = log_write-absorb _ l.outstanding b l.lh lh' e in
    let longer = length-absorb b l.lh in
    let inside = log_write-inside _ l.outstanding b l.lh lh' e in
    record {
      counted = h.counted ∙ n;
      bounded = Spend-Bounded s h.bounded;
      room = rw is_absorb (let r = h.room in omega arith);
      starts_empty = λ z. absurd (omega arith);
    }
Step-IsReserved (absorbs l rs b lh' noted e) h =
    let is_absorb = log_write-absorb _ l.outstanding b l.lh lh' e in
    let same = absorb-noted b l.lh noted in
    let inside = log_write-inside _ l.outstanding b l.lh lh' e in
    record {
      counted = h.counted;
      bounded = h.bounded;
      room = rw is_absorb (let r = h.room in omega arith);
      starts_empty = λ z. absurd (omega arith);
    }
Step-IsReserved (ends l l' rs rs' s e) h =
    let (t, n) = Leave-total s in
    let count = h.counted in
    let room = h.room in
    rw (end_op-ok l l' e) (record {
      counted = omega arith;
      bounded = Leave-Bounded s h.bounded;
      room = omega arith;
      starts_empty = λ z. inl ((==_iff (l.outstanding - 1) 0).1 z);
    })
Step-IsReserved (commits l rs e) h = record {
  counted = h.counted;
  bounded = h.bounded;
  room = let r = h.room in omega arith;
  starts_empty = λ z. inr refl;
}

Reachable-IsReserved :
    {size : ℕ} {l : LogState} {rs : List ℕ} → Reachable size l rs → IsReserved l rs
Reachable-IsReserved booted = record {
  counted = refl;
  bounded = tt;
  room = omega arith;
  starts_empty = λ z. inr refl;
}
Reachable-IsReserved (stepped r s) = Step-IsReserved s (Reachable-IsReserved r)

-- In every state that calls reach by `begin_op`, `log_write`, `end_op` and commits in any order, each
-- call noting fewer than MAXOPBLOCKS blocks that the log does not have, `log_write` of any block by a call
-- under way does not panic, if the log has at least LOGSIZE blocks, its header included, as mkfs makes it.
pub log_write_room :
    (size : ℕ) (l : LogState) (rs : List ℕ) (b : ℕ)
    → Reachable size l rs
    → 1 ≤ l.outstanding
    → log_size ≤ size
    → log_write size l.outstanding b l.lh ≡ ok (absorb b l.lh)
log_write_room size l rs b r inside big =
    let h = Reachable-IsReserved r in
    let room = h.room in log_write-ok size l.outstanding b l.lh inside (omega arith) (omega arith)
