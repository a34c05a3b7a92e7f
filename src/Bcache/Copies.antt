-- ===== src/Bcache/Copies.antt =====
-- The copies of a block in the buffers of xv6/bio.c.
use buffer_overflow_attack.Base.{
  ==_iff, Bool, Bool-cases, List, Option-cases, [], ap, arith, false, get_elem?, if◌then◌else◌, inl,
  inr, modify, none, not, refl, some, subst, suc, sym, true, zero, ℕ, ◌&&◌, ◌+◌, ◌-◌, ◌<◌, ◌==◌,
  ◌∙◌, ◌∷◌, ◌≡◌, ◌≢◌, ◌≤◌,
}
use buffer_overflow_attack.Kalloc.{Outcome, ok, panic}
use buffer_overflow_attack.Bcache.{
  Buf, bget, has_block, recycle, take_cached, at_slot, brelse, unlink,
}

abbrev pub copies : ℕ → List Buf → ℕ
copies n [] = 0
copies n (b ∷ bs) = (if has_block n b then 1 else 0) + copies n bs

-- No block has two buffers.
abbrev pub OneCopy : List Buf → Type 0
OneCopy bs = (n : ℕ) → copies n bs ≤ 1

take_cached-copies :
    (n : ℕ) (bs : List Buf) (r : ℕ × List Buf)
    → take_cached n bs ≡ some r
    → (1 ≤ copies n bs) × ((m : ℕ) → copies m r.1 ≡ copies m bs)
unfolding take_cached
take_cached-copies n [] r h = cc
take_cached-copies n (b ∷ bs) r h = elim (Bool-cases (has_block n b)) [
  | inl hit ↦
      let made : ℕ × List Buf = (b.slot, record b { refcnt = b.refcnt + 1 } ∷ bs) in
      let here : some made ≡ some r = rw (take_cached, hit) at h in
      let same : made ≡ r = cc in (rw hit (omega arith), λ m. ap (λ t. copies m t.1) (sym same))
  | inr miss ↦ elim (Option-cases (take_cached n bs)) [
    | inl none_left ↦ let never : none ≡ some r = rw (take_cached, miss, none_left) at h in cc
    | inr (q, found) ↦
        let (some_copy, kept) = take_cached-copies n bs q found in
        let made : ℕ × List Buf = (q.0, b ∷ q.1) in
        let here : some made ≡ some r = rw (take_cached, miss, found) at h in
        let same : made ≡ r = cc in
        (
          omega arith,
          λ m.
              ap (λ t. copies m t.1) (sym same)
              ∙ ap (λ c. (if has_block m b then 1 else 0) + c) (kept m),
        )
  ]
]

take_cached-none : (n : ℕ) (bs : List Buf) → take_cached n bs ≡ none → copies n bs ≡ 0
unfolding take_cached
take_cached-none n [] h = refl
take_cached-none n (b ∷ bs) h = elim (Bool-cases (has_block n b)) [
  | inl hit ↦
      let made : ℕ × List Buf = (b.slot, record b { refcnt = b.refcnt + 1 } ∷ bs) in
      let here : some made ≡ none = rw (take_cached, hit) at h in cc
  | inr miss ↦ elim (Option-cases (take_cached n bs)) [
    | inl none_left ↦ let rest = take_cached-none n bs none_left in rw miss (omega arith)
    | inr (q, found) ↦
        let made : ℕ × List Buf = (q.0, b ∷ q.1) in
        let here : some made ≡ none = rw (take_cached, miss, found) at h in cc
  ]
]

-- A recycled buffer is one more copy of the block, and at most one copy less of another.
recycle-copies :
    (n : ℕ) (bs : List Buf) (r : ℕ × List Buf)
    → recycle n bs ≡ some r
    → copies n bs ≡ 0
    → (copies n r.1 ≡ 1) × ((m : ℕ) → m ≢ n → copies m r.1 ≤ copies m bs)
unfolding recycle
recycle-copies n [] r h none_yet = cc
recycle-copies n (b ∷ bs) r h none_yet = elim (Option-cases (recycle n bs)) [
  | inr (q, found) ↦
      let (one, others) = recycle-copies n bs q found (omega arith) in
      let made : ℕ × List Buf = (q.0, b ∷ q.1) in
      let here : some made ≡ some r = rw (recycle, found) at h in
      let same : made ≡ r = cc in
      let at : (m : ℕ) → copies m r.1 ≡ copies m (b ∷ q.1) =
        λ m. ap (λ t. copies m t.1) (sym same) in
      ((let a = at n in omega arith), λ m ne. (let a = at m in let o = others m ne in omega arith))
  | inl none_behind ↦ elim (Bool-cases (b.refcnt == 0 && not b.dirty)) [
    | inl free ↦
        let c : Buf = record b { blockno = some n; valid = false; dirty = false; refcnt = 1 } in
        let made : ℕ × List Buf = (b.slot, c ∷ bs) in
        let here : some made ≡ some r = rw (recycle, none_behind, free) at h in
        let same : made ≡ r = cc in
        let at : (m : ℕ) → copies m r.1 ≡ copies m (c ∷ bs) =
          λ m. ap (λ t. copies m t.1) (sym same) in
        let this : (n == n) ≡ true = (==_iff n n).1 refl in
        (
          at n ∙ rw this (omega arith),
          λ m ne.
              (let a = at m in
                let other : (n == m) ≡ false = ground (arith, ==_iff n m) in
                rw (a, other) (omega arith)),
        )
    | inr used ↦ let never : none ≡ some r = rw (recycle, none_behind, used) at h in cc
  ]
]

-- A buffer that `bget` may give to another block.
abbrev pub is_free : Buf → Bool
is_free b = b.refcnt == 0 && not b.dirty

abbrev pub taken : Buf → Buf
taken b = record b { refcnt = b.refcnt + 1 }

abbrev pub given_to : ℕ → Buf → Buf
given_to n b = record b { blockno = some n; valid = false; dirty = false; refcnt = 1 }

-- The first loop finds a buffer of the block.
take_cached-some :
    (n : ℕ) (bs : List Buf) (r : ℕ × List Buf)
    → take_cached n bs ≡ some r
    → (j : ℕ) × (b : Buf) × (get_elem? bs j ≡ some b)
      × (has_block n b ≡ true)
      × (r ≡ (b.slot, modify bs j taken))
unfolding take_cached
take_cached-some n [] r h = cc
take_cached-some n (b ∷ bs) r h = elim (Bool-cases (has_block n b)) [
  | inl hit ↦
      let made : ℕ × List Buf = (b.slot, taken b ∷ bs) in
      let here : some made ≡ some r = rw (take_cached, hit) at h in
      (0, b, refl, hit, (let same : made ≡ r = cc in sym same))
  | inr miss ↦ elim (Option-cases (take_cached n bs)) [
    | inl none_left ↦ let never : none ≡ some r = rw (take_cached, miss, none_left) at h in cc
    | inr (q, found) ↦
        let (j, c, at, has, is_q) = take_cached-some n bs q found in
        let made : ℕ × List Buf = (q.0, b ∷ q.1) in
        let here : some made ≡ some r = rw (take_cached, miss, found) at h in
        let same : made ≡ r = cc in
        (suc j, c, at, has, sym same ∙ ap (λ (t : ℕ × List Buf). (t.0, b ∷ t.1)) is_q)
  ]
]

-- The second loop finds no buffer only if none is free, and otherwise the last one that is.
recycle-none :
    (n : ℕ) (bs : List Buf)
    → recycle n bs ≡ none
    → (j : ℕ) (b : Buf) → get_elem? bs j ≡ some b
    → is_free b ≡ false
unfolding recycle
recycle-none n [] h j b at = cc
recycle-none n (c ∷ bs) h j b at = elim (Option-cases (recycle n bs)) [
  | inr (q, found) ↦
      let made : ℕ × List Buf = (q.0, c ∷ q.1) in
      let here : some made ≡ none = rw (recycle, found) at h in cc
  | inl none_behind ↦ elim (Bool-cases (is_free c)) [
    | inl free ↦
        let made : ℕ × List Buf = (c.slot, given_to n c ∷ bs) in
        let here : some made ≡ none = rw (recycle, none_behind, free) at h in cc
    | inr used ↦ at_or_behind j at used (recycle-none n bs none_behind)
  ]
]
  where
    at_or_behind :
        (j : ℕ)
        → get_elem? (c ∷ bs) j ≡ some b
        → is_free c ≡ false
        → ((j : ℕ) (b : Buf) → get_elem? bs j ≡ some b → is_free b ≡ false)
        → is_free b ≡ false
    at_or_behind zero at used rest = let same : c ≡ b = cc in ap is_free (sym same) ∙ used
    at_or_behind (suc j) at used rest = rest j b at

recycle-some :
    (n : ℕ) (bs : List Buf) (r : ℕ × List Buf)
    → recycle n bs ≡ some r
    → (j : ℕ) × (b : Buf) × (get_elem? bs j ≡ some b)
      × (is_free b ≡ true)
      × ((m : ℕ) (c : Buf) → j < m → get_elem? bs m ≡ some c → is_free c ≡ false)
      × (r ≡ (b.slot, modify bs j (given_to n)))
unfolding recycle
recycle-some n [] r h = cc
recycle-some n (b ∷ bs) r h = elim (Option-cases (recycle n bs)) [
  | inr (q, found) ↦
      let (j, c, at, free, last, is_q) = recycle-some n bs q found in
      let made : ℕ × List Buf = (q.0, b ∷ q.1) in
      let here : some made ≡ some r = rw (recycle, found) at h in
      let same : made ≡ r = cc in
      (suc j, c, at, free, behind j last, sym same ∙ ap (λ (t : ℕ × List Buf). (t.0, b ∷ t.1)) is_q)
  | inl none_behind ↦ elim (Bool-cases (is_free b)) [
    | inl free ↦
        let made : ℕ × List Buf = (b.slot, given_to n b ∷ bs) in
        let here : some made ≡ some r = rw (recycle, none_behind, free) at h in
        let same : made ≡ r = cc in
        (0, b, refl, free, first (recycle-none n bs none_behind), sym same)
    | inr used ↦ let never : none ≡ some r = rw (recycle, none_behind, used) at h in cc
  ]
]
  where
    behind :
        (j : ℕ)
        → ((m : ℕ) (c : Buf) → j < m → get_elem? bs m ≡ some c → is_free c ≡ false)
        → (m : ℕ) (c : Buf) → suc j < m
        → get_elem? (b ∷ bs) m ≡ some c
        → is_free c ≡ false
    behind j last zero c lt at = absurd (omega arith)
    behind j last (suc m) c lt at = last m c (omega arith) at

    first :
        ((m : ℕ) (c : Buf) → get_elem? bs m ≡ some c → is_free c ≡ false)
        → (m : ℕ) (c : Buf) → 0 < m
        → get_elem? (b ∷ bs) m ≡ some c
        → is_free c ≡ false
    first rest zero c lt at = absurd (omega arith)
    first rest (suc m) c lt at = rest m c at

-- What `bget` of block `n` comes to.
pub data Got (n : ℕ) (bs : List Buf) : Outcome (ℕ × List Buf) → Type 0 where
  cached :
      (j : ℕ) (b : Buf)
      → get_elem? bs j ≡ some b
      → has_block n b ≡ true
      → Got n bs (ok (b.slot, modify bs j taken))
  recycled :
      (j : ℕ) (b : Buf)
      → copies n bs ≡ 0
      → get_elem? bs j ≡ some b
      → is_free b ≡ true
      → ((m : ℕ) (c : Buf) → j < m → get_elem? bs m ≡ some c → is_free c ≡ false)
      → Got n bs (ok (b.slot, modify bs j (given_to n)))
  no_buffers :
      copies n bs ≡ 0
      → ((j : ℕ) (b : Buf) → get_elem? bs j ≡ some b → is_free b ≡ false)
      → Got n bs panic

-- Behind a `bget` that does not panic the block has one buffer, and no block has two.
abbrev pub Single : ℕ → Outcome (ℕ × List Buf) → Type 0
Single n panic = Unit {0}
Single n (ok (i, bs)) = OneCopy bs × (copies n bs ≡ 1)

single_cached :
    (n : ℕ) (bs : List Buf) (r : ℕ × List Buf)
    → OneCopy bs
    → take_cached n bs ≡ some r
    → OneCopy r.1 × (copies n r.1 ≡ 1)
single_cached n bs r one found =
    let (some_copy, kept) = take_cached-copies n bs r found in
    let most = one n in
    (λ m. (let k = kept m in let o = one m in omega arith), (let k = kept n in omega arith))

single_recycled :
    (n : ℕ) (bs : List Buf) (r : ℕ × List Buf)
    → OneCopy bs
    → copies n bs ≡ 0
    → recycle n bs ≡ some r
    → OneCopy r.1 × (copies n r.1 ≡ 1)
single_recycled n bs r one zero_copies found =
    let (now, others) = recycle-copies n bs r found zero_copies in
    (
      λ m. elim (Bool-cases (m == n)) [
        | inl same ↦ let e = (==_iff m n).0 same in rw (e, now) (omega arith)
        | inr other ↦
            let ne : m ≢ n = ground (arith, ==_iff m n) in
            let o = others m ne in let before = one m in omega arith
      ],
      now,
    )

-- `bget` where no block has two buffers: it takes one reference more to the buffer that the block has,
-- and returns it; if the block has none, it gives it the last of the list that is neither in use nor
-- dirty, with one reference and not valid, and returns that one; and it panics if there is none such.
-- Unless it panics, the block has one buffer then, and no block has two.
pub bget-Got : (n : ℕ) (bs : List Buf) → OneCopy bs → Got n bs (bget n bs) × Single n (bget n bs)
unfolding bget
bget-Got n bs one = elim (Option-cases (take_cached n bs)) [
  | inr (r, found) ↦
      let (j, b, at, has, is_r) = take_cached-some n bs r found in
      rw (bget, found)
        (
          subst (λ r. Got n bs (ok r)) (sym is_r) (cached j b at has),
          single_cached n bs r one found,
        )
  | inl missing ↦
      let zero_copies = take_cached-none n bs missing in
      elim (Option-cases (recycle n bs)) [
        | inl full ↦ rw (bget, missing, full) (no_buffers zero_copies (recycle-none n bs full), tt)
        | inr (r, found) ↦
            let (j, b, at, free, last, is_r) = recycle-some n bs r found in
            rw (bget, missing, found)
              (
                subst (λ r. Got n bs (ok r)) (sym is_r) (recycled j b zero_copies at free last),
                single_recycled n bs r one zero_copies found,
              )
      ]
]

-- A buffer that goes to the front of the list is no copy more and none less.
unlink-copies :
    (i : ℕ) (bs : List Buf) (r : Buf × List Buf)
    → unlink i bs ≡ some r
    → (m : ℕ) → copies m (r.0 ∷ r.1) ≡ copies m bs
unfolding unlink
unlink-copies i [] r h m = cc
unlink-copies i (b ∷ bs) r h m = elim (Bool-cases (b.slot == i)) [
  | inl here ↦
      let made : Buf × List Buf = (b, bs) in
      let run : some made ≡ some r = rw (unlink, here) at h in
      let same : made ≡ r = cc in ap (λ t. copies m (t.0 ∷ t.1)) (sym same)
  | inr there ↦ elim (Option-cases (unlink i bs)) [
    | inl missing ↦ let never : none ≡ some r = rw (unlink, there, missing) at h in cc
    | inr (q, found) ↦
        let ih = unlink-copies i bs q found m in
        let made : Buf × List Buf = (q.0, b ∷ q.1) in
        let run : some made ≡ some r = rw (unlink, there, found) at h in
        let same : made ≡ r = cc in
        let at : copies m (r.0 ∷ r.1) ≡ copies m (q.0 ∷ b ∷ q.1) =
          ap (λ t. copies m (t.0 ∷ t.1)) (sym same) in
        omega arith
  ]
]

at_slot-copies :
    (i : ℕ) (f : Buf → Buf) (bs : List Buf)
    → ((b : Buf) → (f b).blockno ≡ b.blockno)
    → (m : ℕ) → copies m (at_slot i f bs) ≡ copies m bs
unfolding at_slot
at_slot-copies i f [] keeps m = refl
at_slot-copies i f (b ∷ bs) keeps m = elim (Bool-cases (b.slot == i)) [
  | inl here ↦
      rw (at_slot, here)
        (ap
          (λ o.
            (if (elim o as (λ x. Bool) [ none ↦ false | some k ↦ k == m ]) then 1 else 0)
            + copies m bs)
          (keeps b))
  | inr there ↦
      rw (at_slot, there)
        (ap (λ c. (if has_block m b then 1 else 0) + c) (at_slot-copies i f bs keeps m))
]

-- `brelse` of a buffer keeps the copies of every block.
pub brelse-copies :
    (i : ℕ) (bs bs' : List Buf) → brelse i bs ≡ ok bs' → (m : ℕ) → copies m bs' ≡ copies m bs
unfolding brelse
brelse-copies i bs bs' h m = elim (Option-cases (unlink i bs)) [
  | inl missing ↦ let never : panic ≡ ok bs' = rw (brelse, missing) at h in cc
  | inr (r, found) ↦ elim (Bool-cases (r.0.refcnt - 1 == 0)) [
    | inl last ↦
        let made : List Buf = record (r.0) { refcnt = r.0.refcnt - 1 } ∷ r.1 in
        let run : ok made ≡ ok bs' = rw (brelse, found, last) at h in
        let same : made ≡ bs' = cc in ap (copies m) (sym same) ∙ unlink-copies i bs r found m
    | inr more ↦
        let made : List Buf = at_slot i (λ c. record c { refcnt = c.refcnt - 1 }) bs in
        let run : ok made ≡ ok bs' = rw (brelse, found, more) at h in
        let same : made ≡ bs' = cc in
        ap (copies m) (sym same)
        ∙ at_slot-copies i (λ c. record c { refcnt = c.refcnt - 1 }) bs (λ b. refl) m
  ]
]
