-- ===== src/Icache/Refs.antt =====
-- References to the inodes of the cache of xv6/fs.c.
use buffer_overflow_attack.Base.{
  ==_iff, Bool-cases, List, Option, Option-cases, [], ap, ap₂, arith, false, get_elem?,
  get_elem?-modify_self, if◌then◌else◌, inl, inr, ltb, modify, none, refl, some, suc, sym, zero, ℕ,
  ◌&&◌, ◌+◌, ◌<◌, ◌==◌, ◌∙◌, ◌∷◌, ◌≡◌, ◌≢◌, ◌⊎◌,
}
use buffer_overflow_attack.Kalloc.{ok, panic}
use buffer_overflow_attack.Icache.{Entry, search, iget, remember}

-- The references that a slot holds to inode `n`, and those of the whole cache.
abbrev pub held_by : ℕ → Entry → ℕ
held_by n e = if e.inum == n then e.ref else 0

abbrev pub count : ℕ → List Entry → ℕ
count n [] = 0
count n (e ∷ es) = held_by n e + count n es

-- A slot that changes changes the count by its own references.
count-modify :
    (n d : ℕ) (es : List Entry) (e : Entry) (f : Entry → Entry)
    → get_elem? es d ≡ some e
    → count n (modify es d f) + held_by n e ≡ count n es + held_by n (f e)
count-modify n d [] e f at = cc
count-modify n zero (x ∷ es) e f at = let same : x ≡ e = cc in rw same (omega arith)
count-modify n (suc d) (x ∷ es) e f at = let ih = count-modify n d es e f at in omega arith

search-cached :
    (inum : ℕ) (es : List Entry) (i0 : ℕ) (empty : Option ℕ) (i : ℕ)
    → (search inum es i0 empty).0 ≡ some i
    → (d : ℕ) × (e : Entry) × (i ≡ i0 + d)
      × (get_elem? es d ≡ some e)
      × (0 < e.ref)
      × (e.inum ≡ inum)
unfolding search
search-cached inum [] i0 empty i h = cc
search-cached inum (e ∷ es) i0 empty i h = elim (Bool-cases (ltb 0 e.ref && e.inum == inum)) [
  | inl hit ↦
      let here : some i0 ≡ some i = rw (search, hit) at h in
      (0, e, (let same : i0 ≡ i = cc in omega arith), refl, ground arith, ground arith)
  | inr miss ↦
      let (d, e', at, got, used, named) =
        search-cached inum es (i0 + 1) _ i (rw (search, miss) at h) in
      (suc d, e', omega arith, got, used, named)
]

from_here :
    (empty : Option ℕ) (i0 j : ℕ) (e : Entry) (es : List Entry)
    → remember i0 e.ref empty ≡ some j
    → (empty ≡ some j)
      ⊎ ((d : ℕ) × (e' : Entry) × (j ≡ i0 + d) × (get_elem? (e ∷ es) d ≡ some e') × (e'.ref ≡ 0))
from_here (some k) i0 j e es h = inl h
from_here none i0 j e es h = elim (Bool-cases (e.ref == 0)) [
  | inl unused ↦
      let here : some i0 ≡ some j = rw unused at h in
      let same : i0 ≡ j = cc in inr (0, e, omega arith, refl, ground (arith, ==_iff e.ref 0))
  | inr used ↦ let never : none ≡ some j = rw used at h in cc
]

search-empty :
    (inum : ℕ) (es : List Entry) (i0 : ℕ) (empty : Option ℕ) (j : ℕ)
    → (search inum es i0 empty).1 ≡ some j
    → (empty ≡ some j)
      ⊎ ((d : ℕ) × (e : Entry) × (j ≡ i0 + d) × (get_elem? es d ≡ some e) × (e.ref ≡ 0))
unfolding search
search-empty inum [] i0 empty j h = inl h
search-empty inum (e ∷ es) i0 empty j h = elim (Bool-cases (ltb 0 e.ref && e.inum == inum)) [
  | inl hit ↦ inl (rw (search, hit) at h)
  | inr miss ↦
      elim (search-empty inum es (i0 + 1) (remember i0 e.ref empty) j (rw (search, miss) at h)) [
        | inl old ↦ from_here empty i0 j e es old
        | inr (d, e', at, got, unused) ↦ inr (suc d, e', omega arith, got, unused)
      ]
]

-- A slot that changes so as to hold one reference more to `inum`.
added :
    (inum : ℕ) (es es' : List Entry) (i j : ℕ) (e : Entry) (f : Entry → Entry)
    → get_elem? es j ≡ some e
    → j ≡ i
    → modify es j f ≡ es'
    → held_by inum (f e) ≡ suc (held_by inum e)
    → ((n : ℕ) → n ≢ inum → held_by n (f e) ≡ held_by n e)
    → (f e).inum ≡ inum
    → 0 < (f e).ref
    → (count inum es' ≡ suc (count inum es))
      × ((n : ℕ) → n ≢ inum → count n es' ≡ count n es)
      × ((e : Entry) × (get_elem? es' i ≡ some e) × (e.inum ≡ inum) × (0 < e.ref))
added inum es es' i j e f got same changed more others named used =
    let counted : (n : ℕ) → count n es' + held_by n e ≡ count n es + held_by n (f e) =
      λ n. ap (λ l. count n l + held_by n e) (sym changed) ∙ count-modify n j es e f got in
    (
      (let c = counted inum in omega arith),
      (λ n ne. let c = counted n in let o = others n ne in omega arith),
      (
        f e,
        ap₂ (λ l k. get_elem? l k) (sym changed) (sym same) ∙ get_elem?-modify_self es j f e got,
        named,
        used,
      ),
    )

-- `iget` of an inode adds one reference to it, whether it is cached or gets an empty slot, and changes
-- the references to no other inode; the slot that it returns holds the inode.
pub iget-count :
    (inum : ℕ) (es es' : List Entry) (i : ℕ)
    → iget inum es ≡ ok (i, es')
    → (count inum es' ≡ suc (count inum es))
      × ((n : ℕ) → n ≢ inum → count n es' ≡ count n es)
      × ((e : Entry) × (get_elem? es' i ≡ some e) × (e.inum ≡ inum) × (0 < e.ref))
unfolding iget
iget-count inum es es' i h = elim (Option-cases (search inum es 0 none).0) [
  | inr (j, cached) ↦
      let (d, e, at, got, used, named) = search-cached inum es 0 none j cached in
      let f : Entry → Entry = λ x. record x { ref = x.ref + 1 } in
      let at' : j ≡ d = omega arith in
      let made : ℕ × List Entry = (j, modify es j f) in
      let back : ℕ × List Entry = (i, es') in
      let run : ok made ≡ ok back = rw (iget, cached) at h in
      added inum es es' i j e f (ap (get_elem? es) at' ∙ got) (cc) (cc) (ground arith)
        (λ n ne. ground arith) named (omega arith)
  | inl missing ↦ elim (Option-cases (search inum es 0 none).1) [
    | inl full ↦
        let back : ℕ × List Entry = (i, es') in
        let stuck : panic ≡ ok back = rw (iget, missing, full) at h in cc
    | inr (j, free) ↦ elim (search-empty inum es 0 none j free) [
      | inl never ↦ cc
      | inr (d, e, at, got, unused) ↦
          let f : Entry → Entry = λ x. record x { inum = inum; ref = 1; valid = false } in
          let at' : j ≡ d = omega arith in
          let made : ℕ × List Entry = (j, modify es j f) in
          let back : ℕ × List Entry = (i, es') in
          let run : ok made ≡ ok back = rw (iget, missing, free) at h in
          added inum es es' i j e f (ap (get_elem? es) at' ∙ got) (cc) (cc) (ground arith)
            (λ n ne. ground arith) refl (omega arith)
    ]
  ]
]
