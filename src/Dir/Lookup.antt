-- ===== src/Dir/Lookup.antt =====
-- What `dirlookup` of xv6/fs.c finds in a directory whose blocks are all there.
use buffer_overflow_attack.Base.{
  ==_iff, Bool, Bool-cases, List, Option, [], ap, arith, false, get_elem?, if◌then◌else◌, inl, inr,
  length, ltb, min, modify, none, not, refl, some, suc, true, zero, ℕ, ◌%◌, ◌&&◌, ◌*◌, ◌+◌, ◌-◌,
  ◌/◌, ◌<◌, ◌==◌, ◌∙◌, ◌∷◌, ◌≡◌, ◌≤◌,
}
use buffer_overflow_attack.Kalloc.{Outcome, ok, panic, ◌>>=◌}
use buffer_overflow_attack.Fs.{Super, Disk}
use buffer_overflow_attack.Inode.{Inode}
use buffer_overflow_attack.Inode.Content.{readi}
use buffer_overflow_attack.Inode.Mapped.{IsMapped, content, readi-content}
use buffer_overflow_attack.Path.{name_size}
use buffer_overflow_attack.Icache.{Entry, Fs, iget}
use buffer_overflow_attack.Dir.{
  dirlookup, take_entry, t_dir, dirent_size, same_name, entry_inum, entry_name, read_entry,
  lookup_from, find_entry, whole_entry,
}

-- The bytes of the entry at offset `off`, and whether it is in use and has the name.
abbrev pub entry_at : Inode → Disk → ℕ → List ℕ
entry_at dp s off = content dp s off dirent_size

abbrev pub hits : List ℕ → Inode → Disk → ℕ → Bool
hits name dp s off =
    not (entry_inum (entry_at dp s off) == 0)
    && same_name name_size name (entry_name (entry_at dp s off))

-- The first entry in use that has the name, with its offset, or none.
pub data FirstHit (name : List ℕ) (dp : Inode) (s : Disk) : Option (ℕ × ℕ) → Type 0 where
  nowhere :
      ((k : ℕ) → k * dirent_size < dp.size → hits name dp s (k * dirent_size) ≡ false)
      → FirstHit name dp s none
  first :
      (q : ℕ)
      → q * dirent_size < dp.size
      → hits name dp s (q * dirent_size) ≡ true
      → ((k : ℕ) → k < q → hits name dp s (k * dirent_size) ≡ false)
      → FirstHit name dp s (some (entry_inum (entry_at dp s (q * dirent_size)), q * dirent_size))

ltb-below : (a b : ℕ) → ltb a b ≡ true → a < b
ltb-below a b h = ground arith

ltb-above : (a b : ℕ) → ltb a b ≡ false → b ≤ a
ltb-above a b h = ground arith

length-content : (dp : Inode) (s : Disk) (off n : ℕ) → length (content dp s off n) ≡ n
unfolding content
length-content dp s off zero = refl
length-content dp s off (suc n) = ap suc (length-content dp s (off + 1) n)

-- What `dirlookup` returns for the entry `r`: a null pointer, or what `iget` gives for the inode.
abbrev pub gives : Option (ℕ × ℕ) → Fs → Outcome (Option (ℕ × ℕ) × Fs)
gives none fs = ok (none, fs)
gives (some (inum, off)) fs =
    iget inum fs.icache >>= λ (j, icache). ok (some (j, off), record fs { icache = icache })

modify-same :
    (es : List Entry) (i : ℕ) (e : Entry)
    → get_elem? es i ≡ some e
    → modify es i (λ x. record x { ip = e.ip }) ≡ es
modify-same [] i e at = refl
modify-same (x ∷ es) zero e at = let same : x ≡ e = cc in rw same refl
modify-same (x ∷ es) (suc i) e at = ap (λ t. x ∷ t) (modify-same es i e at)

module _ (sb : Super) (outstanding : ℕ) where
  read_entry-there :
      (off : ℕ) (dp : Inode) (s : Disk)
      → IsMapped dp s
      → off + dirent_size ≤ dp.size
      → read_entry sb outstanding off dp s ≡ ok (entry_at dp s off, dp, s)
  unfolding read_entry
  read_entry-there off dp s h inside =
      let bounded = h.bounded in
      let whole : min dirent_size (dp.size - off) ≡ dirent_size = omega arith in
      let got : readi sb outstanding off dirent_size dp s ≡ ok (some (entry_at dp s off), dp, s) =
        readi-content sb outstanding off dirent_size dp s h (omega arith) (omega arith)
        ∙ ap (λ n. ok (some (content dp s off n), dp, s)) whole in
      let sized : (length (entry_at dp s off) == dirent_size) ≡ true =
        rw (length-content dp s off dirent_size) refl in
      ap (λ o. o >>= whole_entry sb outstanding) got
      ∙ ap (λ t. if t then ok (entry_at dp s off, dp, s) else panic) sized

  -- One round of the loop behind its test.
  abbrev choose : ℕ → ℕ → List ℕ → List ℕ × Inode × Disk → Outcome (Option (ℕ × ℕ) × Inode × Disk)
  choose rounds q name (de, dp, s) =
      if not (entry_inum de == 0) && same_name name_size name (entry_name de)
      then ok (some (entry_inum de, q * dirent_size), dp, s)
      else lookup_from sb outstanding rounds name (q * dirent_size + dirent_size) dp s

  abbrev round : ℕ → ℕ → List ℕ → Inode → Disk → Outcome (Option (ℕ × ℕ) × Inode × Disk)
  round rounds q name dp s =
      read_entry sb outstanding (q * dirent_size) dp s >>= choose rounds q name

  earlier :
      (q : ℕ) (name : List ℕ) (dp : Inode) (s : Disk)
      → ((k : ℕ) → k < q → hits name dp s (k * dirent_size) ≡ false)
      → hits name dp s (q * dirent_size) ≡ false
      → (k : ℕ) → k < q + 1
      → hits name dp s (k * dirent_size) ≡ false
  earlier q name dp s before miss k lt = elim (Bool-cases (k == q)) [
    | inl same ↦ let e = (==_iff k q).0 same in ap (λ j. hits name dp s (j * dirent_size)) e ∙ miss
    | inr other ↦ before k (ground (arith, ==_iff k q))
  ]

  lookup_from-first :
      (rounds q : ℕ) (name : List ℕ) (dp : Inode) (s : Disk)
      → IsMapped dp s
      → dp.size % dirent_size ≡ 0
      → dp.size < (q + rounds) * dirent_size
      → ((k : ℕ) → k < q → hits name dp s (k * dirent_size) ≡ false)
      → (r : Option (ℕ × ℕ)) × (lookup_from sb outstanding rounds name (q * dirent_size) dp s
          ≡ ok (r, dp, s))
        × FirstHit name dp s r
  unfolding lookup_from
  lookup_from-first zero q name dp s h whole enough before =
      (none, refl, nowhere (λ k inside. before k (omega arith)))
  lookup_from-first (suc rounds) q name dp s h whole enough before =
      elim (Bool-cases (ltb (q * dirent_size) dp.size)) [
        | inr out ↦ (
          none,
          ap (λ t. if t then round rounds q name dp s else ok (none, dp, s)) out,
          nowhere (λ k inside.
              before k (let above = ltb-above (q * dirent_size) dp.size out in omega arith)),
        )
        | inl inside ↦
            let off = q * dirent_size in
            let below = ltb-below off dp.size inside in
            let got = read_entry-there off dp s h (omega arith) in
            let go =
              ap (λ t. if t then round rounds q name dp s else ok (none, dp, s)) inside
              ∙ ap (λ o. o >>= choose rounds q name) got in
            elim (Bool-cases (hits name dp s off)) [
              | inl hit ↦ (
                some (entry_inum (entry_at dp s off), off),
                go
                    ∙ ap
                        (λ t.
                          if t
                          then ok (some (entry_inum (entry_at dp s off), off), dp, s)
                          else lookup_from sb outstanding rounds name (off + dirent_size) dp s)
                        hit,
                first q below hit before,
              )
              | inr miss ↦
                  let next : off + dirent_size ≡ (q + 1) * dirent_size = omega arith in
                  let (r, e, f) =
                    lookup_from-first rounds (q + 1) name dp s h whole (omega arith)
                      (λ k lt. earlier q name dp s before miss k lt) in
                  (
                    r,
                    go
                        ∙ ap
                            (λ t.
                              if t
                              then ok (some (entry_inum (entry_at dp s off), off), dp, s)
                              else lookup_from sb outstanding rounds name (off + dirent_size) dp s)
                            miss
                        ∙ ap (λ o. lookup_from sb outstanding rounds name o dp s) next
                        ∙ e,
                    f,
                  )
            ]
      ]

  find_entry-first :
      (name : List ℕ) (dp : Inode) (s : Disk)
      → dp.kind ≡ t_dir
      → IsMapped dp s
      → dp.size % dirent_size ≡ 0
      → (r : Option (ℕ × ℕ)) × (find_entry sb outstanding name dp s ≡ ok (r, dp, s))
        × FirstHit name dp s r
  unfolding find_entry
  find_entry-first name dp s dir h whole =
      let (r, e, f) =
        lookup_from-first (dp.size / dirent_size + 2) 0 name dp s h whole (omega arith)
          (λ k lt. absurd (omega arith)) in
      let is_dir : (dp.kind == t_dir) ≡ true = (==_iff dp.kind t_dir).1 dir in
      (
        r,
        ap
              (λ t.
                if t
                then lookup_from sb outstanding (dp.size / dirent_size + 2) name 0 dp s
                else panic)
              is_dir
            ∙ e,
        f,
      )

  take_entry-gives :
      (i : ℕ) (fs : Fs) (e : Entry) (r : Option (ℕ × ℕ))
      → get_elem? fs.icache i ≡ some e
      → take_entry sb outstanding i fs (r, e.ip, fs.disk) ≡ gives r fs
  take_entry-gives i fs e none at =
      ap (λ l. ok (none, record fs { icache = l })) (modify-same fs.icache i e at)
  take_entry-gives i fs e (some (inum, off)) at =
      ap (λ l. gives (some (inum, off)) (record fs { icache = l })) (modify-same fs.icache i e at)

  -- In a locked directory whose blocks are all there and whose size is a multiple of 16, `dirlookup`
  -- finds the first entry in use with the name. If there is none, it returns a null pointer and changes
  -- nothing. Otherwise it returns what `iget` gives for the inode of that entry, with the offset of the
  -- entry: the new reference is its only change, and it panics only if `iget` does.
  pub dirlookup-first :
      (name : List ℕ) (i : ℕ) (fs : Fs) (e : Entry)
      → get_elem? fs.icache i ≡ some e
      → e.ip.kind ≡ t_dir
      → IsMapped e.ip fs.disk
      → e.ip.size % dirent_size ≡ 0
      → (r : Option (ℕ × ℕ)) × FirstHit name e.ip fs.disk r
        × (dirlookup sb outstanding name i fs ≡ gives r fs)
  unfolding dirlookup
  dirlookup-first name i fs e at dir h whole =
      let (r, run, f) = find_entry-first name e.ip fs.disk dir h whole in
      let here =
        ap
          (λ o. elim o [
            | none ↦ panic
            | some e' ↦
                find_entry sb outstanding name e'.ip fs.disk >>= take_entry sb outstanding i fs
          ])
          at in
      (
        r,
        f,
        here ∙ ap (λ o. o >>= take_entry sb outstanding i fs) run ∙ take_entry-gives i fs e r at,
      )
