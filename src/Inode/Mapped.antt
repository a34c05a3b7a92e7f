-- ===== src/Inode/Mapped.antt =====
-- A file as its bytes: what `bmap` and `readi` of xv6/fs.c give where every block is there.
use buffer_overflow_attack.Base.{
  ==_iff, Bool-cases, List, Option, [], ap, ap₂, arith, false, get_or, if◌then◌else◌, inl, inr, ltb,
  min, none, refl, some, suc, sym, true, zero, ℕ, ◌%◌, ◌*◌, ◌++◌, ◌+◌, ◌-◌, ◌/◌, ◌<◌, ◌==◌, ◌^◌,
  ◌||◌, ◌∙◌, ◌∷◌, ◌≡◌, ◌≢◌, ◌≤◌,
}
use buffer_overflow_attack.Kalloc.{Outcome, ok, panic, ◌>>=◌}
use buffer_overflow_attack.Str.{word_at}
use buffer_overflow_attack.Fs.{Super, Disk, block_size}
use buffer_overflow_attack.Inode.{
  Inode, n_direct, n_indirect, max_file, entry, indirect, bmap, new_entry, new_word, through_table,
}
use buffer_overflow_attack.Inode.Content.{slice, chunk, read_loop, readi}

-- The number of the block `bn` of a file: 0 where there is none.
abbrev pub block_at : Inode → Disk → ℕ → ℕ
block_at ip s bn =
    if ltb bn n_direct
    then get_or ip.addrs bn 0
    else word_at (s.blocks (get_or ip.addrs n_direct 0)) ((bn - n_direct) * 4)

-- Every block up to the end of the file is there.
pub record IsMapped (ip : Inode) (s : Disk) : Type 0 where
  pub table : n_direct * block_size < ip.size → get_or ip.addrs n_direct 0 ≢ 0
  pub there : (bn : ℕ) → bn * block_size < ip.size → block_at ip s bn ≢ 0
  pub bounded : ip.size ≤ max_file * block_size

-- The bytes of a file from `off` on.
unfoldable pub content : Inode → Disk → ℕ → ℕ → List ℕ
content ip s off zero = []
content ip s off (suc n) =
    s.blocks (block_at ip s (off / block_size)) (off % block_size) ∷ content ip s (off + 1) n

module _ (sb : Super) (outstanding : ℕ) where
  entry-there :
      (i : ℕ) (ip : Inode) (s : Disk)
      → get_or ip.addrs i 0 ≢ 0
      → entry sb outstanding i ip s ≡ ok (get_or ip.addrs i 0, ip, s)
  unfolding entry
  entry-there i ip s ne =
      let no : (get_or ip.addrs i 0 == 0) ≡ false =
        ground (arith, ==_iff (get_or ip.addrs i 0) 0) in
      ap (λ t. if t then new_entry sb outstanding i ip s else ok (get_or ip.addrs i 0, ip, s)) no

  indirect-there :
      (b i : ℕ) (ip : Inode) (s : Disk)
      → word_at (s.blocks b) (i * 4) ≢ 0
      → indirect sb outstanding b i ip s ≡ ok (word_at (s.blocks b) (i * 4), ip, s)
  unfolding indirect
  indirect-there b i ip s ne =
      let no : (word_at (s.blocks b) (i * 4) == 0) ≡ false =
        ground (arith, ==_iff (word_at (s.blocks b) (i * 4)) 0) in
      ap
        (λ t.
          if t then new_word sb outstanding b i ip s else ok (word_at (s.blocks b) (i * 4), ip, s))
        no

  through_table-there :
      (i : ℕ) (ip : Inode) (s : Disk)
      → get_or ip.addrs n_direct 0 ≢ 0
      → word_at (s.blocks (get_or ip.addrs n_direct 0)) (i * 4) ≢ 0
      → through_table sb outstanding i ip s
        ≡ ok (word_at (s.blocks (get_or ip.addrs n_direct 0)) (i * 4), ip, s)
  unfolding through_table
  through_table-there i ip s ne ne' =
      ap (λ o. o >>= λ r. indirect sb outstanding r.0 i r.1 r.2) (entry-there n_direct ip s ne)
      ∙ indirect-there (get_or ip.addrs n_direct 0) i ip s ne'

  -- `bmap` of a block that is there gives its number and changes nothing.
  pub bmap-there :
      (bn : ℕ) (ip : Inode) (s : Disk)
      → IsMapped ip s
      → bn * block_size < ip.size
      → bmap sb outstanding bn ip s ≡ ok (block_at ip s bn, ip, s)
  unfolding bmap
  bmap-there bn ip s h inside =
      let later =
        if ltb (bn - n_direct) n_indirect
        then through_table sb outstanding (bn - n_direct) ip s
        else panic in
      elim (Bool-cases (ltb bn n_direct)) [
        | inl direct ↦
            let ne : get_or ip.addrs bn 0 ≢ 0 = λ z. h.there bn inside (
              ap
                (λ t.
                  if t
                  then get_or ip.addrs bn 0
                  else word_at (s.blocks (get_or ip.addrs n_direct 0)) ((bn - n_direct) * 4))
                direct
              ∙ z) in
            ap (λ t. if t then entry sb outstanding bn ip s else later) direct
            ∙ entry-there bn ip s ne
            ∙ ap
                (λ t. ok (
                  if t
                      then get_or ip.addrs bn 0
                      else word_at (s.blocks (get_or ip.addrs n_direct 0)) ((bn - n_direct) * 4),
                  ip,
                  s,
                ))
                (sym direct)
        | inr beyond ↦
            let ne : word_at (s.blocks (get_or ip.addrs n_direct 0)) ((bn - n_direct) * 4) ≢ 0 =
              λ z. h.there bn inside (
                ap
                  (λ t.
                    if t
                    then get_or ip.addrs bn 0
                    else word_at (s.blocks (get_or ip.addrs n_direct 0)) ((bn - n_direct) * 4))
                  beyond
                ∙ z) in
            let far : n_direct ≤ bn = ground arith in
            let table = h.table (omega arith) in
            let bounded = h.bounded in
            let in_table : ltb (bn - n_direct) n_indirect ≡ true = ground arith in
            ap (λ t. if t then entry sb outstanding bn ip s else later) beyond
            ∙ ap (λ t. if t then through_table sb outstanding (bn - n_direct) ip s else panic)
                in_table
            ∙ through_table-there (bn - n_direct) ip s table ne
            ∙ ap
                (λ t. ok (
                  if t
                      then get_or ip.addrs bn 0
                      else word_at (s.blocks (get_or ip.addrs n_direct 0)) ((bn - n_direct) * 4),
                  ip,
                  s,
                ))
                (sym beyond)
      ]

  content-append :
      (ip : Inode) (s : Disk) (off m n : ℕ)
      → content ip s off m ++ content ip s (off + m) n ≡ content ip s off (m + n)
  unfolding content
  content-append ip s off zero n =
      let a : off + 0 ≡ off = omega arith in
      let b : n ≡ 0 + n = omega arith in ap₂ (content ip s) a b
  content-append ip s off (suc m) n =
      let here = s.blocks (block_at ip s (off / block_size)) (off % block_size) in
      let a : off + suc m ≡ off + 1 + m = omega arith in
      let b : suc (m + n) ≡ suc m + n = omega arith in
      ap (λ o. here ∷ (content ip s (off + 1) m ++ content ip s o n)) a
      ∙ ap (λ t. here ∷ t) (content-append ip s (off + 1) m n)
      ∙ ap (content ip s off) b

  -- Within a block the bytes are a slice of it.
  slice-content :
      (ip : Inode) (s : Disk) (bn off o m : ℕ)
      → off ≡ bn * block_size + o
      → o + m ≤ block_size
      → slice (s.blocks (block_at ip s bn)) o m ≡ content ip s off m
  unfolding content slice
  slice-content ip s bn off o zero at le = refl
  slice-content ip s bn off o (suc m) at le =
      let here : off / block_size ≡ bn = omega arith in
      let offset : off % block_size ≡ o = omega arith in
      ap₂ (λ b r. s.blocks (block_at ip s b) r ∷ slice (s.blocks (block_at ip s bn)) (o + 1) m)
        (sym here) (sym offset)
      ∙ ap (λ t. s.blocks (block_at ip s (off / block_size)) (off % block_size) ∷ t)
          (slice-content ip s bn (off + 1) (o + 1) m (omega arith) (omega arith))

  -- One round of the loop, on a file whose blocks are there.
  abbrev join : ℕ → ℕ → ℕ × Inode × Disk → List ℕ × Inode × Disk → Outcome (List ℕ × Inode × Disk)
  join off m r t = ok (slice (r.2.blocks r.0) (off % block_size) m ++ t.0, t.1, t.2)

  abbrev reading : ℕ → ℕ → ℕ → Inode → Disk → Outcome (List ℕ × Inode × Disk)
  reading rounds left off ip s = bmap sb outstanding (off / block_size) ip s >>= λ r.
      read_loop sb outstanding rounds (left - chunk left off) (off + chunk left off) r.1 r.2
      >>= join off (chunk left off) r

  reading-content :
      (rounds left off : ℕ) (ip : Inode) (s : Disk)
      → IsMapped ip s
      → off + left ≤ ip.size
      → left ≢ 0
      → read_loop sb outstanding rounds (left - chunk left off) (off + chunk left off) ip s
        ≡ ok (content ip s (off + chunk left off) (left - chunk left off), ip, s)
      → reading rounds left off ip s ≡ ok (content ip s off left, ip, s)
  reading-content rounds left off ip s h inside some_left ih =
      let m = chunk left off in
      let bn = off / block_size in
      let r : ℕ × Inode × Disk = (block_at ip s bn, ip, s) in
      let total : m + (left - m) ≡ left = omega arith in
      let part = slice-content ip s bn off (off % block_size) m (omega arith) (omega arith) in
      ap
        (λ o. o >>= λ r'.
          read_loop sb outstanding rounds (left - m) (off + m) r'.1 r'.2 >>= join off m r')
        (bmap-there bn ip s h (omega arith))
      ∙ ap (λ o. o >>= join off m r) ih
      ∙ ap (λ l. ok (l ++ content ip s (off + m) (left - m), ip, s)) part
      ∙ ap (λ l. ok (l, ip, s)) (content-append ip s off m (left - m))
      ∙ ap (λ n. ok (content ip s off n, ip, s)) total

  -- The loop reads the bytes of the file, with as many rounds as bytes.
  read_loop-content :
      (rounds left off : ℕ) (ip : Inode) (s : Disk)
      → IsMapped ip s
      → off + left ≤ ip.size
      → left ≤ rounds
      → read_loop sb outstanding rounds left off ip s ≡ ok (content ip s off left, ip, s)
  unfolding read_loop content
  read_loop-content zero left off ip s h inside enough =
      let none_left : 0 ≡ left = omega arith in ap (λ n. ok (content ip s off n, ip, s)) none_left
  read_loop-content (suc rounds) left off ip s h inside enough = elim (Bool-cases (left == 0)) [
    | inl done ↦
        let none_left : 0 ≡ left = sym ((==_iff left 0).0 done) in
        ap (λ t. if t then ok ([], ip, s) else reading rounds left off ip s) done
        ∙ ap (λ n. ok (content ip s off n, ip, s)) none_left
    | inr going ↦
        let some_left : left ≢ 0 = ground (arith, ==_iff left 0) in
        ap (λ t. if t then ok ([], ip, s) else reading rounds left off ip s) going
        ∙ reading-content rounds left off ip s h inside some_left (
            read_loop-content rounds (left - chunk left off) (off + chunk left off) ip s h
              (omega arith) (omega arith))
  ]

  -- `readi` of a file whose blocks are all there never fails inside of the file: it gives the bytes
  -- from `off` on, `n` of them or as many as there are up to the end, and changes nothing.
  pub readi-content :
      (off n : ℕ) (ip : Inode) (s : Disk)
      → IsMapped ip s
      → off ≤ ip.size
      → off + n < 2 ^ 32
      → readi sb outstanding off n ip s
        ≡ ok (some (content ip s off (min n (ip.size - off))), ip, s)
  unfolding readi
  readi-content off n ip s h inside small =
      let n' = (if ltb ip.size ((off + n) % 2 ^ 32) then ip.size - off else n) in
      let accepted : (ltb ip.size off || ltb ((off + n) % 2 ^ 32) off) ≡ false = ground arith in
      let clipped : n' ≡ min n (ip.size - off) = ground arith in
      let rounds : (k : ℕ) → ℕ → Outcome (Option (List ℕ) × Inode × Disk) =
        λ k j. read_loop sb outstanding k k off ip s >>= λ t. ok (some t.0, t.1, t.2) in
      ap (λ t. if t then ok (none, ip, s) else rounds n' 0) accepted
      ∙ ap (λ k. rounds k 0) clipped
      ∙ ap (λ o. o >>= λ t. ok (some t.0, t.1, t.2))
          (read_loop-content (min n (ip.size - off)) (min n (ip.size - off)) off ip s h
            (omega arith) (omega arith))
