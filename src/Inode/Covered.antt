-- ===== src/Inode/Covered.antt =====
-- Every change of a file's blocks and of its inode goes through the log.
use buffer_overflow_attack.Base.{
  List, drop, get_or, if◌then◌else◌, length, ltb, not, set, suc, take, zero, ℕ, ◌%◌, ◌&&◌, ◌*◌, ◌+◌,
  ◌-◌, ◌/◌, ◌==◌, ◌^◌, ◌||◌,
}
use buffer_overflow_attack.Kalloc.{ok, panic}
use buffer_overflow_attack.Str.{word_at, write_word}
use buffer_overflow_attack.Fs.{Super, Disk, balloc, bfree, block_size, update}
use buffer_overflow_attack.Fs.Covered.{
  Covered, Covered-refl, then_Covered, Ends, Ends-if, update-Covered, balloc-Covered, bfree-Covered,
}
use buffer_overflow_attack.Inode.Content.{readi, blit, chunk, grow, read_loop, write_loop, writei}
use buffer_overflow_attack.Inode.{
  Inode, iblock, inode_offset, put_dinode, iupdate, entry, bmap, free_direct, free_entries,
  free_indirect, indirect, itrunc, max_file, n_direct, n_indirect, free_table, new_entry, new_word,
  through_table, fresh_dinode, ialloc, ialloc_from, short_at,
}

module _ (sb : Super) (outstanding : ℕ) where
  pub iupdate-Covered : (ip : Inode) (s : Disk) → Ends (iupdate sb outstanding ip s) (Covered s)
  unfolding iupdate
  iupdate-Covered ip s =
      update-Covered sb outstanding (iblock sb ip.inum)
        (put_dinode (s.blocks (iblock sb ip.inum)) (inode_offset ip.inum) ip) s

  new_entry-Covered :
      (i : ℕ) (ip : Inode) (s : Disk) → Ends (new_entry sb outstanding i ip s) (λ r. Covered s r.2)
  unfolding new_entry
  new_entry-Covered i ip s =
      then_Covered (balloc sb outstanding s) _ s (λ r. r.1) (λ r. r.2)
        (balloc-Covered sb outstanding s) λ r. Covered-refl r.1

  entry-Covered :
      (i : ℕ) (ip : Inode) (s : Disk) → Ends (entry sb outstanding i ip s) (λ r. Covered s r.2)
  unfolding entry
  entry-Covered i ip s =
      Ends-if (get_or ip.addrs i 0 == 0) (new_entry sb outstanding i ip s)
        (ok (get_or ip.addrs i 0, ip, s)) (λ r. Covered s r.2) (new_entry-Covered i ip s)
        (Covered-refl s)

  new_word-Covered :
      (b i : ℕ) (ip : Inode) (s : Disk)
      → Ends (new_word sb outstanding b i ip s) (λ r. Covered s r.2)
  unfolding new_word
  new_word-Covered b i ip s =
      then_Covered (balloc sb outstanding s) _ s (λ r. r.1) (λ r. r.2)
        (balloc-Covered sb outstanding s)
        λ (n, s1).
          then_Covered (update sb outstanding b (write_word (s1.blocks b) (i * 4) n) s1)
            (λ s2. ok (n, ip, s2)) s1 (λ s2. s2) (λ r. r.2)
            (update-Covered sb outstanding b (write_word (s1.blocks b) (i * 4) n) s1)
            λ s2. Covered-refl s2

  indirect-Covered :
      (b i : ℕ) (ip : Inode) (s : Disk)
      → Ends (indirect sb outstanding b i ip s) (λ r. Covered s r.2)
  unfolding indirect
  indirect-Covered b i ip s =
      let addr = word_at (s.blocks b) (i * 4) in
      Ends-if (addr == 0) (new_word sb outstanding b i ip s) (ok (addr, ip, s)) (λ r. Covered s r.2)
        (new_word-Covered b i ip s) (Covered-refl s)

  through_table-Covered :
      (i : ℕ) (ip : Inode) (s : Disk)
      → Ends (through_table sb outstanding i ip s) (λ r. Covered s r.2)
  unfolding through_table
  through_table-Covered i ip s =
      then_Covered (entry sb outstanding n_direct ip s) _ s (λ r. r.2) (λ r. r.2)
        (entry-Covered n_direct ip s) λ (b, ip1, s1). indirect-Covered b i ip1 s1

  pub bmap-Covered :
      (bn : ℕ) (ip : Inode) (s : Disk) → Ends (bmap sb outstanding bn ip s) (λ r. Covered s r.2)
  unfolding bmap
  bmap-Covered bn ip s =
      Ends-if (ltb bn n_direct) (entry sb outstanding bn ip s) _ (λ r. Covered s r.2)
        (entry-Covered bn ip s)
        (Ends-if (ltb (bn - n_direct) n_indirect)
          (through_table sb outstanding (bn - n_direct) ip s) panic (λ r. Covered s r.2)
          (through_table-Covered (bn - n_direct) ip s) tt)

  read_loop-Covered :
      (rounds left off : ℕ) (ip : Inode) (s : Disk)
      → Ends (read_loop sb outstanding rounds left off ip s) (λ r. Covered s r.2)
  unfolding read_loop
  read_loop-Covered zero left off ip s = Covered-refl s
  read_loop-Covered (suc rounds) left off ip s =
      Ends-if (left == 0) _ _ (λ r. Covered s r.2) (Covered-refl s)
        (then_Covered (bmap sb outstanding (off / block_size) ip s) _ s (λ r. r.2) (λ r. r.2)
          (bmap-Covered (off / block_size) ip s)
          λ (b, ip1, s1).
            then_Covered
              (read_loop sb outstanding rounds (left - chunk left off) (off + chunk left off) ip1
                s1)
              _ s1 (λ r. r.2) (λ r. r.2)
              (read_loop-Covered rounds (left - chunk left off) (off + chunk left off) ip1 s1)
              λ r. Covered-refl r.2)

  pub readi-Covered :
      (off n : ℕ) (ip : Inode) (s : Disk)
      → Ends (readi sb outstanding off n ip s) (λ r. Covered s r.2)
  unfolding readi
  readi-Covered off n ip s =
      let n' = (if ltb ip.size ((off + n) % 2 ^ 32) then ip.size - off else n) in
      Ends-if (ltb ip.size off || ltb ((off + n) % 2 ^ 32) off) _ _ (λ r. Covered s r.2)
        (Covered-refl s)
        (then_Covered (read_loop sb outstanding n' n' off ip s) _ s (λ r. r.2) (λ r. r.2)
          (read_loop-Covered n' n' off ip s) λ r. Covered-refl r.2)

  write_loop-Covered :
      (rounds : ℕ) (src : List ℕ) (off : ℕ) (ip : Inode) (s : Disk)
      → Ends (write_loop sb outstanding rounds src off ip s) (λ r. Covered s r.2)
  unfolding write_loop
  write_loop-Covered zero src off ip s = Covered-refl s
  write_loop-Covered (suc rounds) src off ip s =
      let m = chunk (length src) off in
      Ends-if (length src == 0) _ _ (λ r. Covered s r.2) (Covered-refl s)
        (then_Covered (bmap sb outstanding (off / block_size) ip s) _ s (λ r. r.2) (λ r. r.2)
          (bmap-Covered (off / block_size) ip s)
          λ (b, ip1, s1).
            then_Covered
              (update sb outstanding b (blit (s1.blocks b) (off % block_size) (take m src)) s1) _ s1
              (λ t. t) (λ r. r.2)
              (update-Covered sb outstanding b (blit (s1.blocks b) (off % block_size) (take m src))
                s1)
              λ s2. write_loop-Covered rounds (drop m src) (off + m) ip1 s2)

  grow-Covered :
      (n off : ℕ) (ip : Inode) (s : Disk)
      → Ends (grow sb outstanding n off ip s) (λ r. Covered s r.1)
  unfolding grow
  grow-Covered n off ip s =
      Ends-if (not (n == 0) && ltb ip.size off) _ _ (λ r. Covered s r.1)
        (then_Covered (iupdate sb outstanding (record ip { size = off }) s) _ s (λ t. t) (λ r. r.1)
          (iupdate-Covered (record ip { size = off }) s) λ t. Covered-refl t)
        (Covered-refl s)

  -- Behind a `writei` every block that it changed is noted in the log, and what was noted before is so
  -- still.
  pub writei-Covered :
      (off : ℕ) (src : List ℕ) (ip : Inode) (s : Disk)
      → Ends (writei sb outstanding off src ip s) (λ r. Covered s r.2)
  unfolding writei
  writei-Covered off src ip s =
      let n = length src in
      Ends-if (ltb ip.size off || ltb ((off + n) % 2 ^ 32) off) _ _ (λ r. Covered s r.2)
        (Covered-refl s)
        (Ends-if (ltb (max_file * block_size) ((off + n) % 2 ^ 32)) _ _ (λ r. Covered s r.2)
          (Covered-refl s)
          (then_Covered (write_loop sb outstanding n src off ip s) _ s (λ r. r.2) (λ r. r.2)
            (write_loop-Covered n src off ip s)
            λ (off', ip1, s1).
              then_Covered (grow sb outstanding n off' ip1 s1) _ s1 (λ r. r.1) (λ r. r.2)
                (grow-Covered n off' ip1 s1) λ r. Covered-refl r.1))

  free_direct-Covered :
      (i left : ℕ) (ip : Inode) (s : Disk)
      → Ends (free_direct sb outstanding i left ip s) (λ r. Covered s r.1)
  unfolding free_direct
  free_direct-Covered i zero ip s = Covered-refl s
  free_direct-Covered i (suc left) ip s =
      Ends-if (get_or ip.addrs i 0 == 0) _ _ (λ r. Covered s r.1)
        (free_direct-Covered (i + 1) left ip s)
        (then_Covered (bfree sb outstanding (get_or ip.addrs i 0) s) _ s (λ t. t) (λ r. r.1)
          (bfree-Covered sb outstanding (get_or ip.addrs i 0) s)
          λ t. free_direct-Covered (i + 1) left (record ip { addrs = set ip.addrs i 0 }) t)

  free_entries-Covered :
      (b j left : ℕ) (s : Disk) → Ends (free_entries sb outstanding b j left s) (Covered s)
  unfolding free_entries
  free_entries-Covered b j zero s = Covered-refl s
  free_entries-Covered b j (suc left) s =
      Ends-if (word_at (s.blocks b) (j * 4) == 0) _ _ (Covered s)
        (free_entries-Covered b (j + 1) left s)
        (then_Covered (bfree sb outstanding (word_at (s.blocks b) (j * 4)) s) _ s (λ t. t) (λ t. t)
          (bfree-Covered sb outstanding (word_at (s.blocks b) (j * 4)) s)
          λ t. free_entries-Covered b (j + 1) left t)

  free_table-Covered :
      (addr : ℕ) (ip : Inode) (s : Disk)
      → Ends (free_table sb outstanding addr ip s) (λ r. Covered s r.1)
  unfolding free_table
  free_table-Covered addr ip s =
      then_Covered (free_entries sb outstanding addr 0 n_indirect s) _ s (λ t. t) (λ r. r.1)
        (free_entries-Covered addr 0 n_indirect s)
        λ s1.
          then_Covered (bfree sb outstanding addr s1) _ s1 (λ t. t) (λ r. r.1)
            (bfree-Covered sb outstanding addr s1) λ t. Covered-refl t

  table-Covered :
      (addr : ℕ) (ip : Inode) (s : Disk)
      → Ends
          (if addr == 0 then ok (ip, s) else free_table sb outstanding addr ip s)
          (λ r. Covered s r.1)
  table-Covered addr ip s =
      Ends-if (addr == 0) (ok (ip, s)) (free_table sb outstanding addr ip s) (λ r. Covered s r.1)
        (Covered-refl s) (free_table-Covered addr ip s)

  free_indirect-Covered :
      (ip : Inode) (s : Disk) → Ends (free_indirect sb outstanding ip s) (λ r. Covered s r.1)
  unfolding free_indirect
  free_indirect-Covered ip s = table-Covered (get_or ip.addrs n_direct 0) ip s

  -- Behind an `itrunc` every block that it changed, of the map or of the inodes, is noted in the log.
  pub itrunc-Covered :
      (ip : Inode) (s : Disk) → Ends (itrunc sb outstanding ip s) (λ r. Covered s r.1)
  unfolding itrunc
  itrunc-Covered ip s =
      then_Covered (free_direct sb outstanding 0 n_direct ip s) _ s (λ r. r.1) (λ r. r.1)
        (free_direct-Covered 0 n_direct ip s)
        λ (ip1, s1).
          then_Covered (free_indirect sb outstanding ip1 s1) _ s1 (λ r. r.1) (λ r. r.1)
            (free_indirect-Covered ip1 s1)
            λ (ip2, s2).
              then_Covered (iupdate sb outstanding (record ip2 { size = 0 }) s2)
                (λ s3. ok (record ip2 { size = 0 }, s3)) s2 (λ t. t) (λ r. r.1)
                (iupdate-Covered (record ip2 { size = 0 }) s2) λ t. Covered-refl t

  ialloc_from-Covered :
      (kind inum left : ℕ) (s : Disk)
      → Ends (ialloc_from sb outstanding kind inum left s) (λ r. Covered s r.1)
  unfolding ialloc_from
  ialloc_from-Covered kind inum zero s = tt
  ialloc_from-Covered kind inum (suc left) s =
      let blk = s.blocks (iblock sb inum) in
      Ends-if (short_at blk (inode_offset inum) == 0) _ _ (λ r. Covered s r.1)
        (then_Covered
          (update sb outstanding (iblock sb inum) (fresh_dinode blk (inode_offset inum) kind) s) _ s
          (λ t. t) (λ r. r.1)
          (update-Covered sb outstanding (iblock sb inum)
            (fresh_dinode blk (inode_offset inum) kind) s)
          λ t. Covered-refl t)
        (ialloc_from-Covered kind (inum + 1) left s)

  pub ialloc-Covered :
      (kind : ℕ) (s : Disk) → Ends (ialloc sb outstanding kind s) (λ r. Covered s r.1)
  unfolding ialloc
  ialloc-Covered kind s = ialloc_from-Covered kind 1 (sb.ninodes - 1) s
