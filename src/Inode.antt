-- ===== src/Inode.antt =====
-- xv6/fs.c, the inodes: their fields on the disk, the blocks of a file, reading and writing. The
-- inode of a call is the copy in memory, locked and valid. The bytes of a block are changed by
-- functions that stand for the C code's stores through `bp->data`.
pub mod Stored
pub mod Content
pub mod Covered
pub mod Atomic
pub mod Mapped
use buffer_overflow_attack.Base.{
  List, [], get_or, if◌then◌else◌, leb, ltb, set, suc, zero, ℕ, ◌%◌, ◌&&◌, ◌*◌, ◌+◌, ◌-◌, ◌/◌, ◌==◌,
  ◌∷◌,
}
use buffer_overflow_attack.Kalloc.{Outcome, ok, panic, ◌>>=◌}
use buffer_overflow_attack.Str.{Memory, write, write_word, word_at}
use buffer_overflow_attack.Fs.{Super, Disk, block_size, update, balloc, bfree}

abbrev pub n_direct : ℕ
n_direct = 12

abbrev pub n_indirect : ℕ
n_indirect = 128

abbrev pub max_file : ℕ
max_file = n_direct + n_indirect

-- `struct inode`: `addrs` has one block number more than the direct ones.
pub record Inode : Type 0 where
  pub inum : ℕ
  pub kind : ℕ
  pub major : ℕ
  pub minor : ℕ
  pub nlink : ℕ
  pub size : ℕ
  pub addrs : List ℕ

-- IPB and IBLOCK; `sizeof(struct dinode)` is 64.
abbrev pub inodes_per_block : ℕ
inodes_per_block = 8

abbrev pub iblock : Super → ℕ → ℕ
iblock sb i = i / inodes_per_block + sb.inodestart

abbrev pub inode_offset : ℕ → ℕ
inode_offset i = i % inodes_per_block * 64

-- A store and a load of a 16-bit `short`.
unfoldable pub write_short : Memory → ℕ → ℕ → Memory
unfolding write
write_short m a v = write (write m a (v % 256)) (a + 1) (v / 256 % 256)

unfoldable pub short_at : Memory → ℕ → ℕ
short_at m a = m a + m (a + 1) * 256

unfoldable pub write_words : Memory → ℕ → List ℕ → Memory
write_words m a [] = m
write_words m a (v ∷ vs) = write_words (write_word m a v) (a + 4) vs

unfoldable pub words_at : Memory → ℕ → ℕ → List ℕ
words_at m a zero = []
words_at m a (suc n) = word_at m a ∷ words_at m (a + 4) n

-- The fields of `struct dinode` at offset `o` of a block.
unfoldable pub put_dinode : Memory → ℕ → Inode → Memory
unfolding write_short write_words
put_dinode blk o ip =
    let b1 = write_short blk o ip.kind in
    let b2 = write_short b1 (o + 2) ip.major in
    let b3 = write_short b2 (o + 4) ip.minor in
    let b4 = write_short b3 (o + 6) ip.nlink in
    let b5 = write_word b4 (o + 8) ip.size in write_words b5 (o + 12) ip.addrs

unfoldable pub get_dinode : Memory → ℕ → ℕ → Inode
unfolding short_at words_at
get_dinode blk o inum = record {
  inum = inum;
  kind = short_at blk o;
  major = short_at blk (o + 2);
  minor = short_at blk (o + 4);
  nlink = short_at blk (o + 6);
  size = word_at blk (o + 8);
  addrs = words_at blk (o + 12) (n_direct + 1);
}

-- `memset(dip, 0, sizeof(*dip)); dip->type = type`
unfoldable pub fresh_dinode : Memory → ℕ → ℕ → Memory
unfolding write_short
fresh_dinode blk o kind = write_short (λ x. if leb o x && ltb x (o + 64) then 0 else blk x) o kind

module _ (sb : Super) (outstanding : ℕ) where
  unfoldable pub iupdate : Inode → Disk → Outcome Disk
  unfolding put_dinode update
  iupdate ip s =
      let b = iblock sb ip.inum in
      update sb outstanding b (put_dinode (s.blocks b) (inode_offset ip.inum) ip) s

  -- What `ilock` reads into an inode that is not valid.
  unfoldable pub load_inode : ℕ → Disk → Outcome Inode
  unfolding get_dinode
  load_inode inum s =
      let ip = get_dinode (s.blocks (iblock sb inum)) (inode_offset inum) inum in
      if ip.kind == 0 then panic else ok ip

  -- The loop of `ialloc` over `left` more inodes: the number that it takes.
  unfoldable pub ialloc_from : ℕ → ℕ → ℕ → Disk → Outcome (ℕ × Disk)
  unfolding fresh_dinode update
  ialloc_from kind inum zero s = panic
  ialloc_from kind inum (suc left) s =
      let blk = s.blocks (iblock sb inum) in
      let rest = ialloc_from kind (inum + 1) left s in
      if short_at blk (inode_offset inum) == 0
      then (do
        s' ← update sb outstanding (iblock sb inum) (fresh_dinode blk (inode_offset inum) kind) s
        ok (inum, s'))
      else rest

  unfoldable pub ialloc : ℕ → Disk → Outcome (ℕ × Disk)
  unfolding ialloc_from
  ialloc kind s = ialloc_from kind 1 (sb.ninodes - 1) s

  -- An entry of `addrs`, with a new block where there is none.
  unfoldable pub new_entry : ℕ → Inode → Disk → Outcome (ℕ × Inode × Disk)
  unfolding balloc
  new_entry i ip s = do
    (b, s') ← balloc sb outstanding s
    ok (b, record ip { addrs = set ip.addrs i b }, s')

  unfoldable pub entry : ℕ → Inode → Disk → Outcome (ℕ × Inode × Disk)
  unfolding new_entry
  entry i ip s =
      let addr = get_or ip.addrs i 0 in if addr == 0 then new_entry i ip s else ok (addr, ip, s)

  -- The entry `i` of the indirect block `b`.
  unfoldable pub new_word : ℕ → ℕ → Inode → Disk → Outcome (ℕ × Inode × Disk)
  unfolding balloc update
  new_word b i ip s = do
    (n, s1) ← balloc sb outstanding s
    s2 ← update sb outstanding b (write_word (s1.blocks b) (i * 4) n) s1
    ok (n, ip, s2)

  unfoldable pub indirect : ℕ → ℕ → Inode → Disk → Outcome (ℕ × Inode × Disk)
  unfolding new_word
  indirect b i ip s =
      let addr = word_at (s.blocks b) (i * 4) in
      if addr == 0 then new_word b i ip s else ok (addr, ip, s)

  -- `bmap` behind `bn -= NDIRECT`.
  unfoldable pub through_table : ℕ → Inode → Disk → Outcome (ℕ × Inode × Disk)
  unfolding entry indirect
  through_table i ip s = do (b, ip1, s1) ← entry n_direct ip s; indirect b i ip1 s1

  unfoldable pub bmap : ℕ → Inode → Disk → Outcome (ℕ × Inode × Disk)
  unfolding entry through_table
  bmap bn ip s =
      if ltb bn n_direct
      then entry bn ip s
      else if ltb (bn - n_direct) n_indirect
      then through_table (bn - n_direct) ip s
      else panic

  -- The first loop of `itrunc`, over `left` more direct entries.
  unfoldable pub free_direct : ℕ → ℕ → Inode → Disk → Outcome (Inode × Disk)
  unfolding bfree
  free_direct i zero ip s = ok (ip, s)
  free_direct i (suc left) ip s =
      let addr = get_or ip.addrs i 0 in
      if addr == 0 then free_direct (i + 1) left ip s else (do
        s' ← bfree sb outstanding addr s
        free_direct (i + 1) left (record ip { addrs = set ip.addrs i 0 }) s')

  -- The second loop, over `left` more entries of the indirect block `b`.
  unfoldable pub free_entries : ℕ → ℕ → ℕ → Disk → Outcome Disk
  unfolding bfree
  free_entries b j zero s = ok s
  free_entries b j (suc left) s =
      let addr = word_at (s.blocks b) (j * 4) in
      if addr == 0
      then free_entries b (j + 1) left s
      else bfree sb outstanding addr s >>= free_entries b (j + 1) left

  -- The blocks that the indirect block `addr` names, and the block itself.
  unfoldable pub free_table : ℕ → Inode → Disk → Outcome (Inode × Disk)
  unfolding free_entries bfree
  free_table addr ip s = do
    s1 ← free_entries addr 0 n_indirect s
    s2 ← bfree sb outstanding addr s1
    ok (record ip { addrs = set ip.addrs n_direct 0 }, s2)

  unfoldable pub free_indirect : Inode → Disk → Outcome (Inode × Disk)
  unfolding free_table
  free_indirect ip s =
      let addr = get_or ip.addrs n_direct 0 in
      if addr == 0 then ok (ip, s) else free_table addr ip s

  unfoldable pub itrunc : Inode → Disk → Outcome (Inode × Disk)
  unfolding free_direct free_indirect iupdate
  itrunc ip s = do
    (ip1, s1) ← free_direct 0 n_direct ip s
    (ip2, s2) ← free_indirect ip1 s1
    let ip3 = record ip2 { size = 0 }
    s3 ← iupdate ip3 s2
    ok (ip3, s3)
