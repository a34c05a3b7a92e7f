-- ===== src/Fs.antt =====
-- xv6/fs.c, the blocks: the free map on the disk. A block is its bytes. The disk is what `bread`
-- shows, and every change goes through `log_write`, whose list of block numbers is part of the state.
pub mod Scan
pub mod Bitmap
pub mod Alloc
pub mod Covered
use buffer_overflow_attack.Base.{
  List, Option, bit, if◌then◌else◌, ltb, none, some, suc, zero, ℕ, ◌%◌, ◌+◌, ◌-◌, ◌/◌, ◌==◌, ◌^◌,
}
use buffer_overflow_attack.Kalloc.{Outcome, ok, panic, ◌>>=◌}
use buffer_overflow_attack.Str.{Memory, write, write_word, word_at}
use buffer_overflow_attack.Log.{log_write}

-- `struct superblock`, its fields that the code reads.
pub record Super : Type 0 where
  pub size : ℕ
  pub ninodes : ℕ
  pub nlog : ℕ
  pub inodestart : ℕ
  pub bmapstart : ℕ

pub record Disk : Type 0 where
  pub blocks : ℕ → Memory
  pub noted : List ℕ

abbrev pub block_size : ℕ
block_size = 512

-- Bits in a block of the map, and BBLOCK.
abbrev pub bits_per_block : ℕ
bits_per_block = 4096

abbrev pub bblock : Super → ℕ → ℕ
bblock sb b = b / bits_per_block + sb.bmapstart

abbrev pub put_data : (ℕ → Memory) → ℕ → Memory → ℕ → Memory
put_data f b v x = if x == b then v else f x

-- `bp->data[bi/8] & m` with `m` the bit `bi % 8`.
abbrev pub bit_of : Memory → ℕ → ℕ
bit_of blk bi = bit (blk (bi / 8)) (bi % 8)

-- `|= m` where the bit is clear, and `&= ~m` where it is set.
abbrev pub set_bit : Memory → ℕ → Memory
set_bit blk bi = write blk (bi / 8) (blk (bi / 8) + 2 ^ (bi % 8))

abbrev pub clear_bit : Memory → ℕ → Memory
clear_bit blk bi = write blk (bi / 8) (blk (bi / 8) - 2 ^ (bi % 8))

-- `outstanding` is the field of the log: the calls under way.
module _ (sb : Super) (outstanding : ℕ) where
  -- The buffer of block `b` gets new bytes, and `log_write` notes it.
  unfoldable pub update : ℕ → Memory → Disk → Outcome Disk
  unfolding log_write
  update b bytes s = do
    noted ← log_write sb.nlog outstanding b s.noted
    ok (record { blocks = put_data s.blocks b bytes; noted = noted })

  unfoldable pub bzero : ℕ → Disk → Outcome Disk
  unfolding update
  bzero b s = update b (λ i. 0) s

  -- The inner loop of `balloc` over `left` more bits of the map's block for `b`.
  unfoldable pub scan_bits : Memory → ℕ → ℕ → ℕ → Option ℕ
  scan_bits blk b bi zero = none
  scan_bits blk b bi (suc left) =
      let rest = scan_bits blk b (bi + 1) left in
      if ltb (b + bi) sb.size then (if bit_of blk bi == 0 then some bi else rest) else none

  -- The inner loop over the whole block of the map.
  unfoldable pub scan_block : Memory → ℕ → Option ℕ
  unfolding scan_bits
  scan_block blk b = scan_bits blk b 0 bits_per_block

  -- Bit `bi` of the block of the map for `b` is taken: the block is marked, and zeroed.
  unfoldable pub take_bit : ℕ → ℕ → Disk → Outcome (ℕ × Disk)
  unfolding update bzero
  take_bit b bi s = do
    s1 ← update (bblock sb b) (set_bit (s.blocks (bblock sb b)) bi) s
    s2 ← bzero (b + bi) s1
    ok (b + bi, s2)

  unfoldable pub on_found :
      ℕ → Disk → Option (Outcome (ℕ × Disk)) → Option ℕ → Option (Outcome (ℕ × Disk))
  unfolding take_bit
  on_found b s rest none = rest
  on_found b s rest (some bi) = some (take_bit b bi s)

  -- The outer loop on fuel. Behind the last block `balloc` panics; without fuel it would go on.
  unfoldable pub balloc_from : ℕ → ℕ → Disk → Option (Outcome (ℕ × Disk))
  unfolding scan_block on_found
  balloc_from zero b s = none
  balloc_from (suc fuel) b s =
      let rest = balloc_from fuel (b + bits_per_block) s in
      if ltb b sb.size
      then on_found b s rest (scan_block (s.blocks (bblock sb b)) b)
      else some panic

  -- One round for each block of the map, and one to find that there are no more.
  abbrev pub map_rounds : ℕ
  map_rounds = suc (sb.size / bits_per_block + 1)

  abbrev pub or_panic : Option (Outcome (ℕ × Disk)) → Outcome (ℕ × Disk)
  or_panic none = panic
  or_panic (some r) = r

  unfoldable pub balloc : Disk → Outcome (ℕ × Disk)
  unfolding balloc_from
  balloc s = or_panic (balloc_from map_rounds 0 s)

  unfoldable pub bfree : ℕ → Disk → Outcome Disk
  unfolding update
  bfree b s =
      let blk = s.blocks (bblock sb b) in
      let bi = b % bits_per_block in
      if bit_of blk bi == 0 then panic else update (bblock sb b) (clear_bit blk bi) s
