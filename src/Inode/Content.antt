-- ===== src/Inode/Content.antt =====
-- xv6/fs.c: `readi` and `writei` of a file or a directory. (A device's own functions are called
-- before the code that is here.)
use buffer_overflow_attack.Base.{
  Bool, List, Option, [], drop, false, if◌then◌else◌, length, ltb, min, none, not, some, suc, take,
  true, zero, ℕ, ◌%◌, ◌&&◌, ◌*◌, ◌++◌, ◌+◌, ◌-◌, ◌/◌, ◌==◌, ◌^◌, ◌||◌, ◌∷◌,
}
use buffer_overflow_attack.Kalloc.{Outcome, ok, ◌>>=◌}
use buffer_overflow_attack.Str.{Memory, write}
use buffer_overflow_attack.Fs.{Super, Disk, block_size, update}
use buffer_overflow_attack.Inode.{Inode, max_file, bmap, iupdate}

-- `m` bytes of a block from offset `o` on, and a block with bytes put there: the calls of `memmove`.
unfoldable pub slice : Memory → ℕ → ℕ → List ℕ
slice blk o zero = []
slice blk o (suc m) = blk o ∷ slice blk (o + 1) m

unfoldable pub blit : Memory → ℕ → List ℕ → Memory
unfolding write
blit blk o [] = blk
blit blk o (b ∷ bs) = blit (write blk o b) (o + 1) bs

-- `min(n - tot, BSIZE - off%BSIZE)`
abbrev pub chunk : ℕ → ℕ → ℕ
chunk left off = min left (block_size - off % block_size)

module _ (sb : Super) (outstanding : ℕ) where
  -- The loop of `readi` for `left` more bytes. A round copies at least one byte, so that as many
  -- rounds as bytes are enough.
  unfoldable pub read_loop : ℕ → ℕ → ℕ → Inode → Disk → Outcome (List ℕ × Inode × Disk)
  unfolding bmap slice
  read_loop zero left off ip s = ok ([], ip, s)
  read_loop (suc rounds) left off ip s = if left == 0 then ok ([], ip, s) else (do
    (b, ip1, s1) ← bmap sb outstanding (off / block_size) ip s
    let m = chunk left off
    (bytes, ip2, s2) ← read_loop rounds (left - m) (off + m) ip1 s1
    ok (slice (s1.blocks b) (off % block_size) m ++ bytes, ip2, s2))

  -- `none` is the result -1; the length of the bytes is the result otherwise.
  unfoldable pub readi : ℕ → ℕ → Inode → Disk → Outcome (Option (List ℕ) × Inode × Disk)
  unfolding read_loop
  readi off n ip s =
      if ltb ip.size off || ltb ((off + n) % 2 ^ 32) off
      then ok (none, ip, s)
      else (let n' = (if ltb ip.size ((off + n) % 2 ^ 32) then ip.size - off else n) in
          do (bytes, ip', s') ← read_loop n' n' off ip s; ok (some bytes, ip', s'))

  -- The loop of `writei` for the bytes that are left, with the offset behind the last one.
  unfoldable pub write_loop : ℕ → List ℕ → ℕ → Inode → Disk → Outcome (ℕ × Inode × Disk)
  unfolding bmap blit update
  write_loop zero src off ip s = ok (off, ip, s)
  write_loop (suc rounds) src off ip s = if length src == 0 then ok (off, ip, s) else (do
    (b, ip1, s1) ← bmap sb outstanding (off / block_size) ip s
    let m = chunk (length src) off
    s2 ← update sb outstanding b (blit (s1.blocks b) (off % block_size) (take m src)) s1
    write_loop rounds (drop m src) (off + m) ip1 s2)

  -- The size behind the loop.
  unfoldable pub grow : ℕ → ℕ → Inode → Disk → Outcome (Inode × Disk)
  unfolding iupdate
  grow n off ip s =
      if not (n == 0) && ltb ip.size off
      then (do let ip' = record ip { size = off }; s' ← iupdate sb outstanding ip' s; ok (ip', s'))
      else ok (ip, s)

  -- `false` is the result -1; `true` is the number of bytes of `src`.
  unfoldable pub writei : ℕ → List ℕ → Inode → Disk → Outcome (Bool × Inode × Disk)
  unfolding write_loop grow
  writei off src ip s =
      let n = length src in
      if ltb ip.size off || ltb ((off + n) % 2 ^ 32) off
      then ok (false, ip, s)
      else if ltb (max_file * block_size) ((off + n) % 2 ^ 32)
      then ok (false, ip, s)
      else (do
        (off', ip1, s1) ← write_loop n src off ip s
        (ip2, s2) ← grow n off' ip1 s1
        ok (true, ip2, s2))
