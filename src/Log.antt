-- ===== src/Log.antt =====
-- xv6/log.c: the log that makes the writes of a file system call reach the disk together or not at
-- all. A block is the 32-bit words in it. The log's header is the list of its block numbers, as
-- long as `lh.n`.
pub mod Moves
pub mod Install
pub mod Recover
pub mod Crash
pub mod Reserve
use buffer_overflow_attack.Base.{
  Bool, List, Option, [], false, get_or, if◌then◌else◌, leb, leb_ℤ, length, ltb, none, pos, some,
  suc, zero, ℕ, ◌*◌, ◌+◌, ◌-ℤ◌, ◌-◌, ◌==◌, ◌||◌, ◌∷◌,
}
use buffer_overflow_attack.Kalloc.{Outcome, ok, panic, ◌>>=◌}

abbrev pub Block : Type 0
Block = ℕ → ℕ

-- The disk; `cached b`, what `bread` of block `b` shows: its buffer, or the disk's block where there
-- is none (bio.c keeps a buffer that is dirty); and how many writes still reach the disk before the
-- power fails.
pub record Store : Type 0 where
  pub disk : ℕ → Block
  pub cached : ℕ → Block
  pub power : ℕ

abbrev pub put_block : (ℕ → Block) → ℕ → Block → ℕ → Block
put_block f b v x = if x == b then v else f x

-- `bwrite` of the buffer of block `b`.
unfoldable pub bwrite : ℕ → Store → Store
bwrite b s = record s {
  disk = if s.power == 0 then s.disk else put_block s.disk b (s.cached b);
  power = s.power - 1;
}

-- `memmove(to->data, from->data, BSIZE)`
unfoldable pub copy_block : ℕ → ℕ → Store → Store
copy_block to from s = record s { cached = put_block s.cached to (s.cached from) }

-- The words of the header's block.
unfoldable pub put_head : List ℕ → Block → Block
put_head bs old w =
    if w == 0 then length bs else if leb w (length bs) then get_or bs (w - 1) 0 else old w

-- `n` entries of the header's block from word `w` on.
unfoldable pub get_entries : Block → ℕ → ℕ → List ℕ
get_entries blk w zero = []
get_entries blk w (suc n) = blk w ∷ get_entries blk (w + 1) n

-- `start` is `log.start`.
module _ (start : ℕ) where
  unfoldable pub read_head : Store → List ℕ
  unfolding get_entries
  read_head s = get_entries (s.cached start) 1 (s.cached start 0)

  unfoldable pub write_head : List ℕ → Store → Store
  unfolding put_head bwrite
  write_head bs s =
      bwrite start (record s { cached = put_block s.cached start (put_head bs (s.cached start)) })

  -- The loops, from index `tail` on.
  unfoldable pub write_log : List ℕ → ℕ → Store → Store
  unfolding bwrite copy_block
  write_log [] tail s = s
  write_log (b ∷ bs) tail s =
      write_log bs (tail + 1) (bwrite (start + tail + 1) (copy_block (start + tail + 1) b s))

  unfoldable pub install_trans : List ℕ → ℕ → Store → Store
  unfolding bwrite copy_block
  install_trans [] tail s = s
  install_trans (b ∷ bs) tail s =
      install_trans bs (tail + 1) (bwrite b (copy_block b (start + tail + 1) s))

  -- `commit` leaves an empty header.
  unfoldable pub commit : List ℕ → Store → Store
  unfolding write_head write_log install_trans
  commit bs s =
      if length bs == 0
      then s
      else write_head [] (install_trans bs 0 (write_head bs (write_log bs 0 s)))

  unfoldable pub recover_from_log : Store → Store
  unfolding read_head write_head install_trans
  recover_from_log s = write_head [] (install_trans (read_head s) 0 s)

  -- Power is back for `q` more writes: the buffers are empty, and `initlog` runs.
  unfoldable pub reboot : ℕ → (ℕ → Block) → ℕ → Block
  unfolding recover_from_log
  reboot q disk = (recover_from_log (record { disk = disk; cached = disk; power = q })).disk

abbrev pub log_size : ℕ
log_size = 30

-- The loop and the assignments of `log_write`: the block is noted once.
unfoldable pub absorb : ℕ → List ℕ → List ℕ
absorb b [] = b ∷ []
absorb b (x ∷ xs) = let rest = absorb b xs in if x == b then x ∷ xs else x ∷ rest

-- The header behind `log_write`; `size` is `log.size`.
unfoldable pub log_write : ℕ → ℕ → ℕ → List ℕ → Outcome (List ℕ)
unfolding absorb
log_write size outstanding b bs =
    if leb log_size (length bs) || leb_ℤ (pos size -ℤ pos 1) (pos (length bs))
    then panic
    else if ltb outstanding 1
    then panic
    else ok (absorb b bs)

abbrev pub max_op_blocks : ℕ
max_op_blocks = 10

-- The fields of `struct log` that the calls share. Each `end_op` ends a `begin_op`, so that
-- `outstanding` is never below 0.
pub record LogState : Type 0 where
  pub outstanding : ℕ
  pub committing : Bool
  pub lh : List ℕ

-- One look of `begin_op` at the log: `none` is a call that sleeps.
unfoldable pub begin_op : LogState → Option LogState
begin_op l =
    if l.committing
    then none
    else if ltb log_size (length l.lh + (l.outstanding + 1) * max_op_blocks)
    then none
    else some (record l { outstanding = l.outstanding + 1 })

-- `end_op` up to its first `release`; it commits if it leaves `committing` set.
unfoldable pub end_op : LogState → Outcome LogState
end_op l =
    if l.committing
    then panic
    else ok (record l { outstanding = l.outstanding - 1; committing = l.outstanding - 1 == 0 })

-- The rest of `end_op`, behind its `commit`.
unfoldable pub end_commit : LogState → LogState
end_commit l = record { outstanding = l.outstanding; committing = false; lh = [] }
