-- ===== src/File/Io.antt =====
-- xv6/file.c: what a file is read from and written to, and its close.
use buffer_overflow_attack.Base.{
  Bool, List, Option, [], drop, false, get_elem?, if◌then◌else◌, length, minus_one, modify, none,
  not, pos, set, some, suc, take, true, word_of_int, zero, ℕ, ℤ, ◌%◌, ◌+◌, ◌==◌, ◌^◌, ◌∷◌,
}
use buffer_overflow_attack.Kalloc.{Outcome, ok, panic, ◌>>=◌}
use buffer_overflow_attack.Pipe.{Pipe, Stop, asleep, pipeclose, piperead, pipewrite, returned}
use buffer_overflow_attack.Syscall.{User, argint, argptr}
use buffer_overflow_attack.Fs.{Super, Disk}
use buffer_overflow_attack.Inode.{Inode}
use buffer_overflow_attack.Inode.Content.{readi, writei, slice}
use buffer_overflow_attack.Icache.{Fs, ilock, iput}
use buffer_overflow_attack.File.{File, drop_file, fd_inode, fd_none, fd_pipe, argfd}

-- The file table with all that its files stand for, and the pages of pipes that went to `kfree`.
pub record Sys : Type 0 where
  pub fs : Fs
  pub files : List File
  pub pipes : ℕ → Pipe
  pub freed : List ℕ

abbrev pub put_pipe : (ℕ → Pipe) → ℕ → Pipe → ℕ → Pipe
put_pipe pipes a p x = if x == a then p else pipes x

-- How a call on a file ends. A call on a pipe can sleep, with the count of bytes that are done.
pub data Ending : Type 0 where
  result : ℤ → Ending
  sleeps : ℕ → Ending

abbrev pub ending : Stop → Ending
ending (returned r) = result r
ending (asleep n) = sleeps n

-- The inode in slot `i`, and the cache behind a call on it.
abbrev pub inode_at : ℕ → Fs → Option Inode
inode_at i fs = elim (get_elem? fs.icache i) [ none ↦ none | some e ↦ some e.ip ]

abbrev pub put_back : ℕ → Inode → Disk → Fs → Fs
put_back i ip s fs = record { disk = s; icache = modify fs.icache i (λ e. record e { ip = ip }) }

-- `f->off += r`
abbrev pub advance_file : ℕ → ℕ → List File → List File
advance_file i r files = modify files i (λ f. record f { off = (f.off + r) % 2 ^ 32 })

-- `outstanding` counts the calls under way, this one included. `killed` is `myproc()->killed`.
module _ (sb : Super) (outstanding : ℕ) (killed : Bool) where
  -- `end_op`: the last call under way commits, which empties the list of the log.
  abbrev pub finish : Fs → Fs
  finish fs = record fs {
    disk = record (fs.disk) { noted = if outstanding == 1 then [] else fs.disk.noted };
  }

  -- `fileclose` behind the lock.
  unfoldable pub close_last : File → Sys → Outcome Sys
  unfolding pipeclose iput
  close_last f sys = elim f.kind [
    | fd_none ↦ ok sys
    | fd_pipe ↦
        let (p, woken, is_freed) = pipeclose (sys.pipes f.pipe) f.writable in
        ok (record sys {
          pipes = put_pipe sys.pipes f.pipe p;
          freed = if is_freed then f.pipe ∷ sys.freed else sys.freed;
        })
    | fd_inode ↦ (do fs ← iput sb outstanding f.ip sys.fs; ok (record sys { fs = finish fs }))
  ]

  unfoldable pub fileclose : ℕ → Sys → Outcome Sys
  unfolding drop_file close_last
  fileclose i sys = do
    (files, closing) ← drop_file i sys.files
    let sys' = record sys { files = files }
    elim closing [ none ↦ ok sys' | some f ↦ close_last f sys' ]

  -- `fileread` of an inode.
  unfoldable pub read_inode : ℕ → File → ℕ → Sys → Outcome (Ending × List ℕ × Sys)
  unfolding ilock readi
  read_inode i f n sys = do
    fs ← ilock sb outstanding f.ip sys.fs
    elim (inode_at f.ip fs) [
      | none ↦ panic
      | some ip ↦ (do
        (got, ip', s) ← readi sb outstanding f.off n ip fs.disk
        let fs' = put_back f.ip ip' s fs
        elim got [
          | none ↦ ok (result minus_one, [], record sys { fs = fs' })
          | some bytes ↦ ok (
            result (pos (length bytes)),
            bytes,
            record sys { fs = fs'; files = advance_file i (length bytes) sys.files },
          )
        ])
    ]

  -- With the bytes that go to `addr`.
  unfoldable pub fileread : ℕ → ℕ → Sys → Outcome (Ending × List ℕ × Sys)
  unfolding read_inode piperead
  fileread i n sys = elim (get_elem? sys.files i) [
    | none ↦ panic
    | some f ↦ if not f.readable then ok (result minus_one, [], sys) else elim f.kind [
      | fd_none ↦ panic
      | fd_pipe ↦
          let (stop, bytes, p, woken) = piperead killed n (sys.pipes f.pipe) in
          ok (ending stop, bytes, record sys { pipes = put_pipe sys.pipes f.pipe p })
      | fd_inode ↦ read_inode i f n sys
    ]
  ]

  -- `((MAXOPBLOCKS-1-1-2) / 2) * 512`
  abbrev pub max_write : ℕ
  max_write = 1536

  -- One round of the loop of `filewrite`: a transaction. `false` is the result -1 of `writei`.
  unfoldable pub write_op : ℕ → List ℕ → Sys → Outcome (Bool × Sys)
  unfolding ilock writei
  write_op i src sys = elim (get_elem? sys.files i) [
    | none ↦ panic
    | some f ↦ (do
      fs ← ilock sb outstanding f.ip sys.fs
      elim (inode_at f.ip fs) [
        | none ↦ panic
        | some ip ↦ (do
          (whole, ip', s) ← writei sb outstanding f.off src ip fs.disk
          ok (
            whole,
            record sys {
              fs = finish (put_back f.ip ip' s fs);
              files = if whole then advance_file i (length src) sys.files else sys.files;
            },
          ))
      ])
  ]

  -- The loop of `filewrite`, over the bytes that are left; whether all are written. A round writes at
  -- least one byte, so that as many rounds as bytes are enough.
  unfoldable pub write_ops : ℕ → ℕ → List ℕ → Sys → Outcome (Bool × Sys)
  unfolding write_op
  write_ops zero i src sys = ok (true, sys)
  write_ops (suc rounds) i src sys = if length src == 0 then ok (true, sys) else (do
    (whole, sys') ← write_op i (take max_write src) sys
    if whole then write_ops rounds i (drop max_write src) sys' else ok (false, sys'))

  unfoldable pub filewrite : ℕ → List ℕ → Sys → Outcome (Ending × Sys)
  unfolding write_ops pipewrite
  filewrite i src sys = elim (get_elem? sys.files i) [
    | none ↦ panic
    | some f ↦ if not f.writable then ok (result minus_one, sys) else elim f.kind [
      | fd_none ↦ panic
      | fd_pipe ↦
          let (stop, p, woken) = pipewrite killed src (sys.pipes f.pipe) in
          ok (ending stop, record sys { pipes = put_pipe sys.pipes f.pipe p })
      | fd_inode ↦ (do
        (whole, sys') ← write_ops (length src) i src sys
        ok (if whole then result (pos (length src)) else result minus_one, sys'))
    ]
  ]

  -- The calls, with the descriptors of the process. The result -1 of `argfd` and the others is the same.
  unfoldable pub sys_close : User → List ℕ → Sys → Outcome (ℤ × List ℕ × Sys)
  unfolding argfd fileclose
  sys_close u ofile sys = elim (argfd u 0 ofile) [
    | none ↦ ok (minus_one, ofile, sys)
    | some (fd, i) ↦ (do sys' ← fileclose i sys; ok (pos 0, set ofile fd 0, sys'))
  ]

  -- The arguments of `read` and `write`: the file, the address and the count, which `argptr` takes only
  -- if it is not negative.
  unfoldable pub io_args : User → List ℕ → Option (ℕ × ℕ × ℕ)
  unfolding argfd argint argptr
  io_args u ofile = elim (argfd u 0 ofile) [
    | none ↦ none
    | some (fd, i) ↦ elim (argint u 2) [
      | none ↦ none
      | some n ↦ elim (argptr u 1 n) [ none ↦ none | some a ↦ some (i, a, word_of_int n) ]
    ]
  ]

  -- The bytes that `sys_read` stores go to the address of its argument.
  unfoldable pub sys_read : User → List ℕ → Sys → Outcome (Ending × Option (ℕ × List ℕ) × Sys)
  unfolding io_args fileread
  sys_read u ofile sys = elim (io_args u ofile) [
    | none ↦ ok (result minus_one, none, sys)
    | some (i, a, n) ↦ (do (end, bytes, sys') ← fileread i n sys; ok (end, some (a, bytes), sys'))
  ]

  unfoldable pub sys_write : User → List ℕ → Sys → Outcome (Ending × Sys)
  unfolding io_args filewrite slice
  sys_write u ofile sys = elim (io_args u ofile) [
    | none ↦ ok (result minus_one, sys)
    | some (i, a, n) ↦ filewrite i (slice u.mem a n) sys
  ]
