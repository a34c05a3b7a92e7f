-- ===== src/Sysfile/Open.antt =====
-- xv6/sysfile.c: `sys_open` behind its inode, and `sys_pipe`; xv6/pipe.c: `pipealloc`. A file that
-- `filealloc` gives has the type FD_NONE, which `fileclose` leaves behind, until these calls set it.
use buffer_overflow_attack.Base.{
  Bool, List, Option, [], false, if◌then◌else◌, minus_one, modify, none, not, pos, set, some, true,
  ℕ, ℤ, ◌%◌, ◌++◌, ◌+◌, ◌/◌, ◌==◌, ◌||◌, ◌∷◌,
}
use buffer_overflow_attack.Kalloc.{Kmem, kalloc, Outcome, ok, ◌>>=◌}
use buffer_overflow_attack.Fs.{Super}
use buffer_overflow_attack.Icache.{Fs, iput}
use buffer_overflow_attack.File.{File, filealloc, Open, drop_file, fd_inode, fd_pipe, fdalloc}
use buffer_overflow_attack.Sysfile.{open_inode}

-- O_WRONLY is the bit 1, and O_RDWR is the bit 2.
abbrev pub writes_only : ℕ → Bool
writes_only omode = omode % 2 == 1

abbrev pub as_inode : ℕ → ℕ → File → File
as_inode i omode f = record f {
  kind = fd_inode;
  ip = i;
  off = 0;
  readable = not (writes_only omode);
  writable = writes_only omode || omode / 2 % 2 == 1;
}

-- `fileclose` of a file that `filealloc` gave.
abbrev pub give_up_file : ℕ → List File → Outcome (List File)
give_up_file f files = drop_file f files >>= λ (files', closing). ok files'

module _ (sb : Super) (outstanding : ℕ) where
  -- With the inode in slot `i` and the file in slot `f`.
  unfoldable pub install : ℕ → ℕ → ℕ → Open → Fs → Outcome (ℤ × Open × Fs)
  unfolding fdalloc drop_file iput
  install i f omode o fs = elim (fdalloc (f + 1) o.ofile) [
    | none ↦ (do
      files ← give_up_file f o.files
      fs' ← iput sb outstanding i fs
      ok (minus_one, record o { files = files }, fs'))
    | some (fd, ofile) ↦
        ok (pos fd, record { ofile = ofile; files = modify o.files f (as_inode i omode) }, fs)
  ]

  unfoldable pub sys_open : List ℕ → ℕ → ℕ → Open → Fs → Outcome (ℤ × Open × Fs)
  unfolding open_inode filealloc install iput
  sys_open path omode cwd o fs = do
    (opened, fs1) ← open_inode sb outstanding path omode cwd fs
    elim opened [
      | none ↦ ok (minus_one, o, fs1)
      | some i ↦
          let (f, files) = filealloc o.files in
          elim f [
            | none ↦ (do
              fs2 ← iput sb outstanding i fs1
              ok (minus_one, record o { files = files }, fs2))
            | some f ↦ install i f omode (record o { files = files }) fs1
          ]
    ]

-- The two ends of the pipe in the page at `page`.
abbrev pub as_pipe : ℕ → Bool → File → File
as_pipe page for_writing f = record f {
  kind = fd_pipe;
  readable = not for_writing;
  writable = for_writing;
  pipe = page;
}

-- The files of the two ends, if there are two and a page.
unfoldable pub pipealloc : List File → Kmem → Outcome (Option (ℕ × ℕ) × List File × Kmem)
unfolding filealloc kalloc drop_file
pipealloc files k =
    let (f0, files1) = filealloc files in
    elim f0 [
      | none ↦ ok (none, files1, k)
      | some r ↦
          let (f1, files2) = filealloc files1 in
          elim f1 [
            | none ↦ (do files3 ← give_up_file r files2; ok (none, files3, k))
            | some w ↦
                let (page, k') = kalloc k in
                if page == 0
                then (do
                  files3 ← give_up_file r files2
                  files4 ← give_up_file w files3
                  ok (none, files4, k'))
                else ok (
                  some (r, w),
                  modify (modify files2 r (as_pipe page false)) w (as_pipe page true),
                  k',
                )
          ]
    ]

-- The descriptors of the two ends; without room for them, the ends that `pipeclose` takes.
unfoldable pub pipe_fds : ℕ → ℕ → Open → Outcome (Option (ℕ × ℕ) × List File × Open)
unfolding fdalloc drop_file
pipe_fds r w o = elim (fdalloc (r + 1) o.ofile) [
  | none ↦ (do
    (files1, c0) ← drop_file r o.files
    (files2, c1) ← drop_file w files1
    ok (none, closed c0 ++ closed c1, record o { files = files2 }))
  | some (fd0, ofile0) ↦ elim (fdalloc (w + 1) ofile0) [
    | none ↦ (do
      (files1, c0) ← drop_file r o.files
      (files2, c1) ← drop_file w files1
      ok (none, closed c0 ++ closed c1, record { ofile = set ofile0 fd0 0; files = files2 }))
    | some (fd1, ofile1) ↦ ok (some (fd0, fd1), [], record o { ofile = ofile1 })
  ]
]
  where
    closed : Option File → List File
    closed none = []
    closed (some f) = f ∷ []
