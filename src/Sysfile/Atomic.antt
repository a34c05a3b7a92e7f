-- ===== src/Sysfile/Atomic.antt =====
-- The calls of xv6/sysfile.c on paths and the commit of xv6/log.c together: a power failure leaves
-- none or all of a call.
use buffer_overflow_attack.Base.{List, if◌then◌else◌, leb, length, minus_one, ℕ, ℤ, ◌+◌, ◌<◌, ◌≡◌}
use buffer_overflow_attack.Kalloc.{Outcome, ok, panic, ◌>>=◌}
use buffer_overflow_attack.Str.{word_at}
use buffer_overflow_attack.Log.{commit, reboot}
use buffer_overflow_attack.Log.Moves.{Home, Homes}
use buffer_overflow_attack.Log.Crash.{crash_atomic, reboots}
use buffer_overflow_attack.Fs.{Super}
use buffer_overflow_attack.Fs.Covered.{Covered, Covered-refl, Ends-option, Ends-after}
use buffer_overflow_attack.Icache.Covered.{iput-Covered}
use buffer_overflow_attack.File.{Open, fdalloc, filealloc}
use buffer_overflow_attack.Sysfile.Open.{give_up_file, install, sys_open}
use buffer_overflow_attack.Inode.Atomic.{committing, Ends-ok, committing-IsOpen, words}
use buffer_overflow_attack.Icache.{Fs, iput}
use buffer_overflow_attack.Dir.{t_dir}
use buffer_overflow_attack.Sysfile.{chdir, link, make_node, open_inode, t_dev, unlink}
use buffer_overflow_attack.Sysfile.Walk.{Noted, then_Logged}
use buffer_overflow_attack.Sysfile.Covered.{link-Noted}
use buffer_overflow_attack.Sysfile.Removed.{
  unlink-Noted, chdir-Noted, make_node-Noted, open_inode-Noted,
}

-- The calls that run in one transaction of the log, with the texts and numbers that they are given.
pub data PathCall : Type 0 where
  path_open : List ℕ → ℕ → PathCall
  path_link : List ℕ → List ℕ → PathCall
  path_unlink : List ℕ → PathCall
  path_mkdir : List ℕ → PathCall
  path_mknod : List ℕ → ℕ → ℕ → PathCall
  path_chdir : List ℕ → PathCall

module _ (sb : Super) (outstanding : ℕ) where
  -- A call that leaves the descriptors and the files `o` alone.
  abbrev apart : {A : Type 0} → Open → Outcome (A × Fs) → Outcome (Open × Fs)
  apart o m = m >>= λ (a, fs). ok (o, fs)

  abbrev opening : Outcome (ℤ × Open × Fs) → Outcome (Open × Fs)
  opening m = m >>= λ (r, o, fs). ok (o, fs)

  -- The descriptors, the files and the file system behind a call, whatever its result. Its arguments are
  -- fetched.
  unfoldable pub transact : PathCall → ℕ → Open → Fs → Outcome (Open × Fs)
  unfolding sys_open link unlink make_node chdir
  transact (path_open path omode) cwd o fs = opening (sys_open sb outstanding path omode cwd o fs)
  transact (path_link old new) cwd o fs = apart o (link sb outstanding old new cwd fs)
  transact (path_unlink path) cwd o fs = apart o (unlink sb outstanding path cwd fs)
  transact (path_mkdir path) cwd o fs = apart o (make_node sb outstanding path t_dir 0 0 cwd fs)
  transact (path_mknod path major minor) cwd o fs =
      apart o (make_node sb outstanding path t_dev major minor cwd fs)
  transact (path_chdir path) cwd o fs = apart o (chdir sb outstanding path cwd fs)

  apart-Noted :
      {A : Type 0} (o : Open) (m : Outcome (A × Fs)) (fs : Fs)
      → Noted fs m (λ r. r.1)
      → Noted fs (apart o m) (λ r. r.1)
  apart-Noted o (ok r) fs h = h
  apart-Noted o panic fs h = tt

  opening-Noted :
      (m : Outcome (ℤ × Open × Fs)) (fs : Fs)
      → Noted fs m (λ r. r.2)
      → Noted fs (opening m) (λ r. r.1)
  opening-Noted (ok r) fs h = h
  opening-Noted panic fs h = tt

  -- The end of a call of `sys_open` that finds no room.
  refused-Noted :
      (i : ℕ) (o : Open) (fs : Fs)
      → Noted {A = ℤ × Open × Fs} fs
          (iput sb outstanding i fs >>= λ fs'. ok (minus_one, o, fs'))
          (λ r. r.2)
  refused-Noted i o fs =
      then_Logged (iput sb outstanding i fs) _ fs (λ r. r) (λ r. r.2)
        (iput-Covered sb outstanding i fs) λ fs'. Covered-refl fs'.disk

  install-Noted :
      (i f omode : ℕ) (o : Open) (fs : Fs)
      → Noted fs (install sb outstanding i f omode o fs) (λ r. r.2)
  unfolding install
  install-Noted i f omode o fs =
      Ends-option (fdalloc (f + 1) o.ofile) _ _ (λ r. Covered fs.disk r.2.disk)
        (Ends-after (give_up_file f o.files) _ (λ r. Covered fs.disk r.2.disk)
          λ files. refused-Noted i (record o { files = files }) fs)
        λ (fd, ofile). Covered-refl fs.disk

  sys_open-Noted :
      (path : List ℕ) (omode cwd : ℕ) (o : Open) (fs : Fs)
      → Noted fs (sys_open sb outstanding path omode cwd o fs) (λ r. r.2)
  unfolding sys_open
  sys_open-Noted path omode cwd o fs =
      then_Logged (open_inode sb outstanding path omode cwd fs) _ fs (λ r. r.1) (λ r. r.2)
        (open_inode-Noted sb outstanding path omode cwd fs)
        λ (opened, fs1).
          Ends-option opened _ _ (λ r. Covered fs1.disk r.2.disk) (Covered-refl fs1.disk)
            λ i.
              let files = (filealloc o.files).1 in
              Ends-option (filealloc o.files).0 _ _ (λ r. Covered fs1.disk r.2.disk)
                (refused-Noted i (record o { files = files }) fs1)
                λ f. install-Noted i f omode (record o { files = files }) fs1

  transact-Noted :
      (call : PathCall) (cwd : ℕ) (o : Open) (fs : Fs)
      → Noted fs (transact call cwd o fs) (λ r. r.1)
  unfolding transact
  transact-Noted (path_open path omode) cwd o fs =
      opening-Noted _ fs (sys_open-Noted path omode cwd o fs)
  transact-Noted (path_link old new) cwd o fs =
      apart-Noted o _ fs (link-Noted sb outstanding old new cwd fs)
  transact-Noted (path_unlink path) cwd o fs =
      apart-Noted o _ fs (unlink-Noted sb outstanding path cwd fs)
  transact-Noted (path_mkdir path) cwd o fs =
      apart-Noted o _ fs (make_node-Noted sb outstanding path t_dir 0 0 cwd fs)
  transact-Noted (path_mknod path major minor) cwd o fs =
      apart-Noted o _ fs (make_node-Noted sb outstanding path t_dev major minor cwd fs)
  transact-Noted (path_chdir path) cwd o fs =
      apart-Noted o _ fs (chdir-Noted sb outstanding path cwd fs)

-- A call on paths (open, link, unlink, mkdir, mknod or chdir) from its fetched arguments to its return,
-- the ways on which it fails included, with the log empty before it, and then the commit of the blocks
-- that the call noted, a power failure behind any number `power` of disk writes, any number of boots
-- that fail too, and a boot that does not. If the call does not panic, and if the blocks that it noted
-- lie outside of the log, are fewer than its blocks, and fewer than the disk writes of the last boot,
-- then each block outside of the log is as before the call, if the failure came before the header of
-- the log was written, and as the call left it otherwise.
pub transact_atomic :
    (sb : Super) (outstanding : ℕ) (call : PathCall) (cwd : ℕ) (o o' : Open) (fs fs' : Fs)
    (start size power : ℕ) (qs : List ℕ) (q x : ℕ)
    → transact sb outstanding call cwd o fs ≡ ok (o', fs')
    → Homes start size fs'.disk.noted
    → length fs'.disk.noted < size
    → word_at (fs.disk.blocks start) 0 ≡ 0
    → length fs'.disk.noted < q
    → Home start size x
    → reboot start q
        (reboots start qs (commit start fs'.disk.noted (committing fs.disk fs'.disk power)).disk)
        x
      ≡ (if leb power (length fs'.disk.noted)
          then words (fs.disk.blocks x)
          else words (fs'.disk.blocks x))
transact_atomic sb outstanding call cwd o o' fs fs' start size power qs q x run homes fits clear
      enough hx =
    let c =
      Ends-ok (transact sb outstanding call cwd o fs) (λ r. Covered fs.disk r.1.disk) (o', fs') run
        (transact-Noted sb outstanding call cwd o fs) in
    crash_atomic start size fs'.disk.noted (committing fs.disk fs'.disk power) qs q x
      (committing-IsOpen start size power fs.disk fs'.disk c homes fits clear) enough hx
