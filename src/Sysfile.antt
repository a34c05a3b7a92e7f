-- ===== src/Sysfile.antt =====
-- xv6/sysfile.c: the calls on paths. Each takes its paths as texts, which `argstr` has fetched, and what
-- it does between `begin_op` and `end_op` is a function of its own. `cwd` is the slot of the current
-- directory.
pub mod Walk
pub mod Covered
pub mod Removed
pub mod Atomic
pub mod Open
use buffer_overflow_attack.Base.{
  Bool, List, Option, [], false, get_elem?, if◌then◌else◌, leb, ltb, modify, none, not, replicate,
  some, suc, true, zero, ℕ, ◌%◌, ◌&&◌, ◌*◌, ◌+◌, ◌/◌, ◌==◌, ◌||◌, ◌∷◌,
}
use buffer_overflow_attack.Kalloc.{Outcome, ok, panic, ◌>>=◌}
use buffer_overflow_attack.Fs.{Super, Disk}
use buffer_overflow_attack.Inode.{Inode, iupdate, ialloc}
use buffer_overflow_attack.Inode.Content.{writei}
use buffer_overflow_attack.Icache.{Fs, iget, ilock, iput}
use buffer_overflow_attack.Path.{name_size}
use buffer_overflow_attack.Dir.{
  kind_of, t_dir, dirent_size, dirlink, dirlookup, entry_inum, lookup_in, namei, nameiparent,
  read_entry, same_name,
}

abbrev pub t_file : ℕ
t_file = 2

abbrev pub t_dev : ℕ
t_dev = 3

-- `namei` and `nameiparent` end (Dir.Walk), so that the first case is not reached.
abbrev pub settle : {A : Type 0} → Option (Outcome A) → Outcome A
settle none = panic
settle (some r) = r

-- A store to the fields of the inode in slot `i`.
abbrev pub change : ℕ → (Inode → Inode) → Fs → Fs
change i f fs = record fs { icache = modify fs.icache i (λ e. record e { ip = f e.ip }) }

-- `nlink` is a `short`, which wraps.
abbrev pub more_links : Inode → Inode
more_links ip = record ip { nlink = (ip.nlink + 1) % 65536 }

abbrev pub fewer_links : Inode → Inode
fewer_links ip = record ip { nlink = (ip.nlink + 65535) % 65536 }

abbrev pub no_links : Inode → Bool
no_links ip = ip.nlink == 0 || leb 32768 ip.nlink

abbrev pub inum_at : ℕ → Fs → ℕ
inum_at i fs = elim (get_elem? fs.icache i) [ none ↦ 0 | some e ↦ e.inum ]

module _ (sb : Super) (outstanding : ℕ) where
  -- `iupdate` of the inode in slot `i`.
  unfoldable pub store : ℕ → Fs → Outcome Fs
  unfolding iupdate
  store i fs = elim (get_elem? fs.icache i) [
    | none ↦ panic
    | some e ↦ (do s ← iupdate sb outstanding e.ip fs.disk; ok (record fs { disk = s }))
  ]

  -- The entries "." and "..", and the link of the latter.
  unfoldable pub make_dots : ℕ → ℕ → Fs → Outcome Fs
  unfolding store dirlink
  make_dots dp i fs = do
    fs1 ← store dp (change dp more_links fs)
    (dot, fs2) ← dirlink sb outstanding (b'.' ∷ []) (inum_at i fs1) i fs1
    if dot
        then (do
          (dots, fs3) ← dirlink sb outstanding (b'.' ∷ b'.' ∷ []) (inum_at dp fs2) i fs2
          if dots then ok fs3 else panic)
        else panic

  -- `create` where the name is there already, in slot `i`.
  unfoldable pub existing : ℕ → ℕ → ℕ → Fs → Outcome (Option ℕ × Fs)
  unfolding iput ilock
  existing kind dp i fs = do
    fs1 ← iput sb outstanding dp fs
    fs2 ← ilock sb outstanding i fs1
    if kind == t_file && kind_of sb outstanding i fs2 == t_file
        then ok (some i, fs2)
        else (do fs3 ← iput sb outstanding i fs2; ok (none, fs3))

  -- The inode that `ialloc` takes, with its fields set and stored.
  unfoldable pub fresh_inode : ℕ → ℕ → ℕ → Fs → Outcome (ℕ × Fs)
  unfolding ialloc iget ilock store
  fresh_inode kind major minor fs = do
    (inum, s1) ← ialloc sb outstanding kind fs.disk
    (i, icache) ← iget inum fs.icache
    fs1 ← ilock sb outstanding i (record { disk = s1; icache = icache })
    fs2 ← store i (change i (λ ip. record ip { major = major; minor = minor; nlink = 1 }) fs1)
    ok (i, fs2)

  -- The rest of `create`.
  unfoldable pub enter : ℕ → List ℕ → ℕ → ℕ → Fs → Outcome (Option ℕ × Fs)
  unfolding make_dots dirlink iput
  enter kind name dp i fs = do
    fs1 ← (if kind == t_dir then make_dots dp i fs else ok fs)
    (linked, fs2) ← dirlink sb outstanding name (inum_at i fs1) dp fs1
    if linked then (do fs3 ← iput sb outstanding dp fs2; ok (some i, fs3)) else panic

  unfoldable pub create : List ℕ → ℕ → ℕ → ℕ → ℕ → Fs → Outcome (Option ℕ × Fs)
  unfolding nameiparent lookup_in existing fresh_inode enter ilock
  create path kind major minor cwd fs = do
    (parent, name, fs1) ← settle (nameiparent sb outstanding path cwd fs)
    elim parent [
      | none ↦ ok (none, fs1)
      | some dp ↦ (do
        fs2 ← ilock sb outstanding dp fs1
        (found, fs3) ← lookup_in sb outstanding name dp fs2
        elim found [
          | some i ↦ existing kind dp i fs3
          | none ↦ (do (i, fs4) ← fresh_inode kind major minor fs3; enter kind name dp i fs4)
        ])
    ]

  -- The `bad` part of `sys_link`. The results are whether it is 0.
  unfoldable pub unlink_again : ℕ → Fs → Outcome (Bool × Fs)
  unfolding ilock store iput
  unlink_again i fs = do
    fs1 ← ilock sb outstanding i fs
    fs2 ← store i (change i fewer_links fs1)
    fs3 ← iput sb outstanding i fs2
    ok (false, fs3)

  -- `sys_link` with the old inode in slot `i`, its link being counted. There is one device.
  unfoldable pub link_at : List ℕ → ℕ → ℕ → Fs → Outcome (Bool × Fs)
  unfolding nameiparent ilock dirlink iput unlink_again
  link_at new cwd i fs = do
    (parent, name, fs1) ← settle (nameiparent sb outstanding new cwd fs)
    elim parent [
      | none ↦ unlink_again i fs1
      | some dp ↦ (do
        fs2 ← ilock sb outstanding dp fs1
        (linked, fs3) ← dirlink sb outstanding name (inum_at i fs2) dp fs2
        fs4 ← iput sb outstanding dp fs3
        if linked then (do fs5 ← iput sb outstanding i fs4; ok (true, fs5)) else unlink_again i fs4)
    ]

  unfoldable pub link : List ℕ → List ℕ → ℕ → Fs → Outcome (Bool × Fs)
  unfolding namei ilock iput store link_at
  link old new cwd fs = do
    (found, name, fs1) ← settle (namei sb outstanding old cwd fs)
    elim found [
      | none ↦ ok (false, fs1)
      | some i ↦ (do
        fs2 ← ilock sb outstanding i fs1
        if kind_of sb outstanding i fs2 == t_dir
            then (do fs3 ← iput sb outstanding i fs2; ok (false, fs3))
            else (do fs3 ← store i (change i more_links fs2); link_at new cwd i fs3))
    ]

  -- The loop of `isdirempty` over `rounds` more entries.
  unfoldable pub empty_behind : ℕ → ℕ → Inode → Disk → Outcome (Bool × Inode × Disk)
  unfolding read_entry
  empty_behind zero off dp s = ok (true, dp, s)
  empty_behind (suc rounds) off dp s =
      if ltb off dp.size
      then (do
        (de, dp', s') ← read_entry sb outstanding off dp s
        if not (entry_inum de == 0)
            then ok (false, dp', s')
            else empty_behind rounds (off + dirent_size) dp' s')
      else ok (true, dp, s)

  unfoldable pub isdirempty : ℕ → Fs → Outcome (Bool × Fs)
  unfolding empty_behind
  isdirempty i fs = elim (get_elem? fs.icache i) [
    | none ↦ panic
    | some e ↦ (do
      (empty, ip, s) ← empty_behind (e.ip.size / dirent_size + 2) (2 * dirent_size) e.ip fs.disk
      ok (empty, record (change i (λ old. ip) fs) { disk = s }))
  ]

  -- The entry at `off` of the directory in slot `dp` is overwritten by zeros.
  unfoldable pub clear_entry : ℕ → ℕ → Fs → Outcome Fs
  unfolding writei
  clear_entry dp off fs = elim (get_elem? fs.icache dp) [
    | none ↦ panic
    | some e ↦ (do
      (whole, ip, s) ← writei sb outstanding off (replicate dirent_size 0) e.ip fs.disk
      if whole then ok (record (change dp (λ old. ip) fs) { disk = s }) else panic)
  ]

  -- `sys_unlink` of the inode in slot `i`, whose entry stands at `off`.
  unfoldable pub remove : ℕ → ℕ → ℕ → Fs → Outcome (Bool × Fs)
  unfolding clear_entry store iput
  remove dp i off fs = do
    fs1 ← clear_entry dp off fs
    fs2 ←
        (if kind_of sb outstanding i fs1 == t_dir
          then store dp (change dp fewer_links fs1)
          else ok fs1)
    fs3 ← iput sb outstanding dp fs2
    fs4 ← store i (change i fewer_links fs3)
    fs5 ← iput sb outstanding i fs4
    ok (true, fs5)

  -- Whether the inode in slot `i` is a directory with entries.
  unfoldable pub is_full_directory : ℕ → Fs → Outcome (Bool × Fs)
  unfolding isdirempty
  is_full_directory i fs =
      if kind_of sb outstanding i fs == t_dir
      then (do (empty, fs1) ← isdirempty i fs; ok (not empty, fs1))
      else ok (false, fs)

  unfoldable pub unlink_found : ℕ → ℕ → ℕ → Fs → Outcome (Bool × Fs)
  unfolding ilock is_full_directory remove iput
  unlink_found dp i off fs = do
    fs1 ← ilock sb outstanding i fs
    elim (get_elem? fs1.icache i) [
      | none ↦ panic
      | some e ↦ if no_links e.ip then panic else (do
        (full, fs2) ← is_full_directory i fs1
        if full
            then (do
              fs3 ← iput sb outstanding i fs2
              fs4 ← iput sb outstanding dp fs3
              ok (false, fs4))
            else remove dp i off fs2)
    ]

  -- Whether `namecmp` finds the name "." or "..".
  abbrev pub is_dots : List ℕ → Bool
  is_dots name = same_name name_size name (b'.' ∷ []) || same_name name_size name (b'.' ∷ b'.' ∷ [])

  unfoldable pub unlink : List ℕ → ℕ → Fs → Outcome (Bool × Fs)
  unfolding nameiparent ilock dirlookup unlink_found iput
  unlink path cwd fs = do
    (parent, name, fs1) ← settle (nameiparent sb outstanding path cwd fs)
    elim parent [
      | none ↦ ok (false, fs1)
      | some dp ↦ (do
        fs2 ← ilock sb outstanding dp fs1
        if is_dots name then (do fs3 ← iput sb outstanding dp fs2; ok (false, fs3)) else (do
          (found, fs3) ← dirlookup sb outstanding name dp fs2
          elim found [
            | none ↦ (do fs4 ← iput sb outstanding dp fs3; ok (false, fs4))
            | some (i, off) ↦ unlink_found dp i off fs3
          ]))
    ]

  -- `sys_mkdir` and `sys_mknod`.
  unfoldable pub make_node : List ℕ → ℕ → ℕ → ℕ → ℕ → Fs → Outcome (Bool × Fs)
  unfolding create iput
  make_node path kind major minor cwd fs = do
    (made, fs1) ← create path kind major minor cwd fs
    elim made [
      | none ↦ ok (false, fs1)
      | some i ↦ (do fs2 ← iput sb outstanding i fs1; ok (true, fs2))
    ]

  -- `sys_chdir`, with the new current directory.
  unfoldable pub chdir : List ℕ → ℕ → Fs → Outcome (Option ℕ × Fs)
  unfolding namei ilock iput
  chdir path cwd fs = do
    (found, name, fs1) ← settle (namei sb outstanding path cwd fs)
    elim found [
      | none ↦ ok (none, fs1)
      | some i ↦ (do
        fs2 ← ilock sb outstanding i fs1
        if kind_of sb outstanding i fs2 == t_dir
            then (do fs3 ← iput sb outstanding cwd fs2; ok (some i, fs3))
            else (do fs3 ← iput sb outstanding i fs2; ok (none, fs3)))
    ]

  -- The inode of `sys_open`. O_CREATE is the bit 0x200, and O_RDONLY is 0.
  unfoldable pub open_inode : List ℕ → ℕ → ℕ → Fs → Outcome (Option ℕ × Fs)
  unfolding create namei ilock iput
  open_inode path omode cwd fs =
      if omode / 0x200 % 2 == 1 then create path t_file 0 0 cwd fs else (do
        (found, name, fs1) ← settle (namei sb outstanding path cwd fs)
        elim found [
          | none ↦ ok (none, fs1)
          | some i ↦ (do
            fs2 ← ilock sb outstanding i fs1
            if kind_of sb outstanding i fs2 == t_dir && not (omode == 0)
                then (do fs3 ← iput sb outstanding i fs2; ok (none, fs3))
                else ok (some i, fs2))
        ])
