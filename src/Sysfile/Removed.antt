-- ===== src/Sysfile/Removed.antt =====
-- Every change of `sys_unlink`, `sys_mknod`, `sys_chdir` and `sys_open` to the disk goes through the log.
use buffer_overflow_attack.Base.{
  List, false, get_elem?, if◌then◌else◌, ltb, none, not, replicate, some, suc, true, zero, ℕ, ◌%◌,
  ◌&&◌, ◌*◌, ◌+◌, ◌/◌, ◌==◌,
}
use buffer_overflow_attack.Kalloc.{ok, panic}
use buffer_overflow_attack.Fs.{Super, Disk}
use buffer_overflow_attack.Fs.Covered.{
  Covered, Covered-refl, Ends, Ends-if, Ends-option, then_Covered,
}
use buffer_overflow_attack.Inode.{Inode}
use buffer_overflow_attack.Inode.Content.{writei}
use buffer_overflow_attack.Inode.Covered.{writei-Covered}
use buffer_overflow_attack.Icache.{Fs, ilock, iput}
use buffer_overflow_attack.Icache.Covered.{iput-Covered, ilock-Covered}
use buffer_overflow_attack.Dir.{
  dirlookup, dirent_size, entry_inum, kind_of, namei, nameiparent, read_entry, t_dir,
}
use buffer_overflow_attack.Dir.Covered.{dirlookup-Covered, read_entry-Covered}
use buffer_overflow_attack.Sysfile.{
  settle, change, chdir, clear_entry, create, empty_behind, fewer_links, is_dots, is_full_directory,
  isdirempty, make_node, no_links, open_inode, remove, store, t_file, unlink, unlink_found,
}
use buffer_overflow_attack.Sysfile.Walk.{Noted, namei-Noted, nameiparent-Noted, then_Logged}
use buffer_overflow_attack.Sysfile.Covered.{create-Noted, finished-Noted, store-Noted}

module _ (sb : Super) (outstanding : ℕ) where
  empty_behind-Covered :
      (rounds off : ℕ) (dp : Inode) (s : Disk)
      → Ends (empty_behind sb outstanding rounds off dp s) (λ r. Covered s r.2)
  unfolding empty_behind
  empty_behind-Covered zero off dp s = Covered-refl s
  empty_behind-Covered (suc rounds) off dp s =
      Ends-if (ltb off dp.size) _ _ (λ r. Covered s r.2)
        (then_Covered (read_entry sb outstanding off dp s) _ s (λ r. r.2) (λ r. r.2)
          (read_entry-Covered sb outstanding off dp s)
          λ (de, dp1, s1).
            Ends-if (not (entry_inum de == 0)) _ _ (λ r. Covered s1 r.2) (Covered-refl s1)
              (empty_behind-Covered rounds (off + dirent_size) dp1 s1))
        (Covered-refl s)

  isdirempty-Noted : (i : ℕ) (fs : Fs) → Noted fs (isdirempty sb outstanding i fs) (λ r. r.1)
  unfolding isdirempty
  isdirempty-Noted i fs =
      Ends-option (get_elem? fs.icache i) panic _ (λ r. Covered fs.disk r.1.disk) tt
        λ e.
          then_Covered
            (empty_behind sb outstanding (e.ip.size / dirent_size + 2) (2 * dirent_size) e.ip
              fs.disk)
            _ fs.disk (λ r. r.2) (λ r. r.1.disk)
            (empty_behind-Covered (e.ip.size / dirent_size + 2) (2 * dirent_size) e.ip fs.disk)
            λ (empty, ip, s). Covered-refl s

  clear_entry-Noted :
      (dp off : ℕ) (fs : Fs) → Noted fs (clear_entry sb outstanding dp off fs) (λ r. r)
  unfolding clear_entry
  clear_entry-Noted dp off fs =
      Ends-option (get_elem? fs.icache dp) panic _ (λ r. Covered fs.disk r.disk) tt
        λ e.
          then_Covered (writei sb outstanding off (replicate dirent_size 0) e.ip fs.disk) _ fs.disk
            (λ r. r.2) (λ r. r.disk)
            (writei-Covered sb outstanding off (replicate dirent_size 0) e.ip fs.disk)
            λ (whole, ip, s). Ends-if whole _ panic (λ r. Covered s r.disk) (Covered-refl s) tt

  remove-Noted : (dp i off : ℕ) (fs : Fs) → Noted fs (remove sb outstanding dp i off fs) (λ r. r.1)
  unfolding remove
  remove-Noted dp i off fs =
      then_Logged (clear_entry sb outstanding dp off fs) _ fs (λ r. r) (λ r. r.1)
        (clear_entry-Noted dp off fs)
        λ fs1.
          then_Logged
            (if kind_of sb outstanding i fs1 == t_dir
              then store sb outstanding dp (change dp fewer_links fs1)
              else ok fs1)
            _ fs1 (λ r. r) (λ r. r.1)
            (Ends-if (kind_of sb outstanding i fs1 == t_dir) _ _ (λ r. Covered fs1.disk r.disk)
              (store-Noted sb outstanding dp (change dp fewer_links fs1)) (Covered-refl fs1.disk))
            λ fs2.
              then_Logged (iput sb outstanding dp fs2) _ fs2 (λ r. r) (λ r. r.1)
                (iput-Covered sb outstanding dp fs2)
                λ fs3.
                  then_Logged (store sb outstanding i (change i fewer_links fs3)) _ fs3 (λ r. r)
                    (λ r. r.1) (store-Noted sb outstanding i (change i fewer_links fs3))
                    λ fs4. finished-Noted sb outstanding i true fs4

  is_full_directory-Noted :
      (i : ℕ) (fs : Fs) → Noted fs (is_full_directory sb outstanding i fs) (λ r. r.1)
  unfolding is_full_directory
  is_full_directory-Noted i fs =
      Ends-if (kind_of sb outstanding i fs == t_dir) _ _ (λ r. Covered fs.disk r.1.disk)
        (then_Logged (isdirempty sb outstanding i fs) _ fs (λ r. r.1) (λ r. r.1)
          (isdirempty-Noted i fs) λ (empty, fs1). Covered-refl fs1.disk)
        (Covered-refl fs.disk)

  unlink_found-Noted :
      (dp i off : ℕ) (fs : Fs) → Noted fs (unlink_found sb outstanding dp i off fs) (λ r. r.1)
  unfolding unlink_found
  unlink_found-Noted dp i off fs =
      then_Logged (ilock sb outstanding i fs) _ fs (λ r. r) (λ r. r.1)
        (ilock-Covered sb outstanding i fs)
        λ fs1.
          Ends-option (get_elem? fs1.icache i) panic _ (λ r. Covered fs1.disk r.1.disk) tt
            λ e.
              Ends-if (no_links e.ip) panic _ (λ r. Covered fs1.disk r.1.disk) tt
                (then_Logged (is_full_directory sb outstanding i fs1) _ fs1 (λ r. r.1) (λ r. r.1)
                  (is_full_directory-Noted i fs1)
                  λ (full, fs2).
                    Ends-if full _ _ (λ r. Covered fs2.disk r.1.disk)
                      (then_Logged (iput sb outstanding i fs2) _ fs2 (λ r. r) (λ r. r.1)
                        (iput-Covered sb outstanding i fs2)
                        λ fs3. finished-Noted sb outstanding dp false fs3)
                      (remove-Noted dp i off fs2))

  pub unlink-Noted :
      (path : List ℕ) (cwd : ℕ) (fs : Fs) → Noted fs (unlink sb outstanding path cwd fs) (λ r. r.1)
  unfolding unlink
  unlink-Noted path cwd fs =
      then_Logged (settle (nameiparent sb outstanding path cwd fs)) _ fs (λ r. r.2) (λ r. r.1)
        (nameiparent-Noted sb outstanding path cwd fs)
        λ (parent, name, fs1).
          Ends-option parent _ _ (λ r. Covered fs1.disk r.1.disk) (Covered-refl fs1.disk)
            λ dp.
              then_Logged (ilock sb outstanding dp fs1) _ fs1 (λ r. r) (λ r. r.1)
                (ilock-Covered sb outstanding dp fs1)
                λ fs2.
                  Ends-if (is_dots sb outstanding name) _ _ (λ r. Covered fs2.disk r.1.disk)
                    (finished-Noted sb outstanding dp false fs2)
                    (then_Logged (dirlookup sb outstanding name dp fs2) _ fs2 (λ r. r.1) (λ r. r.1)
                      (dirlookup-Covered sb outstanding name dp fs2)
                      λ (found, fs3).
                        Ends-option found _ _ (λ r. Covered fs3.disk r.1.disk)
                          (finished-Noted sb outstanding dp false fs3)
                          λ (i, off). unlink_found-Noted dp i off fs3)

  pub make_node-Noted :
      (path : List ℕ) (kind major minor cwd : ℕ) (fs : Fs)
      → Noted fs (make_node sb outstanding path kind major minor cwd fs) (λ r. r.1)
  unfolding make_node
  make_node-Noted path kind major minor cwd fs =
      then_Logged (create sb outstanding path kind major minor cwd fs) _ fs (λ r. r.1) (λ r. r.1)
        (create-Noted sb outstanding path kind major minor cwd fs)
        λ (made, fs1).
          Ends-option made _ _ (λ r. Covered fs1.disk r.1.disk) (Covered-refl fs1.disk)
            λ i. finished-Noted sb outstanding i true fs1

  pub chdir-Noted :
      (path : List ℕ) (cwd : ℕ) (fs : Fs) → Noted fs (chdir sb outstanding path cwd fs) (λ r. r.1)
  unfolding chdir
  chdir-Noted path cwd fs =
      then_Logged (settle (namei sb outstanding path cwd fs)) _ fs (λ r. r.2) (λ r. r.1)
        (namei-Noted sb outstanding path cwd fs)
        λ (found, name, fs1).
          Ends-option found _ _ (λ r. Covered fs1.disk r.1.disk) (Covered-refl fs1.disk)
            λ i.
              then_Logged (ilock sb outstanding i fs1) _ fs1 (λ r. r) (λ r. r.1)
                (ilock-Covered sb outstanding i fs1)
                λ fs2.
                  Ends-if (kind_of sb outstanding i fs2 == t_dir) _ _
                    (λ r. Covered fs2.disk r.1.disk)
                    (finished-Noted sb outstanding cwd (some i) fs2)
                    (finished-Noted sb outstanding i none fs2)

  pub open_inode-Noted :
      (path : List ℕ) (omode cwd : ℕ) (fs : Fs)
      → Noted fs (open_inode sb outstanding path omode cwd fs) (λ r. r.1)
  unfolding open_inode
  open_inode-Noted path omode cwd fs =
      Ends-if (omode / 0x200 % 2 == 1) _ _ (λ r. Covered fs.disk r.1.disk)
        (create-Noted sb outstanding path t_file 0 0 cwd fs)
        (then_Logged (settle (namei sb outstanding path cwd fs)) _ fs (λ r. r.2) (λ r. r.1)
          (namei-Noted sb outstanding path cwd fs)
          λ (found, name, fs1).
            Ends-option found _ _ (λ r. Covered fs1.disk r.1.disk) (Covered-refl fs1.disk)
              λ i.
                then_Logged (ilock sb outstanding i fs1) _ fs1 (λ r. r) (λ r. r.1)
                  (ilock-Covered sb outstanding i fs1)
                  λ fs2.
                    Ends-if (kind_of sb outstanding i fs2 == t_dir && not (omode == 0)) _ _
                      (λ r. Covered fs2.disk r.1.disk) (finished-Noted sb outstanding i none fs2)
                      (Covered-refl fs2.disk))
