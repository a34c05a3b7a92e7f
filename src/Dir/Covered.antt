-- ===== src/Dir/Covered.antt =====
-- Every change of the calls on directories to the disk goes through the log.
use buffer_overflow_attack.Base.{
  List, Option, get_elem?, length, ltb, modify, none, not, some, suc, zero, ℕ, ◌&&◌, ◌+◌, ◌/◌, ◌==◌,
}
use buffer_overflow_attack.Kalloc.{ok, panic}
use buffer_overflow_attack.Fs.{Super, Disk}
use buffer_overflow_attack.Inode.{Inode}
use buffer_overflow_attack.Inode.Content.{readi, writei}
use buffer_overflow_attack.Fs.Covered.{
  Ends-after, Covered, Covered-refl, Ends, Ends-if, Ends-option, then_Covered,
}
use buffer_overflow_attack.Inode.Covered.{readi-Covered, writei-Covered}
use buffer_overflow_attack.Path.{name_size}
use buffer_overflow_attack.Icache.{Fs, iget, iput}
use buffer_overflow_attack.Icache.Covered.{iput-Covered}
use buffer_overflow_attack.Dir.{
  find_entry, dirlookup, take_entry, without_offset, add_entry, dirent_size, dirlink, empty_from,
  entry_inum, entry_name, lookup_from, lookup_in, make_entry, read_entry, same_name, t_dir,
  whole_entry,
}

module _ (sb : Super) (outstanding : ℕ) where
  whole_entry-Covered :
      (o : Option (List ℕ)) (dp : Inode) (s : Disk)
      → Ends (whole_entry sb outstanding (o, dp, s)) (λ r. Covered s r.2)
  whole_entry-Covered none dp s = tt
  whole_entry-Covered (some de) dp s =
      Ends-if (length de == dirent_size) (ok (de, dp, s)) panic (λ r. Covered s r.2)
        (Covered-refl s) tt

  pub read_entry-Covered :
      (off : ℕ) (dp : Inode) (s : Disk)
      → Ends (read_entry sb outstanding off dp s) (λ r. Covered s r.2)
  unfolding read_entry
  read_entry-Covered off dp s =
      then_Covered (readi sb outstanding off dirent_size dp s) _ s (λ r. r.2) (λ r. r.2)
        (readi-Covered sb outstanding off dirent_size dp s)
        λ (o, dp1, s1). whole_entry-Covered o dp1 s1

  lookup_from-Covered :
      (rounds : ℕ) (name : List ℕ) (off : ℕ) (dp : Inode) (s : Disk)
      → Ends (lookup_from sb outstanding rounds name off dp s) (λ r. Covered s r.2)
  unfolding lookup_from
  lookup_from-Covered zero name off dp s = Covered-refl s
  lookup_from-Covered (suc rounds) name off dp s =
      Ends-if (ltb off dp.size) _ _ (λ r. Covered s r.2)
        (then_Covered (read_entry sb outstanding off dp s) _ s (λ r. r.2) (λ r. r.2)
          (read_entry-Covered off dp s)
          λ (de, dp1, s1).
            Ends-if (not (entry_inum de == 0) && same_name name_size name (entry_name de)) _ _
              (λ r. Covered s1 r.2) (Covered-refl s1)
              (lookup_from-Covered rounds name (off + dirent_size) dp1 s1))
        (Covered-refl s)

  find_entry-Covered :
      (name : List ℕ) (dp : Inode) (s : Disk)
      → Ends (find_entry sb outstanding name dp s) (λ r. Covered s r.2)
  unfolding find_entry
  find_entry-Covered name dp s =
      Ends-if (dp.kind == t_dir) _ panic (λ r. Covered s r.2)
        (lookup_from-Covered (dp.size / dirent_size + 2) name 0 dp s) tt

  empty_from-Covered :
      (rounds off : ℕ) (dp : Inode) (s : Disk)
      → Ends (empty_from sb outstanding rounds off dp s) (λ r. Covered s r.2)
  unfolding empty_from
  empty_from-Covered zero off dp s = Covered-refl s
  empty_from-Covered (suc rounds) off dp s =
      Ends-if (ltb off dp.size) _ _ (λ r. Covered s r.2)
        (then_Covered (read_entry sb outstanding off dp s) _ s (λ r. r.2) (λ r. r.2)
          (read_entry-Covered off dp s)
          λ (de, dp1, s1).
            Ends-if (entry_inum de == 0) _ _ (λ r. Covered s1 r.2) (Covered-refl s1)
              (empty_from-Covered rounds (off + dirent_size) dp1 s1))
        (Covered-refl s)

  add_entry-Covered :
      (name : List ℕ) (inum : ℕ) (dp : Inode) (s : Disk)
      → Ends (add_entry sb outstanding name inum dp s) (λ r. Covered s r.1)
  unfolding add_entry
  add_entry-Covered name inum dp s =
      then_Covered (empty_from sb outstanding (dp.size / dirent_size + 2) 0 dp s) _ s (λ r. r.2)
        (λ r. r.1) (empty_from-Covered (dp.size / dirent_size + 2) 0 dp s)
        λ (off, dp1, s1).
          then_Covered (writei sb outstanding off (make_entry name inum) dp1 s1) _ s1 (λ r. r.2)
            (λ r. r.1) (writei-Covered sb outstanding off (make_entry name inum) dp1 s1)
            λ (whole, dp2, s2).
              Ends-if whole (ok (dp2, s2)) panic (λ r. Covered s2 r.1) (Covered-refl s2) tt

  take_entry-Covered :
      (i : ℕ) (fs : Fs) (found : Option (ℕ × ℕ)) (dp : Inode) (s : Disk)
      → Ends (take_entry sb outstanding i fs (found, dp, s)) (λ r. Covered s r.1.disk)
  take_entry-Covered i fs none dp s = Covered-refl s
  take_entry-Covered i fs (some (inum, off)) dp s =
      Ends-after (iget inum (modify fs.icache i (λ e. record e { ip = dp }))) _
        (λ r. Covered s r.1.disk) λ (j, icache). Covered-refl s

  pub dirlookup-Covered :
      (name : List ℕ) (i : ℕ) (fs : Fs)
      → Ends (dirlookup sb outstanding name i fs) (λ r. Covered fs.disk r.1.disk)
  unfolding dirlookup
  dirlookup-Covered name i fs =
      Ends-option (get_elem? fs.icache i) panic _ (λ r. Covered fs.disk r.1.disk) tt
        λ e.
          then_Covered (find_entry sb outstanding name e.ip fs.disk)
            (take_entry sb outstanding i fs) fs.disk (λ r. r.2) (λ r. r.1.disk)
            (find_entry-Covered name e.ip fs.disk)
            λ (found, dp, s). take_entry-Covered i fs found dp s

  without_offset-Covered :
      (found : Option (ℕ × ℕ)) (fs : Fs)
      → Ends (without_offset sb outstanding (found, fs)) (λ r. Covered fs.disk r.1.disk)
  without_offset-Covered none fs = Covered-refl fs.disk
  without_offset-Covered (some (j, off)) fs = Covered-refl fs.disk

  pub lookup_in-Covered :
      (name : List ℕ) (i : ℕ) (fs : Fs)
      → Ends (lookup_in sb outstanding name i fs) (λ r. Covered fs.disk r.1.disk)
  unfolding lookup_in
  lookup_in-Covered name i fs =
      then_Covered (dirlookup sb outstanding name i fs) (without_offset sb outstanding) fs.disk
        (λ r. r.1.disk) (λ r. r.1.disk) (dirlookup-Covered name i fs)
        λ (found, fs1). without_offset-Covered found fs1

  pub dirlink-Covered :
      (name : List ℕ) (inum i : ℕ) (fs : Fs)
      → Ends (dirlink sb outstanding name inum i fs) (λ r. Covered fs.disk r.1.disk)
  unfolding dirlink
  dirlink-Covered name inum i fs =
      then_Covered (lookup_in sb outstanding name i fs) _ fs.disk (λ r. r.1.disk) (λ r. r.1.disk)
        (lookup_in-Covered name i fs)
        λ (found, fs1).
          Ends-option found _ _ (λ r. Covered fs1.disk r.1.disk)
            (Ends-option (get_elem? fs1.icache i) panic _ (λ r. Covered fs1.disk r.1.disk) tt
              λ e.
                then_Covered (add_entry sb outstanding name inum e.ip fs1.disk) _ fs1.disk
                  (λ r. r.1) (λ r. r.1.disk) (add_entry-Covered name inum e.ip fs1.disk)
                  λ (dp, s). Covered-refl s)
            λ j.
              then_Covered (iput sb outstanding j fs1) _ fs1.disk (λ r. r.disk) (λ r. r.1.disk)
                (iput-Covered sb outstanding j fs1) λ fs2. Covered-refl fs2.disk
