-- ===== src/Dir.antt =====
-- xv6/fs.c: directories, and the walk along a path. An entry of a directory has 16 bytes: the number of
-- an inode, and a name that ends with a NUL or fills its 14 bytes.
pub mod Covered
pub mod Lookup
pub mod Walk
use buffer_overflow_attack.Base.{
  Bool, List, Option, [], drop, false, get_elem?, get_or, if◌then◌else◌, length, ltb, modify, none,
  not, replicate, some, suc, take, true, zero, ℕ, ◌%◌, ◌&&◌, ◌*◌, ◌++◌, ◌+◌, ◌/◌, ◌==◌, ◌∷◌,
}
use buffer_overflow_attack.Kalloc.{Outcome, ok, panic, ◌>>=◌}
use buffer_overflow_attack.Fs.{Super, Disk}
use buffer_overflow_attack.Inode.{Inode}
use buffer_overflow_attack.Inode.Content.{readi, writei}
use buffer_overflow_attack.Icache.{Entry, Fs, iget, idup, ilock, iput}
use buffer_overflow_attack.Path.{name_size, skipelem}

-- T_DIR, `sizeof(struct dirent)`, ROOTINO
abbrev pub t_dir : ℕ
t_dir = 1

abbrev pub dirent_size : ℕ
dirent_size = 16

abbrev pub root_ino : ℕ
root_ino = 1

-- `namecmp` is zero: `strncmp` over `n` bytes of two texts, which end where their bytes end or with
-- a NUL.
unfoldable pub same_name : ℕ → List ℕ → List ℕ → Bool
same_name zero s t = true
same_name (suc n) [] [] = true
same_name (suc n) [] (d ∷ t) = d == 0
same_name (suc n) (c ∷ s) [] = c == 0
same_name (suc n) (c ∷ s) (d ∷ t) = if not (c == 0) && c == d then same_name n s t else c == d

-- `de.inum` and `de.name` of the bytes of an entry.
abbrev pub entry_inum : List ℕ → ℕ
entry_inum de = get_or de 0 0 + get_or de 1 0 * 256

abbrev pub entry_name : List ℕ → List ℕ
entry_name de = drop 2 de

-- The entry that `dirlink` writes: `strncpy` fills the name with zeros.
unfoldable pub make_entry : List ℕ → ℕ → List ℕ
make_entry name inum =
    inum % 256 ∷ inum / 256 % 256 ∷ take name_size (take name_size name ++ replicate name_size 0)

module _ (sb : Super) (outstanding : ℕ) where
  -- `readi(dp, &de, off, sizeof(de))`, and the panic if it does not give a whole entry.
  abbrev pub whole_entry : Option (List ℕ) × Inode × Disk → Outcome (List ℕ × Inode × Disk)
  whole_entry (none, dp, s) = panic
  whole_entry (some de, dp, s) = if length de == dirent_size then ok (de, dp, s) else panic

  unfoldable pub read_entry : ℕ → Inode → Disk → Outcome (List ℕ × Inode × Disk)
  unfolding readi
  read_entry off dp s = readi sb outstanding off dirent_size dp s >>= whole_entry

  -- The loop of `dirlookup` over `rounds` more entries: the inode number and the offset of the entry.
  unfoldable pub lookup_from :
      ℕ → List ℕ → ℕ → Inode → Disk → Outcome (Option (ℕ × ℕ) × Inode × Disk)
  unfolding read_entry same_name
  lookup_from zero name off dp s = ok (none, dp, s)
  lookup_from (suc rounds) name off dp s =
      if ltb off dp.size
      then (do
        (de, dp', s') ← read_entry off dp s
        if not (entry_inum de == 0) && same_name name_size name (entry_name de)
            then ok (some (entry_inum de, off), dp', s')
            else lookup_from rounds name (off + dirent_size) dp' s')
      else ok (none, dp, s)

  -- `dirlookup` up to its `iget`: a round for each entry, and one to find that there are no more.
  unfoldable pub find_entry : List ℕ → Inode → Disk → Outcome (Option (ℕ × ℕ) × Inode × Disk)
  unfolding lookup_from
  find_entry name dp s =
      if dp.kind == t_dir then lookup_from (dp.size / dirent_size + 2) name 0 dp s else panic

  -- The second loop of `dirlink`: the offset of the first empty entry, or the end.
  unfoldable pub empty_from : ℕ → ℕ → Inode → Disk → Outcome (ℕ × Inode × Disk)
  unfolding read_entry
  empty_from zero off dp s = ok (off, dp, s)
  empty_from (suc rounds) off dp s =
      if ltb off dp.size
      then (do
        (de, dp', s') ← read_entry off dp s
        if entry_inum de == 0
            then ok (off, dp', s')
            else empty_from rounds (off + dirent_size) dp' s')
      else ok (off, dp, s)

  -- The write of the new entry by `dirlink`.
  unfoldable pub add_entry : List ℕ → ℕ → Inode → Disk → Outcome (Inode × Disk)
  unfolding empty_from make_entry writei
  add_entry name inum dp s = do
    (off, dp1, s1) ← empty_from (dp.size / dirent_size + 2) 0 dp s
    (whole, dp2, s2) ← writei sb outstanding off (make_entry name inum) dp1 s1
    if whole then ok (dp2, s2) else panic

  -- The inode in a slot of the cache, after a call on it.
  abbrev keep : ℕ → Inode → Disk → Fs → Fs
  keep i ip s fs = record { disk = s; icache = modify fs.icache i (λ e. record e { ip = ip }) }

  -- The end of `dirlookup` on the inode in slot `i`, with the entry that its loop finds: the slot of the
  -- inode of the entry, to which there is one more reference, and the offset of the entry.
  abbrev pub take_entry : ℕ → Fs → Option (ℕ × ℕ) × Inode × Disk → Outcome (Option (ℕ × ℕ) × Fs)
  take_entry i fs (none, dp, s) = ok (none, keep i dp s fs)
  take_entry i fs (some (inum, off), dp, s) =
      let fs1 = keep i dp s fs in
      iget inum fs1.icache >>= λ (j, icache). ok (some (j, off), record fs1 { icache = icache })

  -- `dirlookup` on the locked inode in slot `i`.
  unfoldable pub dirlookup : List ℕ → ℕ → Fs → Outcome (Option (ℕ × ℕ) × Fs)
  unfolding find_entry iget
  dirlookup name i fs = elim (get_elem? fs.icache i) [
    | none ↦ panic
    | some e ↦ find_entry name e.ip fs.disk >>= take_entry i fs
  ]

  abbrev pub without_offset : Option (ℕ × ℕ) × Fs → Outcome (Option ℕ × Fs)
  without_offset (none, fs) = ok (none, fs)
  without_offset (some (j, off), fs) = ok (some j, fs)

  -- `dirlookup` whose `poff` is 0.
  unfoldable pub lookup_in : List ℕ → ℕ → Fs → Outcome (Option ℕ × Fs)
  unfolding dirlookup
  lookup_in name i fs = dirlookup name i fs >>= without_offset

  -- `dirlink` on the locked inode in slot `i`; `false` is the result -1.
  unfoldable pub dirlink : List ℕ → ℕ → ℕ → Fs → Outcome (Bool × Fs)
  unfolding lookup_in add_entry iput
  dirlink name inum i fs = do
    (found, fs1) ← lookup_in name i fs
    elim found [
      | some j ↦ (do fs2 ← iput sb outstanding j fs1; ok (false, fs2))
      | none ↦ elim (get_elem? fs1.icache i) [
        | none ↦ panic
        | some e ↦ (do (dp, s) ← add_entry name inum e.ip fs1.disk; ok (true, keep i dp s fs1))
      ]
    ]

  abbrev pub kind_of : ℕ → Fs → ℕ
  kind_of i fs = elim (get_elem? fs.icache i) [ none ↦ 0 | some e ↦ e.ip.kind ]

  -- The loop of `namex` from the inode in slot `i` on, with the name that it copies last.
  unfoldable pub namex_from :
      ℕ → Bool → List ℕ → ℕ → List ℕ → Fs → Option (Outcome (Option ℕ × List ℕ × Fs))
  unfolding skipelem ilock lookup_in iput
  namex_from zero parent path i name fs = none
  namex_from (suc fuel) parent path i name fs = elim (skipelem path) [
    | none ↦ some (
        if parent
        then (do fs' ← iput sb outstanding i fs; ok (none, name, fs'))
        else ok (some i, name, fs))
    | some (name', rest) ↦ elim (ilock sb outstanding i fs) [
      | panic ↦ some panic
      | ok fs1 ↦
          if not (kind_of i fs1 == t_dir)
          then some (do fs2 ← iput sb outstanding i fs1; ok (none, name', fs2))
          else if parent && length rest == 0
          then some (ok (some i, name', fs1))
          else elim (lookup_in name' i fs1) [
            | panic ↦ some panic
            | ok (found, fs2) ↦ elim (iput sb outstanding i fs2) [
              | panic ↦ some panic
              | ok fs3 ↦ elim found [
                | none ↦ some (ok (none, name', fs3))
                | some j ↦ namex_from fuel parent rest j name' fs3
              ]
            ]
          ]
    ]
  ]

  -- `cwd` is the slot of the current directory of the process.
  unfoldable pub namex : ℕ → Bool → List ℕ → ℕ → Fs → Option (Outcome (Option ℕ × List ℕ × Fs))
  unfolding namex_from iget idup
  namex fuel parent path cwd fs =
      if get_or path 0 0 == b'/'
      then elim (iget root_ino fs.icache) [
        | panic ↦ some panic
        | ok (i, icache) ↦ namex_from fuel parent path i [] (record fs { icache = icache })
      ]
      else namex_from fuel parent path cwd [] (record fs { icache = idup cwd fs.icache })

  unfoldable pub namei : List ℕ → ℕ → Fs → Option (Outcome (Option ℕ × List ℕ × Fs))
  unfolding namex
  namei path cwd fs = namex (length path + 1) false path cwd fs

  unfoldable pub nameiparent : List ℕ → ℕ → Fs → Option (Outcome (Option ℕ × List ℕ × Fs))
  unfolding namex
  nameiparent path cwd fs = namex (length path + 1) true path cwd fs
