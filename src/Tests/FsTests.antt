-- ===== src/Tests/FsTests.antt =====
-- Runs of the file system of xv6/fs.c.
use buffer_overflow_attack.Base.{
  Bool, List, Option, [], ap, arith, bit, false, get_elem?, if◌then◌else◌, inr, leb, length, min,
  none, refl, some, suc, true, ℕ, ◌-ℤ◌, ◌-◌, ◌<◌, ◌==◌, ◌∷◌, ◌≡◌, ◌≢◌,
}
use buffer_overflow_attack.Kalloc.{Outcome, ok, panic}
use buffer_overflow_attack.Str.{Memory, word_at}
use buffer_overflow_attack.Bcache.{Buf, bget}
use buffer_overflow_attack.Bcache.Copies.{bget-Got, Got, OneCopy, Single}
use buffer_overflow_attack.Log.{commit, reboot}
use buffer_overflow_attack.Log.Crash.{reboots}
use buffer_overflow_attack.Fs.{Super, Disk, balloc}
use buffer_overflow_attack.Fs.Bitmap.{in_use, HasRoom}
use buffer_overflow_attack.Fs.Alloc.{Taken, balloc_lem}
use buffer_overflow_attack.Inode.{Inode, iupdate, load_inode}
use buffer_overflow_attack.Inode.Content.{writei, readi}
use buffer_overflow_attack.Inode.Atomic.{writei_atomic, committing, words}
use buffer_overflow_attack.Inode.Stored.{IsInode, load_inode-iupdate}
use buffer_overflow_attack.Inode.Mapped.{IsMapped, content, readi-content, block_at}
use buffer_overflow_attack.Dir.Walk.{Ended, namex-Ended}
use buffer_overflow_attack.Icache.{Fs, Entry, iget}
use buffer_overflow_attack.Icache.Refs.{count, iget-count}
use buffer_overflow_attack.Path.Elements.{walk, walk-names_of}
use buffer_overflow_attack.Dir.{t_dir, dirlookup, namex}
use buffer_overflow_attack.Dir.Lookup.{FirstHit, gives, dirlookup-first}

abbrev pub sb : Super
sb = record { size = 100; ninodes = 16; nlog = 30; inodestart = 50; bmapstart = 60 }

-- Block 0 is in use, and block 41 holds the root directory with its entry "a" of inode 7.
abbrev data_of : ℕ → Memory
data_of b i =
    if b == 60
    then (if i == 0 then 1 else 0)
    else if b == 41
    then (if i == 16 then 7 else if i == 18 then 97 else 0)
    else 0

abbrev disk : Disk
disk = record { blocks = data_of; noted = [] }

disk-HasRoom : HasRoom sb 1 2 disk
disk-HasRoom = record { inside = omega arith; short = omega arith; fits = omega arith }

balloc_lem_example :
    (s' : Disk) × (balloc sb 1 disk ≡ ok (1, s')) × Taken sb 1 disk s' × HasRoom sb 1 0 s'
unfolding bit
balloc_lem_example =
    balloc_lem sb 1 1 0 disk disk-HasRoom (omega arith) refl
      (λ m lt. let first : m ≡ 0 = omega arith in ap (in_use sb disk) first)
      (λ e. absurd (omega arith))

-- A file of one block, and a directory of two entries.
abbrev file_with : ℕ → ℕ → ℕ → Inode
file_with t n b = record {
  inum = 3;
  kind = t;
  major = 0;
  minor = 0;
  nlink = 1;
  size = n;
  addrs = b ∷ 0 ∷ 0 ∷ 0 ∷ 0 ∷ 0 ∷ 0 ∷ 0 ∷ 0 ∷ 0 ∷ 0 ∷ 0 ∷ 0 ∷ [];
}

abbrev file : Inode
file = file_with 2 0 40

abbrev pub root : Inode
root = file_with t_dir 32 41

file-IsInode : IsInode file
file-IsInode = record {
  kind_small = omega arith;
  major_small = omega arith;
  minor_small = omega arith;
  nlink_small = omega arith;
  size_small = omega arith;
  count = refl;
  addrs_small = (
    omega arith,
    (
      omega arith,
      (
        omega arith,
        (
          omega arith,
          (
            omega arith,
            (
              omega arith,
              (
                omega arith,
                (
                  omega arith,
                  (omega arith, (omega arith, (omega arith, (omega arith, (omega arith, tt))))),
                ),
              ),
            ),
          ),
        ),
      ),
    ),
  );
}

load_inode-iupdate_example :
    (s' : Disk) × (iupdate sb 1 file disk ≡ ok s') × (load_inode sb 1 file.inum s' ≡ ok file)
load_inode-iupdate_example =
    load_inode-iupdate sb 1 file 1 disk file-IsInode (λ e. absurd (omega arith)) disk-HasRoom

root-IsMapped : IsMapped root disk
root-IsMapped = record {
  table = λ lt. absurd (omega arith);
  there = λ bn lt z.
      let first : bn ≡ 0 = omega arith in
      absurd (let bad : block_at root disk 0 ≡ 0 = rw first at z in omega arith);
  bounded = omega arith;
}

readi-content_example :
    readi sb 1 16 10 root disk ≡ ok (some (content root disk 16 (min 10 (32 - 16))), root, disk)
readi-content_example = readi-content sb 1 16 10 root disk root-IsMapped (omega arith) (omega arith)

-- The one byte "A" written to the file.
abbrev or_start : Outcome (Bool × Inode × Disk) → Bool × Inode × Disk
or_start (ok r) = r
or_start panic = (false, file, disk)

abbrev written : Bool × Inode × Disk
written = or_start (writei sb 1 0 (65 ∷ []) file disk)

writei-written : writei sb 1 0 (65 ∷ []) file disk ≡ ok (written.0, written.1, written.2)
unfolding writei ◌-ℤ◌
writei-written = refl

writei-noted : written.2.noted ≡ 40 ∷ 50 ∷ []
unfolding writei ◌-ℤ◌
writei-noted = refl

writei_atomic_example :
    reboot 2 5 (reboots 2 (1 ∷ []) (commit 2 written.2.noted (committing disk written.2 3)).disk) 40
    ≡ (if leb 3 (length written.2.noted)
        then words (disk.blocks 40)
        else words (written.2.blocks 40))
unfolding word_at
writei_atomic_example =
    writei_atomic sb 1 0 (65 ∷ []) file written.1 disk written.2 written.0 2 30 3 (1 ∷ []) 5 40
      writei-written (rw writei-noted (inr (omega arith), (inr (omega arith), tt)))
      (rw writei-noted (omega arith)) refl (rw writei-noted (omega arith)) (inr (omega arith))

abbrev slots : List Entry
slots =
    record { inum = 1; ref = 2; valid = true; ip = root }
    ∷ record { inum = 3; ref = 0; valid = false; ip = root }
    ∷ []

abbrev slots_with_3 : List Entry
slots_with_3 =
    record { inum = 1; ref = 2; valid = true; ip = root }
    ∷ record { inum = 3; ref = 1; valid = false; ip = root }
    ∷ []

iget-run : iget 3 slots ≡ ok (1, slots_with_3)
unfolding iget
iget-run = refl

iget-count_example :
    (count 3 slots_with_3 ≡ suc (count 3 slots))
    × ((n : ℕ) → n ≢ 3 → count n slots_with_3 ≡ count n slots)
    × ((e : Entry) × (get_elem? slots_with_3 1 ≡ some e) × (e.inum ≡ 3) × (0 < e.ref))
iget-count_example = iget-count 3 slots slots_with_3 1 iget-run

-- "//a/b/"
walk-names_of_example :
    walk 7 (47 ∷ 47 ∷ 97 ∷ 47 ∷ 98 ∷ 47 ∷ []) ≡ some ((97 ∷ []) ∷ (98 ∷ []) ∷ [])
walk-names_of_example = walk-names_of 7 (47 ∷ 47 ∷ 97 ∷ 47 ∷ 98 ∷ 47 ∷ []) (omega arith)

abbrev pub system : Fs
system = record { disk = disk; icache = slots }

namex-Ended_example : Ended (namex sb 1 4 true (97 ∷ 47 ∷ 98 ∷ []) 0 system)
namex-Ended_example = namex-Ended sb 1 4 true (97 ∷ 47 ∷ 98 ∷ []) 0 system (omega arith)

dirlookup-first_example :
    (r : Option (ℕ × ℕ)) × FirstHit (97 ∷ 0 ∷ []) root disk r
    × (dirlookup sb 1 (97 ∷ 0 ∷ []) 0 system ≡ gives r system)
dirlookup-first_example =
    dirlookup-first sb 1 (97 ∷ 0 ∷ []) 0 system
      (record { inum = 1; ref = 2; valid = true; ip = root }) refl refl root-IsMapped refl

-- Block 5 is in a buffer that is in use; the buffer behind it is free.
abbrev two_buffers : List Buf
two_buffers =
    record { slot = 1; blockno = some 5; refcnt = 1; valid = true; dirty = false; bytes = λ w. 0 }
    ∷ record { slot = 0; blockno = none; refcnt = 0; valid = false; dirty = false; bytes = λ w. 0 }
    ∷ []

two_buffers-OneCopy : OneCopy two_buffers
two_buffers-OneCopy n = ground arith

bget-Got_example : Got 9 two_buffers (bget 9 two_buffers) × Single 9 (bget 9 two_buffers)
bget-Got_example = bget-Got 9 two_buffers two_buffers-OneCopy
