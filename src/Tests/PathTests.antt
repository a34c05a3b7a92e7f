-- ===== src/Tests/PathTests.antt =====
-- Runs of the calls of xv6/sysfile.c on paths.
use buffer_overflow_attack.Base.{
  [], arith, false, if◌then◌else◌, inr, leb, length, refl, true, ℕ, ◌-ℤ◌, ◌==◌, ◌∷◌, ◌≡◌,
}
use buffer_overflow_attack.Kalloc.{Outcome, ok, panic}
use buffer_overflow_attack.Str.{Memory, word_at}
use buffer_overflow_attack.Log.{commit, reboot}
use buffer_overflow_attack.Log.Crash.{reboots}
use buffer_overflow_attack.Inode.Atomic.{committing, words}
use buffer_overflow_attack.File.{Open}
use buffer_overflow_attack.Icache.{Fs}
use buffer_overflow_attack.Sysfile.Atomic.{transact, path_unlink, transact_atomic}
use buffer_overflow_attack.Tests.FsTests.{sb, root}

-- Block 41 holds the root directory with its entry "a" of inode 7, a file with one link.
abbrev tree_of : ℕ → Memory
tree_of b i =
    if b == 41
    then (if i == 16 then 7 else if i == 18 then 97 else 0)
    else if b == 50
    then (if i == 64 then 1 else if i == 448 then 2 else if i == 454 then 1 else 0)
    else 0

abbrev tree : Fs
tree = record {
  disk = record { blocks = tree_of; noted = [] };
  icache =
      record { inum = 1; ref = 2; valid = true; ip = root }
      ∷ record { inum = 3; ref = 0; valid = false; ip = root }
      ∷ [];
}

abbrev no_files : Open
no_files = record { ofile = []; files = [] }

abbrev or_tree : Outcome (Open × Fs) → Fs
or_tree (ok (o, fs)) = fs
or_tree panic = tree

-- `unlink("a")`, which frees the inode.
abbrev without_a : Fs
without_a = or_tree (transact sb 1 (path_unlink (97 ∷ [])) 0 no_files tree)

unlinked : transact sb 1 (path_unlink (97 ∷ [])) 0 no_files tree ≡ ok (no_files, without_a)
unfolding transact ◌-ℤ◌ word_at
unlinked = refl

unlink-noted : without_a.disk.noted ≡ 41 ∷ 50 ∷ []
unfolding transact ◌-ℤ◌ word_at
unlink-noted = refl

transact_atomic_example :
    reboot 2 5
      (reboots 2
        (1 ∷ [])
        (commit 2 without_a.disk.noted (committing tree.disk without_a.disk 3)).disk)
      41
    ≡ (if leb 3 (length without_a.disk.noted)
        then words (tree.disk.blocks 41)
        else words (without_a.disk.blocks 41))
unfolding word_at
transact_atomic_example =
    transact_atomic sb 1 (path_unlink (97 ∷ [])) 0 no_files no_files tree without_a 2 30 3 (1 ∷ [])
      5 41 unlinked (rw unlink-noted (inr (omega arith), (inr (omega arith), tt)))
      (rw unlink-noted (omega arith)) refl (rw unlink-noted (omega arith)) (inr (omega arith))
