-- ===== src/File.antt =====
-- xv6/file.c and the calls of xv6/sysfile.c on descriptors. A file is named by its slot in the table,
-- and a descriptor holds the slot and one, or 0 for a null pointer. `ftable.lock` stands for the
-- atomicity of the blocks that hold it. A pipe is named by its page.
pub mod Close
pub mod Counted
pub mod Io
pub mod Refs
use buffer_overflow_attack.Base.{
  Bool, List, Option, [], get_elem?, get_or, if◌then◌else◌, leb, ltb, ltb_ℤ, minus_one, modify,
  none, pos, set, some, suc, word_of_int, zero, ℕ, ℤ, ◌+◌, ◌-◌, ◌==◌, ◌||◌, ◌∷◌,
}
use buffer_overflow_attack.Mmu.{n_ofile}
use buffer_overflow_attack.Kalloc.{Outcome, ok, panic, ◌>>=◌}
use buffer_overflow_attack.Syscall.{User, argint}

pub data FileKind : Type 0 where
  fd_none fd_pipe fd_inode : FileKind

-- `struct file`
pub record File : Type 0 where
  pub kind : FileKind
  pub ref : ℕ
  pub readable : Bool
  pub writable : Bool
  pub pipe : ℕ
  pub ip : ℕ
  pub off : ℕ

-- The loop of `filealloc` from slot `i` on: the first file without references gets one.
unfoldable pub alloc_from : ℕ → List File → Option ℕ × List File
alloc_from i [] = (none, [])
alloc_from i (f ∷ fs) =
    let (found, fs') = alloc_from (i + 1) fs in
    if f.ref == 0 then (some i, record f { ref = 1 } ∷ fs) else (found, f ∷ fs')

unfoldable pub filealloc : List File → Option ℕ × List File
unfolding alloc_from
filealloc files = alloc_from 0 files

unfoldable pub filedup : ℕ → List File → Outcome (List File)
filedup i files = elim (get_elem? files i) [
  | none ↦ panic
  | some f ↦ if ltb f.ref 1 then panic else ok (modify files i (λ f. record f { ref = f.ref + 1 }))
]

-- The block of `fileclose` that holds the lock, with the file that it closes behind it if this was the
-- last reference.
unfoldable pub drop_file : ℕ → List File → Outcome (List File × Option File)
drop_file i files = elim (get_elem? files i) [
  | none ↦ panic
  | some f ↦
      if ltb f.ref 1
      then panic
      else if ltb 0 (f.ref - 1)
      then ok (modify files i (λ f. record f { ref = f.ref - 1 }), none)
      else ok (
        modify files i (λ f. record f { ref = 0; kind = fd_none }),
        some (record f { ref = f.ref - 1 }),
      )
]

-- `argfd`: the descriptor and the slot of its file.
unfoldable pub file_of : ℕ → List ℕ → Option (ℕ × ℕ)
file_of fd ofile =
    let f = get_or ofile fd 0 in if leb n_ofile fd || f == 0 then none else some (fd, f - 1)

unfoldable pub argfd : User → ℕ → List ℕ → Option (ℕ × ℕ)
unfolding argint file_of
argfd u n ofile = elim (argint u n) [
  | none ↦ none
  | some fd ↦ if ltb_ℤ fd (pos 0) then none else file_of (word_of_int fd) ofile
]

-- The loop of `fdalloc` from descriptor `fd` on, for file pointer `f`.
unfoldable pub fdalloc_from : ℕ → ℕ → ℕ → List ℕ → Option (ℕ × List ℕ)
fdalloc_from zero fd f ofile = none
fdalloc_from (suc left) fd f ofile =
    let rest = fdalloc_from left (fd + 1) f ofile in
    if get_or ofile fd 0 == 0 then some (fd, set ofile fd f) else rest

unfoldable pub fdalloc : ℕ → List ℕ → Option (ℕ × List ℕ)
unfolding fdalloc_from
fdalloc f ofile = fdalloc_from n_ofile 0 f ofile

-- The descriptors of the process that calls, and the file table.
pub record Open : Type 0 where
  pub ofile : List ℕ
  pub files : List File

-- `sys_dup` behind its `argfd`, for the file in slot `i`.
unfoldable pub dup_file : ℕ → Open → Outcome (ℤ × Open)
unfolding fdalloc filedup
dup_file i o = elim (fdalloc (i + 1) o.ofile) [
  | none ↦ ok (minus_one, o)
  | some (fd, ofile) ↦ (do
    files ← filedup i o.files
    ok (pos fd, record { ofile = ofile; files = files }))
]

unfoldable pub sys_dup : User → Open → Outcome (ℤ × Open)
unfolding argfd dup_file
sys_dup u o = elim (argfd u 0 o.ofile) [ none ↦ ok (minus_one, o) | some (fd, i) ↦ dup_file i o ]
