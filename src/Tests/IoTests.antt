-- ===== src/Tests/IoTests.antt =====
-- Runs of the console of xv6/console.c and of the descriptors of xv6/sysfile.c.
use buffer_overflow_attack.Base.{
  List, [], ap, arith, false, get_elem?, get_or, if◌then◌else◌, int_of_word, ltb, none, pos, refl,
  replicate, set, some, suc, sym, true, word_of_int, zero, ℕ, ◌+◌, ◌<◌, ◌==◌, ◌∷◌, ◌≡◌, ◌≤◌,
}
use buffer_overflow_attack.Kalloc.{◌>>=◌}
use buffer_overflow_attack.Str.{Memory, word_at}
use buffer_overflow_attack.Syscall.{User}
use buffer_overflow_attack.Pipe.{init_pipe}
use buffer_overflow_attack.Console.{Input, consoleintr, consoleread, counted, key}
use buffer_overflow_attack.Console.Line.{IsInput, committed, editing, typed}
use buffer_overflow_attack.Console.Keys.{key-typed, Handles}
use buffer_overflow_attack.Console.Trip.{consoleread-consoleintr, IsPlain}
use buffer_overflow_attack.File.{File, Open, fd_none, fd_inode, argfd}
use buffer_overflow_attack.File.Counted.{IsCounted, holds}
use buffer_overflow_attack.File.Close.{sys_close-IsCounted, closes, closed}
use buffer_overflow_attack.File.Io.{Sys, sys_close}
use buffer_overflow_attack.Fs.Covered.{Ends}
use buffer_overflow_attack.Tests.FsTests.{sb, system}

-- The line "ab" is being edited, with counters that are about to wrap.
abbrev keys : Memory
keys i = if i == 126 then 97 else 98

abbrev ab : Input
ab = record { buf = keys; r = 4294967294; w = 4294967294; e = 0 }

ab-IsInput : IsInput ab
ab-IsInput = record {
  r_word = omega arith;
  w_word = omega arith;
  e_word = omega arith;
  held = omega arith;
  plain = refl;
}

key-typed_example : Handles ab (typed 13 (committed ab, editing ab)) (key 13 ab)
key-typed_example = key-typed ab ab-IsInput 13 (omega arith)

abbrev empty : Input
empty = record { buf = keys; r = 4294967294; w = 4294967294; e = 4294967294 }

empty-IsInput : IsInput empty
empty-IsInput = record {
  r_word = omega arith;
  w_word = omega arith;
  e_word = omega arith;
  held = omega arith;
  plain = refl;
}

-- "ls" and C('D') are complete.
abbrev complete : Input
complete = record {
  buf = λ i. if i == 0 then 108 else if i == 1 then 115 else 4;
  r = 0;
  w = 3;
  e = 3;
}

complete-IsInput : IsInput complete
complete-IsInput = record {
  r_word = omega arith;
  w_word = omega arith;
  e_word = omega arith;
  held = omega arith;
  plain = refl;
}

IsPlain-letter : (c : ℕ) → 97 ≤ c → c < 123 → IsPlain c
IsPlain-letter c lo hi = record {
  small = omega arith;
  some_key = ground arith;
  no_control = (ground arith, ground arith, ground arith);
  no_end = (ground arith, ground arith, ground arith);
}

consoleread-consoleintr_example :
    (q : Input) × (consoleread false 5 (consoleintr (108 ∷ 115 ∷ 10 ∷ []) empty).0
      ≡ (counted 3, 108 ∷ 115 ∷ 10 ∷ [], q))
    × (committed q ≡ [])
    × (editing q ≡ [])
consoleread-consoleintr_example =
    consoleread-consoleintr false 5 (108 ∷ 115 ∷ []) empty empty-IsInput refl refl
      (
        IsPlain-letter 108 (omega arith) (omega arith),
        (IsPlain-letter 115 (omega arith) (omega arith), tt),
      )
      (omega arith) (omega arith)

-- Descriptors 0 and 1 hold one file, which nobody else holds.
abbrev shared : File
shared = record {
  kind = fd_none;
  ref = 2;
  readable = true;
  writable = true;
  pipe = 0;
  ip = 0;
  off = 0;
}

abbrev two_open : Open
two_open = record { ofile = 1 ∷ 1 ∷ replicate 14 0; files = shared ∷ [] }

-- The stack of `dup(0)`.
abbrev caller : User
caller = record { mem = λ x. 0; sz = 4096; esp = 100 }

-- Descriptor 0 holds a file of the inode in slot 0, which nobody else holds, so that a close is the last.
abbrev single : File
single = record shared { kind = fd_inode; ref = 1 }

abbrev one_open : Open
one_open = record { ofile = 1 ∷ replicate 15 0; files = single ∷ [] }

one_open-refs :
    (i : ℕ) (f : File)
    → get_elem? one_open.files i ≡ some f
    → f.ref ≡ 0 + holds (i + 1) one_open.ofile
one_open-refs zero f got = let same : single ≡ f = cc in sym (ap (λ x. x.ref) same)
one_open-refs (suc i) f got = cc

one_open-there : (i : ℕ) → get_elem? one_open.files i ≡ none → holds (i + 1) one_open.ofile ≡ 0
one_open-there zero missing = cc
one_open-there (suc i) missing =
    let one : (1 == suc i + 1) ≡ false = ground arith in
    let zeroth : (0 == suc i + 1) ≡ false = ground arith in rw (one, zeroth) refl

one_open-IsCounted : IsCounted (λ i. 0) one_open
one_open-IsCounted = record { slots = refl; refs = one_open-refs; there = one_open-there }

abbrev io : Sys
io = record { fs = system; files = one_open.files; pipes = λ a. init_pipe []; freed = [] }

sys_close-IsCounted_example :
    (f : File) × (files : List File) × (get_elem? io.files 0 ≡ some f)
    × IsCounted (λ i. 0) (record { ofile = set one_open.ofile 0 0; files = files })
    × (get_or (set one_open.ofile 0 0) 0 0 ≡ 0)
    × (sys_close sb 1 false caller one_open.ofile io ≡ (
        closes sb 1 false
          (ltb 0 (0 + holds 1 (set one_open.ofile 0 0)))
          f
          (record io { files = files })
        >>= closed sb 1 false 0 one_open.ofile))
    × Ends
        (sys_close sb 1 false caller one_open.ofile io)
        (λ r. (r.0 ≡ pos 0) × IsCounted (λ i. 0) (record { ofile = r.1; files = r.2.files }))
unfolding argfd int_of_word word_at word_of_int
sys_close-IsCounted_example =
    sys_close-IsCounted sb 1 false (λ i. 0) caller one_open.ofile io (0, 0) one_open-IsCounted
      closing
  where
    closing : argfd caller 0 one_open.ofile ≡ some (0, 0)
    closing = refl
