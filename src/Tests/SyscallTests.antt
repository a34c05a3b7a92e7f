-- ===== src/Tests/SyscallTests.antt =====
-- xv6/syscall.c on a small process.
use buffer_overflow_attack.Base.{
  arith, if◌then◌else◌, int_of_word, pos, refl, some, ◌*◌, ◌+◌, ◌==◌, ◌≡◌,
}
use buffer_overflow_attack.Str.{write_word, word_at}
use buffer_overflow_attack.Syscall.{User, argint}
use buffer_overflow_attack.Syscall.Args.{argint_misses_base}

-- A process of 0x4000 bytes with the word 0x2000 as its first argument.
abbrev user : User
user = record { mem = λ x. if x == 0x3f05 then 0x20 else 0; sz = 0x4000; esp = 0x3f00 }

first_argument : argint user 0 ≡ some (pos 0x2000)
unfolding argint word_at int_of_word
first_argument = refl

argint_misses_base_example :
    argint (record user { mem = write_word user.mem (0x1000 + (0x3f00 + 4 + 4 * 0)) 77 }) 0
    ≡ argint user 0
argint_misses_base_example = argint_misses_base user 0x1000 0 77 (omega arith) (omega arith)
