-- ===== src/Syscall.antt =====
-- The arguments of a system call in xv6/syscall.c, and the calls of xv6/sysproc.c on the process
-- table that take them.
pub mod Args
use buffer_overflow_attack.Base.{
  Option, if◌then◌else◌, int_of_word, leb, ltb, ltb_ℤ, minus_one, none, pos, some, suc, word_of_int,
  zero, ℕ, ℤ, ◌%◌, ◌*◌, ◌+◌, ◌-◌, ◌==◌, ◌^◌, ◌||◌,
}
use buffer_overflow_attack.Mmu.{kern_base}
use buffer_overflow_attack.Str.{Memory, word_at}
use buffer_overflow_attack.Kalloc.{Outcome, ok, panic}
use buffer_overflow_attack.Proc.{Kernel, kill, change_exec_time, change_deadline}
use buffer_overflow_attack.Proc.Policy.{change_sched_policy, change_rate}

-- The calling process as the kernel sees it: its memory at kernel addresses, its size, and the
-- stack pointer of the trap frame.
pub record User : Type 0 where
  pub mem : Memory
  pub sz : ℕ
  pub esp : ℕ

-- `uint` addition.
abbrev pub add32 : ℕ → ℕ → ℕ
add32 a b = (a + b) % 2 ^ 32

-- `none` is the result -1.
unfoldable pub fetchint : User → ℕ → Option ℤ
fetchint u addr =
    if leb u.sz addr || ltb u.sz (add32 addr 4)
    then none
    else some (int_of_word (word_at u.mem addr))

-- The scan of `fetchstr` over the `n` bytes up to the end of the process.
unfoldable pub scan_nul : Memory → ℕ → ℕ → ℕ → Option ℕ
scan_nul m s zero len = none
scan_nul m s (suc n) len = if m s == 0 then some len else scan_nul m (s + 1) n (len + 1)

-- The length of the text, for -1 `none`.
unfoldable pub fetchstr : User → ℕ → Option ℕ
unfolding scan_nul
fetchstr u addr = if leb u.sz addr then none else scan_nul u.mem addr (u.sz - addr) 0

unfoldable pub argint : User → ℕ → Option ℤ
unfolding fetchint
argint u n = fetchint u (add32 (add32 u.esp 4) (4 * n))

-- The pointer, as an address.
unfoldable pub argptr : User → ℕ → ℤ → Option ℕ
argptr u n size = elim (argint u n) [
  | none ↦ none
  | some i ↦
      let a = word_of_int i in
      if ltb_ℤ size (pos 0) || leb u.sz a || ltb u.sz (add32 a (word_of_int size))
      then none
      else some a
]

-- The address and the length.
unfoldable pub argstr : User → ℕ → Option (ℕ × ℕ)
argstr u n = elim (argint u n) [
  | none ↦ none
  | some i ↦ elim (fetchstr u (word_of_int i)) [
    | none ↦ none
    | some len ↦ some (word_of_int i, len)
  ]
]

-- A call that takes two `int`s: -1 if either is out of reach.
abbrev pub two_ints : User → Kernel → (ℤ → ℤ → ℤ × Kernel) → ℤ × Kernel
two_ints u k f = elim (argint u 0) [
  | none ↦ (minus_one, k)
  | some a ↦ elim (argint u 1) [ none ↦ (minus_one, k) | some b ↦ f a b ]
]

unfoldable pub sys_kill : User → Kernel → ℤ × Kernel
unfolding argint kill
sys_kill u k = elim (argint u 0) [ none ↦ (minus_one, k) | some pid ↦ kill pid k ]

unfoldable pub sys_exec_time : User → Kernel → ℤ × Kernel
unfolding argint change_exec_time
sys_exec_time u k = two_ints u k (λ pid et. change_exec_time pid et k)

unfoldable pub sys_deadline : User → Kernel → ℤ × Kernel
unfolding argint change_deadline
sys_deadline u k = two_ints u k (λ pid dl. change_deadline pid dl k)

unfoldable pub sys_rate : User → Kernel → ℤ × Kernel
unfolding argint change_rate
sys_rate u k = two_ints u k (λ pid rt. change_rate pid rt k)

-- `me` is the slot of the caller.
unfoldable pub sys_sched_policy : (ℕ → Kernel → Kernel) → ℕ → User → Kernel → Outcome (ℤ × Kernel)
unfolding argint change_sched_policy
sys_sched_policy sched me u k = elim (argint u 0) [
  | none ↦ ok (minus_one, k)
  | some pid ↦ elim (argint u 1) [
    | none ↦ ok (minus_one, k)
    | some py ↦ change_sched_policy sched me pid py k
  ]
]
