-- ===== src/Mmu.antt =====
-- The constants and macros of xv6/mmu.h, xv6/memlayout.h and xv6/param.h.
use buffer_overflow_attack.Base.{arith, ℕ, ◌%◌, ◌*◌, ◌+◌, ◌-◌, ◌/◌, ◌<◌, ◌^◌, ◌≡◌}

abbrev pub page_size : ℕ
page_size = 4096

abbrev pub kern_base : ℕ
kern_base = 0x80000000

abbrev pub phys_top : ℕ
phys_top = 0xE000000

-- V2P: `uint` subtraction wraps.
abbrev pub v2p : ℕ → ℕ
v2p a = (a + 2 ^ 32 - kern_base) % 2 ^ 32

abbrev pub p2v : ℕ → ℕ
p2v a = (a + kern_base) % 2 ^ 32

-- PGROUNDUP and PGROUNDDOWN on a `uint`; the mask clears the low twelve bits.
abbrev pub pg_round_up : ℕ → ℕ
pg_round_up sz = (sz + page_size - 1) % 2 ^ 32 / page_size * page_size

abbrev pub pg_round_down : ℕ → ℕ
pg_round_down a = a / page_size * page_size

-- PDX and PTX
abbrev pub pdx : ℕ → ℕ
pdx va = va / 2 ^ 22 % 1024

abbrev pub ptx : ℕ → ℕ
ptx va = va / 2 ^ 12 % 1024

-- PGADDR
abbrev pub pg_addr : ℕ → ℕ → ℕ → ℕ
pg_addr d t o = (d * 2 ^ 22 + t * 2 ^ 12 + o) % 2 ^ 32

-- An address is put together again from its three parts.
pub pg_addr-parts : (va : ℕ) → va < 2 ^ 32 → pg_addr (pdx va) (ptx va) (va % page_size) ≡ va
pg_addr-parts va h = omega arith

-- The process table has `n_proc` slots, and a process `n_ofile` descriptors.
abbrev pub n_proc : ℕ
n_proc = 64

abbrev pub n_ofile : ℕ
n_ofile = 16

abbrev pub kstack_size : ℕ
kstack_size = 4096
