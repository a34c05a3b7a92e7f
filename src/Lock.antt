-- ===== src/Lock.antt =====
-- xv6/spinlock.c: interrupts off, and locks. A processor is named by its index.
pub mod Nest
pub mod Exclusion
use buffer_overflow_attack.Base.{
  Bool, Option, false, if◌then◌else◌, none, some, true, ℕ, ◌&&◌, ◌+◌, ◌-◌, ◌==◌,
}
use buffer_overflow_attack.Kalloc.{Outcome, ok, panic, ◌>>=◌}

-- The fields of `struct cpu` and the interrupt flag of the processor.
pub record Cpu : Type 0 where
  pub ncli : ℕ
  pub intena : Bool
  pub flag_if : Bool

-- `struct spinlock`, less its names for debugging.
pub record Spinlock : Type 0 where
  pub locked : Bool
  pub cpu : Option ℕ

abbrev pub initlock : Spinlock
initlock = record { locked = false; cpu = none }

unfoldable pub pushcli : Cpu → Cpu
pushcli c = record {
  ncli = c.ncli + 1;
  intena = if c.ncli == 0 then c.flag_if else c.intena;
  flag_if = false;
}

unfoldable pub popcli : Cpu → Outcome Cpu
popcli c =
    if c.flag_if
    then panic
    else if c.ncli == 0
    then panic
    else ok (record c {
      ncli = c.ncli - 1;
      flag_if = if c.ncli - 1 == 0 && c.intena then true else c.flag_if;
    })

abbrev pub is_cpu : ℕ → Option ℕ → Bool
is_cpu me none = false
is_cpu me (some i) = i == me

-- The value of `holding` on processor `me`.
abbrev pub test_holding : ℕ → Spinlock → Bool
test_holding me lk = lk.locked && is_cpu me lk.cpu

unfoldable pub holding : ℕ → Spinlock → Cpu → Outcome (Bool × Cpu)
unfolding pushcli popcli
holding me lk c = do c' ← popcli (pushcli c); ok (test_holding me lk, c')

abbrev pub take_free : ℕ → Spinlock → Bool × Cpu → Outcome (Option (Spinlock × Cpu))
take_free me lk (held, c) =
    if held
    then panic
    else if lk.locked
    then ok none
    else ok (some (record { locked = true; cpu = some me }, c))

-- One look of `acquire` at the lock: `none` is another round of the spin, with interrupts off.
unfoldable pub acquire : ℕ → Spinlock → Cpu → Outcome (Option (Spinlock × Cpu))
unfolding pushcli holding
acquire me lk c = holding me lk (pushcli c) >>= take_free me lk

abbrev pub give_back : Bool × Cpu → Outcome (Spinlock × Cpu)
give_back (held, c) = if held then (popcli c >>= λ c'. ok (initlock, c')) else panic

unfoldable pub release : ℕ → Spinlock → Cpu → Outcome (Spinlock × Cpu)
unfolding holding popcli
release me lk c = holding me lk c >>= give_back
