-- ===== src/Tests/LockTests.antt =====
-- Runs of the locks of xv6/spinlock.c.
use buffer_overflow_attack.Base.{arith, false, refl, true, ◌≡◌}
use buffer_overflow_attack.Lock.{Cpu, initlock}
use buffer_overflow_attack.Lock.Nest.{IsCpu}
use buffer_overflow_attack.Lock.Exclusion.{
  Reachable, World, begin, enter, exchange, holds_lock, mutual_exclusion, next, outside, put_pc,
  spinning, xchg,
}

abbrev at_work : Cpu
at_work = record { ncli = 0; intena = false; flag_if = true }

at_work-IsCpu : IsCpu at_work
at_work-IsCpu = record { off = λ ne. absurd (ne refl) }

abbrev start : World
start = record { lk = initlock; pc = λ i. outside }

abbrev both_spin : World
both_spin = record { lk = initlock; pc = put_pc (put_pc start.pc 1 spinning) 2 spinning }

-- Processor 2 is in the loop while processor 1 holds the lock.
abbrev contended : World
contended = exchange 2 (exchange 1 both_spin)

contended-Reachable : Reachable contended
contended-Reachable =
    let two = next (next begin (enter start 1 refl refl)) (enter _ 2 refl refl) in
    next (next two (xchg both_spin 1 refl)) (xchg (exchange 1 both_spin) 2 refl)

mutual_exclusion_example : holds_lock (contended.pc 2) ≡ false
mutual_exclusion_example = mutual_exclusion contended 1 2 contended-Reachable (omega arith) refl
