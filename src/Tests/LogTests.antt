-- ===== src/Tests/LogTests.antt =====
-- Runs of the log of xv6/log.c.
use buffer_overflow_attack.Base.{
  List, [], arith, false, if◌then◌else◌, inr, refl, suc, zero, ℕ, ◌-ℤ◌, ◌==◌, ◌∷◌, ◌≡◌,
}
use buffer_overflow_attack.Kalloc.{ok, panic}
use buffer_overflow_attack.Log.{Block, LogState, Store, absorb, begin_op, commit, log_write, reboot}
use buffer_overflow_attack.Log.Reserve.{Reachable, begins, booted, log_write_room, stepped}
use buffer_overflow_attack.Log.Crash.{IsOpen, crash_atomic, reboots}

-- Block 40 has been changed in its buffer; the power fails behind the write of the header.
abbrev changed : ℕ → Block
changed x = if x == 40 then (λ w. 7) else (λ w. 0)

abbrev before : Store
before = record { disk = λ x w. 0; cached = changed; power = 2 }

before-IsOpen : IsOpen 2 30 (40 ∷ []) before
before-IsOpen = record {
  homes = (inr (omega arith), tt);
  fits = omega arith;
  clear = refl;
  clean = λ x hx is_out. let other : (x == 40) ≡ false = ground arith in rw other refl;
}

crash_atomic_example :
    reboot 2 5 (reboots 2 (1 ∷ 0 ∷ []) (commit 2 (40 ∷ []) before).disk) 40 ≡ changed 40
crash_atomic_example =
    crash_atomic 2 30 (40 ∷ []) before (1 ∷ 0 ∷ []) 5 40 before-IsOpen (omega arith)
      (inr (omega arith))

abbrev one_call : LogState
one_call = record { outstanding = 1; committing = false; lh = [] }

one_call-Reachable : Reachable 30 one_call (9 ∷ [])
unfolding begin_op
one_call-Reachable = stepped booted (begins _ one_call [] refl)

log_write_room_example : log_write 30 1 45 [] ≡ ok (absorb 45 [])
log_write_room_example =
    log_write_room 30 one_call (9 ∷ []) 45 one_call-Reachable (omega arith) (omega arith)

-- The log of mkfs.c has 30 blocks, and its last entry is refused.
abbrev entries : ℕ → List ℕ
entries zero = []
entries (suc n) = n ∷ entries n

refused_entry : log_write 30 3 100 (entries 29) ≡ panic
unfolding log_write ◌-ℤ◌
refused_entry = refl
