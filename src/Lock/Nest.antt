-- ===== src/Lock/Nest.antt =====
-- `pushcli` and `popcli` of xv6/spinlock.c nest, and so do the locks.
use buffer_overflow_attack.Base.{
  Bool, arith, false, if◌then◌else◌, none, refl, some, suc, true, zero, ℕ, ◌&&◌, ◌+◌, ◌-◌, ◌==◌,
  ◌≡◌, ◌≢◌,
}
use buffer_overflow_attack.Kalloc.{panic, ok}
use buffer_overflow_attack.Lock.{
  Cpu, Spinlock, initlock, is_cpu, pushcli, popcli, holding, acquire, release,
}

-- Interrupts are off inside of a pushcli.
pub record IsCpu (c : Cpu) : Type 0 where
  pub off : c.ncli ≢ 0 → c.flag_if ≡ false

pushcli-IsCpu : (c : Cpu) → IsCpu c → IsCpu (pushcli c)
unfolding pushcli
pushcli-IsCpu c h = record { off = λ ne. refl }

-- `c` behind a `pushcli` and a `popcli`: the outermost pair leaves `intena` as it set it.
abbrev pub remembered : Cpu → Cpu
remembered c = record c { intena = if c.ncli == 0 then c.flag_if else c.intena }

undone :
    (n : ℕ) (i f : Bool)
    → (n ≢ 0 → f ≡ false)
    → popcli (pushcli (record { ncli = n; intena = i; flag_if = f }))
      ≡ ok (remembered (record { ncli = n; intena = i; flag_if = f }))
unfolding pushcli popcli
undone zero i true h = refl
undone zero i false h = refl
undone (suc n) i true h = let e = h (ground arith) in cc
undone (suc n) i false h =
    let deep : (suc n + 1 == 0) ≡ false = ground arith in
    let deep' : (suc n == 0) ≡ false = ground arith in
    let back : suc n + 1 - 1 ≡ suc n = omega arith in rw (deep, back, deep') refl

-- A `popcli` undoes a `pushcli`: it never panics, and it restores the nesting depth and the
-- interrupt flag.
pub popcli-pushcli : (c : Cpu) → IsCpu c → popcli (pushcli c) ≡ ok (remembered c)
popcli-pushcli c h = undone c.ncli c.intena c.flag_if h.off

holding_lem :
    (me : ℕ) (lk : Spinlock) (c : Cpu)
    → IsCpu c
    → holding me lk c ≡ ok (lk.locked && is_cpu me lk.cpu, remembered c)
unfolding holding
holding_lem me lk c h = rw (holding, popcli-pushcli c h) refl

inside : (c : Cpu) → remembered (pushcli c) ≡ pushcli c
unfolding pushcli
inside c = let deep : (c.ncli + 1 == 0) ≡ false = ground arith in rw deep refl

-- `acquire` of a free lock and `release` of it succeed; the lock is free again, and the nesting
-- depth and the interrupt flag are as they were. In between the lock names its holder and
-- interrupts are off.
release-acquire :
    (me : ℕ) (lk : Spinlock) (c : Cpu)
    → IsCpu c
    → lk.locked ≡ false
    → (held : Spinlock) × (during : Cpu) × (acquire me lk c ≡ ok (some (held, during)))
      × (held ≡ record { locked = true; cpu = some me })
      × (during.flag_if ≡ false)
      × (release me held during ≡ ok (initlock, remembered c))
unfolding acquire release
release-acquire me lk c h free =
    let h' = pushcli-IsCpu c h in
    let mine : Spinlock = record { locked = true; cpu = some me } in
    let same : (me == me) ≡ true = ground arith in
    let look : holding me lk (pushcli c) ≡ ok (false, pushcli c) =
      rw (holding_lem me lk (pushcli c) h', free, inside c) refl in
    let look' : holding me mine (pushcli c) ≡ ok (true, pushcli c) =
      rw (holding_lem me mine (pushcli c) h', same, inside c) refl in
    (
      mine,
      pushcli c,
      rw (acquire, look, free) refl,
      refl,
      refl,
      rw (release, look', popcli-pushcli c h) refl,
    )

-- While a processor holds the lock, its own second `acquire` panics, an `acquire` by any other one
-- finds the lock taken and goes on spinning, and a `release` by any other one panics.
acquire-held :
    (me other : ℕ) (c : Cpu)
    → IsCpu c
    → other ≢ me
    → (acquire me (record { locked = true; cpu = some me }) c ≡ panic)
      × (acquire other (record { locked = true; cpu = some me }) c ≡ ok none)
      × (release other (record { locked = true; cpu = some me }) c ≡ panic)
unfolding acquire release
acquire-held me other c h ne =
    let h' = pushcli-IsCpu c h in
    let taken : Spinlock = record { locked = true; cpu = some me } in
    let same : (me == me) ≡ true = ground arith in
    let differs : (me == other) ≡ false = ground arith in
    let look : holding me taken (pushcli c) ≡ ok (true, pushcli c) =
      rw (holding_lem me taken (pushcli c) h', same, inside c) refl in
    let look' : holding other taken (pushcli c) ≡ ok (false, pushcli c) =
      rw (holding_lem other taken (pushcli c) h', differs, inside c) refl in
    let look'' : holding other taken c ≡ ok (false, remembered c) =
      rw (holding_lem other taken c h, differs) refl in
    (rw (acquire, look) refl, rw (acquire, look') refl, rw (release, look'') refl)
