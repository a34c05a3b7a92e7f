-- ===== src/Proc/Policy/Rate.antt =====
-- `change_rate` of xv6/proc.c: the priority that a rate gets.
use buffer_overflow_attack.Base.{
  ==ℤ_iff, ap, arith, get_elem?, get_elem?-modify_ne, get_elem?-modify_self, if◌then◌else◌,
  int_of_word, leb, passes, passes-lt, pos, quot, refl, some, true, word_of_int, wrap, ℕ, ℤ, ◌*ℤ◌,
  ◌-ℤ◌, ◌==ℤ◌, ◌==◌, ◌||◌, ◌∙◌, ◌≡◌, ◌≢◌, ◌≤◌,
}
use buffer_overflow_attack.Proc.{Proc, Kernel}
use buffer_overflow_attack.Proc.Policy.{priority_of, change_rate}
use buffer_overflow_attack.Proc.Table.{First, on_pid-First}

-- The bands of the rates from 1 to 30.
unfoldable pub band : ℕ → ℤ
band rate = if leb 21 rate then pos 1 else if leb 11 rate then pos 2 else pos 3

band-table : passes (λ r. r == 0 || priority_of (pos r) ==ℤ band r) 31 ≡ true
unfolding passes priority_of band wrap quot int_of_word word_of_int ◌*ℤ◌ ◌-ℤ◌
band-table = refl

-- `change_rate` to a rate from 1 to 30 gives the first process with the pid the priority of the
-- rate's band: 1 from 21 on, 2 from 11 to 20, 3 below; no other slot changes.
change_rate-band :
    (pid : ℤ) (rate : ℕ) (k : Kernel) (i : ℕ) (p : Proc)
    → First pid k.procs i p
    → 1 ≤ rate
    → rate ≤ 30
    → let (r, k') = change_rate pid (pos rate) k in
      (r ≡ pos 0)
      × (get_elem? k'.procs i ≡ some (record p { rate = pos rate; priority = band rate }))
      × ((j : ℕ) → i ≢ j → get_elem? k'.procs j ≡ get_elem? k.procs j)
unfolding change_rate
change_rate-band pid rate k i p h lo hi =
    let t = passes-lt _ 31 rate band-table (omega arith) in
    let e : priority_of (pos rate) ≡ band rate =
      (==ℤ_iff (priority_of (pos rate)) (band rate)).0 (ground arith) in
    let g = λ (q : Proc). record q { rate = pos rate; priority = priority_of (pos rate) } in
    rw (change_rate, on_pid-First pid g k.procs i p h)
      (
        refl,
        get_elem?-modify_self k.procs i g p h.at
            ∙ ap (λ (z : ℤ). some (record p { rate = pos rate; priority = z })) e,
        λ j ne. get_elem?-modify_ne k.procs i j g ne,
      )

-- Every rate from 31 to 7000000 gets priority 3, the priority of the rates from 1 to 10.
priority_of_fast :
    (rate : ℕ)
    → 31 ≤ rate
    → rate ≤ 7000000
    → (priority_of (pos rate) ≡ pos 3) × (band 1 ≡ pos 3) × (band 10 ≡ pos 3)
unfolding priority_of band wrap quot int_of_word word_of_int ◌*ℤ◌ ◌-ℤ◌
priority_of_fast rate lo hi = (ground arith, refl, refl)
