-- ===== src/Aslr.antt =====
-- The load offset of xv6/exec.c: the generator, the draw and what `exec` does with it.
use buffer_overflow_attack.Base.{
  Bool, Bool-cases, Option, arith, bit_and, bit_xor, false, if◌then◌else◌, inl, inr, int_of_word,
  ltb_ℤ, neg_part, none, pos, pos_part, refl, some, true, word_of_int, wrap, ℕ, ℤ, ◌%◌, ◌*◌, ◌+ℤ◌,
  ◌+◌, ◌-ℤ◌, ◌-◌, ◌/◌, ◌<ℤ◌, ◌<◌, ◌==◌, ◌^◌, ◌||◌, ◌≡◌, ◌≢◌, ◌≤ℤ◌, ◌≤◌, ◌⊎◌,
}

-- `uint` shifts.
abbrev pub shl : ℕ → ℕ → ℕ
shl x k = x * 2 ^ k % 2 ^ 32

abbrev pub shr : ℕ → ℕ → ℕ
shr x k = x / 2 ^ k

-- The static variables of `random`.
pub record Rng : Type 0 where
  pub z1 : ℕ
  pub z2 : ℕ
  pub z3 : ℕ
  pub z4 : ℕ

abbrev pub boot_rng : Rng
boot_rng = record { z1 = 12345; z2 = 12345; z3 = 12345; z4 = 12345 }

-- One of the four updates of `random`.
unfoldable pub advance : ℕ → ℕ → ℕ → ℕ → ℕ → ℕ
advance z a b mask c = bit_xor (shl (bit_and z mask) c) (shr (bit_xor (shl z a) z) b)

unfoldable pub random : Rng → ℕ × Rng
unfolding advance
random r =
    let z1 = advance r.z1 6 13 4294967294 18 in
    let z2 = advance r.z2 2 27 4294967288 2 in
    let z3 = advance r.z3 13 21 4294967280 7 in
    let z4 = advance r.z4 3 12 4294967168 13 in
    (bit_xor (bit_xor (bit_xor z1 z2) z3) z4 / 2, record { z1 = z1; z2 = z2; z3 = z3; z4 = z4 })

-- `lo` and `hi` in order.
unfoldable pub ordered : ℤ → ℤ → ℤ × ℤ
ordered lo hi = if ltb_ℤ hi lo then (hi, lo) else (lo, hi)

-- The draw from a random word: the sum is in `uint`, and `none` is a division by zero.
unfoldable pub draw : ℕ → ℤ → ℤ → Option ℤ
draw x lo hi =
    let range = word_of_int (wrap (wrap (hi -ℤ lo) +ℤ pos 1)) in
    if range == 0 then none else some (int_of_word ((x % range + word_of_int lo) % 2 ^ 32))

unfoldable pub randomnumber : Rng → ℤ → ℤ → Option ℤ × Rng
unfolding ordered draw random
randomnumber r lo hi =
    let (lo', hi') = ordered lo hi in let (x, r') = random r in (draw x lo' hi', r')

-- The block of `exec` behind "RANDOMNESS IS COMING FROM HERE!". The shift is of an `int`.
unfoldable pub ld_offset : Bool → ℕ → Rng → Option ℕ × Rng
unfolding randomnumber
ld_offset aslr_flag pid r =
    if aslr_flag
    then (let (n, r') = randomnumber r (pos 1) (pos 7) in
        (
          elim n [
            | none ↦ none
            | some k ↦ some (if pid == 1 || pid == 2 then 0 else word_of_int k * 2 ^ 12 % 2 ^ 32)
          ],
          r',
        ))
    else (some 0, r)

abbrev pub IsInt : ℤ → Type 0
IsInt a = (pos_part a < 2 ^ 31) × (neg_part a ≤ 2 ^ 31)

-- The number of values from `lo` to `hi`, as `range` has it.
range_lem :
    (lo hi : ℤ)
    → lo ≤ℤ hi
    → hi <ℤ lo +ℤ pos (2 ^ 31 - 1)
    → word_of_int (wrap (wrap (hi -ℤ lo) +ℤ pos 1)) ≡ pos_part (hi -ℤ lo) + 1
unfolding wrap int_of_word word_of_int ◌+ℤ◌ ◌-ℤ◌
range_lem lo hi le room = ground arith

-- The unsigned sum of an `int` and a small number is the `int`.
word_sum :
    (lo : ℤ) (j : ℕ)
    → IsInt lo
    → IsInt (lo +ℤ pos j)
    → int_of_word ((j + word_of_int lo) % 2 ^ 32) ≡ lo +ℤ pos j
unfolding int_of_word word_of_int ◌+ℤ◌
word_sum lo j il is = ground arith

draw_bounds :
    (x : ℕ) (lo hi : ℤ)
    → IsInt lo
    → IsInt hi
    → lo ≤ℤ hi
    → hi <ℤ lo +ℤ pos (2 ^ 31 - 1)
    → (k : ℤ) × (draw x lo hi ≡ some k) × (lo ≤ℤ k) × (k ≤ℤ hi)
unfolding draw
draw_bounds x lo hi il ih le room =
    let j = x % (pos_part (hi -ℤ lo) + 1) in
    let small : j ≤ pos_part (hi -ℤ lo) = omega arith in
    (
      lo +ℤ pos j,
      rw (range_lem lo hi le room)
          (ground (arith, word_sum lo j il (unfold ◌+ℤ◌ ◌-ℤ◌ in ground arith))),
      unfold ◌+ℤ◌ in ground arith,
      unfold ◌+ℤ◌ ◌-ℤ◌ in ground arith,
    )

-- `randomnumber` of two `int`s returns a number from the smaller to the larger of them, in either
-- order, if they are less than 2^31 - 1 apart.
randomnumber_bounds :
    (r : Rng) (lo hi : ℤ)
    → IsInt lo
    → IsInt hi
    → hi <ℤ lo +ℤ pos (2 ^ 31 - 1)
    → lo <ℤ hi +ℤ pos (2 ^ 31 - 1)
    → (k : ℤ) × ((randomnumber r lo hi).0 ≡ some k)
      × ((ordered lo hi).0 ≤ℤ k)
      × (k ≤ℤ (ordered lo hi).1)
unfolding randomnumber ordered
randomnumber_bounds r lo hi il ih room room' = elim (Bool-cases (ltb_ℤ hi lo)) [
  | inl swap ↦ rw swap (draw_bounds (random r).0 hi lo ih il (ground arith) room')
  | inr keep ↦ rw keep (draw_bounds (random r).0 lo hi il ih (ground arith) room)
]

-- The offset is 0 with the flag off and for the first two processes, and otherwise one of the
-- seven page-aligned values from 0x1000 to 0x7000; the draw never divides by zero.
ld_offset_range :
    (aslr_flag : Bool) (pid : ℕ) (r : Rng)
    → (off : ℕ) × ((ld_offset aslr_flag pid r).0 ≡ some off)
      × ((aslr_flag ≡ false) ⊎ (pid ≡ 1) ⊎ (pid ≡ 2) → off ≡ 0)
      × (aslr_flag ≡ true → pid ≢ 1 → pid ≢ 2 → (k : ℕ) × (1 ≤ k) × (k ≤ 7) × (off ≡ k * 4096))
unfolding ld_offset randomnumber ordered draw wrap int_of_word word_of_int ◌+ℤ◌ ◌-ℤ◌
ld_offset_range false pid r = (0, refl, λ h. refl, λ e. cc)
ld_offset_range true pid r =
    let x = (random r).0 in
    let big : int_of_word ((x % 7 + 1) % 2 ^ 32) ≡ pos (x % 7 + 1) = ground arith in
    elim (Bool-cases (pid == 1 || pid == 2)) [
      | inl early ↦ (0, rw early, λ h. refl, λ e n1 n2. absurd (ground arith))
      | inr late ↦ (
        (x % 7 + 1) * 4096,
        rw late (ground arith),
        λ h. absurd (ground arith),
        λ e n1 n2. (x % 7 + 1, omega arith, omega arith, refl),
      )
    ]
