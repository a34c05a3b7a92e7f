-- ===== src/Base/Bits.antt =====
-- Single bits of a number, and the numbers with a bit set or cleared.
use Prim.Native.Nat.{ℕ, zero, suc, ◌+◌, ◌-◌, ◌/◌, ◌%◌, ◌^◌, ◌≤◌}
use mathlib.Core.Path.{◌≡◌, refl, sym, ap, ◌∙◌}
use mathlib.Core.Logic.{◌≢◌}
use native.Mathlib.Omega.{arith}
use native.Mathlib.Nat.{div-div-eq-div-mul, pow-succ'}

-- Bit `i` of `x`.
unfoldable pub bit : ℕ → ℕ → ℕ
bit x i = x / 2 ^ i % 2

bit-suc : (x i : ℕ) → bit x (suc i) ≡ bit (x / 2) i
unfolding bit
bit-suc x i = rw (pow-succ' 2 i) (ap (λ q. q % 2) (sym (div-div-eq-div-mul x 2 (2 ^ i))))

bit-zero : (x : ℕ) → bit x 0 ≡ x % 2
unfolding bit
bit-zero x = omega arith

half-add : (x i : ℕ) → (x + 2 ^ suc i) / 2 ≡ x / 2 + 2 ^ i
half-add x i = rw (pow-succ' 2 i) (omega arith)

pub bit-add_self : (x i : ℕ) → bit x i ≡ 0 → bit (x + 2 ^ i) i ≡ 1
bit-add_self x zero h = let e = bit-zero x in bit-zero (x + 2 ^ 0) ∙ omega arith
bit-add_self x (suc i) h =
    bit-suc (x + 2 ^ suc i) i
    ∙ ap (λ y. bit y i) (half-add x i)
    ∙ bit-add_self (x / 2) i (sym (bit-suc x i) ∙ h)

pub bit-add_other : (x i j : ℕ) → bit x i ≡ 0 → i ≢ j → bit (x + 2 ^ i) j ≡ bit x j
bit-add_other x zero zero h ne = absurd (ne refl)
bit-add_other x zero (suc j) h ne =
    let even = bit-zero x in
    bit-suc (x + 2 ^ 0) j ∙ ap (λ y. bit y j) (omega arith) ∙ sym (bit-suc x j)
bit-add_other x (suc i) zero h ne =
    let e = pow-succ' 2 i in bit-zero (x + 2 ^ suc i) ∙ omega arith ∙ sym (bit-zero x)
bit-add_other x (suc i) (suc j) h ne =
    bit-suc (x + 2 ^ suc i) j
    ∙ ap (λ y. bit y j) (half-add x i)
    ∙ bit-add_other (x / 2) i j (sym (bit-suc x i) ∙ h) (λ e. ne (ap suc e))
    ∙ sym (bit-suc x j)

-- A number whose bit is set is what adding the bit made of the number without it.
pub bit-split : (x i : ℕ) → bit x i ≡ 1 → (2 ^ i ≤ x) × (bit (x - 2 ^ i) i ≡ 0)
bit-split x zero h = let e = bit-zero x in (omega arith, bit-zero (x - 2 ^ 0) ∙ omega arith)
bit-split x (suc i) h =
    let (le, clear) = bit-split (x / 2) i (sym (bit-suc x i) ∙ h) in
    let double = pow-succ' 2 i in
    let half : (x - 2 ^ suc i) / 2 ≡ x / 2 - 2 ^ i = omega arith in
    (omega arith, bit-suc (x - 2 ^ suc i) i ∙ ap (λ y. bit y i) half ∙ clear)
