-- ===== src/Str/Compare.antt =====
-- The comparisons: `memcmp`, `strncmp` and `strcmp`.
use buffer_overflow_attack.Base.{
  Bool-cases, ap, arith, false, inl, inr, pos, refl, suc, zero, ℕ, ◌+◌, ◌<◌, ◌==◌, ◌↔◌, ◌∙◌, ◌≡◌,
}
use buffer_overflow_attack.Str.{Memory, memcmp, strncmp, nul_before}

memcmp-same :
    (m : Memory) (s t n : ℕ) → memcmp m s t n ≡ pos 0 → (i : ℕ) → i < n → m (s + i) ≡ m (t + i)
unfolding memcmp
memcmp-same m s t zero e i h = absurd (omega arith)
memcmp-same m s t (suc n) e zero h =
    let p : m (s + 0) ≡ m s = ap m (omega arith) in
    let q : m (t + 0) ≡ m t = ap m (omega arith) in ground arith
memcmp-same m s t (suc n) e (suc i) h =
    let p : m (s + suc i) ≡ m (s + 1 + i) = ap m (omega arith) in
    let q : m (t + suc i) ≡ m (t + 1 + i) = ap m (omega arith) in
    ground (
      arith,
      λ (e' : memcmp m (s + 1) (t + 1) n ≡ pos 0).
          memcmp-same m (s + 1) (t + 1) n e' i (omega arith),
    )

memcmp-zero :
    (m : Memory) (s t n : ℕ) → ((i : ℕ) → i < n → m (s + i) ≡ m (t + i)) → memcmp m s t n ≡ pos 0
unfolding memcmp
memcmp-zero m s t zero h = refl
memcmp-zero m s t (suc n) h =
    let p : m s ≡ m t = ap m (omega arith) ∙ h 0 (omega arith) ∙ ap m (omega arith) in
    let rest =
      memcmp-zero m (s + 1) (t + 1) n
        (λ i lt. ap m (omega arith) ∙ h (suc i) (omega arith) ∙ ap m (omega arith)) in
    ground arith

-- `memcmp` is zero exactly when the two ranges hold the same bytes.
pub memcmp-zero_iff :
    (m : Memory) (s t n : ℕ) → (memcmp m s t n ≡ pos 0) ↔ ((i : ℕ) → i < n → m (s + i) ≡ m (t + i))
memcmp-zero_iff m s t n = (memcmp-same m s t n, memcmp-zero m s t n)

strncmp-same :
    (m : Memory) (p q n : ℕ)
    → strncmp m p q n ≡ pos 0
    → (i : ℕ) → i < n
    → nul_before m p i ≡ false
    → m (p + i) ≡ m (q + i)
unfolding strncmp nul_before
strncmp-same m p q zero e i h b = absurd (omega arith)
strncmp-same m p q (suc n) e zero h b =
    let e1 : m (p + 0) ≡ m p = ap m (omega arith) in
    let e2 : m (q + 0) ≡ m q = ap m (omega arith) in ground arith
strncmp-same m p q (suc n) e (suc i) h b =
    let e1 : m (p + suc i) ≡ m (p + 1 + i) = ap m (omega arith) in
    let e2 : m (q + suc i) ≡ m (q + 1 + i) = ap m (omega arith) in
    ground (
      arith,
      λ (e' : strncmp m (p + 1) (q + 1) n ≡ pos 0). λ (b' : nul_before m (p + 1) i ≡ false).
          strncmp-same m (p + 1) (q + 1) n e' i (omega arith) b',
    )

strncmp-zero :
    (m : Memory) (p q n : ℕ)
    → ((i : ℕ) → i < n → nul_before m p i ≡ false → m (p + i) ≡ m (q + i))
    → strncmp m p q n ≡ pos 0
unfolding strncmp nul_before
strncmp-zero m p q zero h = refl
strncmp-zero m p q (suc n) h =
    let e : m p ≡ m q = ap m (omega arith) ∙ h 0 (omega arith) refl ∙ ap m (omega arith) in
    elim (Bool-cases (m p == 0)) [
      | inl nul ↦ ground arith
      | inr more ↦
          let rest = strncmp-zero m (p + 1) (q + 1) n (λ i lt b.
            ap m (omega arith) ∙ h (suc i) (omega arith) (ground arith) ∙ ap m (omega arith)) in
          ground arith
    ]

-- `strncmp` is zero exactly when the two agree at every offset below `n` up to the first NUL.
strncmp-zero_iff :
    (m : Memory) (p q n : ℕ)
    → (strncmp m p q n ≡ pos 0)
      ↔ ((i : ℕ) → i < n → nul_before m p i ≡ false → m (p + i) ≡ m (q + i))
strncmp-zero_iff m p q n = (strncmp-same m p q n, strncmp-zero m p q n)
