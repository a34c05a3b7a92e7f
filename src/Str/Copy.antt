-- ===== src/Str/Copy.antt =====
-- The copies of texts: `strcpy`, which knows no bound, `strncpy` and `safestrcpy`, which do.
use buffer_overflow_attack.Base.{
  ==_iff, Bool-cases, ap, arith, if◌then◌else◌, inl, inr, ltb, min, pos, refl, some, suc, zero, ℕ,
  ◌&&◌, ◌+◌, ◌-◌, ◌<◌, ◌==◌, ◌∙◌, ◌≡◌, ◌≢◌, ◌≤◌, ◌⊎◌,
}
use buffer_overflow_attack.Str.{
  Memory, write, in_range, copy_up, strcpy, zero_fill, strncpy_loop, strncpy, safestrcpy_loop,
  safestrcpy, IsText, nul_before,
}
use buffer_overflow_attack.Str.Move.{copied, copy_up-copied}
use buffer_overflow_attack.Str.Text.{IsText-tail, IsText-head, IsText-nil, IsText-write}

strcpy-copy_up :
    (fuel : ℕ) {m : Memory} {t : ℕ} (s len : ℕ)
    → IsText m t len
    → (s ≤ t) ⊎ (t + len < s)
    → len < fuel
    → strcpy fuel m s t ≡ some (copy_up m s t (suc len))
unfolding strcpy copy_up
strcpy-copy_up zero s len h apart f = absurd (omega arith)
strcpy-copy_up (suc fuel) s zero h apart f = ground (arith, IsText-nil h)
strcpy-copy_up (suc fuel) {m} {t} s (suc len) h apart f = ground (
  arith,
  IsText-head len h,
  strcpy-copy_up fuel {m = write m s (m t)} {t = t + 1} (s + 1) len
      (IsText-write len s (m t) (omega arith) (IsText-tail len h)) (omega arith) (omega arith),
)

-- `strcpy` of a text of `len` bytes ends, and writes all `len + 1` of them from `s` on, however
-- small the room there is; it writes nothing else. (The text does not lie over the target.)
pub strcpy-copied :
    (fuel : ℕ) {m : Memory} {t : ℕ} (s len : ℕ)
    → IsText m t len
    → (s ≤ t) ⊎ (t + len < s)
    → len < fuel
    → (m' : Memory) × (strcpy fuel m s t ≡ some m') × ((x : ℕ) → m' x ≡ copied m s t (suc len) x)
strcpy-copied fuel {m} {t} s len h apart f = (
  copy_up m s t (suc len),
  strcpy-copy_up fuel s len h apart f,
  λ x. copy_up-copied m s t (suc len) x (omega arith),
)

zero_fill_lem : (m : Memory) (s n x : ℕ) → zero_fill m s n x ≡ (if in_range s n x then 0 else m x)
unfolding zero_fill write
zero_fill_lem m s zero x = ground arith
zero_fill_lem m s (suc n) x = ground (arith, zero_fill_lem (write m s 0) (s + 1) n x)

nul_before-congr :
    (m m' : Memory) (a n : ℕ)
    → ((x : ℕ) → a ≤ x → x < a + n → m' x ≡ m x)
    → nul_before m' a n ≡ nul_before m a n
unfolding nul_before
nul_before-congr m m' a zero same = refl
nul_before-congr m m' a (suc n) same = ground (
  arith,
  same a (omega arith) (omega arith),
  nul_before-congr m m' (a + 1) n (λ x lo hi. same x (omega arith) (omega arith)),
)

-- What `strncpy` leaves at offset `i` of its target: the text, then zeros.
unfoldable pub padded : Memory → ℕ → ℕ → ℕ
padded m t i = if nul_before m t i then 0 else m (t + i)

nul_before-suc :
    (m : Memory) (t i j : ℕ) → m t ≢ 0 → i ≡ suc j → nul_before m t i ≡ nul_before m (t + 1) j
unfolding nul_before
nul_before-suc m t i j ne e = rw e (ground arith)

padded-zero : (m : Memory) (t i : ℕ) → i ≡ 0 → padded m t i ≡ m t
unfolding padded nul_before
padded-zero m t i e = rw e (ap m (omega arith))

padded-nul : (m : Memory) (t i : ℕ) → m t ≡ 0 → padded m t i ≡ 0
unfolding padded nul_before
padded-nul m t zero e = ap m (omega arith) ∙ e
padded-nul m t (suc i) e = ground arith

-- How a step of the copy loop moves `padded` along.
padded-step :
    (m : Memory) (s t n i j : ℕ)
    → (s ≤ t) ⊎ (t + n < s)
    → m t ≢ 0
    → i ≡ suc j
    → i < suc n
    → padded (write m s (m t)) (t + 1) j ≡ padded m t i
unfolding padded write
padded-step m s t n i j apart ne e hi =
    let m' = write m s (m t) in
    let e1 = nul_before-congr m m' (t + 1) j (λ x a b. ground arith) in
    let e2 = nul_before-suc m t i j ne e in
    let e3 : m (t + 1 + j) ≡ m (t + i) = ap m (omega arith) in
    let e4 : m' (t + 1 + j) ≡ m (t + 1 + j) = ground arith in ground arith

-- The loop's last round, at the NUL, and any other round.
nul-step :
    (m : Memory) (s t n x : ℕ)
    → m t ≡ 0
    → zero_fill (write m s (m t)) (s + 1) n x
      ≡ (if in_range s (suc n) x then padded m t (x - s) else m x)
unfolding write
nul-step m s t n x e =
    ground (arith, zero_fill_lem (write m s (m t)) (s + 1) n x, padded-nul m t (x - s) e)

more-step :
    (m : Memory) (s t n x r : ℕ)
    → (s ≤ t) ⊎ (t + suc n ≤ s)
    → m t ≢ 0
    → r ≡ (
        if in_range (s + 1) n x
        then padded (write m s (m t)) (t + 1) (x - (s + 1))
        else write m s (m t) x)
    → r ≡ (if in_range s (suc n) x then padded m t (x - s) else m x)
unfolding write
more-step m s t n x r apart ne h = elim (Bool-cases (x == s)) [
  | inl here ↦ ground (arith, padded-zero m t (x - s))
  | inr other ↦ ground (arith, padded-step m s t n (x - s) (x - (s + 1)) (omega arith) ne)
]

strncpy_loop-padded :
    (m : Memory) (s t n x : ℕ)
    → (s ≤ t) ⊎ (t + n ≤ s)
    → strncpy_loop m s t n x ≡ (if in_range s n x then padded m t (x - s) else m x)
unfolding strncpy_loop
strncpy_loop-padded m s t zero x apart = ground arith
strncpy_loop-padded m s t (suc n) x apart = elim (Bool-cases (m t == 0)) [
  | inl nul ↦ rw nul (nul-step m s t n x ((==_iff (m t) 0).0 nul))
  | inr more ↦ rw more (
      more-step m s t n x (strncpy_loop (write m s (m t)) (s + 1) (t + 1) n x) apart (ground arith)
        (strncpy_loop-padded (write m s (m t)) (s + 1) (t + 1) n x (omega arith)))
]

-- `strncpy` writes exactly `n` bytes: the text at `t` up to its NUL or up to `n` bytes, and zeros
-- behind it. (The source does not lie over the target.)
strncpy-padded :
    (m : Memory) (s t n x : ℕ)
    → (s ≤ t) ⊎ (t + n ≤ s)
    → strncpy m s t (pos n) x ≡ (if in_range s n x then padded m t (x - s) else m x)
unfolding strncpy
strncpy-padded m s t n x apart = strncpy_loop-padded m s t n x apart

-- What the loop of `safestrcpy` leaves at `x`, for a text of `len` bytes and `n` rounds.
abbrev cut : Memory → ℕ → ℕ → ℕ → ℕ → ℕ → ℕ
cut m s t n len x =
    if in_range s (min len n) x
    then m (t + (x - s))
    else if x == s + min len n
    then 0
    else if x == s + suc len && ltb len n
    then 0
    else m x

safestrcpy_loop-cut :
    (n : ℕ) {m : Memory} {t : ℕ} (s len x : ℕ)
    → IsText m t len
    → (s ≤ t) ⊎ (t + len < s)
    → safestrcpy_loop m s t n x ≡ cut m s t n len x
unfolding safestrcpy_loop write
safestrcpy_loop-cut zero {m} {t} s len x h apart =
    let e : min len 0 ≡ 0 = omega arith in ground arith
safestrcpy_loop-cut (suc n) {m} {t} s zero x h apart =
    let e : min 0 (suc n) ≡ 0 = omega arith in ground (arith, IsText-nil h)
safestrcpy_loop-cut (suc n) {m} {t} s (suc len) x h apart =
    let e : min (suc len) (suc n) ≡ suc (min len n) = omega arith in
    let m' = write m s (m t) in
    let h' = IsText-write len s (m t) (omega arith) (IsText-tail len h) in
    ground (
      arith,
      IsText-head len h,
      safestrcpy_loop-cut n {m = m'} {t = t + 1} (s + 1) len x h' (omega arith),
      λ (p : x ≡ s). ap m {x = t + (x - s)} {y = t} (omega arith),
      λ (p : s < x). ap m {x = t + 1 + (x - (s + 1))} {y = t + (x - s)} (omega arith),
    )

-- `safestrcpy` into `n > 0` bytes leaves a NUL-terminated text there, the longest prefix of the
-- source that fits, and writes nothing outside of the `n` bytes. (The source text does not lie
-- over the target.)
safestrcpy-IsText :
    {m : Memory} {t : ℕ} (s n len : ℕ)
    → IsText m t len
    → (s ≤ t) ⊎ (t + len < s)
    → 0 < n
    → IsText (safestrcpy m s t (pos n)) s (min len (n - 1))
      × ((i : ℕ) → i < min len (n - 1) → safestrcpy m s t (pos n) (s + i) ≡ m (t + i))
      × ((x : ℕ) → (x < s) ⊎ (s + n ≤ x) → safestrcpy m s t (pos n) x ≡ m x)
unfolding safestrcpy
safestrcpy-IsText {m} {t} s n len h apart some_room =
    let at = λ (x : ℕ). safestrcpy_loop-cut (n - 1) s len x h apart in
    let same =
      λ (i : ℕ) (lt : i < min len (n - 1)). ap m {x = t + (s + i - s)} {y = t + i} (omega arith) in
    (
      record {
        chars = λ i lt e. h.chars i (omega arith) (ground (arith, at (s + i), same i lt));
        ends = ground (arith, at (s + min len (n - 1)));
      },
      λ i lt. ground (arith, at (s + i), same i lt),
      λ x out. ground (arith, at x),
    )
