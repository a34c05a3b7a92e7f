-- ===== src/Str/Text.antt =====
-- NUL-terminated texts in memory, and what `strlen` finds of them.
use buffer_overflow_attack.Base.{
  ap, arith, false, refl, some, suc, zero, ℕ, ◌+◌, ◌<◌, ◌∙◌, ◌≡◌, ◌≢◌, ◌≤◌, ◌⊎◌,
}
use buffer_overflow_attack.Str.{Memory, write, IsText, nul_before, strlen_from, strlen}

-- The text behind the first byte of a text.
pub IsText-tail : {m : Memory} {a : ℕ} (len : ℕ) → IsText m a (suc len) → IsText m (a + 1) len
IsText-tail {m} {a} len h = record {
  chars = λ i lt. λ e. h.chars (suc i) (omega arith) (ap m (omega arith) ∙ e);
  ends = ap m (omega arith) ∙ h.ends;
}

pub IsText-head : {m : Memory} {a : ℕ} (len : ℕ) → IsText m a (suc len) → m a ≢ 0
IsText-head {m} {a} len h e = h.chars 0 (omega arith) (ap m (omega arith) ∙ e)

pub IsText-cons :
    {m : Memory} {a : ℕ} (len : ℕ) → m a ≢ 0 → IsText m (a + 1) len → IsText m a (suc len)
IsText-cons {m} {a} len ne h = record { chars = chars; ends = ap m (omega arith) ∙ h.ends }
  where
    chars : (i : ℕ) → i < suc len → m (a + i) ≢ 0
    chars zero lt e = ne (ap m (omega arith) ∙ e)
    chars (suc i) lt e = h.chars i (omega arith) (ap m (omega arith) ∙ e)

pub IsText-nil : {m : Memory} {a : ℕ} → IsText m a 0 → m a ≡ 0
IsText-nil {m} {a} h = ap m (omega arith) ∙ h.ends

-- A text survives a write outside of it.
pub IsText-write :
    {m : Memory} {a : ℕ} (len b v : ℕ)
    → (b < a) ⊎ (a + len < b)
    → IsText m a len
    → IsText (write m b v) a len
unfolding write
IsText-write {m} {a} len b v apart h = record {
  chars = λ i lt. λ e. h.chars i lt (ground arith);
  ends = ground (arith, h.ends);
}

strlen_from-IsText :
    (fuel : ℕ) {m : Memory} {s : ℕ} (len n k : ℕ)
    → IsText m s len
    → n + k ≡ len
    → k < fuel
    → strlen_from fuel m s n ≡ some len
unfolding strlen_from
strlen_from-IsText zero len n k h e f = absurd (omega arith)
strlen_from-IsText (suc fuel) {m} {s} len n zero h e f =
    let p : m (s + n) ≡ 0 = ap m (omega arith) ∙ h.ends in ground arith
strlen_from-IsText (suc fuel) {m} {s} len n (suc k) h e f = ground (
  arith,
  h.chars n (omega arith),
  strlen_from-IsText fuel len (n + 1) k h (omega arith) (omega arith),
)

-- On a text `strlen` ends with its length, in one more round than the text has bytes.
pub strlen-IsText :
    (fuel : ℕ) {m : Memory} {s : ℕ} (len : ℕ)
    → IsText m s len
    → len < fuel
    → strlen fuel m s ≡ some len
unfolding strlen
strlen-IsText fuel len h f = strlen_from-IsText fuel len 0 len h (omega arith) f

-- In a text of `len` bytes no NUL stands before `len`.
pub nul_before-IsText :
    {m : Memory} (len i : ℕ) {a : ℕ} → IsText m a len → i ≤ len → nul_before m a i ≡ false
unfolding nul_before
nul_before-IsText len zero h lt = refl
nul_before-IsText zero (suc i) h lt = absurd (omega arith)
nul_before-IsText (suc len) (suc i) h lt =
    ground (arith, IsText-head len h, nul_before-IsText len i (IsText-tail len h) (omega arith))
