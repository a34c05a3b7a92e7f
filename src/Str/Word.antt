-- ===== src/Str/Word.antt =====
-- Words in memory: what a store of a word leaves.
use buffer_overflow_attack.Base.{ap, arith, ℕ, ◌%◌, ◌+◌, ◌/◌, ◌<◌, ◌^◌, ◌∙◌, ◌≡◌, ◌≤◌, ◌⊎◌}
use buffer_overflow_attack.Str.{Memory, write_word, word_at}

-- A word reads back as it was stored.
pub word_at-write_word : (m : Memory) (a v : ℕ) → v < 2 ^ 32 → word_at (write_word m a v) a ≡ v
unfolding word_at write_word
word_at-write_word m a v h =
    let m' = write_word m a v in
    let e0 : m' a ≡ v % 256 = ground arith in
    let e1 : m' (a + 1) ≡ v / 2 ^ 8 % 256 = ground arith in
    let e2 : m' (a + 2) ≡ v / 2 ^ 16 % 256 = ground arith in
    let e3 : m' (a + 3) ≡ v / 2 ^ 24 % 256 = ground arith in omega arith

-- A store of a word changes no byte outside of it.
pub write_word-outside : (m : Memory) (a v x : ℕ) → (x < a) ⊎ (a + 4 ≤ x) → write_word m a v x ≡ m x
unfolding write_word
write_word-outside m a v x out = ground arith

pub word_at-congr :
    (m m' : Memory) (a : ℕ)
    → ((i : ℕ) → i < 4 → m' (a + i) ≡ m (a + i))
    → word_at m' a ≡ word_at m a
unfolding word_at
word_at-congr m m' a same =
    let e0 : m' a ≡ m a = ap m' (omega arith) ∙ same 0 (omega arith) ∙ ap m (omega arith) in
    omega (arith, same 1 (omega arith), same 2 (omega arith), same 3 (omega arith))

-- Stores of words that do not overlap leave one another alone.
pub word_at-write_word_ne :
    (m : Memory) (a v b : ℕ)
    → (b + 4 ≤ a) ⊎ (a + 4 ≤ b)
    → word_at (write_word m a v) b ≡ word_at m b
word_at-write_word_ne m a v b apart =
    word_at-congr m (write_word m a v) b λ i lt. write_word-outside m a v (b + i) (omega arith)
