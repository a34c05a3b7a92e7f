-- ===== src/Str/Fill.antt =====
-- `memset` of xv6/string.c: what it writes, on its word path and on its byte path.

use buffer_overflow_attack.Base.{
  arith, if◌then◌else◌, passes, passes-lt, refl, suc, true, zero, ℕ, ◌%◌, ◌&&◌, ◌*◌, ◌+◌, ◌/◌, ◌<◌,
  ◌==◌, ◌^◌, ◌≡◌,
}
use buffer_overflow_attack.Str.{Memory, write, in_range, stosb, write_word, stosl, spread, memset}

stosb-fill :
    (m : Memory) (a v n x : ℕ) → stosb m a v n x ≡ (if in_range a n x then v % 256 else m x)
unfolding stosb write
stosb-fill m a v zero x = ground arith
stosb-fill m a v (suc n) x = ground (arith, stosb-fill (write m a (v % 256)) (a + 1) v n x)

write_word-fill :
    (m : Memory) (a v c x : ℕ)
    → v % 256 ≡ c
    → v / 2 ^ 8 % 256 ≡ c
    → v / 2 ^ 16 % 256 ≡ c
    → v / 2 ^ 24 % 256 ≡ c
    → write_word m a v x ≡ (if in_range a 4 x then c else m x)
unfolding write_word
write_word-fill m a v c x e0 e1 e2 e3 = ground arith

stosl-fill :
    (m : Memory) (a v c n x : ℕ)
    → v % 256 ≡ c
    → v / 2 ^ 8 % 256 ≡ c
    → v / 2 ^ 16 % 256 ≡ c
    → v / 2 ^ 24 % 256 ≡ c
    → stosl m a v n x ≡ (if in_range a (4 * n) x then c else m x)
unfolding stosl
stosl-fill m a v c zero x e0 e1 e2 e3 = ground arith
stosl-fill m a v c (suc n) x e0 e1 e2 e3 =
    ground (arith, stosl-fill (write_word m a v) (a + 4) v c n x, write_word-fill m a v c x)

spread-table :
    passes
      (λ c.
        spread c % 256 == c
        && spread c / 2 ^ 8 % 256 == c
        && spread c / 2 ^ 16 % 256 == c
        && spread c / 2 ^ 24 % 256 == c)
      256
    ≡ true
unfolding passes spread
spread-table = refl

spread-bytes :
    (c : ℕ)
    → c < 256
    → (spread c % 256 ≡ c)
      × (spread c / 2 ^ 8 % 256 ≡ c)
      × (spread c / 2 ^ 16 % 256 ≡ c)
      × (spread c / 2 ^ 24 % 256 ≡ c)
spread-bytes c h = let p = passes-lt _ 256 c spread-table h in ground arith

-- `memset` sets exactly the bytes from `dst` up to `dst + n` to the low byte of `c`, and leaves
-- every other byte, whether it stores words or bytes.
pub memset-fill :
    (m : Memory) (dst c n x : ℕ) → memset m dst c n x ≡ (if in_range dst n x then c % 256 else m x)
unfolding memset
memset-fill m dst c n x =
    let p = spread-bytes (c % 256) (omega arith) in
    ground (
      arith,
      stosb-fill m dst c n x,
      stosl-fill m dst (spread (c % 256)) (c % 256) (n / 4) x p.0 p.1 p.2 p.3,
    )
