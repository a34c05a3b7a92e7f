-- ===== src/Str.antt =====
-- xv6/string.c and the string functions of xv6/ulib.c over a byte-addressed memory.
-- An address is a number; a byte is a number that the code reads as `uchar`.
pub mod Fill
pub mod Move
pub mod Word
pub mod Text
pub mod Copy
pub mod Compare
use buffer_overflow_attack.Base.{
  Bool, Option, bit_or, false, if◌then◌else◌, leb, leb_ℤ, ltb, none, not, pos, pos_part, some,
  sub_ℕ, suc, zero, ℕ, ℤ, ◌%◌, ◌&&◌, ◌*◌, ◌+◌, ◌-◌, ◌/◌, ◌<◌, ◌==◌, ◌^◌, ◌||◌, ◌≡◌, ◌≢◌,
}

abbrev pub Memory : Type 0
Memory = ℕ → ℕ

-- A store of one byte.
unfoldable pub write : Memory → ℕ → ℕ → Memory
write m a v x = if x == a then v else m x

abbrev pub in_range : ℕ → ℕ → ℕ → Bool
in_range a n x = leb a x && ltb x (a + n)

-- `rep stosb`: `n` times the low byte of `v`, from `a` on.
unfoldable pub stosb : Memory → ℕ → ℕ → ℕ → Memory
stosb m a v zero = m
stosb m a v (suc n) = stosb (write m a (v % 256)) (a + 1) v n

-- A store of a 32-bit word, low byte first.
unfoldable pub write_word : Memory → ℕ → ℕ → Memory
unfolding write
write_word m a v =
    write (write (write (write m a (v % 256)) (a + 1) (v / 2 ^ 8 % 256)) (a + 2) (v / 2 ^ 16 % 256))
      (a + 3) (v / 2 ^ 24 % 256)

-- The 32-bit word at `a`, low byte first.
unfoldable pub word_at : Memory → ℕ → ℕ
word_at m a = m a + m (a + 1) * 2 ^ 8 + m (a + 2) * 2 ^ 16 + m (a + 3) * 2 ^ 24

-- `rep stosl`: `n` words.
unfoldable pub stosl : Memory → ℕ → ℕ → ℕ → Memory
stosl m a v zero = m
stosl m a v (suc n) = stosl (write_word m a v) (a + 4) v n

-- `(c<<24)|(c<<16)|(c<<8)|c` of the `memset` of string.c
unfoldable pub spread : ℕ → ℕ
spread c = bit_or (bit_or (bit_or (c * 2 ^ 24) (c * 2 ^ 16)) (c * 2 ^ 8)) c

-- `c` is the 32-bit pattern of the `int`.
unfoldable pub memset : Memory → ℕ → ℕ → ℕ → Memory
unfolding stosb stosl spread
memset m dst c n =
    if dst % 4 == 0 && n % 4 == 0 then stosl m dst (spread (c % 256)) (n / 4) else stosb m dst c n

-- The two loops of `memmove`: `*d++ = *s++` and `*--d = *--s`.
unfoldable pub copy_up : Memory → ℕ → ℕ → ℕ → Memory
copy_up m d s zero = m
copy_up m d s (suc n) = copy_up (write m d (m s)) (d + 1) (s + 1) n

unfoldable pub copy_down : Memory → ℕ → ℕ → ℕ → Memory
copy_down m d s zero = m
copy_down m d s (suc n) = copy_down (write m (d - 1) (m (s - 1))) (d - 1) (s - 1) n

unfoldable pub memmove : Memory → ℕ → ℕ → ℕ → Memory
unfolding copy_up copy_down
memmove m dst src n =
    if ltb src dst && ltb dst (src + n)
    then copy_down m (dst + n) (src + n) n
    else copy_up m dst src n

unfoldable pub memcpy : Memory → ℕ → ℕ → ℕ → Memory
unfolding memmove
memcpy = memmove

-- C's `strcpy`: `while((*s++ = *t++) != 0);`. The loop takes fuel; `none` is a loop that goes on.
unfoldable pub strcpy : ℕ → Memory → ℕ → ℕ → Option Memory
strcpy zero m s t = none
strcpy (suc fuel) m s t =
    let m' = write m s (m t) in
    let rest = strcpy fuel m' (s + 1) (t + 1) in if m t == 0 then some m' else rest

unfoldable pub strlen_from : ℕ → Memory → ℕ → ℕ → Option ℕ
strlen_from zero m s n = none
strlen_from (suc fuel) m s n =
    let rest = strlen_from fuel m s (n + 1) in if m (s + n) == 0 then some n else rest

unfoldable pub strlen : ℕ → Memory → ℕ → Option ℕ
unfolding strlen_from
strlen fuel m s = strlen_from fuel m s 0

-- `while(n-- > 0) *s++ = 0;`
unfoldable pub zero_fill : Memory → ℕ → ℕ → Memory
zero_fill m s zero = m
zero_fill m s (suc n) = zero_fill (write m s 0) (s + 1) n

unfoldable pub strncpy_loop : Memory → ℕ → ℕ → ℕ → Memory
unfolding zero_fill
strncpy_loop m s t zero = m
strncpy_loop m s t (suc n) =
    let m' = write m s (m t) in
    if m t == 0 then zero_fill m' (s + 1) n else strncpy_loop m' (s + 1) (t + 1) n

-- A negative `n` copies nothing.
unfoldable pub strncpy : Memory → ℕ → ℕ → ℤ → Memory
unfolding strncpy_loop
strncpy m s t n = strncpy_loop m s t (pos_part n)

-- The loop behind `--n > 0`, and the final `*s = 0`.
unfoldable pub safestrcpy_loop : Memory → ℕ → ℕ → ℕ → Memory
safestrcpy_loop m s t zero = write m s 0
safestrcpy_loop m s t (suc n) =
    let m' = write m s (m t) in
    if m t == 0 then write m' (s + 1) 0 else safestrcpy_loop m' (s + 1) (t + 1) n

unfoldable pub safestrcpy : Memory → ℕ → ℕ → ℤ → Memory
unfolding safestrcpy_loop
safestrcpy m s t n = if leb_ℤ n (pos 0) then m else safestrcpy_loop m s t (pos_part n - 1)

unfoldable pub memcmp : Memory → ℕ → ℕ → ℕ → ℤ
memcmp m s t zero = pos 0
memcmp m s t (suc n) = if m s == m t then memcmp m (s + 1) (t + 1) n else sub_ℕ (m s) (m t)

unfoldable pub strncmp : Memory → ℕ → ℕ → ℕ → ℤ
strncmp m p q zero = pos 0
strncmp m p q (suc n) =
    if not (m p == 0) && (m p == m q) then strncmp m (p + 1) (q + 1) n else sub_ℕ (m p) (m q)

-- `strcmp` of ulib.c, on fuel
unfoldable pub strcmp : ℕ → Memory → ℕ → ℕ → Option ℤ
strcmp zero m p q = none
strcmp (suc fuel) m p q =
    let rest = strcmp fuel m (p + 1) (q + 1) in
    if not (m p == 0) && (m p == m q) then rest else some (sub_ℕ (m p) (m q))

-- `strchr` of ulib.c: the address of the first `c`, `some none` for a null pointer
unfoldable pub strchr : ℕ → Memory → ℕ → ℕ → Option (Option ℕ)
strchr zero m s c = none
strchr (suc fuel) m s c =
    let rest = strchr fuel m (s + 1) c in
    if m s == 0 then some none else if m s == c then some (some s) else rest

-- A text of `len` bytes at `a`, closed by a NUL.
pub record IsText (m : Memory) (a len : ℕ) : Type 0 where
  pub chars : (i : ℕ) → i < len → m (a + i) ≢ 0
  pub ends : m (a + len) ≡ 0

-- Whether a NUL stands among the first `n` bytes from `a` on.
unfoldable pub nul_before : Memory → ℕ → ℕ → Bool
nul_before m a zero = false
nul_before m a (suc n) = m a == 0 || nul_before m (a + 1) n
