-- ===== src/Str/Move.antt =====
-- `memmove` of xv6/string.c copies also between overlapping ranges.
use buffer_overflow_attack.Base.{
  ap, arith, if◌then◌else◌, suc, zero, ℕ, ◌+◌, ◌-◌, ◌<◌, ◌≡◌, ◌≤◌, ◌⊎◌,
}
use buffer_overflow_attack.Str.{Memory, write, in_range, copy_up, copy_down, memmove}

-- What a copy of `n` bytes leaves at `x`.
abbrev pub copied : Memory → ℕ → ℕ → ℕ → ℕ → ℕ
copied m d s n x = if in_range d n x then m (s + (x - d)) else m x

pub copy_up-copied :
    (m : Memory) (d s n x : ℕ) → (d ≤ s) ⊎ (s + n ≤ d) → copy_up m d s n x ≡ copied m d s n x
unfolding copy_up write
copy_up-copied m d s zero x h = ground arith
copy_up-copied m d s (suc n) x h = ground (
  arith,
  copy_up-copied (write m d (m s)) (d + 1) (s + 1) n x,
  λ (p : d < x). ap m {x = s + 1 + (x - (d + 1))} {y = s + (x - d)} (omega arith),
)

copy_down-copied :
    (m : Memory) (d s n x d_end s_end : ℕ)
    → s < d
    → d_end ≡ d + n
    → s_end ≡ s + n
    → copy_down m d_end s_end n x ≡ copied m d s n x
unfolding copy_down write
copy_down-copied m d s zero x d_end s_end h e e' = ground arith
copy_down-copied m d s (suc n) x d_end s_end h e e' = ground (
  arith,
  copy_down-copied (write m (d_end - 1) (m (s_end - 1))) d s n x (d_end - 1) (s_end - 1),
  λ (p : x ≡ d_end - 1). ap m {x = s_end - 1} {y = s + (x - d)} (omega arith),
)

-- `memmove` puts at `dst + i` the byte that stood at `src + i` before the call, for each `i` below
-- `n`, and leaves every other byte, however the two ranges overlap.
memmove-copied : (m : Memory) (dst src n x : ℕ) → memmove m dst src n x ≡ copied m dst src n x
unfolding memmove
memmove-copied m dst src n x =
    ground (arith, copy_down-copied m dst src n x (dst + n) (src + n), copy_up-copied m dst src n x)
