-- ===== src/Bcache.antt =====
-- xv6/bio.c: the buffers, as the list from the one used last to the one used longest ago. There is one
-- device; `bcache.lock` and the sleep locks stand for the atomicity of the calls.
pub mod Copies
use buffer_overflow_attack.Base.{
  Bool, List, Option, [], false, if◌then◌else◌, none, not, some, ℕ, ◌&&◌, ◌+◌, ◌-◌, ◌==◌, ◌∷◌,
}
use buffer_overflow_attack.Log.{Block}
use buffer_overflow_attack.Kalloc.{Outcome, ok, panic, ◌>>=◌}

-- `struct buf`: `slot` is its place in `bcache.buf`, and `blockno` is `none` in a buffer that has held
-- no block yet, whose device is 0. `valid` and `dirty` are B_VALID and
-- B_DIRTY, and `bytes` is the field `data`.
pub record Buf : Type 0 where
  pub slot : ℕ
  pub blockno : Option ℕ
  pub refcnt : ℕ
  pub valid : Bool
  pub dirty : Bool
  pub bytes : Block

abbrev pub has_block : ℕ → Buf → Bool
has_block n b = elim b.blockno [ none ↦ false | some m ↦ m == n ]

-- The first loop of `bget`: the slot of the buffer of block `n`, with one reference more.
unfoldable pub take_cached : ℕ → List Buf → Option (ℕ × List Buf)
take_cached n [] = none
take_cached n (b ∷ bs) =
    if has_block n b
    then some (b.slot, record b { refcnt = b.refcnt + 1 } ∷ bs)
    else elim (take_cached n bs) [ none ↦ none | some (i, bs') ↦ some (i, b ∷ bs') ]

-- The second loop, from the end of the list: the last buffer that is neither in use nor dirty.
unfoldable pub recycle : ℕ → List Buf → Option (ℕ × List Buf)
recycle n [] = none
recycle n (b ∷ bs) = elim (recycle n bs) [
  | some (i, bs') ↦ some (i, b ∷ bs')
  | none ↦
      if b.refcnt == 0 && not b.dirty
      then some
          (b.slot, record b { blockno = some n; valid = false; dirty = false; refcnt = 1 } ∷ bs)
      else none
]

abbrev pub or_no_buffers : Option (ℕ × List Buf) → Outcome (ℕ × List Buf)
or_no_buffers none = panic
or_no_buffers (some r) = ok r

unfoldable pub bget : ℕ → List Buf → Outcome (ℕ × List Buf)
unfolding take_cached recycle
bget n bs = elim (take_cached n bs) [ some r ↦ ok r | none ↦ or_no_buffers (recycle n bs) ]

-- A change of the buffer in slot `i`.
unfoldable pub at_slot : ℕ → (Buf → Buf) → List Buf → List Buf
at_slot i f [] = []
at_slot i f (b ∷ bs) = if b.slot == i then f b ∷ bs else b ∷ at_slot i f bs

-- `iderw` is the driver's: it reads or writes the block of a buffer.
unfoldable pub bread : (Buf → Buf) → ℕ → List Buf → Outcome (ℕ × List Buf)
unfolding bget at_slot
bread iderw n bs = do
  (i, bs') ← bget n bs
  ok (i, at_slot i (λ b. if b.valid then b else iderw b) bs')

-- The buffer in slot `i`, and the list without it.
unfoldable pub unlink : ℕ → List Buf → Option (Buf × List Buf)
unlink i [] = none
unlink i (b ∷ bs) =
    if b.slot == i
    then some (b, bs)
    else elim (unlink i bs) [ none ↦ none | some (c, bs') ↦ some (c, b ∷ bs') ]

unfoldable pub brelse : ℕ → List Buf → Outcome (List Buf)
unfolding unlink at_slot
brelse i bs = elim (unlink i bs) [
  | none ↦ panic
  | some (b, rest) ↦
      let b' = record b { refcnt = b.refcnt - 1 } in
      ok (
        if b'.refcnt == 0
        then b' ∷ rest
        else at_slot i (λ c. record c { refcnt = c.refcnt - 1 }) bs)
]
