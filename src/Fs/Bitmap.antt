-- ===== src/Fs/Bitmap.antt =====
-- `balloc` and `bfree` of xv6/fs.c on the set of blocks that are in use.
use buffer_overflow_attack.Base.{
  ==_iff, Bool, Bool-cases, ap, arith, bit, bit-add_other, bit-add_self, bit-split, false, inl, inr,
  length, ltb, none, refl, some, suc, sym, true, zero, ℕ, ◌%◌, ◌+◌, ◌-◌, ◌/◌, ◌<◌, ◌==◌, ◌^◌, ◌∙◌,
  ◌≡◌, ◌≢◌, ◌≤◌,
}
use buffer_overflow_attack.Kalloc.{ok}
use buffer_overflow_attack.Str.{Memory, write}
use buffer_overflow_attack.Log.{absorb, log_size}
use buffer_overflow_attack.Log.Reserve.{log_write-ok, length-absorb}
use buffer_overflow_attack.Fs.{
  scan_block, Super, Disk, bits_per_block, bblock, put_data, bit_of, set_bit, clear_bit, update,
  scan_bits,
}

-- Whether the map has the bit of block `b` set.
abbrev pub in_use : Super → Disk → ℕ → Bool
in_use sb s b = bit_of (s.blocks (bblock sb b)) (b % bits_per_block) == 1

pub set_bit_self : (blk : Memory) (bi : ℕ) → bit_of blk bi ≡ 0 → bit_of (set_bit blk bi) bi ≡ 1
unfolding write
set_bit_self blk bi h =
    let same : (bi / 8 == bi / 8) ≡ true = ground arith in
    rw same (bit-add_self (blk (bi / 8)) (bi % 8) h)

pub set_bit_other :
    (blk : Memory) (bi j : ℕ)
    → bit_of blk bi ≡ 0
    → j ≢ bi
    → bit_of (set_bit blk bi) j ≡ bit_of blk j
unfolding write
set_bit_other blk bi j h ne = elim (Bool-cases (j / 8 == bi / 8)) [
  | inl same ↦
      let e = (==_iff (j / 8) (bi / 8)).0 same in
      rw (same, e) (bit-add_other (blk (bi / 8)) (bi % 8) (j % 8) h (omega arith))
  | inr other ↦ rw other refl
]

pub clear_bit_self : (blk : Memory) (bi : ℕ) → bit_of blk bi ≡ 1 → bit_of (clear_bit blk bi) bi ≡ 0
unfolding write
clear_bit_self blk bi h =
    let same : (bi / 8 == bi / 8) ≡ true = ground arith in
    rw same ((bit-split (blk (bi / 8)) (bi % 8) h).1)

pub clear_bit_other :
    (blk : Memory) (bi j : ℕ)
    → bit_of blk bi ≡ 1
    → j ≢ bi
    → bit_of (clear_bit blk bi) j ≡ bit_of blk j
unfolding write
clear_bit_other blk bi j h ne = elim (Bool-cases (j / 8 == bi / 8)) [
  | inl same ↦
      let e = (==_iff (j / 8) (bi / 8)).0 same in
      let x = blk (bi / 8) in
      let (le, clear) = bit-split x (bi % 8) h in
      let back : x - 2 ^ (bi % 8) + 2 ^ (bi % 8) ≡ x = omega arith in
      let kept = bit-add_other (x - 2 ^ (bi % 8)) (bi % 8) (j % 8) clear (omega arith) in
      rw (same, e) (sym kept ∙ ap (λ y. bit y (j % 8)) back)
  | inr other ↦ rw other refl
]

-- Room in the log for `k` more blocks.
pub record HasRoom (sb : Super) (outstanding k : ℕ) (s : Disk) : Type 0 where
  pub inside : 1 ≤ outstanding
  pub short : length s.noted + k ≤ log_size
  pub fits : length s.noted + k < sb.nlog

module _ (sb : Super) (outstanding : ℕ) where
  -- `log_write` with room: the block is noted.
  pub update-ok :
      (b k : ℕ) (bytes : Memory) (s : Disk)
      → HasRoom sb outstanding (suc k) s
      → (s' : Disk) × (update sb outstanding b bytes s ≡ ok s')
        × (s'.blocks ≡ put_data s.blocks b bytes)
        × (s'.noted ≡ absorb b s.noted)
        × HasRoom sb outstanding k s'
  unfolding update
  update-ok b k bytes s room =
      let noted =
        log_write-ok sb.nlog outstanding b s.noted room.inside (let r = room.short in omega arith)
          (let r = room.fits in omega arith) in
      let longer = length-absorb b s.noted in
      (
        record { blocks = put_data s.blocks b bytes; noted = absorb b s.noted },
        rw (update, noted) refl,
        refl,
        refl,
        record {
          inside = room.inside;
          short = let r = room.short in omega arith;
          fits = let r = room.fits in omega arith;
        },
      )

  -- The scan stops at the first clear bit, which is `d` bits on.
  scan_bits-hit :
      (blk : Memory) (b bi d left : ℕ)
      → d < left
      → b + bi + d < sb.size
      → ((j : ℕ) → bi ≤ j → j < bi + d → bit_of blk j ≡ 1)
      → bit_of blk (bi + d) ≡ 0
      → scan_bits sb outstanding blk b bi left ≡ some (bi + d)
  unfolding scan_bits
  scan_bits-hit blk b bi d zero lt inside used clear = absurd (omega arith)
  scan_bits-hit blk b bi zero (suc left) lt inside used clear =
      let below : ltb (b + bi) sb.size ≡ true = ground arith in
      let e : bi + 0 ≡ bi = omega arith in
      let hit : (bit_of blk bi == 0) ≡ true =
        (==_iff (bit_of blk bi) 0).1 (ap (bit_of blk) (sym e) ∙ clear) in
      rw (scan_bits, below, hit, e) refl
  scan_bits-hit blk b bi (suc d) (suc left) lt inside used clear =
      let below : ltb (b + bi) sb.size ≡ true = ground arith in
      let one = used bi (omega arith) (omega arith) in
      let miss : (bit_of blk bi == 0) ≡ false = rw one refl in
      let e : bi + 1 + d ≡ bi + suc d = omega arith in
      let rest =
        scan_bits-hit blk b (bi + 1) d left (omega arith) (omega arith)
          (λ j lo hi. used j (omega arith) (omega arith)) (ap (bit_of blk) e ∙ clear) in
      rw (scan_bits, below, miss) (rest ∙ ap some e)

  scan_bits-miss :
      (blk : Memory) (b bi left : ℕ)
      → ((j : ℕ) → bi ≤ j → j < bi + left → b + j < sb.size → bit_of blk j ≡ 1)
      → scan_bits sb outstanding blk b bi left ≡ none
  unfolding scan_bits
  scan_bits-miss blk b bi zero used = refl
  scan_bits-miss blk b bi (suc left) used =
      let rest =
        scan_bits-miss blk b (bi + 1) left
          (λ j lo hi small. used j (omega arith) (omega arith) small) in
      elim (Bool-cases (ltb (b + bi) sb.size)) [
        | inl below ↦
            let one = used bi (omega arith) (omega arith) (ground arith) in
            let miss : (bit_of blk bi == 0) ≡ false = rw one refl in
            rw (scan_bits, below, miss) rest
        | inr above ↦ rw (scan_bits, above) refl
      ]

  pub scan_block-hit :
      (blk : Memory) (b d : ℕ)
      → d < bits_per_block
      → b + 0 + d < sb.size
      → ((j : ℕ) → 0 ≤ j → j < 0 + d → bit_of blk j ≡ 1)
      → bit_of blk (0 + d) ≡ 0
      → scan_block sb outstanding blk b ≡ some (0 + d)
  unfolding scan_block
  scan_block-hit blk b d = scan_bits-hit blk b 0 d bits_per_block

  pub scan_block-miss :
      (blk : Memory) (b : ℕ)
      → ((j : ℕ) → 0 ≤ j → j < 0 + bits_per_block → b + j < sb.size → bit_of blk j ≡ 1)
      → scan_block sb outstanding blk b ≡ none
  unfolding scan_block
  scan_block-miss blk b = scan_bits-miss blk b 0 bits_per_block
