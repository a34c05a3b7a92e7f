-- ===== src/Fs/Scan.antt =====
-- The scan of the map by `balloc` of xv6/fs.c.
use buffer_overflow_attack.Base.{
  ==_iff, Bool-cases, Option, ap, ap₂, arith, bit, false, if◌then◌else◌, inl, inr, ltb, none, refl,
  some, suc, sym, true, zero, ℕ, ◌%◌, ◌*◌, ◌+◌, ◌-◌, ◌/◌, ◌<◌, ◌∙◌, ◌≡◌, ◌≤◌, ◌⊎◌,
}
use buffer_overflow_attack.Kalloc.{panic}
use buffer_overflow_attack.Str.{Memory}
use buffer_overflow_attack.Fs.{
  scan_block, on_found, take_bit, Super, Disk, bits_per_block, bblock, bit_of, balloc_from,
}
use buffer_overflow_attack.Fs.Bitmap.{in_use, scan_block-hit, scan_block-miss}

bit_of-cases : (blk : Memory) (i : ℕ) → (bit_of blk i ≡ 0) ⊎ (bit_of blk i ≡ 1)
unfolding bit
bit_of-cases blk i = omega arith

pub in_use-bit :
    (sb : Super) (s : Disk) (b : ℕ)
    → in_use sb s b ≡ true
    → bit_of (s.blocks (bblock sb b)) (b % bits_per_block) ≡ 1
in_use-bit sb s b h = (==_iff (bit_of (s.blocks (bblock sb b)) (b % bits_per_block)) 1).0 h

pub free-bit :
    (sb : Super) (s : Disk) (b : ℕ)
    → in_use sb s b ≡ false
    → bit_of (s.blocks (bblock sb b)) (b % bits_per_block) ≡ 0
free-bit sb s b h = elim (bit_of-cases (s.blocks (bblock sb b)) (b % bits_per_block)) [
  | inl clear ↦ clear
  | inr set_one ↦
      let yes = (==_iff (bit_of (s.blocks (bblock sb b)) (b % bits_per_block)) 1).1 set_one in cc
]

-- Block `q * 4096 + d` has bit `d` in the block of the map for `q * 4096`.
bit-at :
    (sb : Super) (s : Disk) (q n d : ℕ)
    → d < bits_per_block
    → n ≡ q * bits_per_block + d
    → bit_of (s.blocks (bblock sb n)) (n % bits_per_block)
      ≡ bit_of (s.blocks (bblock sb (q * bits_per_block))) d
bit-at sb s q n d lt e =
    let same_block : n / bits_per_block ≡ q * bits_per_block / bits_per_block = omega arith in
    let offset : n % bits_per_block ≡ d = omega arith in rw (same_block, offset) refl

module _ (sb : Super) (outstanding : ℕ) where
  round :
      (fuel b : ℕ) (s : Disk) (found : Option ℕ)
      → ltb b sb.size ≡ true
      → scan_block sb outstanding (s.blocks (bblock sb b)) b ≡ found
      → balloc_from sb outstanding (suc fuel) b s
        ≡ on_found sb outstanding b s (balloc_from sb outstanding fuel (b + bits_per_block) s) found
  unfolding balloc_from
  round fuel b s found below e =
      ap
        (λ t.
          if t
          then on_found sb outstanding b s (balloc_from sb outstanding fuel (b + bits_per_block) s)
              (scan_block sb outstanding (s.blocks (bblock sb b)) b)
          else some panic)
        below
      ∙ ap (on_found sb outstanding b s (balloc_from sb outstanding fuel (b + bits_per_block) s)) e

  pub balloc_from-first :
      (fuel q n : ℕ) (s : Disk)
      → q * bits_per_block ≤ n
      → n < (q + fuel) * bits_per_block
      → n < sb.size
      → in_use sb s n ≡ false
      → ((m : ℕ) → q * bits_per_block ≤ m → m < n → in_use sb s m ≡ true)
      → balloc_from sb outstanding fuel (q * bits_per_block) s
        ≡ some
            (take_bit sb outstanding (n / bits_per_block * bits_per_block) (n % bits_per_block) s)
  unfolding on_found
  balloc_from-first zero q n s lo hi small free used = absurd (omega arith)
  balloc_from-first (suc fuel) q n s lo hi small free used =
      let b = q * bits_per_block in
      let below : ltb b sb.size ≡ true = ground arith in
      let blk = s.blocks (bblock sb b) in
      elim (Bool-cases (ltb n (b + bits_per_block))) [
        | inl near ↦
            let close : n < b + bits_per_block = ground arith in
            let clear : bit_of blk (0 + (n - b)) ≡ 0 =
              sym (bit-at sb s q n (0 + (n - b)) (omega arith) (omega arith))
              ∙ free-bit sb s n free in
            let ones : (j : ℕ) → 0 ≤ j → j < 0 + (n - b) → bit_of blk j ≡ 1 = λ j lo' hi'.
              sym (bit-at sb s q (b + j) j (omega arith) refl)
              ∙ in_use-bit sb s (b + j) (used (b + j) (omega arith) (omega arith)) in
            let hit =
              scan_block-hit sb outstanding blk b (n - b) (omega arith) (omega arith) ones clear in
            round fuel b s (some (0 + (n - b))) below hit
            ∙ ap₂ (λ c i. some (take_bit sb outstanding c i s)) (omega arith) (omega arith)
        | inr far ↦
            let beyond : b + bits_per_block ≤ n = ground arith in
            let ones : (j : ℕ)
                → 0 ≤ j
                → j < 0 + bits_per_block
                → b + j < sb.size
                → bit_of blk j ≡ 1 =
              λ j lo' hi' in_map.
                sym (bit-at sb s q (b + j) j (omega arith) refl)
                ∙ in_use-bit sb s (b + j) (used (b + j) (omega arith) (omega arith)) in
            let miss = scan_block-miss sb outstanding blk b ones in
            let next : b + bits_per_block ≡ (q + 1) * bits_per_block = omega arith in
            let rest =
              balloc_from-first fuel (q + 1) n s (omega arith) (omega arith) small free
                (λ m lo' hi'. used m (omega arith) hi') in
            round fuel b s none below miss
            ∙ ap (λ c. balloc_from sb outstanding fuel c s) next
            ∙ rest
      ]

  round-out :
      (fuel b : ℕ) (s : Disk)
      → ltb b sb.size ≡ false
      → balloc_from sb outstanding (suc fuel) b s ≡ some panic
  unfolding balloc_from
  round-out fuel b s out =
      ap
        (λ t.
          if t
          then on_found sb outstanding b s (balloc_from sb outstanding fuel (b + bits_per_block) s)
              (scan_block sb outstanding (s.blocks (bblock sb b)) b)
          else some panic)
        out

  pub balloc_from-full :
      (fuel q : ℕ) (s : Disk)
      → sb.size ≤ (q + fuel) * bits_per_block
      → ((m : ℕ) → m < sb.size → in_use sb s m ≡ true)
      → balloc_from sb outstanding (suc fuel) (q * bits_per_block) s ≡ some panic
  unfolding on_found
  balloc_from-full zero q s enough used = round-out zero (q * bits_per_block) s (ground arith)
  balloc_from-full (suc fuel) q s enough used =
      let b = q * bits_per_block in
      let blk = s.blocks (bblock sb b) in
      elim (Bool-cases (ltb b sb.size)) [
        | inr out ↦ round-out (suc fuel) b s out
        | inl below ↦
            let ones : (j : ℕ)
                → 0 ≤ j
                → j < 0 + bits_per_block
                → b + j < sb.size
                → bit_of blk j ≡ 1 =
              λ j lo hi in_map.
                sym (bit-at sb s q (b + j) j (omega arith) refl)
                ∙ in_use-bit sb s (b + j) (used (b + j) in_map) in
            let miss = scan_block-miss sb outstanding blk b ones in
            let next : b + bits_per_block ≡ (q + 1) * bits_per_block = omega arith in
            round (suc fuel) b s none below miss
            ∙ ap (λ c. balloc_from sb outstanding (suc fuel) c s) next
            ∙ balloc_from-full fuel (q + 1) s (omega arith) used
      ]
