-- ===== src/Fs/Alloc.antt =====
-- `balloc` and `bfree` of xv6/fs.c, as changes of the set of blocks that are in use.
use buffer_overflow_attack.Base.{
  ==_iff, Bool-cases, ap, ap₂, arith, false, inl, inr, refl, suc, sym, true, ℕ, ◌%◌, ◌*◌, ◌+◌, ◌/◌,
  ◌<◌, ◌==◌, ◌∙◌, ◌≡◌, ◌≢◌,
}
use buffer_overflow_attack.Kalloc.{panic, Outcome, ok, ◌>>=◌}
use buffer_overflow_attack.Str.{Memory}
use buffer_overflow_attack.Fs.{
  take_bit, clear_bit, put_data, balloc, bfree, map_rounds, or_panic, Super, Disk, bits_per_block,
  bblock, bit_of, set_bit, update, bzero,
}
use buffer_overflow_attack.Fs.Bitmap.{
  HasRoom, update-ok, set_bit_self, set_bit_other, clear_bit_self, clear_bit_other, in_use,
}
use buffer_overflow_attack.Fs.Scan.{in_use-bit, balloc_from-first, balloc_from-full, free-bit}

-- Block `n` has become part of the blocks in use: it is zeroed, and no other block but that of the map
-- has changed.
pub record Taken (sb : Super) (n : ℕ) (s s' : Disk) : Type 0 where
  pub marked : in_use sb s' n ≡ true
  pub others : (m : ℕ) → m ≢ n → bblock sb m ≢ n → in_use sb s' m ≡ in_use sb s m
  pub zeroed : s'.blocks n ≡ λ i. 0
  pub kept : (x : ℕ) → x ≢ n → x ≢ bblock sb n → s'.blocks x ≡ s.blocks x

-- Block `n` has left the blocks in use, and no block but that of the map has changed.
pub record Freed (sb : Super) (n : ℕ) (s s' : Disk) : Type 0 where
  pub cleared : in_use sb s' n ≡ false
  pub others : (m : ℕ) → m ≢ n → in_use sb s' m ≡ in_use sb s m
  pub kept : (x : ℕ) → x ≢ bblock sb n → s'.blocks x ≡ s.blocks x

module _ (sb : Super) (outstanding : ℕ) where
  put_same : (f : ℕ → Memory) (b : ℕ) (v : Memory) → put_data f b v b ≡ v
  put_same f b v = let same : (b == b) ≡ true = ground arith in rw same refl

  put_other : (f : ℕ → Memory) (b x : ℕ) (v : Memory) → x ≢ b → put_data f b v x ≡ f x
  put_other f b x v ne = let other : (x == b) ≡ false = ground (arith, ==_iff x b) in rw other refl

  -- The bits behind the change of one bit of the map.
  changed-bit :
      (s : Disk) (n m : ℕ) (bytes : Memory)
      → ((i : ℕ) → i ≢ n % bits_per_block → bit_of bytes i ≡ bit_of (s.blocks (bblock sb n)) i)
      → m ≢ n
      → bit_of (put_data s.blocks (bblock sb n) bytes (bblock sb m)) (m % bits_per_block)
        ≡ bit_of (s.blocks (bblock sb m)) (m % bits_per_block)
  changed-bit s n m bytes same ne = elim (Bool-cases (bblock sb m == bblock sb n)) [
    | inl one ↦
        let e : bblock sb m ≡ bblock sb n = (==_iff (bblock sb m) (bblock sb n)).0 one in
        let apart : m % bits_per_block ≢ n % bits_per_block = λ o. ne (omega arith) in
        rw one (
          same (m % bits_per_block) apart
          ∙ ap (λ c. bit_of (s.blocks c) (m % bits_per_block)) (sym e))
    | inr two ↦ rw two refl
  ]

  -- `bfree` of a block in use takes it out of the map; of any other block it panics.
  bfree_lem :
      (b k : ℕ) (s : Disk)
      → HasRoom sb outstanding (suc k) s
      → in_use sb s b ≡ true
      → (s' : Disk) × (bfree sb outstanding b s ≡ ok s')
        × Freed sb b s s'
        × HasRoom sb outstanding k s'
  unfolding bfree
  bfree_lem b k s room used =
      let blk = s.blocks (bblock sb b) in
      let one = in_use-bit sb s b used in
      let busy : (bit_of blk (b % bits_per_block) == 0) ≡ false = rw one refl in
      let bytes = clear_bit blk (b % bits_per_block) in
      let (s', e, blocks, noted, room') = update-ok sb outstanding (bblock sb b) k bytes s room in
      (
        s',
        rw (bfree, busy) e,
        record {
          cleared =
              ap (λ f. bit_of (f (bblock sb b)) (b % bits_per_block) == 1) blocks
              ∙ ap (λ f. bit_of f (b % bits_per_block) == 1) (put_same s.blocks (bblock sb b) bytes)
              ∙ ap (λ v. v == 1) (clear_bit_self blk (b % bits_per_block) one);
          others = λ m ne.
              ap (λ f. bit_of (f (bblock sb m)) (m % bits_per_block) == 1) blocks
              ∙ ap (λ v. v == 1)
                  (changed-bit s b m bytes
                    (λ i nei. clear_bit_other blk (b % bits_per_block) i one nei) ne);
          kept = λ x ne. ap (λ f. f x) blocks ∙ put_other s.blocks (bblock sb b) x bytes ne;
        },
        room',
      )

  bfree-free : (b : ℕ) (s : Disk) → in_use sb s b ≡ false → bfree sb outstanding b s ≡ panic
  unfolding bfree
  bfree-free b s free =
      let zero_bit = free-bit sb s b free in
      let idle : (bit_of (s.blocks (bblock sb b)) (b % bits_per_block) == 0) ≡ true =
        rw zero_bit refl in
      rw (bfree, idle) refl

  take_bit-run :
      (b bi n : ℕ) (s s1 s2 : Disk)
      → b + bi ≡ n
      → bblock sb b ≡ bblock sb n
      → bi ≡ n % bits_per_block
      → update sb outstanding
          (bblock sb n)
          (set_bit (s.blocks (bblock sb n)) (n % bits_per_block))
          s
        ≡ ok s1
      → bzero sb outstanding n s1 ≡ ok s2
      → take_bit sb outstanding b bi s ≡ ok (n, s2)
  unfolding take_bit
  take_bit-run b bi n s s1 s2 at blk off e1 e2 =
      let done : ℕ → Disk → Outcome (ℕ × Disk) = λ c t'. ok (c, t') in
      let rest : ℕ → Disk → Outcome (ℕ × Disk) = λ c t. bzero sb outstanding c t >>= done c in
      ap₂ (λ c i. update sb outstanding c (set_bit (s.blocks c) i) s >>= rest (b + bi)) blk off
      ∙ ap (λ o. o >>= rest (b + bi)) e1
      ∙ ap (λ c. rest c s1) at
      ∙ ap (λ o. o >>= done n) e2

  take_bit_lem :
      (b bi n k : ℕ) (s : Disk)
      → HasRoom sb outstanding (suc (suc k)) s
      → b + bi ≡ n
      → bblock sb b ≡ bblock sb n
      → bi ≡ n % bits_per_block
      → in_use sb s n ≡ false
      → bblock sb n ≢ n
      → (s' : Disk) × (take_bit sb outstanding b bi s ≡ ok (n, s'))
        × Taken sb n s s'
        × HasRoom sb outstanding k s'
  unfolding bzero
  take_bit_lem b bi n k s room at blk off free apart =
      let bytes = set_bit (s.blocks (bblock sb n)) (n % bits_per_block) in
      let clear = free-bit sb s n free in
      let (s1, e1, blocks1, noted1, room1) =
        update-ok sb outstanding (bblock sb n) (suc k) bytes s room in
      let (s2, e2, blocks2, noted2, room2) = update-ok sb outstanding n k (λ i. 0) s1 room1 in
      (
        s2,
        take_bit-run b bi n s s1 s2 at blk off e1 e2,
        record {
          marked =
              ap (λ f. bit_of (f (bblock sb n)) (n % bits_per_block) == 1) blocks2
              ∙ ap (λ f. bit_of f (n % bits_per_block) == 1)
                  (put_other s1.blocks n (bblock sb n) (λ i. 0) apart)
              ∙ ap (λ f. bit_of (f (bblock sb n)) (n % bits_per_block) == 1) blocks1
              ∙ ap (λ f. bit_of f (n % bits_per_block) == 1) (put_same s.blocks (bblock sb n) bytes)
              ∙ ap (λ v. v == 1) (set_bit_self (s.blocks (bblock sb n)) (n % bits_per_block) clear);
          others = λ m ne home.
              ap (λ f. bit_of (f (bblock sb m)) (m % bits_per_block) == 1) blocks2
              ∙ ap (λ f. bit_of f (m % bits_per_block) == 1)
                  (put_other s1.blocks n (bblock sb m) (λ i. 0) home)
              ∙ ap (λ f. bit_of (f (bblock sb m)) (m % bits_per_block) == 1) blocks1
              ∙ ap (λ v. v == 1)
                  (changed-bit s n m bytes
                    (λ i nei.
                      set_bit_other (s.blocks (bblock sb n)) (n % bits_per_block) i clear nei)
                    ne);
          zeroed = ap (λ f. f n) blocks2 ∙ put_same s1.blocks n (λ i. 0);
          kept = λ x ne nb.
              ap (λ f. f x) blocks2
              ∙ put_other s1.blocks n x (λ i. 0) ne
              ∙ ap (λ f. f x) blocks1
              ∙ put_other s.blocks (bblock sb n) x bytes nb;
        },
        room2,
      )

  -- `balloc` takes the first block that is not in use, and zeroes it; the map keeps all others.
  pub balloc_lem :
      (n k : ℕ) (s : Disk)
      → HasRoom sb outstanding (suc (suc k)) s
      → n < sb.size
      → in_use sb s n ≡ false
      → ((m : ℕ) → m < n → in_use sb s m ≡ true)
      → bblock sb n ≢ n
      → (s' : Disk) × (balloc sb outstanding s ≡ ok (n, s'))
        × Taken sb n s s'
        × HasRoom sb outstanding k s'
  unfolding balloc
  balloc_lem n k s room small free used apart =
      let b = n / bits_per_block * bits_per_block in
      let (s', e, taken, room') =
        take_bit_lem b (n % bits_per_block) n k s room (omega arith) (omega arith) refl free
          apart in
      let found =
        balloc_from-first sb outstanding (map_rounds sb outstanding) 0 n s (omega arith)
          (omega arith) small free (λ m lo hi. used m hi) in
      (s', ap (or_panic sb outstanding) found ∙ e, taken, room')

  -- With every block in use `balloc` panics.
  pub balloc-full :
      (s : Disk) → ((m : ℕ) → m < sb.size → in_use sb s m ≡ true) → balloc sb outstanding s ≡ panic
  unfolding balloc
  balloc-full s used =
      ap (or_panic sb outstanding)
        (balloc_from-full sb outstanding (sb.size / bits_per_block + 1) 0 s (omega arith) used)
