-- ===== src/Inode/Stored.antt =====
-- The fields of an inode on the disk: what `iupdate` stores is what `ilock` loads.
use buffer_overflow_attack.Base.{
  ==_iff, List, [], ap, ap₂, arith, false, if◌then◌else◌, length, refl, suc, sym, true, ℕ, ◌*◌, ◌+◌,
  ◌<◌, ◌==◌, ◌^◌, ◌∙◌, ◌∷◌, ◌≡◌, ◌≢◌, ◌≤◌, ◌⊎◌,
}
use buffer_overflow_attack.Kalloc.{ok, panic}
use buffer_overflow_attack.Str.{Memory, write, write_word, word_at}
use buffer_overflow_attack.Str.Word.{word_at-write_word, write_word-outside, word_at-congr}
use buffer_overflow_attack.Fs.{Super, Disk}
use buffer_overflow_attack.Fs.Bitmap.{HasRoom, update-ok, in_use}
use buffer_overflow_attack.Inode.{
  Inode, n_direct, iblock, inode_offset, write_short, short_at, write_words, words_at, put_dinode,
  get_dinode, iupdate, load_inode,
}

-- Each entry is a 32-bit number.
abbrev pub AllWords : List ℕ → Type 0
AllWords [] = Unit {0}
AllWords (v ∷ vs) = (v < 2 ^ 32) × AllWords vs

-- The fields are in the range of their types.
pub record IsInode (ip : Inode) : Type 0 where
  pub kind_small : ip.kind < 65536
  pub major_small : ip.major < 65536
  pub minor_small : ip.minor < 65536
  pub nlink_small : ip.nlink < 65536
  pub size_small : ip.size < 2 ^ 32
  pub count : length ip.addrs ≡ n_direct + 1
  pub addrs_small : AllWords ip.addrs

write_short-outside : (m : Memory) (a v x : ℕ) → (x < a) ⊎ (a + 2 ≤ x) → write_short m a v x ≡ m x
unfolding write_short write
write_short-outside m a v x out = ground arith

short_at-write_short : (m : Memory) (a v : ℕ) → v < 65536 → short_at (write_short m a v) a ≡ v
unfolding write_short short_at write
short_at-write_short m a v h = ground arith

short_at-congr :
    (m m' : Memory) (a : ℕ)
    → ((x : ℕ) → a ≤ x → x < a + 2 → m' x ≡ m x)
    → short_at m' a ≡ short_at m a
unfolding short_at
short_at-congr m m' a same =
    ap₂ (λ x y. x + y * 256) (same a (omega arith) (omega arith))
      (same (a + 1) (omega arith) (omega arith))

write_words-outside :
    (m : Memory) (a : ℕ) (vs : List ℕ) (x : ℕ)
    → (x < a) ⊎ (a + length vs * 4 ≤ x)
    → write_words m a vs x ≡ m x
unfolding write_words
write_words-outside m a [] x out = refl
write_words-outside m a (v ∷ vs) x out =
    write_words-outside (write_word m a v) (a + 4) vs x (omega arith)
    ∙ write_word-outside m a v x (omega arith)

words_at-write_words :
    (m : Memory) (a : ℕ) (vs : List ℕ)
    → AllWords vs
    → words_at (write_words m a vs) a (length vs) ≡ vs
unfolding write_words words_at
words_at-write_words m a [] h = refl
words_at-write_words m a (v ∷ vs) (small, h) =
    let m1 = write_word m a v in
    let first : word_at (write_words m1 (a + 4) vs) a ≡ v =
      word_at-congr m1 (write_words m1 (a + 4) vs) a
        (λ i lt. write_words-outside m1 (a + 4) vs (a + i) (omega arith))
      ∙ word_at-write_word m a v small in
    ap₂ (λ x xs. x ∷ xs) first (words_at-write_words m1 (a + 4) vs h)

-- An inode that is stored at an offset of a block is loaded from there.
pub get_dinode-put_dinode :
    (blk : Memory) (o : ℕ) (ip : Inode)
    → IsInode ip
    → get_dinode (put_dinode blk o ip) o ip.inum ≡ ip
unfolding get_dinode put_dinode
get_dinode-put_dinode blk o ip h =
    let b1 = write_short blk o ip.kind in
    let b2 = write_short b1 (o + 2) ip.major in
    let b3 = write_short b2 (o + 4) ip.minor in
    let b4 = write_short b3 (o + 6) ip.nlink in
    let b5 = write_word b4 (o + 8) ip.size in
    let b6 = write_words b5 (o + 12) ip.addrs in
    let from5 : (x : ℕ) → x < o + 12 → b6 x ≡ b5 x =
      λ x lt. write_words-outside b5 (o + 12) ip.addrs x (omega arith) in
    let from4 : (x : ℕ) → x < o + 8 → b6 x ≡ b4 x =
      λ x lt. from5 x (omega arith) ∙ write_word-outside b4 (o + 8) ip.size x (omega arith) in
    let from3 : (x : ℕ) → x < o + 6 → b6 x ≡ b3 x =
      λ x lt. from4 x (omega arith) ∙ write_short-outside b3 (o + 6) ip.nlink x (omega arith) in
    let from2 : (x : ℕ) → x < o + 4 → b6 x ≡ b2 x =
      λ x lt. from3 x (omega arith) ∙ write_short-outside b2 (o + 4) ip.minor x (omega arith) in
    let from1 : (x : ℕ) → x < o + 2 → b6 x ≡ b1 x =
      λ x lt. from2 x (omega arith) ∙ write_short-outside b1 (o + 2) ip.major x (omega arith) in
    let kind_e : short_at b6 o ≡ ip.kind =
      short_at-congr b1 b6 o (λ x lo hi. from1 x hi)
      ∙ short_at-write_short blk o ip.kind h.kind_small in
    let major_e : short_at b6 (o + 2) ≡ ip.major =
      short_at-congr b2 b6 (o + 2) (λ x lo hi. from2 x (omega arith))
      ∙ short_at-write_short b1 (o + 2) ip.major h.major_small in
    let minor_e : short_at b6 (o + 4) ≡ ip.minor =
      short_at-congr b3 b6 (o + 4) (λ x lo hi. from3 x (omega arith))
      ∙ short_at-write_short b2 (o + 4) ip.minor h.minor_small in
    let nlink_e : short_at b6 (o + 6) ≡ ip.nlink =
      short_at-congr b4 b6 (o + 6) (λ x lo hi. from4 x (omega arith))
      ∙ short_at-write_short b3 (o + 6) ip.nlink h.nlink_small in
    let size_e : word_at b6 (o + 8) ≡ ip.size =
      word_at-congr b5 b6 (o + 8) (λ i lt. from5 (o + 8 + i) (omega arith))
      ∙ word_at-write_word b4 (o + 8) ip.size h.size_small in
    let addrs_e : words_at b6 (o + 12) (n_direct + 1) ≡ ip.addrs =
      ap (words_at b6 (o + 12)) (sym h.count)
      ∙ words_at-write_words b5 (o + 12) ip.addrs h.addrs_small in
    λ i. record {
      inum = ip.inum;
      kind = kind_e i;
      major = major_e i;
      minor = minor_e i;
      nlink = nlink_e i;
      size = size_e i;
      addrs = addrs_e i;
    }

module _ (sb : Super) (outstanding : ℕ) where
  -- What `iupdate` stores of an inode in use, `ilock` loads: all of its fields. `iupdate` succeeds with
  -- room in the log.
  pub load_inode-iupdate :
      (ip : Inode) (k : ℕ) (s : Disk)
      → IsInode ip
      → ip.kind ≢ 0
      → HasRoom sb outstanding (suc k) s
      → (s' : Disk) × (iupdate sb outstanding ip s ≡ ok s')
        × (load_inode sb outstanding ip.inum s' ≡ ok ip)
  unfolding iupdate load_inode
  load_inode-iupdate ip k s h in_use room =
      let b = iblock sb ip.inum in
      let bytes = put_dinode (s.blocks b) (inode_offset ip.inum) ip in
      let (s', e, blocks, noted, room') = update-ok sb outstanding b k bytes s room in
      let same : (b == b) ≡ true = ground arith in
      let stored : s'.blocks b ≡ bytes =
        ap (λ f. f b) blocks ∙ ap (λ t. if t then bytes else s.blocks b) same in
      let loaded : get_dinode (s'.blocks b) (inode_offset ip.inum) ip.inum ≡ ip =
        ap (λ blk. get_dinode blk (inode_offset ip.inum) ip.inum) stored
        ∙ get_dinode-put_dinode (s.blocks b) (inode_offset ip.inum) ip h in
      let typed : (ip.kind == 0) ≡ false = ground (arith, ==_iff ip.kind 0) in
      (
        s',
        e,
        ap (λ j. if j.kind == 0 then panic else ok j) loaded
            ∙ ap (λ t. if t then panic else ok ip) typed,
      )
