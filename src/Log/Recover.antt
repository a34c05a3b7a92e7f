-- ===== src/Log/Recover.antt =====
-- The header of the log of xv6/log.c, and what recovery makes of a disk.
use buffer_overflow_attack.Base.{
  ==_iff, Bool-cases, List, [], ap, arith, false, get_or, inl, inr, leb, length, refl, suc, true, ℕ,
  ◌+◌, ◌-◌, ◌<◌, ◌==◌, ◌∙◌, ◌∷◌, ◌≡◌, ◌≢◌, ◌≤◌,
}
use buffer_overflow_attack.Log.{
  bwrite, Block, Store, put_head, get_entries, read_head, write_head, install_trans,
  recover_from_log, reboot,
}
use buffer_overflow_attack.Log.Moves.{elem, Home, Homes, Logged, Logged-same}
use buffer_overflow_attack.Log.Install.{
  install_trans-power, install_trans-frame, install_trans-new, install_trans-done,
}

get_entries_lem :
    (blk : Block) (bs : List ℕ) (w : ℕ)
    → ((i : ℕ) → i < length bs → blk (w + i) ≡ get_or bs i 0)
    → get_entries blk w (length bs) ≡ bs
unfolding get_entries
get_entries_lem blk [] w h = refl
get_entries_lem blk (b ∷ bs) w h =
    let first : blk w ≡ b = ap blk (omega arith) ∙ h 0 (omega arith) in
    let rest =
      get_entries_lem blk bs (w + 1) (λ i lt. ap blk (omega arith) ∙ h (suc i) (omega arith)) in
    rw (first, rest) refl

-- The header that is written is read back.
pub get_entries-put_head :
    (bs : List ℕ) (old : Block) → get_entries (put_head bs old) 1 (put_head bs old 0) ≡ bs
unfolding put_head
get_entries-put_head bs old = get_entries_lem (put_head bs old) bs 1 λ i lt.
    let pos_w : (1 + i == 0) ≡ false = ground arith in
    let in_range : leb (1 + i) (length bs) ≡ true = ground arith in
    rw (put_head, pos_w, in_range) (ap (λ j. get_or bs j 0) (omega arith))

module _ (start : ℕ) where
  pub write_head-other :
      (bs : List ℕ) (s : Store) (x : ℕ)
      → x ≢ start
      → ((write_head start bs s).disk x ≡ s.disk x)
        × ((write_head start bs s).cached x ≡ s.cached x)
  unfolding write_head bwrite
  write_head-other bs s x ne =
      let other : (x == start) ≡ false = ground (arith, ==_iff x start) in
      elim (Bool-cases (s.power == 0)) [
        | inl dead ↦ (rw dead refl, rw other refl)
        | inr live ↦ (rw (live, other) refl, rw other refl)
      ]

  pub write_head-disk :
      (bs : List ℕ) (s : Store)
      → s.power ≢ 0
      → (write_head start bs s).disk start ≡ put_head bs (s.cached start)
  unfolding write_head bwrite
  write_head-disk bs s ne =
      let same : (start == start) ≡ true = ground arith in
      let live : (s.power == 0) ≡ false = ground arith in rw (live, same) refl

  pub write_head-power : (bs : List ℕ) (s : Store) → (write_head start bs s).power ≡ s.power - 1
  unfolding write_head bwrite
  write_head-power bs s = refl

  pub write_head-dead :
      (bs : List ℕ) (s : Store) (x : ℕ) → s.power ≡ 0 → (write_head start bs s).disk x ≡ s.disk x
  unfolding write_head bwrite
  write_head-dead bs s x z = let dead : (s.power == 0) ≡ true = ground arith in rw dead refl

-- The log is empty, and the home blocks are those of `value`.
pub record Settled (start size : ℕ) (value : ℕ → Block) (d : ℕ → Block) : Type 0 where
  pub clear : d start 0 ≡ 0
  pub home : (x : ℕ) → Home start size x → d x ≡ value x

-- The log holds the blocks `bs` of `new`, and every other home block is that of `new`.
pub record Committed (start size : ℕ) (bs : List ℕ) (new : ℕ → Block) (d : ℕ → Block) : Type 0 where
  pub head : get_entries (d start) 1 (d start 0) ≡ bs
  pub logged : Logged start d bs 0 new
  pub rest : (x : ℕ) → Home start size x → elem x bs ≡ false → d x ≡ new x

module _ (start size : ℕ) (bs : List ℕ) (new : ℕ → Block) (homes : Homes start size bs)
    (fits : length bs < size) where
  -- The installation with enough power for it and for the empty header.
  pub finish-Settled :
      (s : Store)
      → Committed start size bs new s.disk
      → Logged start s.cached bs 0 new
      → length bs < s.power
      → Settled start size new (write_head start [] (install_trans start bs 0 s)).disk
  unfolding put_head
  finish-Settled s c l enough =
      let s1 = install_trans start bs 0 s in
      let p = install_trans-power start size bs 0 s in
      record {
        clear = ap (λ blk. blk 0) (write_head-disk start [] s1 (omega arith));
        home = λ x hx.
            (write_head-other start [] s1 x (omega arith)).0 ∙ elim (Bool-cases (elem x bs)) [
              | inl is_in ↦
                  install_trans-done start size bs 0 s new x homes (omega arith) l (omega arith)
                    is_in
              | inr is_out ↦
                  install_trans-new start size bs 0 s new x homes (omega arith) l
                    (c.rest x hx is_out)
            ];
      }

  -- With less power the transaction is in the log still.
  pub finish-Committed :
      (s : Store)
      → Committed start size bs new s.disk
      → Logged start s.cached bs 0 new
      → s.power ≤ length bs
      → Committed start size bs new (write_head start [] (install_trans start bs 0 s)).disk
  finish-Committed s c l few =
      let s1 = install_trans start bs 0 s in
      let p = install_trans-power start size bs 0 s in
      let d = (write_head start [] s1).disk in
      let dead : (x : ℕ) → d x ≡ s1.disk x = λ x. write_head-dead start [] s1 x (omega arith) in
      let log : (x : ℕ) → start ≤ x → x < start + size → d x ≡ s.disk x =
        λ x lo hi. dead x ∙ (install_trans-frame start size bs 0 s x homes lo hi).0 in
      record {
        head = rw (log start (omega arith) (omega arith)) c.head;
        logged =
            Logged-same start size s.disk d bs 0 new (omega arith)
              (λ x lo hi. log x (omega arith) hi) c.logged;
        rest = λ x hx is_out.
            dead x
            ∙ install_trans-new start size bs 0 s new x homes (omega arith) l (c.rest x hx is_out);
      }

  reboot-finish :
      (q : ℕ) (d : ℕ → Block)
      → Committed start size bs new d
      → reboot start q d
        ≡ (write_head start []
            (install_trans start bs 0 (record { disk = d; cached = d; power = q }))).disk
  unfolding reboot recover_from_log read_head
  reboot-finish q d c = rw c.head refl

  pub reboot-Settled :
      (q : ℕ) (d : ℕ → Block)
      → Committed start size bs new d
      → length bs < q
      → Settled start size new (reboot start q d)
  reboot-Settled q d c enough =
      rw (reboot-finish q d c)
        (finish-Settled (record { disk = d; cached = d; power = q }) c c.logged enough)

  pub reboot-Committed :
      (q : ℕ) (d : ℕ → Block)
      → Committed start size bs new d
      → q ≤ length bs
      → Committed start size bs new (reboot start q d)
  reboot-Committed q d c few =
      rw (reboot-finish q d c)
        (finish-Committed (record { disk = d; cached = d; power = q }) c c.logged few)

reboot-clear :
    (start q : ℕ) (d : ℕ → Block)
    → d start 0 ≡ 0
    → reboot start q d ≡ (write_head start [] (record { disk = d; cached = d; power = q })).disk
unfolding reboot recover_from_log read_head get_entries install_trans
reboot-clear start q d z = rw z refl

-- Recovery leaves a disk with an empty log as it is.
pub Settled-reboot :
    (start size q : ℕ) (value d : ℕ → Block)
    → 0 < size
    → Settled start size value d
    → Settled start size value (reboot start q d)
unfolding put_head
Settled-reboot start size q value d some_size h =
    let s : Store = record { disk = d; cached = d; power = q } in
    rw (reboot-clear start q d h.clear) (record {
      clear = elim (Bool-cases (q == 0)) [
        | inl dead ↦
            ap (λ blk. blk 0) (write_head-dead start [] s start (ground (arith, ==_iff q 0)))
            ∙ h.clear
        | inr live ↦ ap (λ blk. blk 0) (write_head-disk start [] s (ground (arith, ==_iff q 0)))
      ];
      home = λ x hx. (write_head-other start [] s x (omega arith)).0 ∙ h.home x hx;
    })
