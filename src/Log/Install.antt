-- ===== src/Log/Install.antt =====
-- What `install_trans` of xv6/log.c leaves on the disk.
use buffer_overflow_attack.Base.{
  ==_iff, Bool-cases, List, [], arith, inl, inr, length, refl, true, ℕ, ◌+◌, ◌-◌, ◌<◌, ◌==◌, ◌∙◌,
  ◌∷◌, ◌≡◌, ◌≤◌,
}
use buffer_overflow_attack.Log.{Block, Store, install_trans}
use buffer_overflow_attack.Log.Moves.{
  elem, Home, Homes, Logged, Logged-same, move, move-power, move-other, move-disk, move-dead,
  move-new,
}

module _ (start size : ℕ) where
  pub install_trans-power :
      (bs : List ℕ) (tail : ℕ) (s : Store)
      → (install_trans start bs tail s).power ≡ s.power - length bs
  unfolding install_trans move
  install_trans-power [] tail s = omega arith
  install_trans-power (b ∷ bs) tail s =
      let s1 = move b (start + tail + 1) s in
      let p = move-power b (start + tail + 1) s in
      omega (arith, install_trans-power bs (tail + 1) s1)

  -- The log itself stays, on the disk and in the buffers.
  pub install_trans-frame :
      (bs : List ℕ) (tail : ℕ) (s : Store) (x : ℕ)
      → Homes start size bs
      → start ≤ x
      → x < start + size
      → ((install_trans start bs tail s).disk x ≡ s.disk x)
        × ((install_trans start bs tail s).cached x ≡ s.cached x)
  unfolding install_trans move
  install_trans-frame [] tail s x homes lo hi = (refl, refl)
  install_trans-frame (b ∷ bs) tail s x (home, homes) lo hi =
      let s1 = move b (start + tail + 1) s in
      let (d, c) = install_trans-frame bs (tail + 1) s1 x homes lo hi in
      let (d1, c1) = move-other b (start + tail + 1) s x (omega arith) in (d ∙ d1, c ∙ c1)

  Logged-move :
      (b : ℕ) (bs : List ℕ) (from tail : ℕ) (s : Store) (new : ℕ → Block)
      → Home start size b
      → tail + length bs < size
      → Logged start s.cached bs tail new
      → Logged start (move b from s).cached bs tail new
  Logged-move b bs from tail s new home fits l =
      Logged-same start size s.cached (move b from s).cached bs tail new fits
        (λ x lo hi. (move-other b from s x (omega arith)).1) l

  -- A block that is new already stays so, whenever the power fails.
  pub install_trans-new :
      (bs : List ℕ) (tail : ℕ) (s : Store) (new : ℕ → Block) (x : ℕ)
      → Homes start size bs
      → tail + length bs < size
      → Logged start s.cached bs tail new
      → s.disk x ≡ new x
      → (install_trans start bs tail s).disk x ≡ new x
  unfolding install_trans move
  install_trans-new [] tail s new x homes fits l at = at
  install_trans-new (b ∷ bs) tail s new x (home, homes) fits (e, l) at =
      let s1 = move b (start + tail + 1) s in
      let l1 = Logged-move b bs (start + tail + 1) (tail + 1) s new home (omega arith) l in
      install_trans-new bs (tail + 1) s1 new x homes (omega arith) l1
        (move-new b (start + tail + 1) s new x e at)

  -- With enough power every block that the header names is new.
  pub install_trans-done :
      (bs : List ℕ) (tail : ℕ) (s : Store) (new : ℕ → Block) (x : ℕ)
      → Homes start size bs
      → tail + length bs < size
      → Logged start s.cached bs tail new
      → length bs ≤ s.power
      → elem x bs ≡ true
      → (install_trans start bs tail s).disk x ≡ new x
  unfolding install_trans move
  install_trans-done [] tail s new x homes fits l enough is_in = cc
  install_trans-done (b ∷ bs) tail s new x (home, homes) fits (e, l) enough is_in =
      let s1 = move b (start + tail + 1) s in
      let l1 = Logged-move b bs (start + tail + 1) (tail + 1) s new home (omega arith) l in
      let p = move-power b (start + tail + 1) s in
      elim (Bool-cases (x == b)) [
        | inl same ↦
            let is_b = (==_iff x b).0 same in
            let now : s1.disk x ≡ new x =
              rw is_b (move-disk b (start + tail + 1) s (omega arith) ∙ e) in
            install_trans-new bs (tail + 1) s1 new x homes (omega arith) l1 now
        | inr other ↦
            let is_in' : elem x bs ≡ true = rw other at is_in in
            install_trans-done bs (tail + 1) s1 new x homes (omega arith) l1 (omega arith) is_in'
      ]

  -- Without power nothing reaches the disk.
  pub install_trans-dead :
      (bs : List ℕ) (tail : ℕ) (s : Store) (x : ℕ)
      → s.power ≡ 0
      → (install_trans start bs tail s).disk x ≡ s.disk x
  unfolding install_trans move
  install_trans-dead [] tail s x dead = refl
  install_trans-dead (b ∷ bs) tail s x dead =
      let s1 = move b (start + tail + 1) s in
      let p = move-power b (start + tail + 1) s in
      install_trans-dead bs (tail + 1) s1 x (omega arith) ∙ move-dead b (start + tail + 1) s x dead
