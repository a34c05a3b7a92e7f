-- ===== src/Log/Moves.antt =====
-- What the two copying loops of xv6/log.c leave on the disk and in the buffers, at any moment at
-- which the power may fail.
use buffer_overflow_attack.Base.{
  ==_iff, Bool, Bool-cases, List, [], arith, false, if◌then◌else◌, inl, inr, length, refl, true, ℕ,
  ◌+◌, ◌-◌, ◌<◌, ◌==◌, ◌∙◌, ◌∷◌, ◌≡◌, ◌≢◌, ◌≤◌, ◌⊎◌,
}
use buffer_overflow_attack.Log.{Block, Store, bwrite, copy_block, write_log}

abbrev pub elem : ℕ → List ℕ → Bool
elem x [] = false
elem x (b ∷ bs) = if x == b then true else elem x bs

-- The log's blocks are those from `start` to `start + size`; `bs` are home blocks.
abbrev pub Home : ℕ → ℕ → ℕ → Type 0
Home start size x = (x < start) ⊎ (start + size ≤ x)

abbrev pub Homes : ℕ → ℕ → List ℕ → Type 0
Homes start size [] = Unit {0}
Homes start size (b ∷ bs) = Home start size b × Homes start size bs

-- The log from index `tail` on holds the blocks of `new` that `bs` names.
abbrev pub Logged : ℕ → (ℕ → Block) → List ℕ → ℕ → (ℕ → Block) → Type 0
Logged start f [] tail new = Unit {0}
Logged start f (b ∷ bs) tail new = (f (start + tail + 1) ≡ new b) × Logged start f bs (tail + 1) new

-- One turn of either loop.
unfoldable pub move : ℕ → ℕ → Store → Store
unfolding bwrite copy_block
move to from s = bwrite to (copy_block to from s)

pub move-power : (to from : ℕ) (s : Store) → (move to from s).power ≡ s.power - 1
unfolding move bwrite copy_block
move-power to from s = refl

pub move-other :
    (to from : ℕ) (s : Store) (x : ℕ)
    → x ≢ to
    → ((move to from s).disk x ≡ s.disk x) × ((move to from s).cached x ≡ s.cached x)
unfolding move bwrite copy_block
move-other to from s x ne =
    let other : (x == to) ≡ false = ground (arith, ==_iff x to) in
    elim (Bool-cases (s.power == 0)) [
      | inl dead ↦ (rw dead refl, rw other refl)
      | inr live ↦ (rw (live, other) refl, rw other refl)
    ]

pub move-cached : (to from : ℕ) (s : Store) → (move to from s).cached to ≡ s.cached from
unfolding move bwrite copy_block
move-cached to from s = let same : (to == to) ≡ true = ground arith in rw same refl

pub move-disk : (to from : ℕ) (s : Store) → s.power ≢ 0 → (move to from s).disk to ≡ s.cached from
unfolding move bwrite copy_block
move-disk to from s ne =
    let same : (to == to) ≡ true = ground arith in
    let live : (s.power == 0) ≡ false = ground arith in rw (live, same) refl

pub move-dead : (to from : ℕ) (s : Store) (x : ℕ) → s.power ≡ 0 → (move to from s).disk x ≡ s.disk x
unfolding move bwrite copy_block
move-dead to from s x z = let dead : (s.power == 0) ≡ true = ground arith in rw dead refl

pub move-new :
    (to from : ℕ) (s : Store) (new : ℕ → Block) (x : ℕ)
    → s.cached from ≡ new to
    → s.disk x ≡ new x
    → (move to from s).disk x ≡ new x
move-new to from s new x e at = elim (Bool-cases (x == to)) [
  | inl same ↦
      let is_to = (==_iff x to).0 same in
      elim (Bool-cases (s.power == 0)) [
        | inl dead ↦ move-dead to from s x (ground (arith, ==_iff s.power 0)) ∙ at
        | inr live ↦ rw is_to (move-disk to from s (ground (arith, ==_iff s.power 0)) ∙ e)
      ]
  | inr other ↦ (move-other to from s x (ground (arith, ==_iff x to))).0 ∙ at
]

module _ (start size : ℕ) where
  pub Logged-same :
      (f g : ℕ → Block) (bs : List ℕ) (tail : ℕ) (new : ℕ → Block)
      → tail + length bs < size
      → ((x : ℕ) → start < x → x < start + size → g x ≡ f x)
      → Logged start f bs tail new
      → Logged start g bs tail new
  Logged-same f g [] tail new fits h l = tt
  Logged-same f g (b ∷ bs) tail new fits h (e, l) = (
    h (start + tail + 1) (omega arith) (omega arith) ∙ e,
    Logged-same f g bs (tail + 1) new (omega arith) h l,
  )

  pub write_log-power :
      (bs : List ℕ) (tail : ℕ) (s : Store) → (write_log start bs tail s).power ≡ s.power - length bs
  unfolding write_log move
  write_log-power [] tail s = omega arith
  write_log-power (b ∷ bs) tail s =
      let s1 = move (start + tail + 1) b s in
      let p = move-power (start + tail + 1) b s in omega (arith, write_log-power bs (tail + 1) s1)

  -- Nothing outside of the log's entries changes, on the disk or in the buffers.
  pub write_log-frame :
      (bs : List ℕ) (tail : ℕ) (s : Store) (x : ℕ)
      → (x < start + tail + 1) ⊎ (start + tail + 1 + length bs ≤ x)
      → ((write_log start bs tail s).disk x ≡ s.disk x)
        × ((write_log start bs tail s).cached x ≡ s.cached x)
  unfolding write_log move
  write_log-frame [] tail s x out = (refl, refl)
  write_log-frame (b ∷ bs) tail s x out =
      let s1 = move (start + tail + 1) b s in
      let (d, c) = write_log-frame bs (tail + 1) s1 x (omega arith) in
      let (d1, c1) = move-other (start + tail + 1) b s x (omega arith) in (d ∙ d1, c ∙ c1)

  -- The log's buffers hold the blocks that the header names, and so does the disk if the power
  -- lasts.
  pub write_log-Logged :
      (bs : List ℕ) (tail : ℕ) (s : Store) (new : ℕ → Block)
      → Homes start size bs
      → tail + length bs < size
      → ((x : ℕ) → Home start size x → s.cached x ≡ new x)
      → Logged start (write_log start bs tail s).cached bs tail new
  unfolding write_log move
  write_log-Logged [] tail s new homes fits h = tt
  write_log-Logged (b ∷ bs) tail s new (home, homes) fits h =
      let s1 = move (start + tail + 1) b s in
      let (d, c) = write_log-frame bs (tail + 1) s1 (start + tail + 1) (omega arith) in
      let kept : (x : ℕ) → Home start size x → s1.cached x ≡ new x =
        λ x hx. (move-other (start + tail + 1) b s x (omega arith)).1 ∙ h x hx in
      (
        c ∙ move-cached (start + tail + 1) b s ∙ h b home,
        write_log-Logged bs (tail + 1) s1 new homes (omega arith) kept,
      )

  pub write_log-disk :
      (bs : List ℕ) (tail : ℕ) (s : Store) (new : ℕ → Block)
      → Homes start size bs
      → tail + length bs < size
      → ((x : ℕ) → Home start size x → s.cached x ≡ new x)
      → length bs ≤ s.power
      → Logged start (write_log start bs tail s).disk bs tail new
  unfolding write_log move
  write_log-disk [] tail s new homes fits h enough = tt
  write_log-disk (b ∷ bs) tail s new (home, homes) fits h enough =
      let s1 = move (start + tail + 1) b s in
      let (d, c) = write_log-frame bs (tail + 1) s1 (start + tail + 1) (omega arith) in
      let kept : (x : ℕ) → Home start size x → s1.cached x ≡ new x =
        λ x hx. (move-other (start + tail + 1) b s x (omega arith)).1 ∙ h x hx in
      let p = move-power (start + tail + 1) b s in
      (
        d ∙ move-disk (start + tail + 1) b s (omega arith) ∙ h b home,
        write_log-disk bs (tail + 1) s1 new homes (omega arith) kept (omega arith),
      )
