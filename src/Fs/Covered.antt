-- ===== src/Fs/Covered.antt =====
-- Every change of xv6/fs.c to the disk goes through the log.
use buffer_overflow_attack.Base.{
  ==_iff, Bool, Bool-cases, List, Option, [], arith, false, if◌then◌else◌, inl, inr, leb, leb_ℤ,
  length, ltb, none, pos, refl, some, subst, suc, sym, true, zero, ℕ, ◌%◌, ◌+◌, ◌-ℤ◌, ◌==◌, ◌||◌,
  ◌∙◌, ◌∷◌, ◌≡◌,
}
use buffer_overflow_attack.Kalloc.{Outcome, ok, panic, ◌>>=◌}
use buffer_overflow_attack.Str.{Memory}
use buffer_overflow_attack.Log.{absorb, log_size, log_write}
use buffer_overflow_attack.Log.Moves.{elem}
use buffer_overflow_attack.Fs.{
  Super, Disk, bits_per_block, bblock, put_data, bit_of, set_bit, clear_bit, update, bzero,
  scan_block, take_bit, on_found, balloc_from, or_panic, map_rounds, balloc, bfree,
}

-- Behind a step that begins in `s`, a block that the log has not noted is as it was, and what was
-- noted is so still.
pub record Covered (s s' : Disk) : Type 0 where
  pub same : (x : ℕ) → elem x s'.noted ≡ false → s'.blocks x ≡ s.blocks x
  pub grows : (x : ℕ) → elem x s.noted ≡ true → elem x s'.noted ≡ true

pub Covered-refl : (s : Disk) → Covered s s
Covered-refl s = record { same = λ x h. refl; grows = λ x h. h }

pub Covered-trans : {s t u : Disk} → Covered s t → Covered t u → Covered s u
Covered-trans {s} {t} {u} p q = record {
  same = λ x h. elim (Bool-cases (elem x t.noted)) [
    | inl inside ↦ let yes = q.grows x inside in cc
    | inr outside ↦ q.same x h ∙ p.same x outside
  ];
  grows = λ x h. q.grows x (p.grows x h);
}

-- What holds of the value of a call that does not panic.
abbrev pub Ends : {A : Type 0} → Outcome A → (A → Type 0) → Type 0
Ends (ok a) P = P a
Ends panic P = Unit {0}

pub Ends-bind :
    {A B : Type 0} (m : Outcome A) (f : A → Outcome B) (P : A → Type 0) (Q : B → Type 0)
    → Ends m P
    → ((a : A) → P a → Ends (f a) Q)
    → Ends (m >>= f) Q
Ends-bind (ok a) f P Q h k = k a h
Ends-bind panic f P Q h k = tt

pub Ends-if :
    {A : Type 0} (b : Bool) (m n : Outcome A) (P : A → Type 0)
    → Ends m P
    → Ends n P
    → Ends (if b then m else n) P
Ends-if true m n P h k = h
Ends-if false m n P h k = k

pub Ends-option :
    {A B : Type 0} (o : Option B) (x : Outcome A) (f : B → Outcome A) (P : A → Type 0)
    → Ends x P
    → ((b : B) → Ends (f b) P)
    → Ends (elim o [ none ↦ x | some b ↦ f b ]) P
Ends-option none x f P h k = h
Ends-option (some b) x f P h k = k b

-- A chain of two calls.
pub then_Covered :
    {A B : Type 0} (m : Outcome A) (f : A → Outcome B) (s : Disk) (d : A → Disk) (d' : B → Disk)
    → Ends m (λ a. Covered s (d a))
    → ((a : A) → Ends (f a) (λ b. Covered (d a) (d' b)))
    → Ends (m >>= f) (λ b. Covered s (d' b))
then_Covered m f s d d' h k =
    Ends-bind m f (λ a. Covered s (d a)) (λ b. Covered s (d' b)) h
      λ a c.
        widen (f a) (λ b. Covered (d a) (d' b)) (λ b. Covered s (d' b)) (k a)
          (λ b c'. Covered-trans c c')
  where
    widen :
        {B : Type 0} (m : Outcome B) (P Q : B → Type 0)
        → Ends m P
        → ((b : B) → P b → Q b)
        → Ends m Q
    widen (ok b) P Q h k = k b h
    widen panic P Q h k = tt

pub Ends-some :
    {A B : Type 0} (o : Option B) (x : Outcome A) (f : B → Outcome A) (P : A → Type 0) (b : B)
    → o ≡ some b
    → Ends (f b) P
    → Ends (elim o [ none ↦ x | some b ↦ f b ]) P
Ends-some none x f P b e h = cc
Ends-some (some b') x f P b e h = let same : b' ≡ b = cc in subst (λ b. Ends (f b) P) (sym same) h

pub Ends-after :
    {A B : Type 0} (m : Outcome A) (f : A → Outcome B) (P : B → Type 0)
    → ((a : A) → Ends (f a) P)
    → Ends (m >>= f) P
Ends-after (ok a) f P h = h a
Ends-after panic f P h = tt

elem-absorb_self : (b : ℕ) (bs : List ℕ) → elem b (absorb b bs) ≡ true
unfolding absorb
elem-absorb_self b [] = ground arith
elem-absorb_self b (x ∷ xs) = elim (Bool-cases (x == b)) [
  | inl same ↦ rw (absorb, same) (ground arith)
  | inr other ↦ let ih = elem-absorb_self b xs in rw (absorb, other) (ground arith)
]

elem-absorb : (b x : ℕ) (bs : List ℕ) → elem x bs ≡ true → elem x (absorb b bs) ≡ true
unfolding absorb
elem-absorb b x [] h = cc
elem-absorb b x (y ∷ ys) h = elim (Bool-cases (y == b)) [
  | inl same ↦ rw (absorb, same) h
  | inr other ↦
      rw (absorb, other)
        (elim (Bool-cases (x == y)) [
          | inl hit ↦ rw hit refl
          | inr miss ↦ rw miss (elem-absorb b x ys (rw miss at h))
        ])
]

module _ (sb : Super) (outstanding : ℕ) where
  noted-absorb :
      (b : ℕ) (s : Disk)
      → Ends (log_write sb.nlog outstanding b s.noted) (λ l. l ≡ absorb b s.noted)
  unfolding log_write
  noted-absorb b s =
      Ends-if (leb log_size (length s.noted) || leb_ℤ (pos sb.nlog -ℤ pos 1) (pos (length s.noted)))
        panic (if ltb outstanding 1 then panic else ok (absorb b s.noted))
        (λ l. l ≡ absorb b s.noted) tt
        (Ends-if (ltb outstanding 1) panic (ok (absorb b s.noted)) (λ l. l ≡ absorb b s.noted) tt
          refl)

  absorbed :
      (b : ℕ) (bytes : Memory) (s : Disk)
      → Covered s (record { blocks = put_data s.blocks b bytes; noted = absorb b s.noted })
  absorbed b bytes s = record {
    same = λ x h. elim (Bool-cases (x == b)) [
      | inl hit ↦
          let at = (==_iff x b).0 hit in
          let yes = elem-absorb_self b s.noted in
          absurd (let no : elem b (absorb b s.noted) ≡ false = rw at at h in cc)
      | inr miss ↦ rw miss refl
    ];
    grows = λ x h. elem-absorb b x s.noted h;
  }

  pub update-Covered :
      (b : ℕ) (bytes : Memory) (s : Disk) → Ends (update sb outstanding b bytes s) (Covered s)
  unfolding update
  update-Covered b bytes s =
      Ends-bind (log_write sb.nlog outstanding b s.noted)
        (λ l. ok (record { blocks = put_data s.blocks b bytes; noted = l }))
        (λ l. l ≡ absorb b s.noted) (Covered s) (noted-absorb b s) λ l e. rw e (absorbed b bytes s)

  pub take_bit-Covered :
      (b bi : ℕ) (s : Disk) → Ends (take_bit sb outstanding b bi s) (λ r. Covered s r.1)
  unfolding take_bit bzero
  take_bit-Covered b bi s =
      Ends-bind (update sb outstanding (bblock sb b) (set_bit (s.blocks (bblock sb b)) bi) s) _
        (Covered s) (λ r. Covered s r.1)
        (update-Covered (bblock sb b) (set_bit (s.blocks (bblock sb b)) bi) s)
        λ s1 c1.
          Ends-bind (bzero sb outstanding (b + bi) s1) _ (Covered s1) (λ r. Covered s r.1)
            (update-Covered (b + bi) (λ i. 0) s1) λ s2 c2. Covered-trans c1 c2

  round-Covered :
      (below : Bool) (b : ℕ) (s : Disk) (rest : Option (Outcome (ℕ × Disk))) (found : Option ℕ)
      → Ends (or_panic sb outstanding rest) (λ r. Covered s r.1)
      → Ends
          (or_panic sb outstanding
            (if below then on_found sb outstanding b s rest found else some panic))
          (λ r. Covered s r.1)
  unfolding on_found
  round-Covered false b s rest found h = tt
  round-Covered true b s rest none h = h
  round-Covered true b s rest (some bi) h = take_bit-Covered b bi s

  -- `or_panic` over the rounds.
  balloc_from-Covered :
      (fuel b : ℕ) (s : Disk)
      → Ends (or_panic sb outstanding (balloc_from sb outstanding fuel b s)) (λ r. Covered s r.1)
  unfolding balloc_from
  balloc_from-Covered zero b s = tt
  balloc_from-Covered (suc fuel) b s =
      round-Covered (ltb b sb.size) b s (balloc_from sb outstanding fuel (b + bits_per_block) s)
        (scan_block sb outstanding (s.blocks (bblock sb b)) b)
        (balloc_from-Covered fuel (b + bits_per_block) s)

  pub balloc-Covered : (s : Disk) → Ends (balloc sb outstanding s) (λ r. Covered s r.1)
  unfolding balloc
  balloc-Covered s = balloc_from-Covered (map_rounds sb outstanding) 0 s

  pub bfree-Covered : (b : ℕ) (s : Disk) → Ends (bfree sb outstanding b s) (Covered s)
  unfolding bfree
  bfree-Covered b s =
      Ends-if (bit_of (s.blocks (bblock sb b)) (b % bits_per_block) == 0) panic
        (update sb outstanding (bblock sb b)
          (clear_bit (s.blocks (bblock sb b)) (b % bits_per_block)) s)
        (Covered s) tt
        (update-Covered (bblock sb b) (clear_bit (s.blocks (bblock sb b)) (b % bits_per_block)) s)
