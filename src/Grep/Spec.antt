-- ===== src/Grep/Spec.antt =====
-- What a pattern of xv6/grep.c means, and that the matcher decides it.
use buffer_overflow_attack.Base.{
  ==_iff, Bool, Bool-cases, List, [], arith, inl, inr, refl, true, ℕ, ◌==◌, ◌↔◌, ◌∷◌, ◌≡◌, ◌≢◌, ◌⊎◌,
}
use buffer_overflow_attack.Grep.{matchstar, match_one, is_nil, matchhere, match_any, match_re}

-- `c` stands for the byte `x`.
abbrev pub Fits : ℕ → ℕ → Type 0
Fits c x = (c ≡ b'.') ⊎ (c ≡ x)

-- `text` is some bytes for which `c` stands, and then a text of `Rest`.
pub data Star (c : ℕ) (Rest : List ℕ → Type 0) : List ℕ → Type 0 where
  stop : {text : List ℕ} → Rest text → Star c Rest text
  more : {x : ℕ} {text : List ℕ} → Fits c x → Star c Rest text → Star c Rest (x ∷ text)

-- A byte for which `c` stands, and then a text of `Rest`.
pub data One (c : ℕ) (Rest : List ℕ → Type 0) : List ℕ → Type 0 where
  one : {x : ℕ} {text : List ℕ} → Fits c x → Rest text → One c Rest (x ∷ text)

-- A prefix of the text matches the pattern: `c*` is any number of `c`, a `$` at the end of the
-- pattern is the end of the text, and any other `c` is one byte.
abbrev pub Here : List ℕ → List ℕ → Type 0
Here [] text = Unit {0}
Here (c ∷ []) text = ((c ≡ b'$') × (text ≡ [])) ⊎ ((c ≢ b'$') × One c (λ t. Unit {0}) text)
Here (c ∷ d ∷ re) text =
    ((d ≡ b'*') × Star c (λ t. Here re t) text) ⊎ ((d ≢ b'*') × One c (λ t. Here (d ∷ re) t) text)

module _ (c : ℕ) (rest : List ℕ → Bool) (Rest : List ℕ → Type 0)
    (decides : (t : List ℕ) → (rest t ≡ true) ↔ Rest t) where
  matchstar-Star : (text : List ℕ) → matchstar c rest text ≡ true → Star c Rest text
  unfolding matchstar
  matchstar-Star [] e = stop ((decides []).0 e)
  matchstar-Star (x ∷ text) e = elim (Bool-cases (rest (x ∷ text))) [
    | inl hit ↦ stop ((decides (x ∷ text)).0 hit)
    | inr miss ↦
        let fits : Fits c x = ground arith in more fits (matchstar-Star text (ground arith))
  ]

  Star-matchstar : {text : List ℕ} → Star c Rest text → matchstar c rest text ≡ true
  unfolding matchstar
  Star-matchstar {text = []} (stop r) = (decides []).1 r
  Star-matchstar {text = x ∷ text} (stop r) = let e = (decides (x ∷ text)).1 r in ground arith
  Star-matchstar (more {x} {text} fits s) = let e = Star-matchstar s in ground arith

  match_one-One : (text : List ℕ) → match_one c rest text ≡ true → One c Rest text
  unfolding match_one
  match_one-One [] e = cc
  match_one-One (x ∷ text) e =
      let fits : Fits c x = ground arith in one fits ((decides text).0 (ground arith))

  One-match_one : {text : List ℕ} → One c Rest text → match_one c rest text ≡ true
  unfolding match_one
  One-match_one (one {x} {text} fits r) = let e = (decides text).1 r in ground arith

is_nil_iff : (text : List ℕ) → (is_nil text ≡ true) ↔ (text ≡ [])
is_nil_iff [] = (λ e. refl, λ e. refl)
is_nil_iff (x ∷ text) = (λ e. cc, λ e. cc)

anything : (t : List ℕ) → (matchhere [] t ≡ true) ↔ Unit {0}
unfolding matchhere
anything t = (λ e. tt, λ h. refl)

last_iff : (c : ℕ) (text : List ℕ) → (matchhere (c ∷ []) text ≡ true) ↔ Here (c ∷ []) text
unfolding matchhere
last_iff c text = elim (Bool-cases (c == b'$')) [
  | inl end ↦
      let e : c ≡ b'$' = (==_iff c b'$').0 end in
      (
        (λ h. inl (e, (is_nil_iff text).0 (rw (matchhere, end) at h))),
        λ h.
            rw (matchhere, end)
              (elim h [ inl p ↦ (is_nil_iff text).1 p.1 | inr p ↦ absurd (p.0 e) ]),
      )
  | inr other ↦
      let ne : c ≢ b'$' = ground (arith, ==_iff c b'$') in
      let rest = λ (t : List ℕ). matchhere [] t in
      (
        (λ h.
            inr (
              ne,
              match_one-One c rest (λ t. Unit {0}) anything text (rw (matchhere, other) at h),
            )),
        λ h.
            rw (matchhere, other)
              (elim h [
                | inl p ↦ absurd (ne p.0)
                | inr p ↦ One-match_one c rest (λ t. Unit {0}) anything p.1
              ]),
      )
]

longer_iff :
    (c d : ℕ) (re text : List ℕ)
    → ((t : List ℕ) → (matchhere re t ≡ true) ↔ Here re t)
    → ((t : List ℕ) → (matchhere (d ∷ re) t ≡ true) ↔ Here (d ∷ re) t)
    → (matchhere (c ∷ d ∷ re) text ≡ true) ↔ Here (c ∷ d ∷ re) text
unfolding matchhere
longer_iff c d re text ih ih' = elim (Bool-cases (d == b'*')) [
  | inl star ↦
      let e : d ≡ b'*' = (==_iff d b'*').0 star in
      let rest = λ (t : List ℕ). matchhere re t in
      (
        (λ h. inl (e, matchstar-Star c rest (λ t. Here re t) ih text (rw (matchhere, star) at h))),
        λ h.
            rw (matchhere, star)
              (elim h [
                | inl p ↦ Star-matchstar c rest (λ t. Here re t) ih p.1
                | inr p ↦ absurd (p.0 e)
              ]),
      )
  | inr other ↦
      let ne : d ≢ b'*' = ground (arith, ==_iff d b'*') in
      let rest = λ (t : List ℕ). matchhere (d ∷ re) t in
      (
        (λ h. inr (
          ne,
          match_one-One c rest (λ t. Here (d ∷ re) t) ih' text (rw (matchhere, other) at h),
        )),
        λ h.
            rw (matchhere, other)
              (elim h [
                | inl p ↦ absurd (ne p.0)
                | inr p ↦ One-match_one c rest (λ t. Here (d ∷ re) t) ih' p.1
              ]),
      )
]

-- `matchhere` holds exactly when a prefix of the text matches the pattern.
pub matchhere-Here : (re text : List ℕ) → (matchhere re text ≡ true) ↔ Here re text
matchhere-Here [] text = anything text
matchhere-Here (c ∷ []) text = last_iff c text
matchhere-Here (c ∷ d ∷ re) text =
    longer_iff c d re text (λ t. matchhere-Here re t) (λ t. matchhere-Here (d ∷ re) t)

-- Some suffix of the text, the empty one included, starts with a match.
pub data Within (re : List ℕ) : List ℕ → Type 0 where
  here : {text : List ℕ} → Here re text → Within re text
  later : {x : ℕ} {text : List ℕ} → Within re text → Within re (x ∷ text)

match_any-Within : (re text : List ℕ) → match_any re text ≡ true → Within re text
unfolding match_any
match_any-Within re [] e = here ((matchhere-Here re []).0 e)
match_any-Within re (x ∷ text) e = elim (Bool-cases (matchhere re (x ∷ text))) [
  | inl hit ↦ here ((matchhere-Here re (x ∷ text)).0 hit)
  | inr miss ↦ later (match_any-Within re text (ground arith))
]

Within-match_any : {re text : List ℕ} → Within re text → match_any re text ≡ true
unfolding match_any
Within-match_any {re} {text = []} (here h) = (matchhere-Here re []).1 h
Within-match_any {re} {text = x ∷ text} (here h) =
    let e = (matchhere-Here re (x ∷ text)).1 h in ground arith
Within-match_any {re} {text = x ∷ text} (later w) = let e = Within-match_any w in ground arith

-- What a whole pattern means: behind a `^` at the start of the text, otherwise anywhere.
abbrev pub Matches : List ℕ → List ℕ → Type 0
Matches [] text = Within [] text
Matches (c ∷ re) text = ((c ≡ b'^') × Here re text) ⊎ ((c ≢ b'^') × Within (c ∷ re) text)

-- `match` decides the meaning of the pattern: it holds exactly when the text matches, at its start
-- behind a `^` and anywhere otherwise.
pub match_re-Matches : (re text : List ℕ) → (match_re re text ≡ true) ↔ Matches re text
unfolding match_re
match_re-Matches [] text = (match_any-Within [] text, λ w. Within-match_any w)
match_re-Matches (c ∷ re) text = elim (Bool-cases (c == b'^')) [
  | inl start ↦
      let e : c ≡ b'^' = (==_iff c b'^').0 start in
      (
        (λ h. inl (e, (matchhere-Here re text).0 (rw (match_re, start) at h))),
        λ h.
            rw (match_re, start)
              (elim h [ inl p ↦ (matchhere-Here re text).1 p.1 | inr p ↦ absurd (p.0 e) ]),
      )
  | inr other ↦
      let ne : c ≢ b'^' = ground (arith, ==_iff c b'^') in
      (
        (λ h. inr (ne, match_any-Within (c ∷ re) text (rw (match_re, other) at h))),
        λ h.
            rw (match_re, other)
              (elim h [ inl p ↦ absurd (ne p.0) | inr p ↦ Within-match_any p.1 ]),
      )
]
