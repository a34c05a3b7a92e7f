-- ===== src/Sh/Words.antt =====
-- The words and the redirections of a printed command are read back.
use buffer_overflow_attack.Base.{
  Bool, List, [], ap, ap₂, arith, false, if-no, if◌then◌else◌, refl, true, ℕ, ◌==◌, ◌||◌, ◌∙◌, ◌∷◌,
  ◌≡◌,
}
use buffer_overflow_attack.Sh.{
  ends_args, gettoken, is_plain, peek, read_token, skip_white, starts_in, take_word, word,
}
use buffer_overflow_attack.Sh.Tokens.{skip_white-stays}
use buffer_overflow_attack.Sh.Print.{print_word, AllPlain, IsWord}

-- What can stand behind a simple command.
abbrev pub stops : List ℕ → Bool
stops [] = true
stops (c ∷ s) = ends_args c

-- Nothing to skip.
abbrev pub Settled : List ℕ → Type 0
Settled s = skip_white s ≡ s

pub peek-no :
    (toks : ℕ → Bool) (s : List ℕ) → Settled s → starts_in toks s ≡ false → peek toks s ≡ (false, s)
unfolding peek
peek-no toks s settled no_start =
    ap₂ (λ t u. (t, u)) (ap (starts_in toks) settled ∙ no_start) settled

pub peek-yes :
    (toks : ℕ → Bool) (s : List ℕ) → Settled s → starts_in toks s ≡ true → peek toks s ≡ (true, s)
unfolding peek
peek-yes toks s settled start = ap₂ (λ t u. (t, u)) (ap (starts_in toks) settled ∙ start) settled

pub stops-Settled : (s : List ℕ) → stops s ≡ true → Settled s
unfolding skip_white
stops-Settled [] h = refl
stops-Settled (c ∷ s) h = skip_white-stays c s (ground arith)

pub stops-no :
    (toks : ℕ → Bool) (s : List ℕ)
    → ((c : ℕ) → ends_args c ≡ true → toks c ≡ false)
    → stops s ≡ true
    → starts_in toks s ≡ false
stops-no toks [] f h = refl
stops-no toks (c ∷ s) f h = f c h

pub word-Settled : (w s : List ℕ) → IsWord w → Settled (print_word w s)
word-Settled [] s h = absurd (let l = h.1 in omega arith)
word-Settled (c ∷ w) s h = let p = h.0.0 in skip_white-stays c (print_word w s) (ground arith)

pub word-no :
    (toks : ℕ → Bool) (w s : List ℕ)
    → ((c : ℕ) → is_plain c ≡ true → toks c ≡ false)
    → IsWord w
    → starts_in toks (print_word w s) ≡ false
word-no toks [] s f h = absurd (let l = h.1 in omega arith)
word-no toks (c ∷ w) s f h = f c h.0.0

take_word-print : (w s : List ℕ) → AllPlain w → take_word (print_word w s) ≡ (w, b' ' ∷ s)
unfolding take_word
take_word-print [] s h = refl
take_word-print (c ∷ w) s (p, h) =
    let ih = take_word-print w s h in
    ap
      (λ t.
        if t
        then (c ∷ (take_word (print_word w s)).0, (take_word (print_word w s)).1)
        else ([], c ∷ print_word w s))
      p
    ∙ ap (λ r. (c ∷ r.0, r.1)) ih

read_token-word : (w s : List ℕ) → IsWord w → read_token (print_word w s) ≡ (word w, b' ' ∷ s)
unfolding read_token
read_token-word [] s h = absurd (let l = h.1 in omega arith)
read_token-word (c ∷ w) s h =
    let p = h.0.0 in
    let one : (c == b'|' || c == b'(' || c == b')' || c == b';' || c == b'&' || c == b'<') ≡ false =
      ground arith in
    let greater : (c == b'>') ≡ false = ground arith in
    let got = take_word-print (c ∷ w) s h.0 in
    if-no _ _ one ∙ if-no _ _ greater ∙ ap (λ r. (word r.0, r.1)) got

pub gettoken-print_word :
    (w s : List ℕ) → IsWord w → Settled s → gettoken (print_word w s) ≡ (word w, s)
unfolding gettoken skip_white
gettoken-print_word w s h settled =
    let start = word-Settled w s h in
    let got = read_token-word w s h in
    let behind : skip_white (b' ' ∷ s) ≡ s = settled in
    ap (λ t. ((read_token t).0, skip_white (read_token t).1)) start
    ∙ ap (λ r. (r.0, skip_white r.1)) got
    ∙ ap (λ t. (word w, t)) behind
