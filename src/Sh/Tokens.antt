-- ===== src/Sh/Tokens.antt =====
-- What `peek` and `gettoken` of xv6/sh.c leave of the text.
use buffer_overflow_attack.Base.{
  Bool, Bool-cases, List, [], ap, arith, drop, false, get_or, if◌then◌else◌, inl, inr, length, refl,
  suc, sym, true, ℕ, ◌<◌, ◌==◌, ◌||◌, ◌∙◌, ◌∷◌, ◌≡◌, ◌≤◌, ◌⊎◌,
}
use buffer_overflow_attack.Sh.{
  skip_white, finished, gettoken, is_plain, is_white, read_token, starts_in, take_word, word, Token,
}

pub text-cases : (s : List ℕ) → (s ≡ []) ⊎ ((c : ℕ) × (p : List ℕ) × (s ≡ c ∷ p))
text-cases [] = inl refl
text-cases (c ∷ p) = inr (c, p, refl)

pub length-skip_white : (s : List ℕ) → length (skip_white s) ≤ length s
unfolding skip_white
length-skip_white [] = omega arith
length-skip_white (c ∷ s) = let ih = length-skip_white s in ground arith

-- What stands behind whitespace does not start with it.
pub skip_white-start : (s : List ℕ) (c : ℕ) (p : List ℕ) → skip_white s ≡ c ∷ p → is_white c ≡ false
unfolding skip_white
skip_white-start [] c p e = cc
skip_white-start (d ∷ s) c p e = elim (Bool-cases (is_white d)) [
  | inl white ↦ skip_white-start s c p (rw (skip_white, white) at e)
  | inr other ↦
      let same : d ∷ s ≡ c ∷ p = rw (skip_white, other) at e in
      let first : d ≡ c = cc in ap is_white (sym first) ∙ other
]

pub skip_white-stays : (c : ℕ) (s : List ℕ) → is_white c ≡ false → skip_white (c ∷ s) ≡ c ∷ s
unfolding skip_white
skip_white-stays c s other = ap (λ t. if t then skip_white s else c ∷ s) other

pub skip_white_idem : (s : List ℕ) → skip_white (skip_white s) ≡ skip_white s
unfolding skip_white
skip_white_idem s = elim (text-cases (skip_white s)) [
  | inl empty ↦ ap skip_white empty ∙ sym empty
  | inr (c, p, e) ↦ ap skip_white e ∙ skip_white-stays c p (skip_white-start s c p e) ∙ sym e
]

length-take_word : (s : List ℕ) → length (take_word s).1 ≤ length s
unfolding take_word
length-take_word [] = omega arith
length-take_word (c ∷ s) = let ih = length-take_word s in ground arith

length-drop : (s : List ℕ) → length (drop 1 s) ≤ length s
length-drop [] = omega arith
length-drop (c ∷ s) = omega arith

-- A byte that is neither whitespace nor one of the symbols begins a word, and is passed.
take_word-plain : (c : ℕ) (s : List ℕ) → is_plain c ≡ true → length (take_word (c ∷ s)).1 ≤ length s
unfolding take_word
take_word-plain c s plain = rw (take_word, plain) (length-take_word s)

length-if :
    (n : ℕ) (t : Bool) (x y : Token × List ℕ)
    → (t ≡ true → length x.1 ≤ n)
    → (t ≡ false → length y.1 ≤ n)
    → length (if t then x else y).1 ≤ n
length-if n true x y p q = p refl
length-if n false x y p q = q refl

-- A token has a byte at least.
read_token-shorter :
    (c : ℕ) (s : List ℕ) → is_white c ≡ false → length (read_token (c ∷ s)).1 ≤ length s
unfolding read_token
read_token-shorter c s other =
    length-if (length s)
      (c == b'|' || c == b'(' || c == b')' || c == b';' || c == b'&' || c == b'<') _ _
      (λ one. omega arith)
      (λ none_of.
        length-if (length s) (c == b'>') _ _
          (λ greater.
            length-if (length s) (get_or s 0 0 == b'>') _ _ (λ two. length-drop s)
              (λ alone. omega arith))
          (λ other_byte. take_word-plain c s (ground arith)))

pub gettoken-cons :
    (s : List ℕ) (c : ℕ) (p : List ℕ) → skip_white s ≡ c ∷ p → length (gettoken s).1 < length s
unfolding gettoken
gettoken-cons s c p e =
    let shorter = read_token-shorter c p (skip_white-start s c p e) in
    let all = length-skip_white s in
    let long : length (skip_white s) ≡ suc (length p) = ap length e in
    let same : (read_token (skip_white s)).1 ≡ (read_token (c ∷ p)).1 =
      ap (λ t. (read_token t).1) e in
    let same_length = ap length same in
    let behind = length-skip_white (read_token (skip_white s)).1 in omega arith

pub gettoken-nil : (s : List ℕ) → skip_white s ≡ [] → gettoken s ≡ (finished, [])
unfolding gettoken read_token skip_white
gettoken-nil s e = ap (λ t. ((read_token t).0, skip_white (read_token t).1)) e

pub length-gettoken : (s : List ℕ) → length (gettoken s).1 ≤ length s
length-gettoken s = elim (text-cases (skip_white s)) [
  | inl empty ↦ let none_left = ap (λ t. length t.1) (gettoken-nil s empty) in omega arith
  | inr (c, p, e) ↦ let shorter = gettoken-cons s c p e in omega arith
]

-- Where `peek` finds one of the bytes, `gettoken` passes it.
pub gettoken-peek :
    (toks : ℕ → Bool) (s : List ℕ)
    → starts_in toks (skip_white s) ≡ true
    → length (gettoken (skip_white s)).1 < length s
gettoken-peek toks s found = elim (text-cases (skip_white s)) [
  | inl empty ↦ let never : false ≡ true = ap (starts_in toks) (sym empty) ∙ found in cc
  | inr (c, p, e) ↦
      let shorter = gettoken-cons (skip_white s) c p (skip_white_idem s ∙ e) in
      let all = length-skip_white s in omega arith
]

-- A word that `gettoken` returns has been passed.
pub gettoken-word : (s w rest : List ℕ) → gettoken s ≡ (word w, rest) → length rest < length s
gettoken-word s w rest e = elim (text-cases (skip_white s)) [
  | inl empty ↦
      let none_left = gettoken-nil s empty in
      let never : word w ≡ finished = ap (λ t. t.0) (sym e ∙ none_left) in cc
  | inr (c, p, starts) ↦
      let shorter = gettoken-cons s c p starts in let same = ap (λ t. length t.1) e in omega arith
]
