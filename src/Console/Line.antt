-- ===== src/Console/Line.antt =====
-- The buffer of xv6/console.c as two texts: the keys of complete lines, which readers wait for, and the
-- line that is edited.
use buffer_overflow_attack.Base.{
  ==_iff, Bool, Bool-cases, List, [], ap, arith, false, if◌then◌else◌, inl, inr, length, ltb, not,
  suc, sym, zero, ℕ, ◌%◌, ◌&&◌, ◌++◌, ◌+◌, ◌-◌, ◌<◌, ◌==◌, ◌^◌, ◌||◌, ◌∙◌, ◌∷◌, ◌≡◌, ◌≢◌, ◌≤◌,
}
use buffer_overflow_attack.Console.{Input, input_buf, backspace, control, kill_line, last, newline}
use buffer_overflow_attack.Console.Ring.{
  from_to, drop_last, drop_last-window, has, has-window_last, window,
}

abbrev pub committed : Input → List ℕ
committed p = window p.buf p.r (from_to p.r p.w)

abbrev pub editing : Input → List ℕ
editing p = window p.buf p.w (from_to p.w p.e)

pub record IsInput (p : Input) : Type 0 where
  pub r_word : p.r < 2 ^ 32
  pub w_word : p.w < 2 ^ 32
  pub e_word : p.e < 2 ^ 32
  pub held : from_to p.r p.w + from_to p.w p.e ≤ input_buf
  pub plain : has b'\n' (editing p) ≡ false

-- Whether a key completes the line, of which `n` keys are in the buffer.
abbrev pub ends_line : ℕ → ℕ → Bool
ends_line c n = c == b'\n' || c == control b'D' || n == input_buf

-- What a key makes of the two texts.
abbrev pub typed : ℕ → List ℕ × List ℕ → List ℕ × List ℕ
typed c (lines, line) =
    if c == control b'P'
    then (lines, line)
    else if c == control b'U'
    then (lines, [])
    else if c == control b'H' || c == 127
    then (lines, drop_last line)
    else if not (c == 0) && ltb (length lines + length line) input_buf
    then (if ends_line (newline c) (length lines + length line + 1)
        then (lines ++ (line ++ (newline c ∷ [])), [])
        else (lines, line ++ (newline c ∷ [])))
    else (lines, line)

-- The texts behind a key, in a buffer that is still valid.
pub record Shows (p : Input) (texts : List ℕ × List ℕ) : Type 0 where
  pub valid : IsInput p
  pub shown : (committed p, editing p) ≡ texts

-- The last key of the line that is edited.
module _ (p : Input) (h : IsInput p) (some_key : p.e ≢ p.w) where
  abbrev shorter : ℕ
  shorter = from_to p.w p.e - 1

  editing-shorter : from_to p.w p.e ≡ suc shorter
  editing-shorter = let a = h.w_word in let b = h.e_word in omega arith

  from_to-last : from_to p.w (last p) ≡ shorter
  from_to-last = let a = h.w_word in let b = h.e_word in omega arith

  last-plain :
      (has b'\n' (window p.buf p.w shorter) ≡ false)
      × ((p.buf (last p % input_buf) == b'\n') ≡ false)
  last-plain =
      let a = h.w_word in
      let b = h.e_word in
      let at : (p.w + shorter) % 2 ^ 32 ≡ last p = omega arith in
      let (before, this) =
        has-window_last p.buf b'\n' p.w shorter a
          (ap (λ n. has b'\n' (window p.buf p.w n)) (sym editing-shorter) ∙ h.plain) in
      (before, ap (λ i. p.buf (i % input_buf) == b'\n') (sym at) ∙ this)

  erase-IsInput : IsInput (record p { e = last p })
  erase-IsInput = record {
    r_word = h.r_word;
    w_word = h.w_word;
    e_word = omega arith;
    held = let a = h.held in let b = from_to-last in omega arith;
    plain = ap (λ n. has b'\n' (window p.buf p.w n)) from_to-last ∙ last-plain.0;
  }

  erase-Shows : Shows (record p { e = last p }) (committed p, drop_last (editing p))
  erase-Shows = record {
    valid = erase-IsInput;
    shown =
        ap (λ l. (committed p, l))
          (ap (window p.buf p.w) from_to-last
            ∙ sym (drop_last-window p.buf p.w shorter)
            ∙ ap (λ n. drop_last (window p.buf p.w n)) (sym editing-shorter));
  }

-- With nothing to edit.
pub empty-line : (p : Input) → IsInput p → p.e ≡ p.w → editing p ≡ []
empty-line p h same =
    let none_left : from_to p.w p.e ≡ 0 = let a = h.w_word in omega arith in
    ap (window p.buf p.w) none_left

pub kill_line-all :
    (fuel : ℕ) (p : Input)
    → IsInput p
    → from_to p.w p.e ≤ fuel
    → (kill_line fuel p).0 ≡ record p { e = p.w }
unfolding kill_line
kill_line-all zero p h enough =
    let a = h.w_word in
    let b = h.e_word in let same : p.e ≡ p.w = omega arith in λ i. record p { e = same i }
kill_line-all (suc fuel) p h enough = elim (Bool-cases (p.e == p.w)) [
  | inl empty ↦
      let same : p.e ≡ p.w = (==_iff p.e p.w).0 empty in
      rw (kill_line, empty) (λ i. record p { e = same i })
  | inr more ↦
      let ne : p.e ≢ p.w = λ e. absurd (let yes = (==_iff p.e p.w).1 e in cc) in
      let (before, this) = last-plain p h ne in
      let left = from_to-last p h ne in
      rw (kill_line, more, this)
        (kill_line-all fuel (record p { e = last p }) (erase-IsInput p h ne) (omega arith))
]

pub backspace-Shows :
    (p : Input) → IsInput p → Shows (backspace p).0 (committed p, drop_last (editing p))
unfolding backspace
backspace-Shows p h = elim (Bool-cases (p.e == p.w)) [
  | inl empty ↦
      let none_left = empty-line p h ((==_iff p.e p.w).0 empty) in
      rw (backspace, empty)
        (record {
          valid = h;
          shown = ap (λ l. (committed p, l)) (none_left ∙ ap drop_last (sym none_left));
        })
  | inr more ↦
      let ne : p.e ≢ p.w = λ e. absurd (let yes = (==_iff p.e p.w).1 e in cc) in
      rw (backspace, more) (erase-Shows p h ne)
]
