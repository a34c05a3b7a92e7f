-- ===== src/Console/Read.antt =====
-- `consoleread` of xv6/console.c, and a line that is typed and then read.
use buffer_overflow_attack.Base.{
  ==_iff, Bool, Bool-cases, List, [], ap, arith, false, if◌then◌else◌, inl, inr, ltb, refl, suc,
  true, zero, ℕ, ◌%◌, ◌+◌, ◌-◌, ◌==◌, ◌^◌, ◌∷◌, ◌≡◌, ◌≢◌,
}
use buffer_overflow_attack.Console.{
  Input, input_buf, ReadEnd, control, counted, failed, read_from, waits, consoleread,
}
use buffer_overflow_attack.Console.Ring.{from_to, window}
use buffer_overflow_attack.Console.Line.{committed, IsInput, Shows, editing}
use buffer_overflow_attack.Console.Keys.{Shows-same}

-- What a read with `n` bytes left of `target` takes from the complete lines, how it ends, and what it
-- leaves of them.
abbrev pub take_line : Bool → ℕ → ℕ → List ℕ → ReadEnd × List ℕ × List ℕ
take_line killed target zero lines = (counted target, [], lines)
take_line killed target (suc n) [] = (if killed then failed else waits (suc n), [], [])
take_line killed target (suc n) (c ∷ lines) =
    let (end, bytes, rest) = take_line killed target n lines in
    if c == control b'D'
    then (counted (target - suc n), [], if ltb (suc n) target then c ∷ lines else lines)
    else if c == b'\n'
    then (counted (target - n), c ∷ [], lines)
    else (end, c ∷ bytes, rest)

-- A read did what `take_line` says, and kept the line that is edited.
pub record Reads (p : Input) (out : ReadEnd × List ℕ × Input) (want : ReadEnd × List ℕ × List ℕ)
    : Type 0 where
  pub end : out.0 ≡ want.0
  pub bytes : out.1 ≡ want.1
  pub left : Shows out.2 (want.2, editing p)

Reads-if :
    (p : Input) (t : Bool) (o o' : ReadEnd × List ℕ × Input) (x y : ReadEnd × List ℕ × List ℕ)
    → (t ≡ true → Reads p o x)
    → (t ≡ false → Reads p o' y)
    → Reads p (if t then o else o') (if t then x else y)
Reads-if p true o o' x y f g = f refl
Reads-if p false o o' x y f g = g refl

Shows-if :
    (t : Bool) (q q' : Input) (lines lines' line : List ℕ)
    → Shows q (lines, line)
    → Shows q' (lines', line)
    → Shows (if t then q else q') (if t then lines else lines', line)
Shows-if true q q' lines lines' line s s' = s
Shows-if false q q' lines lines' line s s' = s'

module _ (p : Input) (h : IsInput p) where
  unread : Shows p (committed p, editing p)
  unread = record { valid = h; shown = refl }

  no_lines : p.r ≡ p.w → committed p ≡ []
  no_lines same =
      let a = h.w_word in
      let empty : from_to p.r p.w ≡ 0 = omega arith in ap (window p.buf p.r) empty

  -- Behind the first key of the complete lines.
  abbrev next : Input
  next = record p { r = (p.r + 1) % 2 ^ 32 }

  some_lines : p.r ≢ p.w → committed p ≡ p.buf (p.r % input_buf) ∷ committed next
  some_lines ne =
      let a = h.w_word in
      let b = h.r_word in
      let more : from_to p.r p.w ≡ suc (from_to next.r p.w) = omega arith in
      ap (window p.buf p.r) more

  next-IsInput : p.r ≢ p.w → IsInput next
  next-IsInput ne = record {
    r_word = omega arith;
    w_word = h.w_word;
    e_word = h.e_word;
    held = let a = h.w_word in let b = h.r_word in let c = h.held in omega arith;
    plain = h.plain;
  }

read_from-take_line :
    (killed : Bool) (target n : ℕ) (p : Input)
    → IsInput p
    → Reads p (read_from killed target n p) (take_line killed target n (committed p))
unfolding read_from
read_from-take_line killed target zero p h = record { end = refl; bytes = refl; left = unread p h }
read_from-take_line killed target (suc n) p h = elim (Bool-cases (p.r == p.w)) [
  | inl empty ↦
      let none_left = no_lines p h ((==_iff p.r p.w).0 empty) in
      rw (none_left, read_from, empty)
        (record {
          end = refl;
          bytes = refl;
          left = Shows-same (unread p h) (ap (λ l. (l, editing p)) none_left);
        })
  | inr more ↦
      let ne : p.r ≢ p.w = λ e. absurd (let yes = (==_iff p.r p.w).1 e in cc) in
      let ih = read_from-take_line killed target n (next p h) (next-IsInput p h ne) in
      let c = p.buf (p.r % input_buf) in
      let lines = some_lines p h ne in
      rw (lines, read_from, more)
        (Reads-if p (c == control b'D') _ _ _ _
          (λ yes. record {
            end = refl;
            bytes = refl;
            left =
                Shows-if (ltb (suc n) target) p (next p h) _ _ (editing p)
                  (Shows-same (unread p h) (ap (λ l. (l, editing p)) lines))
                  (unread (next p h) (next-IsInput p h ne));
          })
          (λ n1.
            Reads-if p (c == b'\n') _ _ _ _
              (λ yes. record {
                end = refl;
                bytes = refl;
                left = unread (next p h) (next-IsInput p h ne);
              })
              (λ n2. record { end = ih.end; bytes = ap (λ l. c ∷ l) ih.bytes; left = ih.left })))
]

-- `consoleread` takes from the complete lines up to a newline, to C('D') or to its count: a C('D')
-- ends the read before it, and stays for the next read if bytes are read before. It sleeps only if the
-- complete lines are used up, and leaves the line that is edited as it is.
pub consoleread-take_line :
    (killed : Bool) (n : ℕ) (p : Input)
    → IsInput p
    → Reads p (consoleread killed n p) (take_line killed n n (committed p))
unfolding consoleread
consoleread-take_line killed n p h = read_from-take_line killed n n p h
