-- ===== src/Console/Trip.antt =====
-- A line that is typed at the console of xv6/console.c and then read.
use buffer_overflow_attack.Base.{
  Bool, List, [], ap, append-nil, append_assoc, ap₂, arith, false, length, length-append, ltb, refl,
  suc, sym, true, zero, ℕ, ◌++◌, ◌+◌, ◌-◌, ◌<◌, ◌==◌, ◌||◌, ◌∙◌, ◌∷◌, ◌≡◌, ◌≤◌,
}
use buffer_overflow_attack.Console.{
  Input, input_buf, consoleintr, consoleread, control, counted, key,
}
use buffer_overflow_attack.Console.Line.{committed, IsInput, Shows, editing, typed}
use buffer_overflow_attack.Console.Keys.{key-typed, Shows-same}
use buffer_overflow_attack.Console.Read.{take_line, consoleread-take_line}

-- A key that has no meaning of its own.
pub record IsPlain (c : ℕ) : Type 0 where
  pub small : c < 256
  pub some_key : (c == 0) ≡ false
  pub no_control :
      (c == control b'P') ≡ false
      × (c == control b'U') ≡ false
      × (c == control b'H' || c == 127) ≡ false
  pub no_end : (c == control b'D') ≡ false × (c == b'\n') ≡ false × (c == b'\r') ≡ false

abbrev pub AllPlain : List ℕ → Type 0
AllPlain [] = Unit {0}
AllPlain (c ∷ cs) = IsPlain c × AllPlain cs

consoleintr-append :
    (cs : List ℕ) (c : ℕ) (p : Input)
    → (consoleintr (cs ++ (c ∷ [])) p).0 ≡ (key c (consoleintr cs p).0).0
unfolding consoleintr
consoleintr-append [] c p = refl
consoleintr-append (d ∷ cs) c p = consoleintr-append cs c (key d p).0

typed-plain :
    (c : ℕ) (line : List ℕ)
    → IsPlain c
    → length line + 1 < input_buf
    → typed c ([], line) ≡ ([], line ++ (c ∷ []))
typed-plain c line h room =
    let (p1, p2, p3) = h.no_control in
    let (e1, e2, e3) = h.no_end in
    let free : ltb (0 + length line) input_buf ≡ true = ground arith in
    let more : (0 + length line + 1 == input_buf) ≡ false = ground arith in
    rw (p1, p2, p3, h.some_key, free, e3, e2, e1, more) refl

typed-newline :
    (line : List ℕ) → length line < input_buf → typed b'\n' ([], line) ≡ (line ++ (b'\n' ∷ []), [])
typed-newline line room =
    let free : ltb (0 + length line) input_buf ≡ true = ground arith in rw free refl

-- The keys of a line, one after the other.
line-Shows :
    (cs line : List ℕ) (p : Input)
    → AllPlain cs
    → Shows p ([], line)
    → length line + length cs < input_buf
    → Shows (consoleintr cs p).0 ([], line ++ cs)
unfolding consoleintr
line-Shows [] line p all s room = Shows-same s (ap (λ l. ([], l)) (sym (append-nil line)))
line-Shows (c ∷ cs) line p (plain, all) s room =
    let counted_line : length (editing p) ≡ length line = ap (λ t. length t.1) s.shown in
    let step = (key-typed p s.valid c plain.small).shows in
    let s1 : Shows (key c p).0 ([], line ++ (c ∷ [])) =
      Shows-same step (ap (typed c) s.shown ∙ typed-plain c line plain (omega arith)) in
    let longer = length-append line (c ∷ []) in
    Shows-same (line-Shows cs (line ++ (c ∷ [])) (key c p).0 all s1 (omega arith))
      (ap (λ l. ([], l)) (append_assoc line (c ∷ []) cs))

take_line-plain :
    (killed : Bool) (target n : ℕ) (cs : List ℕ)
    → AllPlain cs
    → length cs < n
    → n ≤ target
    → take_line killed target n (cs ++ (b'\n' ∷ []))
      ≡ (counted (target - n + length cs + 1), cs ++ (b'\n' ∷ []), [])
take_line-plain killed target zero cs all enough le = absurd (omega arith)
take_line-plain killed target (suc n) [] all enough le =
    ap (λ k. (counted k, b'\n' ∷ [], [])) (omega arith)
take_line-plain killed target (suc n) (c ∷ cs) (plain, all) enough le =
    let (e1, e2, e3) = plain.no_end in
    let ih = take_line-plain killed target n cs all (omega arith) (omega arith) in
    let total : target - n + length cs + 1 ≡ target - suc n + suc (length cs) + 1 = omega arith in
    rw (e1, e2)
      (ap (λ r. (r.0, c ∷ r.1, r.2)) ih ∙ ap (λ k. (counted k, c ∷ (cs ++ (b'\n' ∷ [])), [])) total)

-- A line of plain keys that fits into the buffer, typed with a newline into an empty buffer, is what a
-- read gets that asks for enough bytes.
pub consoleread-consoleintr :
    (killed : Bool) (n : ℕ) (cs : List ℕ) (p : Input)
    → IsInput p
    → committed p ≡ []
    → editing p ≡ []
    → AllPlain cs
    → length cs < input_buf
    → length cs < n
    → (q : Input) × (consoleread killed n (consoleintr (cs ++ (b'\n' ∷ [])) p).0
        ≡ (counted (length cs + 1), cs ++ (b'\n' ∷ []), q))
      × (committed q ≡ [])
      × (editing q ≡ [])
consoleread-consoleintr killed n cs p h no_lines no_line all fits enough =
    let s0 : Shows p ([], []) = record {
      valid = h;
      shown = ap₂ (λ x y. (x, y)) no_lines no_line;
    } in
    let p1 = (consoleintr cs p).0 in
    let s1 : Shows p1 ([], cs) = line-Shows cs [] p all s0 (omega arith) in
    let step = (key-typed p1 s1.valid b'\n' (omega arith)).shows in
    let p2 = (consoleintr (cs ++ (b'\n' ∷ [])) p).0 in
    let same : p2 ≡ (key b'\n' p1).0 = consoleintr-append cs b'\n' p in
    let s2 : Shows p2 (cs ++ (b'\n' ∷ []), []) =
      rw same (Shows-same step (ap (typed b'\n') s1.shown ∙ typed-newline cs fits)) in
    let got = consoleread-take_line killed n p2 s2.valid in
    let want : take_line killed n n (committed p2)
        ≡ (counted (length cs + 1), cs ++ (b'\n' ∷ []), []) =
      ap (λ t. take_line killed n n t.0) s2.shown
      ∙ take_line-plain killed n n cs all enough (omega arith)
      ∙ ap (λ k. (counted k, cs ++ (b'\n' ∷ []), [])) (omega arith) in
    let q = (consoleread killed n p2).2 in
    let read_end : (consoleread killed n p2).0 ≡ counted (length cs + 1) =
      got.end ∙ ap (λ t. t.0) want in
    let read_bytes : (consoleread killed n p2).1 ≡ cs ++ (b'\n' ∷ []) =
      got.bytes ∙ ap (λ t. t.1) want in
    (
      q,
      ap₂ (λ x y. (x, y, q)) read_end read_bytes,
      ap (λ t. t.0) got.left.shown ∙ ap (λ t. t.2) want,
      ap (λ t. t.1) got.left.shown ∙ ap (λ t. t.1) s2.shown,
    )
