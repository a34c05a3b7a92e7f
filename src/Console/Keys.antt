-- ===== src/Console/Keys.antt =====
-- `consoleintr` of xv6/console.c against an editor of lines.
use buffer_overflow_attack.Base.{
  Bool, List, [], ap, ap₂, arith, false, if◌then◌else◌, length, ltb, not, refl, sym, true, ℕ, ◌%◌,
  ◌&&◌, ◌++◌, ◌+◌, ◌-◌, ◌<◌, ◌==◌, ◌^◌, ◌||◌, ◌∙◌, ◌∷◌, ◌≡◌,
}
use buffer_overflow_attack.Console.{
  Input, input_buf, store, insert, newline, completes, control, key, kill_line,
}
use buffer_overflow_attack.Console.Ring.{from_to, has, window, length-window, drop_last}
use buffer_overflow_attack.Console.Line.{
  committed, IsInput, Shows, editing, ends_line, backspace-Shows, kill_line-all, typed,
}
use buffer_overflow_attack.Console.Store.{store-Shows, commit-Shows}

-- What a key does: the buffer shows `texts` then, and a key that completes a line wakes the readers.
pub record Handles (p : Input) (texts : List ℕ × List ℕ) (out : Input × List ℕ × Bool)
    : Type 0 where
  pub shows : Shows out.0 texts
  pub wakes : out.2 ≡ false → committed out.0 ≡ committed p

pub Shows-same : {q : Input} {t u : List ℕ × List ℕ} → Shows q t → t ≡ u → Shows q u
Shows-same s e = record { valid = s.valid; shown = s.shown ∙ e }

quiet :
    (p : Input) (line : List ℕ) (out : Input × List ℕ × Bool)
    → Shows out.0 (committed p, line)
    → Handles p (committed p, line) out
quiet p line out s = record { shows = s; wakes = λ e. ap (λ t. t.0) s.shown }

Handles-if :
    (p : Input) (t : Bool) (x y : List ℕ × List ℕ) (o o' : Input × List ℕ × Bool)
    → (t ≡ true → Handles p x o)
    → (t ≡ false → Handles p y o')
    → Handles p (if t then x else y) (if t then o else o')
Handles-if p true x y o o' f g = f refl
Handles-if p false x y o o' f g = g refl

module _ (p : Input) (h : IsInput p) where
  unchanged : Shows p (committed p, editing p)
  unchanged = record { valid = h; shown = refl }

  in_buffer : (p.e + 2 ^ 32 - p.r) % 2 ^ 32 ≡ length (committed p) + length (editing p)
  in_buffer =
      let a = h.w_word in
      let b = h.e_word in
      let c = h.r_word in
      let d = h.held in
      let m = length-window p.buf p.r (from_to p.r p.w) in
      let n = length-window p.buf p.w (from_to p.w p.e) in
      let total : (p.e + 2 ^ 32 - p.r) % 2 ^ 32 ≡ from_to p.r p.w + from_to p.w p.e = omega arith in
      total ∙ ap₂ (λ x y. x + y) (sym m) (sym n)

  full_after :
      ltb ((p.e + 2 ^ 32 - p.r) % 2 ^ 32) input_buf ≡ true
      → ((p.e + 1) % 2 ^ 32 == (p.r + input_buf) % 2 ^ 32)
        ≡ ((p.e + 2 ^ 32 - p.r) % 2 ^ 32 + 1 == input_buf)
  full_after room = let b = h.e_word in let c = h.r_word in ground arith

  same_byte : (c : ℕ) → c < 256 → newline c % 256 ≡ newline c
  same_byte c small = ground arith

  not_newline : (a b t : Bool) → (a || b || t) ≡ false → a ≡ false
  not_newline true b t e = absurd (let no : true ≡ false = e in cc)
  not_newline false b t e = refl

  with_room : (a b : Bool) → (not a && b) ≡ true → b ≡ true
  with_room true b e = absurd (let no : false ≡ true = e in cc)
  with_room false b e = e

  -- The keys in the buffer.
  abbrev held_keys : ℕ
  held_keys = (p.e + 2 ^ 32 - p.r) % 2 ^ 32

  store-Handles :
      (c : ℕ)
      → c < 256
      → ltb held_keys input_buf ≡ true
      → Handles p
          (if ends_line (newline c) (held_keys + 1)
            then (committed p ++ (editing p ++ (newline c ∷ [])), [])
            else (committed p, editing p ++ (newline c ∷ [])))
          (let p' = store (newline c) p in
            if completes (newline c) p'
            then (record p' { w = p'.e }, newline c ∷ [], true)
            else (p', newline c ∷ [], false))
  unfolding store
  store-Handles c small free =
      let a = h.w_word in
      let b = h.e_word in
      let d = h.r_word in
      let k = h.held in
      let n = newline c in
      let byte = same_byte c small in
      let room : from_to p.r p.w + from_to p.w p.e < input_buf = ground arith in
      let full = full_after free in
      let done : Input × List ℕ × Bool =
        (record (store n p) { w = (p.e + 1) % 2 ^ 32 }, n ∷ [], true) in
      let going : Input × List ℕ × Bool = (store n p, n ∷ [], false) in
      rw (full) (
        Handles-if p (ends_line n (held_keys + 1)) _ _ done going
          (λ yes. record {
            shows =
                Shows-same (commit-Shows p h n room)
                  (ap (λ v. (committed p ++ (editing p ++ (v ∷ [])), [])) byte);
            wakes = λ e. absurd (let no : true ≡ false = e in cc);
          })
          (λ no. quiet p (editing p ++ (n ∷ [])) going (
            Shows-same
              (store-Shows p h n room (
                ap (λ v. v == b'\n') byte
                ∙ not_newline (n == b'\n') (n == control b'D') (held_keys + 1 == input_buf) no))
              (ap (λ v. (committed p, editing p ++ (v ∷ []))) byte))))

  insert-Handles :
      (c : ℕ)
      → c < 256
      → Handles p
          (if not (c == 0) && ltb (length (committed p) + length (editing p)) input_buf
            then (if ends_line (newline c) (length (committed p) + length (editing p) + 1)
                then (committed p ++ (editing p ++ (newline c ∷ [])), [])
                else (committed p, editing p ++ (newline c ∷ [])))
            else (committed p, editing p))
          (insert c p)
  unfolding insert
  insert-Handles c small = rw (sym in_buffer) (
      Handles-if p (not (c == 0) && ltb held_keys input_buf) _ _ _ (p, [], false)
        (λ yes. store-Handles c small (with_room (c == 0) (ltb held_keys input_buf) yes))
        (λ no. quiet p (editing p) (p, [], false) unchanged))

  kill_line-Shows : Shows (kill_line input_buf p).0 (committed p, [])
  kill_line-Shows =
      let a = h.w_word in
      let k = h.held in
      let empty : from_to p.w p.w ≡ 0 = omega arith in
      let nothing : window p.buf p.w (from_to p.w p.w) ≡ [] = ap (window p.buf p.w) empty in
      rw (kill_line-all input_buf p h (omega arith)) (record {
        valid = record {
          r_word = h.r_word;
          w_word = a;
          e_word = a;
          held = omega arith;
          plain = ap (has b'\n') nothing;
        };
        shown = ap (λ l. (committed p, l)) nothing;
      })

  -- A key of `consoleintr` does to the complete lines and the line that is edited what an editor of
  -- lines does: C('U') empties the line, C('H') and delete take its last key, other keys are added to
  -- it while the buffer has room, and a newline, C('D') or a full buffer completes it. The complete
  -- lines change only if the readers are woken.
  pub key-typed : (c : ℕ) → c < 256 → Handles p (typed c (committed p, editing p)) (key c p)
  unfolding key
  key-typed c small =
      Handles-if p (c == control b'P') _ _ (p, [], false) _
        (λ yes. quiet p (editing p) (p, [], false) unchanged)
        (λ n1.
          Handles-if p (c == control b'U') _ _ _ _ (λ yes. quiet p [] _ kill_line-Shows)
            (λ n2.
              Handles-if p (c == control b'H' || c == 127) _ _ _ _
                (λ yes. quiet p (drop_last (editing p)) _ (backspace-Shows p h))
                (λ n3. insert-Handles c small)))
