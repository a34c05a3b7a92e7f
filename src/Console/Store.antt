-- ===== src/Console/Store.antt =====
-- A key that is stored in the buffer of xv6/console.c.
use buffer_overflow_attack.Base.{
  ==_iff, [], ap, ap₂, arith, false, if◌then◌else◌, refl, suc, sym, true, ℕ, ◌%◌, ◌++◌, ◌+◌, ◌<◌,
  ◌==◌, ◌^◌, ◌||◌, ◌∙◌, ◌∷◌, ◌≡◌,
}
use buffer_overflow_attack.Str.{Memory, write}
use buffer_overflow_attack.Console.{Input, input_buf, store}
use buffer_overflow_attack.Console.Ring.{
  from_to, has, has-append, window, window-append, window-last, window-write,
}
use buffer_overflow_attack.Console.Line.{committed, IsInput, Shows, editing}

-- A key that is stored behind the line.
module _ (p : Input) (h : IsInput p) (c : ℕ)
    (room : from_to p.r p.w + from_to p.w p.e < input_buf) where
  abbrev line_size : ℕ
  line_size = from_to p.w p.e

  abbrev stored : Memory
  stored = write p.buf (p.e % input_buf) (c % 256)

  from_to-next : from_to p.w ((p.e + 1) % 2 ^ 32) ≡ suc line_size
  from_to-next = let a = h.w_word in let b = h.e_word in omega arith

  stored-committed : window stored p.r (from_to p.r p.w) ≡ committed p
  stored-committed =
      let a = h.w_word in
      let b = h.e_word in
      let d = h.r_word in
      let at : (p.r + (from_to p.r p.w + line_size)) % 2 ^ 32 ≡ p.e = omega arith in
      ap (λ i. window (write p.buf (i % input_buf) (c % 256)) p.r (from_to p.r p.w)) (sym at)
      ∙ window-write p.buf (c % 256) (from_to p.r p.w) p.r (from_to p.r p.w + line_size)
          (omega arith) room

  stored-editing : window stored p.w (suc line_size) ≡ editing p ++ (c % 256 ∷ [])
  unfolding write
  stored-editing =
      let a = h.w_word in
      let b = h.e_word in
      let at : (p.w + line_size) % 2 ^ 32 ≡ p.e = omega arith in
      let here : (p.e % input_buf == p.e % input_buf) ≡ true =
        (==_iff (p.e % input_buf) (p.e % input_buf)).1 refl in
      let kept : window stored p.w line_size ≡ editing p =
        ap (λ i. window (write p.buf (i % input_buf) (c % 256)) p.w line_size) (sym at)
        ∙ window-write p.buf (c % 256) line_size p.w line_size (omega arith) (omega arith) in
      window-last stored p.w line_size a
      ∙ ap₂ (λ l i. l ++ (stored (i % input_buf) ∷ [])) kept at
      ∙ ap (λ t. editing p ++ ((if t then c % 256 else p.buf (p.e % input_buf)) ∷ [])) here

  pub store-Shows :
      (c % 256 == b'\n') ≡ false → Shows (store c p) (committed p, editing p ++ (c % 256 ∷ []))
  unfolding store
  store-Shows other =
      let line : editing (store c p) ≡ editing p ++ (c % 256 ∷ []) =
        ap (window stored p.w) from_to-next ∙ stored-editing in
      record {
        valid = record {
          r_word = h.r_word;
          w_word = h.w_word;
          e_word = omega arith;
          held = let n = from_to-next in omega arith;
          plain =
              ap (has b'\n') line
              ∙ has-append b'\n' (editing p) (c % 256 ∷ [])
              ∙ ap₂ (λ s t. s || (t || false)) h.plain other;
        };
        shown = ap₂ (λ x y. (x, y)) stored-committed line;
      }

  pub commit-Shows :
      Shows
        (record (store c p) { w = (p.e + 1) % 2 ^ 32 })
        (committed p ++ (editing p ++ (c % 256 ∷ [])), [])
  unfolding store
  commit-Shows =
      let a = h.w_word in
      let b = h.e_word in
      let d = h.r_word in
      let e' = (p.e + 1) % 2 ^ 32 in
      let all : from_to p.r e' ≡ from_to p.r p.w + suc line_size = omega arith in
      let start : (p.r + from_to p.r p.w) % 2 ^ 32 ≡ p.w = omega arith in
      let empty : from_to e' e' ≡ 0 = omega arith in
      let nothing : window stored e' (from_to e' e') ≡ [] = ap (window stored e') empty in
      record {
        valid = record {
          r_word = d;
          w_word = omega arith;
          e_word = omega arith;
          held = omega arith;
          plain = ap (has b'\n') nothing;
        };
        shown =
            ap₂ (λ x y. (x, y))
              (ap (window stored p.r) all
                ∙ window-append stored p.r (from_to p.r p.w) (suc line_size) d
                ∙ ap₂ (λ x i. x ++ window stored i (suc line_size)) stored-committed start
                ∙ ap (λ l. committed p ++ l) stored-editing)
              nothing;
      }
