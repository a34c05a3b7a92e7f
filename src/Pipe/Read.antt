-- ===== src/Pipe/Read.antt =====
-- `piperead` of xv6/pipe.c against a queue.
use buffer_overflow_attack.Base.{
  Bool, Bool-cases, List, [], ap, arith, drop, false, get_or, if◌then◌else◌, inl, inr, length,
  minus_one, pos, refl, suc, sym, take, true, zero, ℕ, ◌%◌, ◌&&◌, ◌+◌, ◌^◌, ◌∙◌, ◌∷◌, ◌≡◌, ◌≢◌, ◌⊎◌,
}
use buffer_overflow_attack.Pipe.{
  Pipe, pipe_size, writers, returned, asleep, is_empty, read_loop, piperead,
}
use buffer_overflow_attack.Pipe.Write.{take-nil}
use buffer_overflow_attack.Pipe.Ring.{count, IsPipe, contents, length-contents, is_empty-count}

drop-nil : (n : ℕ) → drop {A = ℕ} n [] ≡ []
drop-nil zero = refl
drop-nil (suc n) = refl

-- What the copy loop of `n` rounds does.
record Drained (n : ℕ) (p : Pipe) (out : List ℕ × Pipe) : Type 0 where
  valid : IsPipe out.1
  got : out.0 ≡ take n (contents p)
  left : contents out.1 ≡ drop n (contents p)
  ends : (out.1.readopen ≡ p.readopen) × (out.1.writeopen ≡ p.writeopen)

-- The pipe behind its first byte.
abbrev next : Pipe → Pipe
next p = record p { nread = (p.nread + 1) % 2 ^ 32 }

next-IsPipe :
    {p : Pipe} → IsPipe p → count p ≢ 0 → IsPipe (next p) × (count p ≡ suc (count (next p)))
next-IsPipe {p} v ne = (
  record {
    room = v.room;
    nread_word = omega arith;
    nwrite_word = v.nwrite_word;
    within = omega arith;
  },
  omega arith,
)

contents-next :
    {p : Pipe}
    → IsPipe p
    → count p ≢ 0
    → contents p ≡ get_or p.buf (p.nread % pipe_size) 0 ∷ contents (next p)
contents-next {p} v ne = rw (next-IsPipe v ne).1

read_loop-Drained : (n : ℕ) {p : Pipe} → IsPipe p → Drained n p (read_loop n p)
unfolding read_loop
read_loop-Drained zero {p} v = record { valid = v; got = refl; left = refl; ends = (refl, refl) }
read_loop-Drained (suc n) {p} v = elim (Bool-cases (is_empty p)) [
  | inl empty ↦
      let c = (is_empty-count v).0 empty in
      let nil : contents p ≡ [] = rw c in
      rw (read_loop, empty) (record { valid = v; got = rw nil; left = rw nil; ends = (refl, refl) })
  | inr more ↦
      let ne : count p ≢ 0 = ground (arith, is_empty-count v) in
      let ih = read_loop-Drained n {p = next p} (next-IsPipe v ne).0 in
      rw (read_loop, more)
        (record {
          valid = ih.valid;
          got =
              rw (contents-next v ne) (ap (λ xs. get_or p.buf (p.nread % pipe_size) 0 ∷ xs) ih.got);
          left = rw (contents-next v ne) ih.left;
          ends = ih.ends;
        })
]

nothing :
    (p : Pipe)
    → contents p ≡ []
    → p.writeopen ≡ true
    → (contents p ≢ []) ⊎ (p.writeopen ≡ false)
    → ⊥
nothing p nil w (inl ne) = ne nil
nothing p nil w (inr e) = cc

not_both : (p : Pipe) → (is_empty p && p.writeopen) ≡ false → is_empty p ≡ true → p.writeopen ≢ true
not_both p f e w = ground arith

empty_of_nil : {p : Pipe} → IsPipe p → contents p ≡ [] → is_empty p ≡ true
empty_of_nil {p} v nil =
    (is_empty-count v).1 (sym (length-contents p) ∙ ap (λ (xs : List ℕ). length xs) nil)

-- `piperead` of at most `n` bytes returns the first bytes of the pipe, as many as there are up to
-- `n`, and leaves the others; it wakes the writers. Only if the pipe is empty while its write end is
-- open does it read nothing and sleep, or return -1 if the process is killed.
pub piperead_lem :
    (killed : Bool) (n : ℕ) {p : Pipe}
    → IsPipe p
    → let (stop, got, p', woken) = piperead killed n p in
      IsPipe p'
      × (got ≡ take n (contents p))
      × (contents p' ≡ drop n (contents p))
      × ((contents p ≢ []) ⊎ (p.writeopen ≡ false)
          → (stop ≡ returned (pos (length got))) × (woken ≡ writers ∷ []))
      × (contents p ≡ []
          → p.writeopen ≡ true
          → (p' ≡ p) × (stop ≡ (if killed then returned minus_one else asleep 0)) × (woken ≡ []))
unfolding piperead
piperead_lem killed n {p} v = elim (Bool-cases (is_empty p && p.writeopen)) [
  | inl waits ↦
      let empty : is_empty p ≡ true = ground arith in
      let open_end : p.writeopen ≡ true = ground arith in
      let c = (is_empty-count v).0 empty in
      let nil : contents p ≡ [] = rw c in
      let absurd_case : (contents p ≢ []) ⊎ (p.writeopen ≡ false) → ⊥ = nothing p nil open_end in
      elim (Bool-cases killed) [
        | inl dead ↦
            rw (piperead, waits, dead)
              (
                v,
                rw nil (sym (take-nil n)),
                rw nil (sym (drop-nil n)),
                (λ h. absurd (absurd_case h)),
                (λ e1 e2. (refl, refl, refl)),
              )
        | inr alive ↦
            rw (piperead, waits, alive)
              (
                v,
                rw nil (sym (take-nil n)),
                rw nil (sym (drop-nil n)),
                (λ h. absurd (absurd_case h)),
                (λ e1 e2. (refl, refl, refl)),
              )
      ]
  | inr goes ↦
      let d = read_loop-Drained n v in
      rw (piperead, goes)
        (
          d.valid,
          d.got,
          d.left,
          (λ h. (refl, refl)),
          (λ e1 e2. absurd (not_both p goes (empty_of_nil v e1) e2)),
        )
]
