-- ===== src/Pipe/Write.antt =====
-- `pipewrite` of xv6/pipe.c against a bounded queue.
use buffer_overflow_attack.Base.{
  Bool, Bool-cases, List, [], ap, append-nil, append_assoc, ap₂, arith, false, if◌then◌else◌, inl,
  inr, leb, length, minus_one, not, pos, refl, suc, sym, take, true, zero, ℕ, ◌++◌, ◌+◌, ◌-◌, ◌<◌,
  ◌||◌, ◌∙◌, ◌∷◌, ◌≡◌, ◌≢◌,
}
use buffer_overflow_attack.Pipe.{
  Pipe, pipe_size, Chan, readers, Stop, returned, asleep, put, is_full, write_from, pipewrite,
}
use buffer_overflow_attack.Pipe.Ring.{
  count, IsPipe, contents, put-IsPipe, contents-put, is_full-count,
}

take-cons : (n : ℕ) (x : ℕ) (xs : List ℕ) → n ≢ 0 → take n (x ∷ xs) ≡ x ∷ take (n - 1) xs
take-cons zero x xs h = absurd (h refl)
take-cons (suc n) x xs h = ap (λ k. x ∷ take k xs) (omega arith)

pub take-nil : (n : ℕ) → take {A = ℕ} n [] ≡ []
take-nil zero = refl
take-nil (suc n) = refl

-- How a write of `len` bytes ends that finds room for `room`, `i` bytes being done before.
abbrev pub write_stop : Bool → Pipe → ℕ → ℕ → ℕ → Stop
write_stop killed p len room i =
    if leb len room
    then returned (pos (i + len))
    else if not p.readopen || killed
    then returned minus_one
    else asleep (i + room)

abbrev pub free : Pipe → ℕ
free p = pipe_size - count p

-- What a write does, `i` bytes being done before.
pub record Wrote (killed : Bool) (src : List ℕ) (i : ℕ) (p : Pipe) (out : Stop × Pipe × List Chan)
    : Type 0 where
  pub valid : IsPipe out.1
  pub bytes : contents out.1 ≡ contents p ++ take (free p) src
  pub stop : out.0 ≡ write_stop killed p (length src) (free p) i
  pub ends : (out.1.readopen ≡ p.readopen) × (out.1.writeopen ≡ p.writeopen)
  pub woken : out.0 ≢ returned minus_one → out.2 ≡ readers ∷ []

full-Wrote :
    (killed : Bool) (b : ℕ) (bs : List ℕ) (i : ℕ) {p : Pipe}
    → IsPipe p
    → is_full p ≡ true
    → Wrote killed (b ∷ bs) i p (write_from killed (b ∷ bs) i p)
unfolding write_from
full-Wrote killed b bs i {p} v full =
    let c = (is_full-count v).0 full in
    let none_free : free p ≡ 0 = omega arith in
    elim (Bool-cases (not p.readopen || killed)) [
      | inl broken ↦
          rw (write_from, full, broken)
            (record {
              valid = v;
              bytes = rw (none_free, append-nil);
              stop = ground arith;
              ends = (refl, refl);
              woken = λ ne. absurd (ne refl);
            })
      | inr sleeps ↦
          rw (write_from, full, sleeps)
            (record {
              valid = v;
              bytes = rw (none_free, append-nil);
              stop = ground arith;
              ends = (refl, refl);
              woken = λ ne. refl;
            })
    ]

step-Wrote :
    (killed : Bool) (b : ℕ) (bs : List ℕ) (i : ℕ) {p : Pipe} (out : Stop × Pipe × List Chan)
    → IsPipe p
    → is_full p ≡ false
    → Wrote killed bs (i + 1) (put p b) out
    → Wrote killed (b ∷ bs) i p out
step-Wrote killed b bs i {p} out v room w =
    let lt : count p < pipe_size = ground (arith, is_full-count v) in
    let (more, one) = contents-put b v lt in
    let left : free (put p b) ≡ free p - 1 = omega (arith, one) in
    let some_free : free p ≢ 0 = omega arith in
    let front : contents (put p b) ++ take (free (put p b)) bs
        ≡ (contents p ++ (b ∷ [])) ++ take (free p - 1) bs =
      ap₂ (λ xs n. xs ++ take n bs) more left in
    let end : write_stop killed (put p b) (length bs) (free (put p b)) (i + 1)
        ≡ write_stop killed p (length (b ∷ bs)) (free p) i =
      unfold put in ground arith in
    record {
      valid = w.valid;
      bytes =
          w.bytes
          ∙ front
          ∙ append_assoc (contents p) (b ∷ []) (take (free p - 1) bs)
          ∙ ap (λ xs. contents p ++ xs) (sym (take-cons (free p) b bs some_free));
      stop = w.stop ∙ end;
      ends = (w.ends.0 ∙ unfold put in refl, w.ends.1 ∙ unfold put in refl);
      woken = w.woken;
    }

write_from-Wrote :
    (killed : Bool) (src : List ℕ) (i : ℕ) {p : Pipe}
    → IsPipe p
    → Wrote killed src i p (write_from killed src i p)
unfolding write_from
write_from-Wrote killed [] i {p} v = record {
  valid = v;
  bytes = rw (take-nil, append-nil);
  stop = ground arith;
  ends = (refl, refl);
  woken = λ ne. refl;
}
write_from-Wrote killed (b ∷ bs) i {p} v = elim (Bool-cases (is_full p)) [
  | inl full ↦ full-Wrote killed b bs i v full
  | inr room ↦
      let lt : count p < pipe_size = ground (arith, is_full-count v) in
      rw (write_from, room)
        (step-Wrote killed b bs i _ v room (write_from-Wrote killed bs (i + 1) (put-IsPipe b v lt)))
]

-- `pipewrite` appends the bytes that find room, in order, and keeps the pipe valid. It returns the
-- number of bytes if all of them fit; otherwise it returns -1 if the read end is closed or the
-- process is killed, and else sleeps with the number of bytes that fitted. Unless it returns -1
-- it wakes the readers.
pub pipewrite_lem :
    (killed : Bool) (src : List ℕ) {p : Pipe}
    → IsPipe p
    → Wrote killed src 0 p (pipewrite killed src p)
unfolding pipewrite
pipewrite_lem killed src v = write_from-Wrote killed src 0 v
