-- ===== src/Number/Trip.antt =====
-- A number that is printed in decimal is read back, and the digits fit into `buf`.
use buffer_overflow_attack.Base.{
  ==_iff, Bool, Bool-cases, List, Option-cases, [], append_assoc, arith, false, if◌then◌else◌, inl,
  inr, leb, length, length-append, ltb, ltb_ℤ, negsuc, none, pos, refl, some, suc, true,
  word_of_int, zero, ℕ, ℤ, ◌%◌, ◌&&◌, ◌*◌, ◌++◌, ◌+◌, ◌-◌, ◌/◌, ◌<◌, ◌==◌, ◌^◌, ◌∙◌, ◌∷◌, ◌≡◌, ◌≢◌,
  ◌≤◌, ◌⊎◌,
}
use buffer_overflow_attack.Number.{
  digit, fill, emit, magnitude, printed_buf, printint, atoi_from, atoi,
}

-- The digits of `x` in the order of `buf`.
fill-some :
    (ten base fuel x : ℕ) → 2 ≤ base → x < fuel → (ds : List ℕ) × (fill ten base fuel x ≡ some ds)
unfolding fill
fill-some ten base zero x b f = absurd (omega arith)
fill-some ten base (suc fuel) x b f = elim (Bool-cases (x / base == 0)) [
  | inl last ↦ (digit ten (x % base) ∷ [], rw (fill, last))
  | inr more ↦
      let ne : x / base ≢ 0 = ground (arith, ==_iff (x / base) 0) in
      let small : x / base < x = grind arith in
      let (ds, e) = fill-some ten base fuel (x / base) b (omega arith) in
      (digit ten (x % base) ∷ ds, rw (fill, more, e))
]

-- One more digit is read.
atoi-digit :
    (ten q d : ℕ) (rest : List ℕ)
    → d < 10
    → q * 10 + d < 2 ^ 32
    → atoi_from q (digit ten d ∷ rest) ≡ atoi_from (q * 10 + d) rest
unfolding atoi_from digit
atoi-digit ten q d rest h small =
    let e : (q * 10 + (b'0' + d) + 2 ^ 32 - b'0') % 2 ^ 32 ≡ q * 10 + d = omega arith in
    let range : ltb d 10 ≡ true = ground arith in
    let lo : leb b'0' (b'0' + d) ≡ true = ground arith in
    let hi : leb (b'0' + d) b'9' ≡ true = ground arith in rw (range, lo, hi, e)

atoi-emit :
    (ten fuel x : ℕ) (ds rest : List ℕ)
    → x < 2 ^ 32
    → fill ten 10 fuel x ≡ some ds
    → atoi_from 0 (emit ds ++ rest) ≡ atoi_from x rest
unfolding fill emit
atoi-emit ten zero x ds rest small e = cc
atoi-emit ten (suc fuel) x ds rest small e =
    let d = digit ten (x % 10) in
    let low : x % 10 < 10 = omega arith in
    let split : x / 10 * 10 + x % 10 ≡ x = omega arith in
    elim (Bool-cases (x / 10 == 0)) [
      | inl last ↦
          let q : x / 10 ≡ 0 = (==_iff (x / 10) 0).0 last in
          let is_d : ds ≡ d ∷ [] =
            (let shown : some (d ∷ []) ≡ some ds = rw (fill, last) at e in cc) in
          let step = atoi-digit ten 0 (x % 10) rest low (omega arith) in
          let same : 0 * 10 + x % 10 ≡ x = omega arith in rw (is_d, step, same) refl
      | inr go_on ↦ elim (Option-cases (fill ten 10 fuel (x / 10))) [
        | inl miss ↦ let stuck : none ≡ some ds = rw (fill, go_on, miss) at e in cc
        | inr (ds', hit) ↦
            let is_d : ds ≡ d ∷ ds' =
              (let shown : some (d ∷ ds') ≡ some ds = rw (fill, go_on, hit) at e in cc) in
            let ih = atoi-emit ten fuel (x / 10) ds' (d ∷ rest) (omega arith) hit in
            let step = atoi-digit ten (x / 10) (x % 10) rest low (omega arith) in
            let shape : emit (d ∷ ds') ++ rest ≡ emit ds' ++ (d ∷ rest) =
              append_assoc (emit ds') (d ∷ []) rest in
            rw (is_d, shape, ih, step, split) refl
      ]
    ]

printint-emit :
    (ten fuel n : ℕ) (sgn : Bool) (ds : List ℕ)
    → n < 2 ^ 31
    → fill ten 10 fuel n ≡ some ds
    → printint ten fuel (pos n) 10 sgn ≡ some (emit ds)
unfolding printint printed_buf magnitude word_of_int
printint-emit ten fuel n true ds small e =
    let word : n % 2 ^ 32 ≡ n = omega arith in
    let positive : ltb (n + 0) 0 ≡ false = ground arith in
    rw (printint, printed_buf, magnitude, word_of_int, positive, word, e, positive) refl
printint-emit ten fuel n false ds small e =
    let word : n % 2 ^ 32 ≡ n = omega arith in
    rw (printint, printed_buf, magnitude, word_of_int, word, e) refl

-- An `int` that is not negative is printed in decimal and read back: `atoi` of what `printint`
-- writes, with a text behind it that `atoi` reads no more of, is the number. One more round than
-- the number is enough.
pub atoi-printint :
    (ten fuel n : ℕ) (sgn : Bool) (rest : List ℕ)
    → n < 2 ^ 31
    → n < fuel
    → atoi_from n rest ≡ n
    → (out : List ℕ) × (printint ten fuel (pos n) 10 sgn ≡ some out) × (atoi (out ++ rest) ≡ pos n)
unfolding atoi
atoi-printint ten fuel n sgn rest small f ends =
    let (ds, e) = fill-some ten 10 fuel n (omega arith) f in
    let read = atoi-emit ten fuel n ds rest (omega arith) e in
    let pattern : atoi_from 0 (emit ds ++ rest) ≡ n = read ∙ ends in
    let positive : ltb n (2 ^ 31) ≡ true = ground arith in
    (emit ds, printint-emit ten fuel n sgn ds small e, rw (atoi, pattern, positive) refl)

unfoldable pub power : ℕ → ℕ → ℕ
power base zero = 1
power base (suc k) = base * power base k

-- The digits of a number below `base ^ (k + 1)` are at most `k + 1`.
fill-length :
    (ten base : ℕ)
    → ((y m : ℕ) → y < base * m → y / base < m)
    → (fuel x k : ℕ) (ds : List ℕ) → x < power base (suc k)
    → fill ten base fuel x ≡ some ds
    → length ds ≤ suc k
unfolding fill power
fill-length ten base shrinks zero x k ds h e = cc
fill-length ten base shrinks (suc fuel) x zero ds h e =
    let less : x / base < 1 = shrinks x 1 h in
    let last : (x / base == 0) ≡ true = ground arith in
    let is_d : ds ≡ digit ten (x % base) ∷ [] =
      (let shown : some (digit ten (x % base) ∷ []) ≡ some ds = rw (fill, last) at e in cc) in
    rw is_d (omega arith)
fill-length ten base shrinks (suc fuel) x (suc k) ds h e =
    let d = digit ten (x % base) in
    let less : x / base < power base (suc k) = shrinks x (power base (suc k)) h in
    elim (Bool-cases (x / base == 0)) [
      | inl last ↦
          let is_d : ds ≡ d ∷ [] =
            (let shown : some (d ∷ []) ≡ some ds = rw (fill, last) at e in cc) in
          rw is_d (omega arith)
      | inr go_on ↦ elim (Option-cases (fill ten base fuel (x / base))) [
        | inl miss ↦ let stuck : none ≡ some ds = rw (fill, go_on, miss) at e in cc
        | inr (ds', hit) ↦
            let is_d : ds ≡ d ∷ ds' =
              (let shown : some (d ∷ ds') ≡ some ds = rw (fill, go_on, hit) at e in cc) in
            let ih = fill-length ten base shrinks fuel (x / base) k ds' less hit in
            rw is_d (omega arith)
      ]
    ]

word_of_int-small : (xx : ℤ) → word_of_int xx < 2 ^ 32
unfolding word_of_int
word_of_int-small (pos n) = omega arith
word_of_int-small (negsuc n) = omega arith

magnitude-small : (neg : Bool) (xx : ℤ) → magnitude neg xx < 2 ^ 32
unfolding magnitude
magnitude-small true xx = omega arith
magnitude-small false xx = word_of_int-small xx

fill-fits :
    (ten fuel base x : ℕ) (ds : List ℕ)
    → (base ≡ 10) ⊎ (base ≡ 16)
    → x < 2 ^ 32
    → fill ten base fuel x ≡ some ds
    → length ds ≤ 10
unfolding power
fill-fits ten fuel base x ds (inl decimal) small e =
    fill-length ten 10 (λ y m h. omega arith) fuel x 9 ds (omega arith) (rw decimal at e)
fill-fits ten fuel base x ds (inr hex) small e =
    fill-length ten 16 (λ y m h. omega arith) fuel x 9 ds (omega arith) (rw hex at e)

signed-length :
    (neg : Bool) (ds : List ℕ)
    → length ds ≤ 10
    → length (if neg then ds ++ (b'-' ∷ []) else ds) ≤ 11
signed-length true ds h = omega (arith, length-append ds (b'-' ∷ []))
signed-length false ds h = omega arith

-- `buf[16]` of `printint` is large enough: for every `int`, in base 10 and in base 16, the loop
-- ends and puts at most 10 digits and a sign into it.
printed_buf_fits :
    (ten fuel base : ℕ) (xx : ℤ) (sgn : Bool)
    → (base ≡ 10) ⊎ (base ≡ 16)
    → 2 ^ 32 ≤ fuel
    → (buf : List ℕ) × (printed_buf ten fuel xx base sgn ≡ some buf) × (length buf ≤ 11)
unfolding printed_buf
printed_buf_fits ten fuel base xx sgn bases enough =
    let neg = sgn && ltb_ℤ xx (pos 0) in
    let small = magnitude-small neg xx in
    let two : 2 ≤ base = ground arith in
    let (ds, e) = fill-some ten base fuel (magnitude neg xx) two (omega arith) in
    let fits = fill-fits ten fuel base (magnitude neg xx) ds bases small e in
    (if neg then ds ++ (b'-' ∷ []) else ds, rw (printed_buf, e) refl, signed-length neg ds fits)
