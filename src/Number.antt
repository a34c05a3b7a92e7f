-- ===== src/Number.antt =====
-- Numbers in text: `printint` of xv6/printf.c and xv6/console.c, and `atoi` of xv6/ulib.c. A text is
-- the list of its bytes.
pub mod Trip
use buffer_overflow_attack.Base.{
  Bool, List, Option, [], if◌then◌else◌, int_of_word, leb, ltb, ltb_ℤ, neg_part, none, pos, some,
  suc, word_of_int, zero, ℕ, ℤ, ◌%◌, ◌&&◌, ◌*◌, ◌++◌, ◌+◌, ◌-◌, ◌/◌, ◌==◌, ◌^◌, ◌∷◌,
}

-- `digits[i]` of printf.c, and of console.c, whose letters are small.
unfoldable pub digit : ℕ → ℕ → ℕ
digit ten i = if ltb i 10 then b'0' + i else ten + (i - 10)

-- The do-while loop: what it puts into `buf`, from index 0 on. `none` is a loop that goes on.
unfoldable pub fill : ℕ → ℕ → ℕ → ℕ → Option (List ℕ)
unfolding digit
fill ten base zero x = none
fill ten base (suc fuel) x =
    let rest = fill ten base fuel (x / base) in
    if x / base == 0
    then some (digit ten (x % base) ∷ [])
    else elim rest [ none ↦ none | some ds ↦ some (digit ten (x % base) ∷ ds) ]

-- The loop `while(--i >= 0)`: the bytes from the last index down.
unfoldable pub emit : List ℕ → List ℕ
emit [] = []
emit (b ∷ buf) = emit buf ++ (b ∷ [])

-- `x = -xx` in `uint`, for a negative `int`.
unfoldable pub magnitude : Bool → ℤ → ℕ
magnitude neg xx = if neg then neg_part xx % 2 ^ 32 else word_of_int xx

-- `buf` as it is written out.
unfoldable pub printed_buf : ℕ → ℕ → ℤ → ℕ → Bool → Option (List ℕ)
unfolding fill magnitude
printed_buf ten fuel xx base sgn =
    let neg = sgn && ltb_ℤ xx (pos 0) in
    elim (fill ten base fuel (magnitude neg xx)) [
      | none ↦ none
      | some buf ↦ some (if neg then buf ++ (b'-' ∷ []) else buf)
    ]

unfoldable pub printint : ℕ → ℕ → ℤ → ℕ → Bool → Option (List ℕ)
unfolding printed_buf emit
printint ten fuel xx base sgn = elim (printed_buf ten fuel xx base sgn) [
  | none ↦ none
  | some buf ↦ some (emit buf)
]

-- `n = n*10 + *s++ - '0'` on the pattern of the `int`, which wraps.
unfoldable pub atoi_from : ℕ → List ℕ → ℕ
atoi_from n [] = n
atoi_from n (c ∷ s) =
    if leb b'0' c && leb c b'9' then atoi_from ((n * 10 + c + 2 ^ 32 - b'0') % 2 ^ 32) s else n

unfoldable pub atoi : List ℕ → ℤ
unfolding atoi_from int_of_word
atoi s = int_of_word (atoi_from 0 s)
