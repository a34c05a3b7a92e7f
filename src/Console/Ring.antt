-- ===== src/Console/Ring.antt =====
-- The keys between two counters of the buffer of xv6/console.c.
use buffer_overflow_attack.Base.{
  Bool, List, [], ap, ap₂, arith, false, if◌then◌else◌, length, refl, suc, sym, true, zero, ℕ, ◌%◌,
  ◌++◌, ◌+◌, ◌-◌, ◌<◌, ◌==◌, ◌^◌, ◌||◌, ◌∙◌, ◌∷◌, ◌≡◌, ◌≤◌,
}
use buffer_overflow_attack.Str.{Memory, write}
use buffer_overflow_attack.Console.{input_buf}

-- The difference of two wrapping counters.
abbrev pub from_to : ℕ → ℕ → ℕ
from_to a b = (b + 2 ^ 32 - a) % 2 ^ 32

abbrev pub window : Memory → ℕ → ℕ → List ℕ
window buf h zero = []
window buf h (suc n) = buf (h % input_buf) ∷ window buf ((h + 1) % 2 ^ 32) n

abbrev pub has : ℕ → List ℕ → Bool
has c [] = false
has c (x ∷ xs) = x == c || has c xs

abbrev pub drop_last : List ℕ → List ℕ
drop_last [] = []
drop_last (x ∷ []) = []
drop_last (x ∷ y ∷ ys) = x ∷ drop_last (y ∷ ys)

or_false : (a b : Bool) → (a || (b || false)) ≡ false → (a ≡ false) × (b ≡ false)
or_false true b h = absurd (let no : true ≡ false = h in cc)
or_false false true h = absurd (let no : true ≡ false = h in cc)
or_false false false h = (refl, refl)

pub length-window : (buf : Memory) (h n : ℕ) → length (window buf h n) ≡ n
length-window buf h zero = refl
length-window buf h (suc n) = ap suc (length-window buf ((h + 1) % 2 ^ 32) n)

-- A key that is stored behind a window leaves it as it is.
pub window-write :
    (buf : Memory) (b n h k : ℕ)
    → n ≤ k
    → k < input_buf
    → window (write buf ((h + k) % 2 ^ 32 % input_buf) b) h n ≡ window buf h n
unfolding write
window-write buf b zero h k le lt = refl
window-write buf b (suc n) h k le lt =
    let other : (h % input_buf == (h + k) % 2 ^ 32 % input_buf) ≡ false = ground arith in
    let same : (h + k) % 2 ^ 32 ≡ ((h + 1) % 2 ^ 32 + (k - 1)) % 2 ^ 32 = omega arith in
    ap₂
      (λ t c.
        (if t then b else buf (h % input_buf))
        ∷ window (write buf (c % input_buf) b) ((h + 1) % 2 ^ 32) n)
      other same
    ∙ ap (λ t. buf (h % input_buf) ∷ t)
        (window-write buf b n ((h + 1) % 2 ^ 32) (k - 1) (omega arith) (omega arith))

pub window-append :
    (buf : Memory) (h m n : ℕ)
    → h < 2 ^ 32
    → window buf h (m + n) ≡ window buf h m ++ window buf ((h + m) % 2 ^ 32) n
window-append buf h zero n lt = ap₂ (window buf) (omega arith) (omega arith)
window-append buf h (suc m) n lt =
    let next : ((h + 1) % 2 ^ 32 + m) % 2 ^ 32 ≡ (h + suc m) % 2 ^ 32 = omega arith in
    let sum : suc m + n ≡ suc (m + n) = omega arith in
    ap (window buf h) sum
    ∙ ap (λ t. buf (h % input_buf) ∷ t) (window-append buf ((h + 1) % 2 ^ 32) m n (omega arith))
    ∙ ap (λ c. buf (h % input_buf) ∷ (window buf ((h + 1) % 2 ^ 32) m ++ window buf c n)) next

pub window-last :
    (buf : Memory) (h n : ℕ)
    → h < 2 ^ 32
    → window buf h (suc n) ≡ window buf h n ++ (buf ((h + n) % 2 ^ 32 % input_buf) ∷ [])
window-last buf h n lt =
    let sum : suc n ≡ n + 1 = omega arith in ap (window buf h) sum ∙ window-append buf h n 1 lt

pub drop_last-window : (buf : Memory) (h n : ℕ) → drop_last (window buf h (suc n)) ≡ window buf h n
drop_last-window buf h zero = refl
drop_last-window buf h (suc n) =
    ap (λ t. buf (h % input_buf) ∷ t) (drop_last-window buf ((h + 1) % 2 ^ 32) n)

pub has-append : (c : ℕ) (xs ys : List ℕ) → has c (xs ++ ys) ≡ (has c xs || has c ys)
has-append c [] ys = refl
has-append c (x ∷ xs) ys = ap (λ t. x == c || t) (has-append c xs ys) ∙ ground arith

-- The last key of a window.
pub has-window_last :
    (buf : Memory) (c h n : ℕ)
    → h < 2 ^ 32
    → has c (window buf h (suc n)) ≡ false
    → (has c (window buf h n) ≡ false) × ((buf ((h + n) % 2 ^ 32 % input_buf) == c) ≡ false)
has-window_last buf c h n lt none_in =
    let x = buf ((h + n) % 2 ^ 32 % input_buf) in
    let split : (has c (window buf h n) || (x == c || false)) ≡ false =
      sym (has-append c (window buf h n) (x ∷ []))
      ∙ ap (has c) (sym (window-last buf h n lt))
      ∙ none_in in
    or_false (has c (window buf h n)) (x == c) split
