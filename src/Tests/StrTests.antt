-- ===== src/Tests/StrTests.antt =====
-- xv6/string.c on small memories.
use buffer_overflow_attack.Base.{arith, if◌then◌else◌, inl, refl, some, ℕ, ◌==◌, ◌≡◌}
use buffer_overflow_attack.Str.{Memory, write, memset, strcpy, strlen, IsText, stosb}
use buffer_overflow_attack.Str.Copy.{strcpy-copied}
use buffer_overflow_attack.Str.Move.{copied}
use buffer_overflow_attack.Str.Text.{strlen-IsText}

-- "hi" at 100.
abbrev greeting : Memory
greeting x = if x == 100 then 104 else if x == 101 then 105 else 0

greeting-IsText : IsText greeting 100 2
greeting-IsText = record { chars = λ i lt e. ground arith; ends = refl }

memset-fill_bytes : memset greeting 9 7 3 12 ≡ 0
unfolding memset stosb write
memset-fill_bytes = refl

strcpy-copied_example :
    (m' : Memory) × (strcpy 3 greeting 50 100 ≡ some m')
    × ((x : ℕ) → m' x ≡ copied greeting 50 100 3 x)
strcpy-copied_example = strcpy-copied 3 50 2 greeting-IsText (inl (omega arith)) (omega arith)

strlen-IsText_example : strlen 3 greeting 100 ≡ some 2
strlen-IsText_example = strlen-IsText 3 2 greeting-IsText (omega arith)
