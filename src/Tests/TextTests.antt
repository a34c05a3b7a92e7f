-- ===== src/Tests/TextTests.antt =====
-- Runs of the matcher of xv6/grep.c and of the number routines.
use buffer_overflow_attack.Base.{
  List, [], arith, false, negsuc, pos, refl, some, true, ℕ, ◌++◌, ◌↔◌, ◌∷◌, ◌≡◌,
}
use buffer_overflow_attack.Grep.{match_re}
use buffer_overflow_attack.Grep.Spec.{Matches, match_re-Matches}
use buffer_overflow_attack.Number.{atoi_from, printint, atoi}
use buffer_overflow_attack.Number.Trip.{atoi-printint}

-- `a*b`
abbrev stars : List ℕ
stars = b'a' ∷ b'*' ∷ b'b' ∷ []

-- `xaab`
abbrev line : List ℕ
line = b'x' ∷ b'a' ∷ b'a' ∷ b'b' ∷ []

finds_stars : match_re stars line ≡ true
unfolding match_re
finds_stars = refl

misses_anchored : match_re (b'^' ∷ stars) line ≡ false
unfolding match_re
misses_anchored = refl

match_re-Matches_example : (match_re stars line ≡ true) ↔ Matches stars line
match_re-Matches_example = match_re-Matches stars line

printint_minus : printint b'A' 5 (negsuc 41) 10 true ≡ some (b'-' ∷ b'4' ∷ b'2' ∷ [])
unfolding printint
printint_minus = refl

atoi-printint_example :
    (out : List ℕ) × (printint b'A' 500 (pos 407) 10 true ≡ some out)
    × (atoi (out ++ (b' ' ∷ [])) ≡ pos 407)
unfolding atoi_from
atoi-printint_example = atoi-printint b'A' 500 407 true (b' ' ∷ []) (omega arith) (omega arith) refl
