-- ===== src/Grep.antt =====
-- The matcher of xv6/grep.c. A C text is the list of its bytes before the NUL, so that the test for
-- `'\0'` is the test for the empty list.
pub mod Spec
use buffer_overflow_attack.Base.{Bool, List, [], false, if◌then◌else◌, true, ℕ, ◌==◌, ◌||◌, ◌∷◌}

-- `matchstar`, with the matcher of the rest: one byte less of the text in each round.
unfoldable pub matchstar : ℕ → (List ℕ → Bool) → List ℕ → Bool
matchstar c rest [] = rest []
matchstar c rest (x ∷ text) =
    let again = matchstar c rest text in
    if rest (x ∷ text) then true else if x == c || c == b'.' then again else false

-- The test of a single byte, with the matcher of the rest.
unfoldable pub match_one : ℕ → (List ℕ → Bool) → List ℕ → Bool
match_one c rest [] = false
match_one c rest (x ∷ text) = if c == b'.' || c == x then rest text else false

abbrev pub is_nil : List ℕ → Bool
is_nil [] = true
is_nil (x ∷ xs) = false

unfoldable pub matchhere : List ℕ → List ℕ → Bool
unfolding matchstar match_one
matchhere [] text = true
matchhere (c ∷ []) text = if c == b'$' then is_nil text else match_one c (λ t. matchhere [] t) text
matchhere (c ∷ d ∷ re) text =
    let starred = matchstar c (λ t. matchhere re t) text in
    let single = match_one c (λ t. matchhere (d ∷ re) t) text in
    if d == b'*' then starred else single

-- The loop of `match` looks at every suffix, the empty one too.
unfoldable pub match_any : List ℕ → List ℕ → Bool
unfolding matchhere
match_any re [] = matchhere re []
match_any re (x ∷ text) =
    let rest = match_any re text in if matchhere re (x ∷ text) then true else rest

unfoldable pub match_re : List ℕ → List ℕ → Bool
unfolding match_any matchhere
match_re [] text = match_any [] text
match_re (c ∷ re) text = if c == b'^' then matchhere re text else match_any (c ∷ re) text
