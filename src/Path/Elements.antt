-- ===== src/Path/Elements.antt =====
-- What `skipelem` of xv6/fs.c makes of a path, from its first element to its last.
use buffer_overflow_attack.Base.{
  Bool-cases, List, Option, [], ap, append-nil, append_assoc, arith, false, if◌then◌else◌, inl, inr,
  length, none, refl, some, suc, sym, take, zero, ℕ, ◌++◌, ◌<◌, ◌==◌, ◌∙◌, ◌∷◌, ◌≡◌, ◌≤◌, ◌⊎◌,
}
use buffer_overflow_attack.Path.{name_size, skip_slashes, take_element, skipelem}

-- The loop of `namex` on its path alone, on fuel: the names in their order.
unfoldable pub walk : ℕ → List ℕ → Option (List (List ℕ))
unfolding skipelem
walk zero path = none
walk (suc fuel) path = elim (skipelem path) [
  | none ↦ some []
  | some (name, rest) ↦ elim (walk fuel rest) [ none ↦ none | some names ↦ some (name ∷ names) ]
]

-- The pieces of a path between its slashes, empty ones included, beginning with `piece`.
abbrev pub pieces : List ℕ → List ℕ → List (List ℕ)
pieces piece [] = piece ∷ []
pieces piece (c ∷ path) =
    if c == b'/' then piece ∷ pieces [] path else pieces (piece ++ (c ∷ [])) path

-- Those that are not empty, cut to the size of a name.
abbrev pub names_of : List (List ℕ) → List (List ℕ)
names_of [] = []
names_of (p ∷ ps) = if length p == 0 then names_of ps else take name_size p ∷ names_of ps

names_of-pieces_slash :
    (path : List ℕ) → names_of (pieces [] (skip_slashes path)) ≡ names_of (pieces [] path)
unfolding skip_slashes
names_of-pieces_slash [] = refl
names_of-pieces_slash (c ∷ path) = elim (Bool-cases (c == b'/')) [
  | inl slash ↦ rw (skip_slashes, slash) (names_of-pieces_slash path)
  | inr other ↦ rw (skip_slashes, other, other) refl
]

-- An element that is not empty is the first of the names.
names_of-take_element :
    (piece path : List ℕ)
    → names_of (pieces piece path)
      ≡ names_of (pieces (piece ++ (take_element path).0) (take_element path).1)
unfolding take_element
names_of-take_element piece [] = ap (λ p. names_of (pieces p [])) (sym (append-nil piece))
names_of-take_element piece (c ∷ path) = elim (Bool-cases (c == b'/')) [
  | inl slash ↦
      let at : take_element (c ∷ path) ≡ ([], c ∷ path) = rw (take_element, slash) refl in
      ap (λ p. names_of (pieces p (c ∷ path))) (sym (append-nil piece))
      ∙ ap (λ r. names_of (pieces (piece ++ r.0) r.1)) (sym at)
  | inr other ↦
      let (s, rest) = take_element path in
      let at : take_element (c ∷ path) ≡ (c ∷ s, rest) = rw (take_element, other) refl in
      ap (λ t. names_of (if t then piece ∷ pieces [] path else pieces (piece ++ (c ∷ [])) path))
        other
      ∙ names_of-take_element (piece ++ (c ∷ [])) path
      ∙ ap (λ p. names_of (pieces p rest)) (append_assoc piece (c ∷ []) s)
      ∙ ap (λ r. names_of (pieces (piece ++ r.0) r.1)) (sym at)
]

-- Behind an element that is not empty stands a slash or nothing.
names_of-behind :
    (piece path : List ℕ)
    → (length piece == 0) ≡ false
    → names_of (pieces piece (take_element path).1)
      ≡ take name_size piece ∷ names_of (pieces [] (take_element path).1)
unfolding take_element
names_of-behind piece [] full = rw full refl
names_of-behind piece (c ∷ path) full = elim (Bool-cases (c == b'/')) [
  | inl slash ↦ rw (take_element, slash, slash, full) refl
  | inr other ↦ rw (take_element, other) (names_of-behind piece path full)
]

length-skip_slashes : (path : List ℕ) → length (skip_slashes path) ≤ length path
unfolding skip_slashes
length-skip_slashes [] = omega arith
length-skip_slashes (c ∷ path) = let ih = length-skip_slashes path in ground arith

length-take_element : (path : List ℕ) → length (take_element path).1 ≤ length path
unfolding take_element
length-take_element [] = omega arith
length-take_element (c ∷ path) = let ih = length-take_element path in ground arith

-- What stands behind the slashes does not start with one.
skip_slashes-start :
    (path : List ℕ) (c : ℕ) (p : List ℕ) → skip_slashes path ≡ c ∷ p → (c == b'/') ≡ false
unfolding skip_slashes
skip_slashes-start [] c p e = cc
skip_slashes-start (d ∷ path) c p e = elim (Bool-cases (d == b'/')) [
  | inl slash ↦ skip_slashes-start path c p (rw (skip_slashes, slash) at e)
  | inr other ↦
      let same : d ∷ path ≡ c ∷ p = rw (skip_slashes, other) at e in
      let first : d ≡ c = cc in ap (λ x. x == b'/') (sym first) ∙ other
]

skipelem-none : (path : List ℕ) → skip_slashes path ≡ [] → skipelem path ≡ none
unfolding skipelem
skipelem-none path e = rw (skipelem, e) refl

skipelem-some :
    (path : List ℕ) (c : ℕ) (p : List ℕ)
    → skip_slashes path ≡ c ∷ p
    → skipelem path
      ≡ some (take name_size (take_element (c ∷ p)).0, skip_slashes (take_element (c ∷ p)).1)
unfolding skipelem
skipelem-some path c p e = rw (skipelem, e) refl

-- The element behind the slashes has a byte, and is shorter than the path.
element-some :
    (c : ℕ) (p : List ℕ)
    → (c == b'/') ≡ false
    → ((length (take_element (c ∷ p)).0 == 0) ≡ false)
      × (length (take_element (c ∷ p)).1 ≤ length p)
unfolding take_element
element-some c p other =
    (rw (take_element, other) (ground arith), rw (take_element, other) (length-take_element p))

List-cases : (xs : List ℕ) → (xs ≡ []) ⊎ ((x : ℕ) × (xs' : List ℕ) × (xs ≡ x ∷ xs'))
List-cases [] = inl refl
List-cases (x ∷ xs) = inr (x, xs, refl)

-- What `skipelem` leaves is shorter than the path.
pub skipelem-shorter :
    (path name rest : List ℕ) → skipelem path ≡ some (name, rest) → length rest < length path
skipelem-shorter path name rest cut = elim (List-cases (skip_slashes path)) [
  | inl ends ↦ let none_e = skipelem-none path ends in cc
  | inr (c, p, starts) ↦
      let (full, shorter) = element-some c p (skip_slashes-start path c p starts) in
      let skipped = length-skip_slashes path in
      let skipped' = length-skip_slashes (take_element (c ∷ p)).1 in
      let long : length (skip_slashes path) ≡ suc (length p) = ap length starts in
      let got = skipelem-some path c p starts in
      let same : rest ≡ skip_slashes (take_element (c ∷ p)).1 = cc in
      let same_length = ap length same in omega arith
]

-- `skipelem`, called as `namex` calls it until it returns a null pointer, gives the names of the path:
-- the pieces between its slashes that are not empty, in their order, each cut to 14 bytes. One call
-- more than the path has bytes is enough.
pub walk-names_of :
    (fuel : ℕ) (path : List ℕ)
    → length path < fuel
    → walk fuel path ≡ some (names_of (pieces [] path))
unfolding walk
walk-names_of zero path enough = absurd (omega arith)
walk-names_of (suc fuel) path enough = elim (List-cases (skip_slashes path)) [
  | inl ends ↦
      let next : (o : Option (List ℕ × List ℕ)) → Option (List (List ℕ)) = λ o. elim o [
        | none ↦ some []
        | some r ↦ elim (walk fuel r.1) [ none ↦ none | some names ↦ some (r.0 ∷ names) ]
      ] in
      ap next (skipelem-none path ends)
      ∙ ap (λ q. some (names_of (pieces [] q))) (sym ends)
      ∙ ap some (names_of-pieces_slash path)
  | inr (c, p, starts) ↦
      let next : (o : Option (List ℕ × List ℕ)) → Option (List (List ℕ)) = λ o. elim o [
        | none ↦ some []
        | some r ↦ elim (walk fuel r.1) [ none ↦ none | some names ↦ some (r.0 ∷ names) ]
      ] in
      let s = (take_element (c ∷ p)).0 in
      let rest = (take_element (c ∷ p)).1 in
      let (full, shorter) = element-some c p (skip_slashes-start path c p starts) in
      let skipped = length-skip_slashes path in
      let skipped' = length-skip_slashes rest in
      let long : length (skip_slashes path) ≡ suc (length p) = ap length starts in
      let ih = walk-names_of fuel (skip_slashes rest) (omega arith) in
      let named : names_of (pieces [] path)
          ≡ take name_size s ∷ names_of (pieces [] (skip_slashes rest)) =
        sym (names_of-pieces_slash path)
        ∙ ap (λ q. names_of (pieces [] q)) starts
        ∙ names_of-take_element [] (c ∷ p)
        ∙ names_of-behind s (c ∷ p) full
        ∙ ap (λ t. take name_size s ∷ t) (sym (names_of-pieces_slash rest)) in
      ap next (skipelem-some path c p starts)
      ∙ ap
          (λ o. elim o as (λ x. Option (List (List ℕ))) [
            | none ↦ none
            | some names ↦ some (take name_size s ∷ names)
          ])
          ih
      ∙ ap some (sym named)
]
