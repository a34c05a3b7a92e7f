-- ===== src/Path.antt =====
-- xv6/fs.c: path names. A path is the list of its bytes before the NUL.
pub mod Elements
use buffer_overflow_attack.Base.{List, Option, [], if◌then◌else◌, none, some, take, ℕ, ◌==◌, ◌∷◌}

abbrev pub name_size : ℕ
name_size = 14

-- `while(*path == '/') path++;`
unfoldable pub skip_slashes : List ℕ → List ℕ
skip_slashes [] = []
skip_slashes (c ∷ path) = if c == b'/' then skip_slashes path else c ∷ path

-- `while(*path != '/' && *path != 0) path++;`: what it passes, and where it stops.
unfoldable pub take_element : List ℕ → List ℕ × List ℕ
take_element [] = ([], [])
take_element (c ∷ path) =
    let (s, rest) = take_element path in if c == b'/' then ([], c ∷ path) else (c ∷ s, rest)

-- The element that goes into `name`, and the path behind it; `none` is the null pointer.
unfoldable pub skipelem : List ℕ → Option (List ℕ × List ℕ)
unfolding skip_slashes take_element
skipelem path = elim (skip_slashes path) [
  | [] ↦ none
  | c ∷ p ↦ let (s, rest) = take_element (c ∷ p) in some (take name_size s, skip_slashes rest)
]
