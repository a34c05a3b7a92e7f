-- ===== src/File/Counted.antt =====
-- The counts of the files of xv6/file.c, and the descriptors that hold them.
use buffer_overflow_attack.Base.{
  ==_iff, Bool, Bool-cases, List, [], ap, arith, get_elem?, get_elem?-modify_ne,
  get_elem?-modify_self, get_or, if◌then◌else◌, inl, inr, length, length-set, modify, none, refl,
  set, some, suc, sym, zero, ℕ, ◌+◌, ◌<◌, ◌==◌, ◌∙◌, ◌∷◌, ◌≡◌, ◌≢◌, ◌≤◌,
}
use buffer_overflow_attack.Mmu.{n_ofile}
use buffer_overflow_attack.File.{File, Open, fdalloc_from}

abbrev pub one_if : Bool → ℕ
one_if t = if t then 1 else 0

-- How often a file pointer stands in the descriptors of a process.
abbrev pub holds : ℕ → List ℕ → ℕ
holds f [] = 0
holds f (g ∷ gs) = one_if (g == f) + holds f gs

-- `others i` counts the references to file `i` that are not descriptors of the process. The count of
-- each file is the number of references to it, and a file that is referred to is in the table.
pub record IsCounted (others : ℕ → ℕ) (o : Open) : Type 0 where
  pub slots : length o.ofile ≡ n_ofile
  pub refs :
      (i : ℕ) (f : File) → get_elem? o.files i ≡ some f → f.ref ≡ others i + holds (i + 1) o.ofile
  pub there : (i : ℕ) → get_elem? o.files i ≡ none → holds (i + 1) o.ofile ≡ 0

pub holds-set :
    (x : ℕ) (xs : List ℕ) (fd v : ℕ)
    → fd < length xs
    → holds x (set xs fd v) + one_if (get_or xs fd 0 == x) ≡ holds x xs + one_if (v == x)
holds-set x [] fd v lt = absurd (omega arith)
holds-set x (y ∷ xs) zero v lt = omega arith
holds-set x (y ∷ xs) (suc fd) v lt = let ih = holds-set x xs fd v (omega arith) in omega arith

-- A descriptor that holds a file counts.
pub holds-some : (xs : List ℕ) (fd : ℕ) → fd < length xs → 0 < holds (get_or xs fd 0) xs
holds-some [] fd lt = absurd (omega arith)
holds-some (y ∷ xs) zero lt = let same = (==_iff y y).1 refl in rw same (omega arith)
holds-some (y ∷ xs) (suc fd) lt = let ih = holds-some xs fd (omega arith) in omega arith

pub fdalloc_from-some :
    (left fd f : ℕ) (ofile : List ℕ) (r : ℕ × List ℕ)
    → fdalloc_from left fd f ofile ≡ some r
    → (fd ≤ r.0) × (r.0 < fd + left) × (get_or ofile r.0 0 ≡ 0) × (r.1 ≡ set ofile r.0 f)
unfolding fdalloc_from
fdalloc_from-some zero fd f ofile r h = cc
fdalloc_from-some (suc left) fd f ofile r h = elim (Bool-cases (get_or ofile fd 0 == 0)) [
  | inl free ↦
      let made : ℕ × List ℕ = (fd, set ofile fd f) in
      let here : some made ≡ some r = rw (fdalloc_from, free) at h in
      let same : made ≡ r = cc in
      let at = (==_iff (get_or ofile fd 0) 0).0 free in
      let e0 : fd ≡ r.0 = ap (λ t. t.0) same in
      (
        omega arith,
        omega arith,
        ap (λ k. get_or ofile k 0) (sym e0) ∙ at,
        ap (λ t. t.1) (sym same) ∙ ap (λ k. set ofile k f) e0,
      )
  | inr used ↦
      let (lo, hi, at, e) =
        fdalloc_from-some left (fd + 1) f ofile r (rw (fdalloc_from, used) at h) in
      (omega arith, omega arith, at, e)
]

-- The count of one file changes with the one descriptor.
pub changed-IsCounted :
    (others : ℕ → ℕ) (o : Open) (i fd v : ℕ) (g : File → File) (f : File)
    → IsCounted others o
    → get_elem? o.files i ≡ some f
    → fd < n_ofile
    → ((j : ℕ) → j ≢ i → one_if (get_or o.ofile fd 0 == j + 1) ≡ one_if (v == j + 1))
    → (g f).ref + one_if (get_or o.ofile fd 0 == i + 1) ≡ f.ref + one_if (v == i + 1)
    → IsCounted others (record { ofile = set o.ofile fd v; files = modify o.files i g })
changed-IsCounted others o i fd v g f c at lt rest here = record {
  slots = length-set o.ofile fd v ∙ c.slots;
  refs = λ j x got. elim (Bool-cases (j == i)) [
    | inl same ↦
        let e = (==_iff j i).0 same in
        let got' : get_elem? (modify o.files i g) i ≡ some x =
          ap (get_elem? (modify o.files i g)) (sym e) ∙ got in
        let made = get_elem?-modify_self o.files i g f at in
        let eq : g f ≡ x = cc in
        let counted = ap (λ y. y.ref) eq in
        let before = c.refs i f at in
        let moved = holds-set (i + 1) o.ofile fd v (let s = c.slots in omega arith) in
        let one : x.ref ≡ others i + holds (i + 1) (set o.ofile fd v) = omega arith in
        one ∙ ap (λ k. others k + holds (k + 1) (set o.ofile fd v)) (sym e)
    | inr other ↦
        let ne : j ≢ i = ground (arith, ==_iff j i) in
        let ne' : i ≢ j = λ e. ne (sym e) in
        let before = c.refs j x (sym (get_elem?-modify_ne o.files i j g ne') ∙ got) in
        let moved = holds-set (j + 1) o.ofile fd v (let s = c.slots in omega arith) in
        let same = rest j ne in omega arith
  ];
  there = λ j missing. elim (Bool-cases (j == i)) [
    | inl same ↦
        let e = (==_iff j i).0 same in
        let missing' : get_elem? (modify o.files i g) i ≡ none =
          ap (get_elem? (modify o.files i g)) (sym e) ∙ missing in
        let made = get_elem?-modify_self o.files i g f at in cc
    | inr other ↦
        let ne : j ≢ i = ground (arith, ==_iff j i) in
        let ne' : i ≢ j = λ e. ne (sym e) in
        let before = c.there j (sym (get_elem?-modify_ne o.files i j g ne') ∙ missing) in
        let moved = holds-set (j + 1) o.ofile fd v (let s = c.slots in omega arith) in
        let same = rest j ne in omega arith
  ];
}
