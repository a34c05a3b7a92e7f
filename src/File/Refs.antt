-- ===== src/File/Refs.antt =====
-- The reference counts of xv6/file.c against the descriptors that hold the files.
use buffer_overflow_attack.Base.{
  ==_iff, Bool-cases, List, Option-cases, ap, arith, false, get_elem?, get_or, get_or-set_self,
  if◌then◌else◌, inl, inr, leb, ltb, ltb_ℤ, minus_one, modify, none, pos, refl, set, some, sym,
  true, word_of_int, ℕ, ℤ, ◌+◌, ◌-◌, ◌<◌, ◌==◌, ◌||◌, ◌∙◌, ◌≡◌, ◌≢◌,
}
use buffer_overflow_attack.Mmu.{n_ofile}
use buffer_overflow_attack.Kalloc.{ok}
use buffer_overflow_attack.Syscall.{User, argint}
use buffer_overflow_attack.File.{
  File, Open, fdalloc_from, drop_file, fd_none, file_of, dup_file, fdalloc, filedup, argfd,
}
use buffer_overflow_attack.File.Counted.{
  IsCounted, changed-IsCounted, fdalloc_from-some, holds, holds-set, holds-some, one_if,
}

-- The file of a descriptor is in the table, and referred to.
held-file :
    (others : ℕ → ℕ) (o : Open) (fd i : ℕ)
    → IsCounted others o
    → fd < n_ofile
    → get_or o.ofile fd 0 ≡ i + 1
    → (f : File) × (get_elem? o.files i ≡ some f) × (0 < f.ref)
held-file others o fd i c lt at =
    let s = c.slots in
    let some_one = holds-some o.ofile fd (omega arith) in
    let held : 0 < holds (i + 1) o.ofile = rw (sym at) some_one in
    elim (Option-cases (get_elem? o.files i)) [
      | inl missing ↦ let none_held = c.there i missing in absurd (omega arith)
      | inr (f, got) ↦ let counted = c.refs i f got in (f, got, omega arith)
    ]

-- The block of `fileclose` that holds the lock, for the file of a descriptor that is cleared.
pub drop_file-IsCounted :
    (others : ℕ → ℕ) (o : Open) (fd i : ℕ)
    → IsCounted others o
    → fd < n_ofile
    → get_or o.ofile fd 0 ≡ i + 1
    → (f : File) × (files : List File) × (get_elem? o.files i ≡ some f)
      × IsCounted others (record { ofile = set o.ofile fd 0; files = files })
      × (get_or (set o.ofile fd 0) fd 0 ≡ 0)
      × (drop_file i o.files
          ≡ ok (
            files,
            if ltb 0 (others i + holds (i + 1) (set o.ofile fd 0))
                then none
                else some (record f { ref = 0 }),
          ))
unfolding drop_file
drop_file-IsCounted others o fd i c lt at =
    let (f, got, used) = held-file others o fd i c lt at in
    let s = c.slots in
    let alive : ltb f.ref 1 ≡ false = ground arith in
    let this : (get_or o.ofile fd 0 == i + 1) ≡ true =
      (==_iff (get_or o.ofile fd 0) (i + 1)).1 at in
    let others_same : (j : ℕ)
        → j ≢ i
        → one_if (get_or o.ofile fd 0 == j + 1) ≡ one_if (0 == j + 1) =
      λ j ne. rw at (ground (arith, ==_iff j i)) in
    let counted = c.refs i f got in
    let moved = holds-set (i + 1) o.ofile fd 0 (omega arith) in
    let never : (0 == i + 1) ≡ false = ground arith in
    let fewer : holds (i + 1) (set o.ofile fd 0) + 1 ≡ holds (i + 1) o.ofile + 0 =
      ap (λ t. holds (i + 1) (set o.ofile fd 0) + one_if t) (sym this)
      ∙ moved
      ∙ ap (λ t. holds (i + 1) o.ofile + one_if t) never in
    let left : f.ref - 1 ≡ others i + holds (i + 1) (set o.ofile fd 0) = omega arith in
    let cleared = get_or-set_self o.ofile fd 0 0 (omega arith) in
    elim (Bool-cases (ltb 0 (f.ref - 1))) [
      | inl more ↦
          let g : File → File = λ f. record f { ref = f.ref - 1 } in
          (
            f,
            modify o.files i g,
            got,
            changed-IsCounted others o i fd 0 g f c got lt others_same (rw this (ground arith)),
            cleared,
            rw (drop_file, got, alive, more)
                (ap (λ t. ok (modify o.files i g, if t then none else some (record f { ref = 0 })))
                  (sym more ∙ ap (ltb 0) left)),
          )
      | inr ends ↦
          let g : File → File = λ f. record f { ref = 0; kind = fd_none } in
          let last : f.ref - 1 ≡ 0 = ground arith in
          (
            f,
            modify o.files i g,
            got,
            changed-IsCounted others o i fd 0 g f c got lt others_same (rw this (ground arith)),
            cleared,
            rw (drop_file, got, alive, ends)
                (ap (λ n. ok (modify o.files i g, some (record f { ref = n }))) last
                  ∙ ap
                      (λ t.
                        ok (modify o.files i g, if t then none else some (record f { ref = 0 })))
                      (sym ends ∙ ap (ltb 0) left)),
          )
    ]

file_of-some :
    (fd : ℕ) (ofile : List ℕ) (r : ℕ × ℕ)
    → file_of fd ofile ≡ some r
    → (fd < n_ofile) × (r.0 ≡ fd) × (get_or ofile fd 0 ≡ r.1 + 1)
unfolding file_of
file_of-some fd ofile r h = elim (Bool-cases (leb n_ofile fd || get_or ofile fd 0 == 0)) [
  | inl bad ↦ let never : none ≡ some r = rw (file_of, bad) at h in cc
  | inr good ↦
      let made : ℕ × ℕ = (fd, get_or ofile fd 0 - 1) in
      let here : some made ≡ some r = rw (file_of, good) at h in
      let same : made ≡ r = cc in
      let second : get_or ofile fd 0 - 1 ≡ r.1 = ap (λ t. t.1) same in
      (ground arith, sym (ap (λ t. t.0) same), ground arith)
]

-- What `sys_dup` of the file in slot `i` returns: -1 if no descriptor is free, and nothing has changed
-- then; otherwise a descriptor that was free and holds the file now.
pub data Dup (i : ℕ) (o : Open) : ℤ → Open → Type 0 where
  refused : Dup i o minus_one o
  gave :
      (fd : ℕ) (o' : Open)
      → fd < n_ofile
      → get_or o.ofile fd 0 ≡ 0
      → o'.ofile ≡ set o.ofile fd (i + 1)
      → Dup i o (pos fd) o'

-- `sys_dup` of an open descriptor keeps every count equal to the number of references, and does not
-- panic.
pub dup_file-IsCounted :
    (others : ℕ → ℕ) (o : Open) (fd i : ℕ)
    → IsCounted others o
    → fd < n_ofile
    → get_or o.ofile fd 0 ≡ i + 1
    → (r : ℤ) × (o' : Open) × (dup_file i o ≡ ok (r, o')) × IsCounted others o' × Dup i o r o'
unfolding dup_file fdalloc filedup
dup_file-IsCounted others o fd i c lt at =
    elim (Option-cases (fdalloc_from n_ofile 0 (i + 1) o.ofile)) [
      | inl full ↦ (minus_one, o, rw (dup_file, fdalloc, full) refl, c, refused)
      | inr (r, found) ↦
          let (lo, hi, free, made) = fdalloc_from-some n_ofile 0 (i + 1) o.ofile r found in
          let (f, got, used) = held-file others o fd i c lt at in
          let alive : ltb f.ref 1 ≡ false = ground arith in
          let g : File → File = λ f. record f { ref = f.ref + 1 } in
          let o' : Open = record { ofile = set o.ofile r.0 (i + 1); files = modify o.files i g } in
          let small : r.0 < n_ofile = omega arith in
          let run : dup_file i o ≡ ok (pos r.0, o') =
            rw (dup_file, fdalloc, found, filedup, got, alive)
              (ap (λ l. ok (pos r.0, record { ofile = l; files = modify o.files i g })) made) in
          (
            pos r.0,
            o',
            run,
            changed-IsCounted others o i r.0 (i + 1) g f c got small
                (λ j ne. rw free (ground (arith, ==_iff j i)))
                (rw free (ground (arith, ==_iff (i + 1) (i + 1)))),
            gave r.0 o' small free refl,
          )
    ]

pub argfd-some :
    (u : User) (n : ℕ) (ofile : List ℕ) (r : ℕ × ℕ)
    → argfd u n ofile ≡ some r
    → (r.0 < n_ofile) × (get_or ofile r.0 0 ≡ r.1 + 1)
unfolding argfd
argfd-some u n ofile r h = elim (Option-cases (argint u n)) [
  | inl missing ↦ let never : none ≡ some r = rw (argfd, missing) at h in cc
  | inr (fd, got) ↦ elim (Bool-cases (ltb_ℤ fd (pos 0))) [
    | inl negative ↦ let never : none ≡ some r = rw (argfd, got, negative) at h in cc
    | inr right ↦
        let (small, same, at) =
          file_of-some (word_of_int fd) ofile r (rw (argfd, got, right) at h) in
        (omega arith, ap (λ k. get_or ofile k 0) same ∙ at)
  ]
]
