-- ===== src/File/Close.antt =====
-- `sys_close` of xv6/sysfile.c and `fileclose` of xv6/file.c, with the close behind the lock.
use buffer_overflow_attack.Base.{
  Bool, List, Option, ap, false, get_elem?, get_or, if◌then◌else◌, ltb, minus_one, none, pos, refl,
  set, some, subst, sym, true, ℕ, ℤ, ◌+◌, ◌∙◌, ◌≡◌,
}
use buffer_overflow_attack.Kalloc.{Outcome, ok, ◌>>=◌}
use buffer_overflow_attack.Syscall.{User}
use buffer_overflow_attack.Fs.{Super}
use buffer_overflow_attack.Fs.Covered.{Ends, Ends-after, Ends-bind}
use buffer_overflow_attack.Icache.{iput}
use buffer_overflow_attack.File.{File, FileKind, Open, argfd, fd_inode, fd_none, fd_pipe}
use buffer_overflow_attack.File.Counted.{IsCounted, holds}
use buffer_overflow_attack.File.Refs.{argfd-some, drop_file-IsCounted}
use buffer_overflow_attack.File.Io.{Sys, close_last, fileclose, sys_close}

module _ (sb : Super) (outstanding : ℕ) (killed : Bool) where
  close_last-files :
      (kind : FileKind) (f : File) (sys : Sys)
      → Ends
          (close_last sb outstanding killed (record f { kind = kind }) sys)
          (λ s. s.files ≡ sys.files)
  unfolding close_last
  close_last-files fd_none f sys = refl
  close_last-files fd_pipe f sys = refl
  close_last-files fd_inode f sys =
      Ends-after (iput sb outstanding f.ip sys.fs) _ (λ s. s.files ≡ sys.files) λ fs. refl

  -- The rest of `fileclose`, if the file `f` has other references or not.
  abbrev pub closes : Bool → File → Sys → Outcome Sys
  closes shared f sys =
      if shared then ok sys else close_last sb outstanding killed (record f { ref = 0 }) sys

  abbrev finished : Sys → Option File → Outcome Sys
  finished sys closing = elim closing [
    | none ↦ ok sys
    | some f ↦ close_last sb outstanding killed f sys
  ]

  finished-closes :
      (shared : Bool) (f : File) (sys : Sys)
      → finished sys (if shared then none else some (record f { ref = 0 })) ≡ closes shared f sys
  finished-closes true f sys = refl
  finished-closes false f sys = refl

  closes-files :
      (shared : Bool) (f : File) (sys : Sys) → Ends (closes shared f sys) (λ s. s.files ≡ sys.files)
  closes-files true f sys = refl
  closes-files false f sys = close_last-files f.kind (record f { ref = 0 }) sys

  abbrev pub closed : ℕ → List ℕ → Sys → Outcome (ℤ × List ℕ × Sys)
  closed fd ofile sys = ok (pos 0, set ofile fd 0, sys)

  -- `sys_close` whose first argument is the open descriptor `a.0`, which holds the file in slot `a.1`,
  -- with each count equal to the number of references: the descriptor is free then, and the locked
  -- block of `fileclose` does not panic and leaves each count equal to the number of references. The
  -- file is closed behind that block if and only if nothing refers to it any more, as it was except
  -- for its count, so that the call panics only if the close of the pipe or the `iput` does. If it does
  -- not panic, it returns 0, and each count equals the number of references.
  pub sys_close-IsCounted :
      (others : ℕ → ℕ) (u : User) (ofile : List ℕ) (sys : Sys) (a : ℕ × ℕ)
      → IsCounted others (record { ofile = ofile; files = sys.files })
      → argfd u 0 ofile ≡ some a
      → (f : File) × (files : List File) × (get_elem? sys.files a.1 ≡ some f)
        × IsCounted others (record { ofile = set ofile a.0 0; files = files })
        × (get_or (set ofile a.0 0) a.0 0 ≡ 0)
        × (sys_close sb outstanding killed u ofile sys ≡ (
            closes
              (ltb 0 (others a.1 + holds (a.1 + 1) (set ofile a.0 0)))
              f
              (record sys { files = files })
            >>= closed a.0 ofile))
        × Ends
            (sys_close sb outstanding killed u ofile sys)
            (λ r. (r.0 ≡ pos 0) × IsCounted others (record { ofile = r.1; files = r.2.files }))
  unfolding sys_close fileclose
  sys_close-IsCounted others u ofile sys a c found =
      let o : Open = record { ofile = ofile; files = sys.files } in
      let (small, at) = argfd-some u 0 ofile a found in
      let (f, files, got, counted, cleared, run) =
        drop_file-IsCounted others o a.0 a.1 c small at in
      let shared = ltb 0 (others a.1 + holds (a.1 + 1) (set ofile a.0 0)) in
      let whole : sys_close sb outstanding killed u ofile sys
          ≡ (closes shared f (record sys { files = files }) >>= closed a.0 ofile) =
        ap
          (λ o. elim o [
            | none ↦ ok (minus_one, ofile, sys)
            | some (fd, i) ↦ fileclose sb outstanding killed i sys >>= closed fd ofile
          ])
          found
        ∙ ap
            (λ m.
              (m >>= λ (files, closing). finished (record sys { files = files }) closing)
              >>= closed a.0 ofile)
            run
        ∙ ap (λ m. m >>= closed a.0 ofile)
            (finished-closes shared f (record sys { files = files })) in
      let ends =
        Ends-bind (closes shared f (record sys { files = files })) (closed a.0 ofile)
          (λ s. s.files ≡ files)
          (λ r. (r.0 ≡ pos 0) × IsCounted others (record { ofile = r.1; files = r.2.files }))
          (closes-files shared f (record sys { files = files }))
          λ s same. (
            refl,
            subst (λ l. IsCounted others (record { ofile = set ofile a.0 0; files = l })) (sym same)
                counted,
          ) in
      (
        f,
        files,
        got,
        counted,
        cleared,
        whole,
        subst
            (λ m.
              Ends m
                (λ r. (r.0 ≡ pos 0) × IsCounted others (record { ofile = r.1; files = r.2.files })))
            (sym whole) ends,
      )
