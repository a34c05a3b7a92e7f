-- ===== src/Sysfile/Walk.antt =====
-- Every change of a walk along a path to the disk goes through the log: a walk drops references, and
-- the last one frees an inode.
use buffer_overflow_attack.Base.{
  Bool, List, Option, [], false, get_or, if◌then◌else◌, length, none, not, refl, some, suc, true,
  zero, ℕ, ◌&&◌, ◌+◌, ◌==◌, ◌≡◌,
}
use buffer_overflow_attack.Kalloc.{Outcome, ok, panic, ◌>>=◌}
use buffer_overflow_attack.Fs.{Super}
use buffer_overflow_attack.Fs.Covered.{Covered, Covered-refl, Ends, Ends-if, then_Covered}
use buffer_overflow_attack.Path.{skipelem}
use buffer_overflow_attack.Icache.{Fs, idup, iget, ilock, iput}
use buffer_overflow_attack.Icache.Covered.{iput-Covered, ilock-Covered}
use buffer_overflow_attack.Dir.{
  namei, kind_of, lookup_in, nameiparent, namex, namex_from, root_ino, t_dir,
}
use buffer_overflow_attack.Dir.Covered.{lookup_in-Covered}
use buffer_overflow_attack.Sysfile.{settle}

-- A call from `fs` on, behind which the disk of its result is `d`.
abbrev pub Noted : {A : Type 0} → Fs → Outcome A → (A → Fs) → Type 0
Noted fs m d = Ends m (λ r. Covered fs.disk (d r).disk)

-- A chain of two calls.
pub then_Logged :
    {A B : Type 0} (m : Outcome A) (f : A → Outcome B) (fs : Fs) (d : A → Fs) (d' : B → Fs)
    → Noted fs m d
    → ((a : A) → Noted (d a) (f a) d')
    → Noted fs (m >>= f) d'
then_Logged m f fs d d' h k = then_Covered m f fs.disk (λ a. (d a).disk) (λ b. (d' b).disk) h k

settle-if :
    {A : Type 0} (b : Bool) (x y : Option (Outcome A)) (fs : Fs) (d : A → Fs)
    → Noted fs (settle x) d
    → Noted fs (settle y) d
    → Noted fs (settle (if b then x else y)) d
settle-if true x y fs d h k = h
settle-if false x y fs d h k = k

settle-option :
    {A B : Type 0} (o : Option B) (x : Option (Outcome A)) (f : B → Option (Outcome A)) (fs : Fs)
    (d : A → Fs)
    → Noted fs (settle x) d
    → ((b : B) → Noted fs (settle (f b)) d)
    → Noted fs (settle (elim o [ none ↦ x | some b ↦ f b ])) d
settle-option none x f fs d h k = h
settle-option (some b) x f fs d h k = k b

settle-outcome :
    {A B : Type 0} (m : Outcome B) (f : B → Option (Outcome A)) (fs : Fs) (d : B → Fs) (d' : A → Fs)
    → Noted fs m d
    → ((b : B) → Noted (d b) (settle (f b)) d')
    → Noted fs (settle (elim m [ ok b ↦ f b | panic ↦ some panic ])) d'
settle-outcome {A} {B} m f fs d d' h k =
    rw (outside m) (then_Logged m (λ b. settle (f b)) fs d d' h k)
  where
    outside :
        (m : Outcome B)
        → settle (elim m [ ok b ↦ f b | panic ↦ some panic ]) ≡ (m >>= λ b. settle (f b))
    outside (ok b) = refl
    outside panic = refl

module _ (sb : Super) (outstanding : ℕ) where
  -- The end of a walk that drops the inode in slot `i`.
  abbrev dropped : ℕ → List ℕ → Fs → Outcome (Option ℕ × List ℕ × Fs)
  dropped i name fs = iput sb outstanding i fs >>= λ fs'. ok (none, name, fs')

  dropped-Noted : (i : ℕ) (name : List ℕ) (fs : Fs) → Noted fs (dropped i name fs) (λ r. r.2)
  dropped-Noted i name fs =
      then_Logged (iput sb outstanding i fs) _ fs (λ r. r) (λ r. r.2)
        (iput-Covered sb outstanding i fs) λ fs'. Covered-refl fs'.disk

  namex_from-Noted :
      (fuel : ℕ) (parent : Bool) (path : List ℕ) (i : ℕ) (name : List ℕ) (fs : Fs)
      → Noted fs (settle (namex_from sb outstanding fuel parent path i name fs)) (λ r. r.2)
  unfolding namex_from
  namex_from-Noted zero parent path i name fs = tt
  namex_from-Noted (suc fuel) parent path i name fs =
      settle-option (skipelem path) _ _ fs (λ r. r.2)
        (Ends-if parent _ _ (λ r. Covered fs.disk r.2.disk) (dropped-Noted i name fs)
          (Covered-refl fs.disk))
        λ (name', rest).
          settle-outcome (ilock sb outstanding i fs) _ fs (λ r. r) (λ r. r.2)
            (ilock-Covered sb outstanding i fs)
            λ fs1.
              settle-if (not (kind_of sb outstanding i fs1 == t_dir)) _ _ fs1 (λ r. r.2)
                (dropped-Noted i name' fs1)
                (settle-if (parent && length rest == 0) _ _ fs1 (λ r. r.2) (Covered-refl fs1.disk)
                  (settle-outcome (lookup_in sb outstanding name' i fs1) _ fs1 (λ r. r.1) (λ r. r.2)
                    (lookup_in-Covered sb outstanding name' i fs1)
                    λ (found, fs2).
                      settle-outcome (iput sb outstanding i fs2) _ fs2 (λ r. r) (λ r. r.2)
                        (iput-Covered sb outstanding i fs2)
                        λ fs3.
                          settle-option found _ _ fs3 (λ r. r.2) (Covered-refl fs3.disk)
                            λ j. namex_from-Noted fuel parent rest j name' fs3))

  namex-Noted :
      (fuel : ℕ) (parent : Bool) (path : List ℕ) (cwd : ℕ) (fs : Fs)
      → Noted fs (settle (namex sb outstanding fuel parent path cwd fs)) (λ r. r.2)
  unfolding namex
  namex-Noted fuel parent path cwd fs =
      settle-if (get_or path 0 0 == b'/') _ _ fs (λ r. r.2)
        (settle-outcome (iget root_ino fs.icache) _ fs (λ r. fs) (λ r. r.2)
          (kept (iget root_ino fs.icache))
          λ (i, icache). namex_from-Noted fuel parent path i [] (record fs { icache = icache }))
        (namex_from-Noted fuel parent path cwd [] (record fs { icache = idup cwd fs.icache }))
    where
      kept : {A : Type 0} (m : Outcome A) → Noted fs m (λ r. fs)
      kept (ok a) = Covered-refl fs.disk
      kept panic = tt

  pub namei-Noted :
      (path : List ℕ) (cwd : ℕ) (fs : Fs)
      → Noted fs (settle (namei sb outstanding path cwd fs)) (λ r. r.2)
  unfolding namei
  namei-Noted path cwd fs = namex-Noted (length path + 1) false path cwd fs

  pub nameiparent-Noted :
      (path : List ℕ) (cwd : ℕ) (fs : Fs)
      → Noted fs (settle (nameiparent sb outstanding path cwd fs)) (λ r. r.2)
  unfolding nameiparent
  nameiparent-Noted path cwd fs = namex-Noted (length path + 1) true path cwd fs
