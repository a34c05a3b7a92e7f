-- ===== src/Dir/Walk.antt =====
-- The loop of `namex` of xv6/fs.c ends.
use buffer_overflow_attack.Base.{
  Bool, List, Option, [], arith, false, get_or, if◌then◌else◌, length, none, not, refl, some, suc,
  true, zero, ℕ, ◌&&◌, ◌<◌, ◌==◌, ◌≡◌,
}
use buffer_overflow_attack.Kalloc.{Outcome, ok, panic}
use buffer_overflow_attack.Fs.{Super}
use buffer_overflow_attack.Icache.{Fs, iget, idup, ilock, iput}
use buffer_overflow_attack.Path.{skipelem}
use buffer_overflow_attack.Path.Elements.{skipelem-shorter}
use buffer_overflow_attack.Dir.{t_dir, root_ino, kind_of, lookup_in, namex_from, namex}

-- The loop has an end.
abbrev pub Ended : {A : Type 0} → Option A → Type 0
Ended {A} o = (a : A) × (o ≡ some a)

Ended-some : {A : Type 0} (a : A) → Ended (some a)
Ended-some a = (a, refl)

Ended-if : {A : Type 0} (b : Bool) (x y : Option A) → Ended x → Ended y → Ended (if b then x else y)
Ended-if true x y p q = p
Ended-if false x y p q = q

pub Ended-option :
    {A B : Type 0} (o : Option B) (x : Option A) (f : B → Option A)
    → Ended x
    → ((b : B) → o ≡ some b → Ended (f b))
    → Ended (elim o [ none ↦ x | some b ↦ f b ])
Ended-option none x f p q = p
Ended-option (some b) x f p q = q b refl

pub Ended-outcome :
    {A B : Type 0} (o : Outcome B) (f : B → Option (Outcome A))
    → ((b : B) → Ended (f b))
    → Ended (elim o [ ok b ↦ f b | panic ↦ some panic ])
Ended-outcome (ok b) f q = q b
Ended-outcome panic f q = (panic, refl)

module _ (sb : Super) (outstanding : ℕ) where
  namex_from-Ended :
      (fuel : ℕ) (parent : Bool) (path : List ℕ) (i : ℕ) (name : List ℕ) (fs : Fs)
      → length path < fuel
      → Ended (namex_from sb outstanding fuel parent path i name fs)
  unfolding namex_from
  namex_from-Ended zero parent path i name fs enough = absurd (omega arith)
  namex_from-Ended (suc fuel) parent path i name fs enough =
      Ended-option (skipelem path) _ _ (_, refl)
        λ (name', rest) cut. Ended-outcome (ilock sb outstanding i fs) _ λ fs1.
          Ended-if (not (kind_of sb outstanding i fs1 == t_dir)) _ _ (_, refl)
            (Ended-if (parent && length rest == 0) _ _ (_, refl)
              (Ended-outcome (lookup_in sb outstanding name' i fs1) _ λ (found, fs2).
                Ended-outcome (iput sb outstanding i fs2) _ λ fs3.
                  Ended-option found _ _ (_, refl)
                    λ j hit.
                      namex_from-Ended fuel parent rest j name' fs3
                        (let shorter = skipelem-shorter path name' rest cut in omega arith)))

  -- `namex` ends: one round more than the path has bytes is enough, whatever the directories hold.
  pub namex-Ended :
      (fuel : ℕ) (parent : Bool) (path : List ℕ) (cwd : ℕ) (fs : Fs)
      → length path < fuel
      → Ended (namex sb outstanding fuel parent path cwd fs)
  unfolding namex
  namex-Ended fuel parent path cwd fs enough =
      Ended-if (get_or path 0 0 == b'/') _ _
        (Ended-outcome (iget root_ino fs.icache) _ λ (i, icache).
          namex_from-Ended fuel parent path i [] (record fs { icache = icache }) enough)
        (namex_from-Ended fuel parent path cwd [] (record fs { icache = idup cwd fs.icache })
          enough)
