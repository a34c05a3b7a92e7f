-- ===== src/Sysfile/Covered.antt =====
-- Every change of the calls on paths to the disk goes through the log.
use buffer_overflow_attack.Base.{
  List, [], false, get_elem?, if◌then◌else◌, none, some, true, ℕ, ◌&&◌, ◌==◌, ◌∷◌,
}
use buffer_overflow_attack.Kalloc.{ok, panic, ◌>>=◌}
use buffer_overflow_attack.Fs.{Super}
use buffer_overflow_attack.Fs.Covered.{
  Covered, Covered-refl, Ends-if, Ends-option, then_Covered, Ends-after,
}
use buffer_overflow_attack.Inode.{ialloc, iupdate}
use buffer_overflow_attack.Inode.Covered.{ialloc-Covered, iupdate-Covered}
use buffer_overflow_attack.Icache.{Fs, iget, ilock, iput}
use buffer_overflow_attack.Icache.Covered.{iput-Covered, ilock-Covered}
use buffer_overflow_attack.Dir.{dirlink, kind_of, lookup_in, namei, nameiparent, t_dir}
use buffer_overflow_attack.Dir.Covered.{lookup_in-Covered, dirlink-Covered}
use buffer_overflow_attack.Sysfile.{
  settle, change, create, enter, existing, fewer_links, fresh_inode, inum_at, link, link_at,
  make_dots, more_links, store, t_file, unlink_again,
}
use buffer_overflow_attack.Sysfile.Walk.{Noted, namei-Noted, nameiparent-Noted, then_Logged}

module _ (sb : Super) (outstanding : ℕ) where
  pub store-Noted : (i : ℕ) (fs : Fs) → Noted fs (store sb outstanding i fs) (λ r. r)
  unfolding store
  store-Noted i fs =
      Ends-option (get_elem? fs.icache i) panic _ (λ r. Covered fs.disk r.disk) tt
        λ e.
          then_Covered (iupdate sb outstanding e.ip fs.disk) _ fs.disk (λ s. s) (λ r. r.disk)
            (iupdate-Covered sb outstanding e.ip fs.disk) λ s. Covered-refl s

  -- An `iput` at the end of a call.
  pub finished-Noted :
      {A : Type 0} (i : ℕ) (a : A) (fs : Fs)
      → Noted {A = A × Fs} fs (iput sb outstanding i fs >>= λ fs'. ok (a, fs')) (λ r. r.1)
  finished-Noted i a fs =
      then_Logged (iput sb outstanding i fs) (λ fs'. ok (a, fs')) fs (λ r. r) (λ r. r.1)
        (iput-Covered sb outstanding i fs) λ fs'. Covered-refl fs'.disk

  make_dots-Noted : (dp i : ℕ) (fs : Fs) → Noted fs (make_dots sb outstanding dp i fs) (λ r. r)
  unfolding make_dots
  make_dots-Noted dp i fs =
      then_Logged (store sb outstanding dp (change dp more_links fs)) _ fs (λ r. r) (λ r. r)
        (store-Noted dp (change dp more_links fs))
        λ fs1.
          then_Logged (dirlink sb outstanding (b'.' ∷ []) (inum_at i fs1) i fs1) _ fs1 (λ r. r.1)
            (λ r. r) (dirlink-Covered sb outstanding (b'.' ∷ []) (inum_at i fs1) i fs1)
            λ (dot, fs2).
              Ends-if dot _ panic (λ r. Covered fs2.disk r.disk)
                (then_Logged (dirlink sb outstanding (b'.' ∷ b'.' ∷ []) (inum_at dp fs2) i fs2) _
                  fs2 (λ r. r.1) (λ r. r)
                  (dirlink-Covered sb outstanding (b'.' ∷ b'.' ∷ []) (inum_at dp fs2) i fs2)
                  λ (dots, fs3).
                    Ends-if dots (ok fs3) panic (λ r. Covered fs3.disk r.disk)
                      (Covered-refl fs3.disk) tt)
                tt

  existing-Noted :
      (kind dp i : ℕ) (fs : Fs) → Noted fs (existing sb outstanding kind dp i fs) (λ r. r.1)
  unfolding existing
  existing-Noted kind dp i fs =
      then_Logged (iput sb outstanding dp fs) _ fs (λ r. r) (λ r. r.1)
        (iput-Covered sb outstanding dp fs)
        λ fs1.
          then_Logged (ilock sb outstanding i fs1) _ fs1 (λ r. r) (λ r. r.1)
            (ilock-Covered sb outstanding i fs1)
            λ fs2.
              Ends-if (kind == t_file && kind_of sb outstanding i fs2 == t_file) _ _
                (λ r. Covered fs2.disk r.1.disk) (Covered-refl fs2.disk) (finished-Noted i none fs2)

  fresh_inode-Noted :
      (kind major minor : ℕ) (fs : Fs)
      → Noted fs (fresh_inode sb outstanding kind major minor fs) (λ r. r.1)
  unfolding fresh_inode
  fresh_inode-Noted kind major minor fs =
      then_Covered (ialloc sb outstanding kind fs.disk) _ fs.disk (λ r. r.1) (λ r. r.1.disk)
        (ialloc-Covered sb outstanding kind fs.disk)
        λ (inum, s1).
          Ends-after (iget inum fs.icache) _ (λ r. Covered s1 r.1.disk)
            λ (i, icache).
              let fs0 : Fs = record { disk = s1; icache = icache } in
              then_Logged (ilock sb outstanding i fs0) _ fs0 (λ r. r) (λ r. r.1)
                (ilock-Covered sb outstanding i fs0)
                λ fs1.
                  then_Logged
                    (store sb outstanding i
                      (change i (λ ip. record ip { major = major; minor = minor; nlink = 1 }) fs1))
                    _ fs1 (λ r. r) (λ r. r.1)
                    (store-Noted i
                      (change i (λ ip. record ip { major = major; minor = minor; nlink = 1 }) fs1))
                    λ fs2. Covered-refl fs2.disk

  enter-Noted :
      (kind : ℕ) (name : List ℕ) (dp i : ℕ) (fs : Fs)
      → Noted fs (enter sb outstanding kind name dp i fs) (λ r. r.1)
  unfolding enter
  enter-Noted kind name dp i fs =
      then_Logged (if kind == t_dir then make_dots sb outstanding dp i fs else ok fs) _ fs (λ r. r)
        (λ r. r.1)
        (Ends-if (kind == t_dir) _ _ (λ r. Covered fs.disk r.disk) (make_dots-Noted dp i fs)
          (Covered-refl fs.disk))
        λ fs1.
          then_Logged (dirlink sb outstanding name (inum_at i fs1) dp fs1) _ fs1 (λ r. r.1)
            (λ r. r.1) (dirlink-Covered sb outstanding name (inum_at i fs1) dp fs1)
            λ (linked, fs2).
              Ends-if linked _ panic (λ r. Covered fs2.disk r.1.disk)
                (finished-Noted dp (some i) fs2) tt

  pub create-Noted :
      (path : List ℕ) (kind major minor cwd : ℕ) (fs : Fs)
      → Noted fs (create sb outstanding path kind major minor cwd fs) (λ r. r.1)
  unfolding create
  create-Noted path kind major minor cwd fs =
      then_Logged (settle (nameiparent sb outstanding path cwd fs)) _ fs (λ r. r.2) (λ r. r.1)
        (nameiparent-Noted sb outstanding path cwd fs)
        λ (parent, name, fs1).
          Ends-option parent _ _ (λ r. Covered fs1.disk r.1.disk) (Covered-refl fs1.disk)
            λ dp.
              then_Logged (ilock sb outstanding dp fs1) _ fs1 (λ r. r) (λ r. r.1)
                (ilock-Covered sb outstanding dp fs1)
                λ fs2.
                  then_Logged (lookup_in sb outstanding name dp fs2) _ fs2 (λ r. r.1) (λ r. r.1)
                    (lookup_in-Covered sb outstanding name dp fs2)
                    λ (found, fs3).
                      Ends-option found _ _ (λ r. Covered fs3.disk r.1.disk)
                        (then_Logged (fresh_inode sb outstanding kind major minor fs3) _ fs3
                          (λ r. r.1) (λ r. r.1) (fresh_inode-Noted kind major minor fs3)
                          λ (i, fs4). enter-Noted kind name dp i fs4)
                        λ i. existing-Noted kind dp i fs3

  unlink_again-Noted : (i : ℕ) (fs : Fs) → Noted fs (unlink_again sb outstanding i fs) (λ r. r.1)
  unfolding unlink_again
  unlink_again-Noted i fs =
      then_Logged (ilock sb outstanding i fs) _ fs (λ r. r) (λ r. r.1)
        (ilock-Covered sb outstanding i fs)
        λ fs1.
          then_Logged (store sb outstanding i (change i fewer_links fs1)) _ fs1 (λ r. r) (λ r. r.1)
            (store-Noted i (change i fewer_links fs1)) λ fs2. finished-Noted i false fs2

  link_at-Noted :
      (new : List ℕ) (cwd i : ℕ) (fs : Fs)
      → Noted fs (link_at sb outstanding new cwd i fs) (λ r. r.1)
  unfolding link_at
  link_at-Noted new cwd i fs =
      then_Logged (settle (nameiparent sb outstanding new cwd fs)) _ fs (λ r. r.2) (λ r. r.1)
        (nameiparent-Noted sb outstanding new cwd fs)
        λ (parent, name, fs1).
          Ends-option parent _ _ (λ r. Covered fs1.disk r.1.disk) (unlink_again-Noted i fs1)
            λ dp.
              then_Logged (ilock sb outstanding dp fs1) _ fs1 (λ r. r) (λ r. r.1)
                (ilock-Covered sb outstanding dp fs1)
                λ fs2.
                  then_Logged (dirlink sb outstanding name (inum_at i fs2) dp fs2) _ fs2 (λ r. r.1)
                    (λ r. r.1) (dirlink-Covered sb outstanding name (inum_at i fs2) dp fs2)
                    λ (linked, fs3).
                      then_Logged (iput sb outstanding dp fs3) _ fs3 (λ r. r) (λ r. r.1)
                        (iput-Covered sb outstanding dp fs3)
                        λ fs4.
                          Ends-if linked _ _ (λ r. Covered fs4.disk r.1.disk)
                            (finished-Noted i true fs4) (unlink_again-Noted i fs4)

  pub link-Noted :
      (old new : List ℕ) (cwd : ℕ) (fs : Fs)
      → Noted fs (link sb outstanding old new cwd fs) (λ r. r.1)
  unfolding link
  link-Noted old new cwd fs =
      then_Logged (settle (namei sb outstanding old cwd fs)) _ fs (λ r. r.2) (λ r. r.1)
        (namei-Noted sb outstanding old cwd fs)
        λ (found, name, fs1).
          Ends-option found _ _ (λ r. Covered fs1.disk r.1.disk) (Covered-refl fs1.disk)
            λ i.
              then_Logged (ilock sb outstanding i fs1) _ fs1 (λ r. r) (λ r. r.1)
                (ilock-Covered sb outstanding i fs1)
                λ fs2.
                  Ends-if (kind_of sb outstanding i fs2 == t_dir) _ _
                    (λ r. Covered fs2.disk r.1.disk) (finished-Noted i false fs2)
                    (then_Logged (store sb outstanding i (change i more_links fs2)) _ fs2 (λ r. r)
                      (λ r. r.1) (store-Noted i (change i more_links fs2))
                      λ fs3. link_at-Noted new cwd i fs3)
