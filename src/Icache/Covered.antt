-- ===== src/Icache/Covered.antt =====
-- Every change of the calls on the inode cache to the disk goes through the log.
use buffer_overflow_attack.Base.{get_elem?, refl, ℕ, ◌&&◌, ◌==◌, ◌≡◌}
use buffer_overflow_attack.Kalloc.{Outcome, ok, panic, ◌>>=◌}
use buffer_overflow_attack.Fs.{Super}
use buffer_overflow_attack.Inode.{Inode, load_inode, itrunc, iupdate}
use buffer_overflow_attack.Fs.Covered.{
  Covered, Covered-refl, Ends, Ends-bind, Ends-if, Ends-option, then_Covered,
}
use buffer_overflow_attack.Inode.Covered.{itrunc-Covered, iupdate-Covered}
use buffer_overflow_attack.Icache.{Entry, Fs, free_inode, ilock, iput, put_inode}

module _ (sb : Super) (outstanding : ℕ) where
  load-Covered :
      (inum : ℕ) (fs : Fs) (f : Inode → Fs)
      → ((ip : Inode) → (f ip).disk ≡ fs.disk)
      → Ends
          (load_inode sb outstanding inum fs.disk >>= λ ip. ok (f ip))
          (λ r. Covered fs.disk r.disk)
  load-Covered inum fs f same =
      Ends-bind (load_inode sb outstanding inum fs.disk) (λ ip. ok (f ip)) (λ ip. Unit {0})
        (λ r. Covered fs.disk r.disk) (any (load_inode sb outstanding inum fs.disk))
        λ ip u. rw (same ip) (Covered-refl fs.disk)
    where
      any : {A : Type 0} (m : Outcome A) → Ends m (λ a. Unit {0})
      any (ok a) = tt
      any panic = tt

  pub ilock-Covered :
      (i : ℕ) (fs : Fs) → Ends (ilock sb outstanding i fs) (λ r. Covered fs.disk r.disk)
  unfolding ilock
  ilock-Covered i fs =
      Ends-option (get_elem? fs.icache i) panic _ (λ r. Covered fs.disk r.disk) tt
        λ e.
          Ends-if (e.ref == 0) panic _ (λ r. Covered fs.disk r.disk) tt
            (Ends-if e.valid (ok fs) _ (λ r. Covered fs.disk r.disk) (Covered-refl fs.disk)
              (load-Covered e.inum fs _ (λ ip. refl)))

  free_inode-Covered :
      (i : ℕ) (e : Entry) (fs : Fs)
      → Ends (free_inode sb outstanding i e fs) (λ r. Covered fs.disk r.disk)
  unfolding free_inode
  free_inode-Covered i e fs =
      then_Covered (itrunc sb outstanding e.ip fs.disk) _ fs.disk (λ r. r.1) (λ r. r.disk)
        (itrunc-Covered sb outstanding e.ip fs.disk)
        λ (ip1, s1).
          then_Covered (iupdate sb outstanding (record ip1 { kind = 0 }) s1) _ s1 (λ t. t)
            (λ r. r.disk) (iupdate-Covered sb outstanding (record ip1 { kind = 0 }) s1)
            λ t. Covered-refl t

  put_inode-Covered :
      (i : ℕ) (e : Entry) (fs : Fs)
      → Ends (put_inode sb outstanding i e fs) (λ r. Covered fs.disk r.disk)
  unfolding put_inode
  put_inode-Covered i e fs =
      Ends-if (e.valid && e.ip.nlink == 0 && e.ref == 1) _ _ (λ r. Covered fs.disk r.disk)
        (free_inode-Covered i e fs) (Covered-refl fs.disk)

  pub iput-Covered :
      (i : ℕ) (fs : Fs) → Ends (iput sb outstanding i fs) (λ r. Covered fs.disk r.disk)
  unfolding iput
  iput-Covered i fs =
      Ends-option (get_elem? fs.icache i) panic _ (λ r. Covered fs.disk r.disk) tt
        λ e.
          then_Covered (put_inode sb outstanding i e fs) _ fs.disk (λ r. r.disk) (λ r. r.disk)
            (put_inode-Covered i e fs) λ r. Covered-refl r.disk
