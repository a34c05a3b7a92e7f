-- ===== src/Log/Crash.antt =====
-- The transactions of xv6/log.c are atomic, whenever the power fails.
use buffer_overflow_attack.Base.{
  ==_iff, Bool-cases, List, [], ap, arith, false, if◌then◌else◌, inl, inr, leb, length, ltb, refl,
  true, ℕ, ◌<◌, ◌==◌, ◌∙◌, ◌∷◌, ◌≡◌, ◌≤◌, ◌⊎◌,
}
use buffer_overflow_attack.Log.{Block, Store, write_head, write_log, install_trans, commit, reboot}
use buffer_overflow_attack.Log.Moves.{
  elem, Home, Homes, Logged, Logged-same, write_log-power, write_log-frame, write_log-Logged,
  write_log-disk,
}
use buffer_overflow_attack.Log.Install.{install_trans-power, install_trans-dead}
use buffer_overflow_attack.Log.Recover.{
  get_entries-put_head, write_head-other, write_head-disk, write_head-power, write_head-dead,
  Settled, Committed, finish-Settled, finish-Committed, reboot-Settled, reboot-Committed,
  Settled-reboot,
}

-- The state in which `commit` starts: the blocks of the header are home blocks and fit into the log,
-- the log on the disk is empty, and a home block that the header does not name is the same on the
-- disk and in its buffer.
pub record IsOpen (start size : ℕ) (bs : List ℕ) (s : Store) : Type 0 where
  pub homes : Homes start size bs
  pub fits : length bs < size
  pub clear : s.disk start 0 ≡ 0
  pub clean : (x : ℕ) → Home start size x → elem x bs ≡ false → s.disk x ≡ s.cached x

-- Boots one after the other, in each of which the power fails after so many writes.
unfoldable pub reboots : ℕ → List ℕ → (ℕ → Block) → ℕ → Block
reboots start [] d = d
reboots start (q ∷ qs) d = reboots start qs (reboot start q d)

elem-none : (x : ℕ) (bs : List ℕ) → length bs ≡ 0 → elem x bs ≡ false
elem-none x [] e = refl
elem-none x (b ∷ bs) e = absurd (omega arith)

module _ (start size : ℕ) (bs : List ℕ) (s : Store) (ready : IsOpen start size bs s) where
  -- The state behind the real commit.
  abbrev logged : Store
  logged = write_log start bs 0 s

  abbrev headed : Store
  headed = write_head start bs logged

  headed_frame :
      (x : ℕ) → Home start size x → (headed.disk x ≡ s.disk x) × (headed.cached x ≡ s.cached x)
  headed_frame x hx =
      let fits = ready.fits in
      let (d, c) = write_log-frame start size bs 0 s x (omega arith) in
      let (d1, c1) = write_head-other start bs logged x (omega arith) in (d1 ∙ d, c1 ∙ c)

  headed-Logged : Logged start headed.cached bs 0 s.cached
  headed-Logged =
      let fits = ready.fits in
      Logged-same start size logged.cached headed.cached bs 0 s.cached (omega arith)
        (λ x lo hi. (write_head-other start bs logged x (omega arith)).1)
        (write_log-Logged start size bs 0 s s.cached ready.homes (omega arith) (λ x hx. refl))

  headed-Committed : length bs < s.power → Committed start size bs s.cached headed.disk
  headed-Committed enough =
      let fits = ready.fits in
      let p = write_log-power start size bs 0 s in
      let written = write_head-disk start bs logged (omega arith) in
      record {
        head = rw written (get_entries-put_head bs (logged.cached start));
        logged =
            Logged-same start size logged.disk headed.disk bs 0 s.cached (omega arith)
              (λ x lo hi. (write_head-other start bs logged x (omega arith)).0)
              (write_log-disk start size bs 0 s s.cached ready.homes (omega arith) (λ x hx. refl)
                (omega arith));
        rest = λ x hx is_out. (headed_frame x hx).0 ∙ ready.clean x hx is_out;
      }

  commit-none : (length bs == 0) ≡ true → commit start bs s ≡ s
  unfolding commit
  commit-none none_left = rw (commit, none_left) refl

  commit-some :
      (length bs == 0) ≡ false
      → commit start bs s ≡ write_head start [] (install_trans start bs 0 headed)
  unfolding commit
  commit-some some_left = rw (commit, some_left) refl

  -- Without power for the header the disk shows nothing outside of the log's entries.
  unheaded :
      (x : ℕ)
      → s.power ≤ length bs
      → (x ≡ start) ⊎ Home start size x
      → (write_head start [] (install_trans start bs 0 headed)).disk x ≡ s.disk x
  unheaded x few at =
      let fits = ready.fits in
      let p = write_log-power start size bs 0 s in
      let p1 = write_head-power start bs logged in
      let p2 = install_trans-power start size bs 0 headed in
      let installed = install_trans start bs 0 headed in
      write_head-dead start [] installed x (omega arith)
      ∙ install_trans-dead start size bs 0 headed x (omega arith)
      ∙ write_head-dead start bs logged x (omega arith)
      ∙ (write_log-frame start size bs 0 s x (omega arith)).0

  -- Until the header is written nothing has happened.
  early : s.power ≤ length bs → Settled start size s.disk (commit start bs s).disk
  early few = elim (Bool-cases (length bs == 0)) [
    | inl none_left ↦
        rw (commit-none none_left) (record { clear = ready.clear; home = λ x hx. refl })
    | inr some_left ↦ rw (commit-some some_left) (record {
      clear = ap (λ blk. blk 0) (unheaded start few (inl refl)) ∙ ready.clear;
      home = λ x hx. unheaded x few (inr hx);
    })
  ]

  -- From then on the transaction is installed or in the log.
  late :
      length bs < s.power
      → Settled start size s.cached (commit start bs s).disk
        ⊎ Committed start size bs s.cached (commit start bs s).disk
  late enough = elim (Bool-cases (length bs == 0)) [
    | inl none_left ↦
        let empty = (==_iff (length bs) 0).0 none_left in
        rw (commit-none none_left) (
          inl (record {
            clear = ready.clear;
            home = λ x hx. ready.clean x hx (elem-none x bs empty);
          }))
    | inr some_left ↦
        let c = headed-Committed enough in
        rw (commit-some some_left) (elim (Bool-cases (ltb (length bs) headed.power)) [
          | inl lasts ↦ inl (
              finish-Settled start size bs s.cached ready.homes ready.fits headed c headed-Logged
                (ground arith))
          | inr fails ↦ inr (
              finish-Committed start size bs s.cached ready.homes ready.fits headed c headed-Logged
                (ground arith))
        ])
  ]

reboots-Settled :
    (start size : ℕ) (value : ℕ → Block) (qs : List ℕ) (d : ℕ → Block)
    → 0 < size
    → Settled start size value d
    → Settled start size value (reboots start qs d)
unfolding reboots
reboots-Settled start size value [] d some_size h = h
reboots-Settled start size value (q ∷ qs) d some_size h =
    reboots-Settled start size value qs (reboot start q d) some_size
      (Settled-reboot start size q value d some_size h)

reboots-Committed :
    (start size : ℕ) (bs : List ℕ) (new : ℕ → Block) (qs : List ℕ) (d : ℕ → Block)
    → Homes start size bs
    → length bs < size
    → Committed start size bs new d
    → Settled start size new (reboots start qs d) ⊎ Committed start size bs new (reboots start qs d)
unfolding reboots
reboots-Committed start size bs new [] d homes fits c = inr c
reboots-Committed start size bs new (q ∷ qs) d homes fits c =
    elim (Bool-cases (ltb (length bs) q)) [
      | inl enough ↦ inl (
          reboots-Settled start size new qs (reboot start q d) (omega arith)
            (reboot-Settled start size bs new homes fits q d c (ground arith)))
      | inr few ↦
          reboots-Committed start size bs new qs (reboot start q d) homes fits
            (reboot-Committed start size bs new homes fits q d c (ground arith))
    ]

-- Wherever the power fails in a `commit`, and in however many boots after it, a boot with power
-- enough to recover leaves every home block as the disk had it before the `commit`, if the power
-- failed before the header was written, and as its buffer had it from then on: none or all of the
-- transaction.
pub crash_atomic :
    (start size : ℕ) (bs : List ℕ) (s : Store) (qs : List ℕ) (q x : ℕ)
    → IsOpen start size bs s
    → length bs < q
    → Home start size x
    → reboot start q (reboots start qs (commit start bs s).disk) x
      ≡ (if leb s.power (length bs) then s.disk x else s.cached x)
crash_atomic start size bs s qs q x ready enough hx =
    let fits = ready.fits in
    let d = (commit start bs s).disk in
    elim (Bool-cases (leb s.power (length bs))) [
      | inl few ↦
          let settled =
            reboots-Settled start size s.disk qs d (omega arith)
              (early start size bs s ready (ground arith)) in
          rw few (
            (Settled-reboot start size q s.disk (reboots start qs d) (omega arith) settled).home x
              hx)
      | inr many ↦
          let all : Settled start size s.cached (reboots start qs d)
              ⊎ Committed start size bs s.cached (reboots start qs d) =
            elim (late start size bs s ready (ground arith)) [
              | inl settled ↦ inl (reboots-Settled start size s.cached qs d (omega arith) settled)
              | inr c ↦ reboots-Committed start size bs s.cached qs d ready.homes fits c
            ] in
          rw many (elim all [
            | inl settled ↦
                (Settled-reboot start size q s.cached (reboots start qs d) (omega arith)
                    settled).home
                  x hx
            | inr c ↦
                (reboot-Settled start size bs s.cached ready.homes fits q (reboots start qs d) c
                    enough).home
                  x hx
          ])
    ]
