-- ===== src/Inode/Atomic.antt =====
-- The writes of xv6/fs.c and the commit of xv6/log.c together: a power failure leaves none or all of
-- a write.
use buffer_overflow_attack.Base.{Bool, List, ap, if◌then◌else◌, leb, length, sym, ℕ, ◌*◌, ◌<◌, ◌≡◌}
use buffer_overflow_attack.Kalloc.{Outcome, ok, panic}
use buffer_overflow_attack.Str.{Memory, word_at}
use buffer_overflow_attack.Log.{Block, Store, commit, reboot}
use buffer_overflow_attack.Log.Moves.{Home, Homes}
use buffer_overflow_attack.Log.Crash.{IsOpen, crash_atomic, reboots}
use buffer_overflow_attack.Fs.{Super, Disk}
use buffer_overflow_attack.Fs.Covered.{Covered, Ends}
use buffer_overflow_attack.Inode.{Inode}
use buffer_overflow_attack.Inode.Content.{writei}
use buffer_overflow_attack.Inode.Covered.{writei-Covered}

-- A block as the log sees it, by its words.
abbrev pub words : Memory → Block
words blk w = word_at blk (w * 4)

-- The log's view at the commit of what has changed since `s`.
abbrev pub committing : Disk → Disk → ℕ → Store
committing s s' power = record {
  disk = λ b. words (s.blocks b);
  cached = λ b. words (s'.blocks b);
  power = power;
}

pub Ends-ok : {A : Type 0} (m : Outcome A) (P : A → Type 0) (a : A) → m ≡ ok a → Ends m P → P a
Ends-ok (ok b) P a e h = let same : b ≡ a = cc in rw (sym same) h
Ends-ok panic P a e h = cc

pub committing-IsOpen :
    (start size power : ℕ) (s s' : Disk)
    → Covered s s'
    → Homes start size s'.noted
    → length s'.noted < size
    → word_at (s.blocks start) 0 ≡ 0
    → IsOpen start size s'.noted (committing s s' power)
committing-IsOpen start size power s s' c homes fits clear = record {
  homes = homes;
  fits = fits;
  clear = clear;
  clean = λ x hx is_out. ap words (sym (c.same x is_out));
}

-- A `writei` that does not panic, into a file system whose log is empty, the commit of the blocks that
-- it noted, a power failure behind any number `power` of disk writes, any number of boots that fail too,
-- and a boot that does not: each block outside of the log is then as before the `writei`, if the failure
-- came before the header of the log was written, and as the `writei` left it otherwise. The blocks noted
-- must lie outside of the log, be fewer than its blocks, and fewer than the disk writes of the last boot.
pub writei_atomic :
    (sb : Super) (outstanding off : ℕ) (src : List ℕ) (ip ip' : Inode) (s s' : Disk) (result : Bool)
    (start size power : ℕ) (qs : List ℕ) (q x : ℕ)
    → writei sb outstanding off src ip s ≡ ok (result, ip', s')
    → Homes start size s'.noted
    → length s'.noted < size
    → word_at (s.blocks start) 0 ≡ 0
    → length s'.noted < q
    → Home start size x
    → reboot start q (reboots start qs (commit start s'.noted (committing s s' power)).disk) x
      ≡ (if leb power (length s'.noted) then words (s.blocks x) else words (s'.blocks x))
writei_atomic sb outstanding off src ip ip' s s' result start size power qs q x run homes fits clear
      enough hx =
    let c =
      Ends-ok (writei sb outstanding off src ip s) (λ r. Covered s r.2) (result, ip', s') run
        (writei-Covered sb outstanding off src ip s) in
    crash_atomic start size s'.noted (committing s s' power) qs q x
      (committing-IsOpen start size power s s' c homes fits clear) enough hx
