-- ===== src/Icache.antt =====
-- xv6/fs.c: the cache of inodes. An inode of the cache is named by its slot. There is one device, and
-- `icache.lock` and the sleep locks stand for the atomicity of the calls.
pub mod Covered
pub mod Refs
use buffer_overflow_attack.Base.{
  Bool, List, Option, [], false, get_elem?, if◌then◌else◌, ltb, modify, none, some, true, ℕ, ◌&&◌,
  ◌+◌, ◌-◌, ◌==◌, ◌∷◌,
}
use buffer_overflow_attack.Kalloc.{Outcome, ok, panic, ◌>>=◌}
use buffer_overflow_attack.Fs.{Super, Disk}
use buffer_overflow_attack.Inode.{Inode, load_inode, iupdate, itrunc, ialloc}

pub record Entry : Type 0 where
  pub inum : ℕ
  pub ref : ℕ
  pub valid : Bool
  pub ip : Inode

pub record Fs : Type 0 where
  pub disk : Disk
  pub icache : List Entry

-- `if(empty == 0 && ip->ref == 0) empty = ip;`
abbrev pub remember : ℕ → ℕ → Option ℕ → Option ℕ
remember i ref none = if ref == 0 then some i else none
remember i ref (some j) = some j

-- The loop of `iget` from slot `i` on, with the empty slot that it remembers: the slot of the cached
-- inode, or the empty one.
unfoldable pub search : ℕ → List Entry → ℕ → Option ℕ → Option ℕ × Option ℕ
search inum [] i empty = (none, empty)
search inum (e ∷ es) i empty =
    if ltb 0 e.ref && e.inum == inum
    then (some i, empty)
    else search inum es (i + 1) (remember i e.ref empty)

-- The slot of an inode, with one reference more.
unfoldable pub iget : ℕ → List Entry → Outcome (ℕ × List Entry)
unfolding search
iget inum es =
    let (cached, empty) = search inum es 0 none in
    elim cached [
      | some i ↦ ok (i, modify es i (λ e. record e { ref = e.ref + 1 }))
      | none ↦ elim empty [
        | some i ↦ ok (i, modify es i (λ e. record e { inum = inum; ref = 1; valid = false }))
        | none ↦ panic
      ]
    ]

unfoldable pub idup : ℕ → List Entry → List Entry
idup i es = modify es i (λ e. record e { ref = e.ref + 1 })

-- The last step of `iput`.
unfoldable pub drop_ref : ℕ → List Entry → List Entry
drop_ref i es = modify es i (λ e. record e { ref = e.ref - 1 })

module _ (sb : Super) (outstanding : ℕ) where
  unfoldable pub ilock : ℕ → Fs → Outcome Fs
  unfolding load_inode
  ilock i fs = elim (get_elem? fs.icache i) [
    | none ↦ panic
    | some e ↦ if e.ref == 0 then panic else if e.valid then ok fs else (do
      ip ← load_inode sb outstanding e.inum fs.disk
      ok (record fs { icache = modify fs.icache i (λ e'. record e' { valid = true; ip = ip }) }))
  ]

  -- The inode of the last reference has no links: its blocks and the inode itself become free.
  unfoldable pub free_inode : ℕ → Entry → Fs → Outcome Fs
  unfolding itrunc iupdate
  free_inode i e fs = do
    (ip1, s1) ← itrunc sb outstanding e.ip fs.disk
    let ip2 = record ip1 { kind = 0 }
    s2 ← iupdate sb outstanding ip2 s1
    ok (record {
      disk = s2;
      icache = modify fs.icache i (λ e'. record e' { valid = false; ip = ip2 });
    })

  unfoldable pub put_inode : ℕ → Entry → Fs → Outcome Fs
  unfolding free_inode
  put_inode i e fs = if e.valid && e.ip.nlink == 0 && e.ref == 1 then free_inode i e fs else ok fs

  unfoldable pub iput : ℕ → Fs → Outcome Fs
  unfolding put_inode drop_ref
  iput i fs = elim (get_elem? fs.icache i) [
    | none ↦ panic
    | some e ↦ (do fs' ← put_inode i e fs; ok (record fs' { icache = drop_ref i fs'.icache }))
  ]
