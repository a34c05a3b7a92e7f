-- ===== src/Kalloc/Chain.antt =====
-- The free list of xv6/kalloc.c is a stack of distinct pages, which `kfree` pushes and `kalloc` pops.
use buffer_overflow_attack.Base.{
  List, [], arith, false, refl, ℕ, ◌%◌, ◌+◌, ◌<◌, ◌==◌, ◌^◌, ◌∷◌, ◌≡◌, ◌≢◌, ◌≤◌, ◌⊎◌,
}
use buffer_overflow_attack.Mmu.{page_size, phys_top, v2p}
use buffer_overflow_attack.Str.{Memory, memset, write_word, word_at}
use buffer_overflow_attack.Str.Fill.{memset-fill}
use buffer_overflow_attack.Str.Word.{word_at-write_word, write_word-outside, word_at-congr}
use buffer_overflow_attack.Kalloc.{ok, panic, Kmem, kfree, kalloc}

abbrev pub NotIn : ℕ → List ℕ → Type 0
NotIn p [] = Unit {0}
NotIn p (x ∷ xs) = (p ≢ x) × NotIn p xs

-- A page that `kfree` takes.
pub record IsPage (end v : ℕ) : Type 0 where
  pub aligned : v % page_size ≡ 0
  pub above : end ≤ v
  pub within : v2p v < phys_top
  pub word : v < 2 ^ 32
  pub real : v ≢ 0

-- From `p` the first words of the pages lead through `pages` to 0.
abbrev pub Chain : ℕ → Memory → ℕ → List ℕ → Type 0
Chain end m p [] = p ≡ 0
Chain end m p (x ∷ xs) = (p ≡ x) × IsPage end x × NotIn x xs × Chain end m (word_at m x) xs

-- The free pages of the allocator, in the order in which they are handed out.
pub record Holds (end : ℕ) (k : Kmem) (pages : List ℕ) : Type 0 where
  pub chain : Chain end k.mem k.freelist pages

Chain-lt : (end : ℕ) (m : Memory) (p : ℕ) (pages : List ℕ) → Chain end m p pages → p < 2 ^ 32
Chain-lt end m p [] c = omega arith
Chain-lt end m p (x ∷ xs) c = let page = c.1 in omega (arith, c.0, page.word)

-- A change inside of the page `v` leaves the chain of other pages.
pub Chain-frame :
    (end : ℕ) (m m' : Memory) (p v : ℕ) (pages : List ℕ)
    → IsPage end v
    → NotIn v pages
    → ((x : ℕ) → (x < v) ⊎ (v + page_size ≤ x) → m' x ≡ m x)
    → Chain end m p pages
    → Chain end m' p pages
Chain-frame end m m' p v [] page out same c = c
Chain-frame end m m' p v (x ∷ xs) page out same c =
    let other = c.1 in
    let e : word_at m' x ≡ word_at m x =
      word_at-congr m m' x λ i lt. same (x + i) (omega (arith, page.aligned, other.aligned)) in
    (c.0, c.1, c.2, rw e (Chain-frame end m m' (word_at m x) v xs page out.1 same c.3))

module _ (end : ℕ) where
  -- `kfree` of a page that is not free yet pushes it on the list, and writes nothing outside of it.
  pub kfree-push :
      {k : Kmem} {pages : List ℕ} (v : ℕ)
      → Holds end k pages
      → IsPage end v
      → NotIn v pages
      → (k' : Kmem) × (kfree end k v ≡ ok k')
        × Holds end k' (v ∷ pages)
        × ((x : ℕ) → (x < v) ⊎ (v + page_size ≤ x) → k'.mem x ≡ k.mem x)
  unfolding kfree
  kfree-push {k} {pages} v holds page new =
      let junk = memset k.mem v 1 page_size in
      let m' = write_word junk v k.freelist in
      let same : (x : ℕ) → (x < v) ⊎ (v + page_size ≤ x) → m' x ≡ k.mem x = λ x out. ground (
        arith,
        write_word-outside junk v k.freelist x (omega arith),
        memset-fill k.mem v 1 page_size x,
      ) in
      let next =
        word_at-write_word junk v k.freelist (Chain-lt end k.mem k.freelist pages holds.chain) in
      (
        record { mem = m'; freelist = v },
        ground (arith, page.aligned, page.above, page.within),
        record {
          chain = (
            refl,
            page,
            new,
            rw next (Chain-frame end k.mem m' k.freelist v pages page new same holds.chain),
          );
        },
        same,
      )

  -- `kalloc` pops a page that is distinct from those that stay, and changes no byte.
  pub kalloc-pop :
      {k : Kmem} {v : ℕ} {pages : List ℕ}
      → Holds end k (v ∷ pages)
      → (k' : Kmem) × (kalloc k ≡ (v, k'))
        × Holds end k' pages
        × IsPage end v
        × NotIn v pages
        × (k'.mem ≡ k.mem)
  unfolding kalloc
  kalloc-pop {k} {v} {pages} holds =
      let c = holds.chain in
      let page = c.1 in
      let e : k.freelist ≡ v = c.0 in
      let got : (k.freelist == 0) ≡ false = ground (arith, page.real) in
      (
        record k { freelist = word_at k.mem v },
        rw got (ground arith),
        record { chain = c.3 },
        page,
        c.2,
        refl,
      )

  -- With no free page `kalloc` returns 0 and changes nothing.
  pub kalloc-nil : {k : Kmem} → Holds end k [] → kalloc k ≡ (0, k)
  unfolding kalloc
  kalloc-nil {k} holds = ground (arith, holds.chain)

  -- `kfree` panics on an address that is not aligned, lies in the kernel or above the memory.
  pub kfree-panic :
      (k : Kmem) (v : ℕ)
      → (v % page_size ≢ 0) ⊎ (v < end) ⊎ (phys_top ≤ v2p v)
      → kfree end k v ≡ panic
  unfolding kfree
  kfree-panic k v bad = ground arith
