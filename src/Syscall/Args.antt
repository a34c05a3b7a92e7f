-- ===== src/Syscall/Args.antt =====
-- What the argument functions of xv6/syscall.c accept, and where they read.
use buffer_overflow_attack.Base.{
  ==_iff, Bool-cases, ap, arith, false, if◌then◌else◌, inl, inr, int_of_word, leb, ltb, ltb_ℤ,
  neg_part, negsuc, none, pos, pos_part, some, suc, word_of_int, zero, ℕ, ℤ, ◌*◌, ◌+◌, ◌-◌, ◌<ℤ◌,
  ◌<◌, ◌==◌, ◌^◌, ◌||◌, ◌↔◌, ◌∙◌, ◌≡◌, ◌≢◌, ◌≤ℤ◌, ◌≤◌, ◌⊎◌,
}
use buffer_overflow_attack.Mmu.{kern_base}
use buffer_overflow_attack.Str.{Memory, word_at, write_word, IsText}
use buffer_overflow_attack.Str.Word.{word_at-write_word_ne}
use buffer_overflow_attack.Str.Text.{IsText-cons, IsText-tail, IsText-head, IsText-nil}
use buffer_overflow_attack.Syscall.{User, add32, fetchint, scan_nul, fetchstr, argint, argptr}

-- `fetchint` of a process below the kernel reads a word exactly when all four of its bytes lie in
-- the process; the wrapping sum of the test cannot be passed by an address at the top.
pub fetchint-inside :
    (u : User) (addr : ℕ)
    → u.sz ≤ kern_base
    → addr < 2 ^ 32
    → (addr + 4 ≤ u.sz → fetchint u addr ≡ some (int_of_word (word_at u.mem addr)))
      × (u.sz < addr + 4 → fetchint u addr ≡ none)
unfolding fetchint
fetchint-inside u addr low word = (λ h. ground arith, λ h. ground arith)

word_of_int-lt : (i : ℤ) → word_of_int i < 2 ^ 32
unfolding word_of_int
word_of_int-lt (pos n) = omega arith
word_of_int-lt (negsuc n) = omega arith

word_of_int-nonneg :
    (size : ℤ) → pos_part size < 2 ^ 31 → pos 0 ≤ℤ size → word_of_int size ≡ pos_part size
unfolding word_of_int
word_of_int-nonneg (pos n) h p = omega arith
word_of_int-nonneg (negsuc n) h p = absurd (omega arith)

outside :
    (sz a : ℕ) (size : ℤ)
    → sz ≤ kern_base
    → pos_part size < 2 ^ 31
    → (size <ℤ pos 0) ⊎ (sz ≤ a) ⊎ (sz < a + pos_part size)
    → (if ltb_ℤ size (pos 0) || leb sz a || ltb sz (add32 a (word_of_int size))
        then none
        else some a)
      ≡ none
unfolding word_of_int
outside sz a size low hi bad = ground arith

-- `argptr` gives a pointer exactly when the whole block, of no negative size, lies in the process
-- and starts in it.
argptr-inside :
    (u : User) (n : ℕ) (i size : ℤ)
    → u.sz ≤ kern_base
    → neg_part size ≤ 2 ^ 31
    → pos_part size < 2 ^ 31
    → argint u n ≡ some i
    → let a = word_of_int i in
      (pos 0 ≤ℤ size → a < u.sz → a + pos_part size ≤ u.sz → argptr u n size ≡ some a)
      × ((size <ℤ pos 0) ⊎ (u.sz ≤ a) ⊎ (u.sz < a + pos_part size) → argptr u n size ≡ none)
unfolding argptr
argptr-inside u n i size low lo hi e =
    let word : word_of_int i < 2 ^ 32 = word_of_int-lt i in
    let nonneg : pos 0 ≤ℤ size → word_of_int size ≡ pos_part size = word_of_int-nonneg size hi in
    (
      λ p q r. rw (argptr, e) (ground (arith, nonneg p)),
      λ bad. rw (argptr, e) (outside u.sz (word_of_int i) size low hi bad),
    )

scan_nul-IsText :
    (n : ℕ) {m : Memory} {s : ℕ} (len done : ℕ)
    → IsText m s len
    → len < n
    → scan_nul m s n done ≡ some (done + len)
unfolding scan_nul
scan_nul-IsText zero len done h lt = absurd (omega arith)
scan_nul-IsText (suc n) zero done h lt = rw (IsText-nil h) (ap some (omega arith))
scan_nul-IsText (suc n) {m} {s} (suc len) done h lt =
    let more : (m s == 0) ≡ false = ground (arith, IsText-head len h) in
    rw more (
      scan_nul-IsText n {m = m} {s = s + 1} len (done + 1) (IsText-tail len h) (omega arith)
      ∙ ap some (omega arith))

scan_nul-IsText_inv :
    (n : ℕ) (m : Memory) (s done r : ℕ)
    → scan_nul m s n done ≡ some r
    → (len : ℕ) × (r ≡ done + len) × (len < n) × IsText m s len
unfolding scan_nul
scan_nul-IsText_inv zero m s done r e = cc
scan_nul-IsText_inv (suc n) m s done r e = elim (Bool-cases (m s == 0)) [
  | inl nul ↦
      let z : m s ≡ 0 = (==_iff (m s) 0).0 nul in
      (
        0,
        ground arith,
        omega arith,
        record { chars = λ i lt. absurd (omega arith); ends = ap m (omega arith) ∙ z },
      )
  | inr more ↦
      let e' : scan_nul m (s + 1) n (done + 1) ≡ some r = ground arith in
      let (len, eq, lt, text) = scan_nul-IsText_inv n m (s + 1) (done + 1) r e' in
      let ne : m s ≢ 0 = ground arith in
      (suc len, omega arith, omega arith, IsText-cons len ne text)
]

-- `fetchstr` of a process gives a length exactly when a text of that length, with its NUL, lies in
-- the process from the address on.
fetchstr-IsText :
    (u : User) (addr len : ℕ)
    → (fetchstr u addr ≡ some len) ↔ (IsText u.mem addr len × (addr + len < u.sz))
unfolding fetchstr
fetchstr-IsText u addr len = (fwd, bwd)
  where
    fwd : fetchstr u addr ≡ some len → IsText u.mem addr len × (addr + len < u.sz)
    fwd e =
        let low : leb u.sz addr ≡ false = ground arith in
        let e' : scan_nul u.mem addr (u.sz - addr) 0 ≡ some len = rw low at e in
        let (len', eq, lt, text) = scan_nul-IsText_inv (u.sz - addr) u.mem addr 0 len e' in
        let same : len ≡ len' = omega arith in (rw same text, omega arith)

    bwd : IsText u.mem addr len × (addr + len < u.sz) → fetchstr u addr ≡ some len
    bwd h =
        let low : leb u.sz addr ≡ false = ground arith in
        rw (fetchstr, low)
          (scan_nul-IsText (u.sz - addr) len 0 h.0 (omega arith) ∙ ap some (omega arith))

-- A word that the program stores at its argument slot does not reach the kernel when the segment
-- base of the process is not 0: `argint` reads at the stack pointer without the base, so its result
-- is that from before the store. (For a base of at least 4 bytes and addresses that do not wrap.)
pub argint_misses_base :
    (u : User) (base n v : ℕ)
    → 4 ≤ base
    → u.esp + 4 + 4 * n + base + 4 ≤ 2 ^ 32
    → argint (record u { mem = write_word u.mem (base + (u.esp + 4 + 4 * n)) v }) n ≡ argint u n
unfolding argint fetchint
argint_misses_base u base n v far fits =
    let a = add32 (add32 u.esp 4) (4 * n) in
    let e : a ≡ u.esp + 4 + 4 * n = omega arith in
    let same = word_at-write_word_ne u.mem (base + (u.esp + 4 + 4 * n)) v a (omega arith) in
    rw (argint, fetchint, same)
