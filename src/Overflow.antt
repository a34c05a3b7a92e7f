-- ===== src/Overflow.antt =====
-- xv6/buffer_overflow.c: a read of up to 100 bytes, and a `strcpy` of them into 4.
-- The addresses of the stack slots are the compiler's, and parameters here.
use buffer_overflow_attack.Base.{
  List, Option, [], ap, arith, get_or, inl, length, refl, some, suc, take, zero, ℕ, ◌+◌, ◌-◌, ◌<◌,
  ◌∙◌, ◌∷◌, ◌≡◌, ◌≤◌, ◌⊎◌,
}
use buffer_overflow_attack.Str.{word_at, Memory, write, strcpy, IsText}
use buffer_overflow_attack.Str.Copy.{strcpy-copied}

-- What `read` of a file leaves at `a`: the bytes, one after the other.
unfoldable pub store_bytes : Memory → ℕ → List ℕ → Memory
unfolding write
store_bytes m a [] = m
store_bytes m a (b ∷ bs) = store_bytes (write m a b) (a + 1) bs

abbrev pub buffer_size : ℕ
buffer_size = 4

abbrev pub payload_size : ℕ
payload_size = 100

unfoldable pub vulnerable_function : ℕ → Memory → ℕ → ℕ → Option Memory
vulnerable_function fuel m buffer input = strcpy fuel m buffer input

-- `main` up to `exit`: `content` is the file `payload`. `open` and `read` are the system calls.
unfoldable pub main : ℕ → Memory → ℕ → ℕ → List ℕ → Option Memory
unfolding store_bytes vulnerable_function
main fuel m payload buffer content =
    vulnerable_function fuel (store_bytes m payload (take payload_size content)) buffer payload

store_bytes-outside :
    (m : Memory) (a : ℕ) (bs : List ℕ) (x : ℕ)
    → (x < a) ⊎ (a + length bs ≤ x)
    → store_bytes m a bs x ≡ m x
unfolding store_bytes
store_bytes-outside m a [] x out = refl
store_bytes-outside m a (b ∷ bs) x out =
    ground (arith, store_bytes-outside (write m a b) (a + 1) bs x (omega arith))

store_bytes-inside :
    (m : Memory) (a : ℕ) (bs : List ℕ) (i : ℕ)
    → i < length bs
    → store_bytes m a bs (a + i) ≡ get_or bs i 0
unfolding store_bytes
store_bytes-inside m a [] i h = absurd (omega arith)
store_bytes-inside m a (b ∷ bs) zero h =
    store_bytes-outside (write m a b) (a + 1) bs (a + 0) (omega arith) ∙ ground arith
store_bytes-inside m a (b ∷ bs) (suc i) h =
    ap (store_bytes (write m a b) (a + 1) bs) (omega arith)
    ∙ store_bytes-inside (write m a b) (a + 1) bs i (omega arith)

length-take_payload : (bs : List ℕ) (n : ℕ) → length (take n bs) ≤ n
length-take_payload [] zero = omega arith
length-take_payload [] (suc n) = omega arith
length-take_payload (b ∷ bs) zero = omega arith
length-take_payload (b ∷ bs) (suc n) = omega (arith, length-take_payload bs n)

-- The stack of a run: the buffer of the callee lies below the caller's array, and the array holds
-- a text of `len` bytes once the file has been read into it.
pub record IsRun (m : Memory) (payload buffer len : ℕ) (content : List ℕ) : Type 0 where
  pub below : buffer ≤ payload
  pub text : IsText (store_bytes m payload (take payload_size content)) payload len

-- A text of at least `k + 4` bytes in the payload replaces the return address that is stored `k`
-- bytes above the buffer by the four bytes of the text at offset `k`, whatever stood there.
pub return_address_hijacked :
    (fuel : ℕ) {m : Memory} {payload buffer len : ℕ} {content : List ℕ} (k : ℕ)
    → IsRun m payload buffer len content
    → len < fuel
    → k + 4 ≤ len
    → (m' : Memory) × (main fuel m payload buffer content ≡ some m')
      × (word_at m' (buffer + k)
          ≡ word_at (store_bytes m payload (take payload_size content)) (payload + k))
unfolding main vulnerable_function word_at
return_address_hijacked fuel {m} {payload} {buffer} {len} {content} k run f long =
    let m1 = store_bytes m payload (take payload_size content) in
    let (m', e, at) =
      strcpy-copied fuel {m = m1} {t = payload} buffer len run.text (inl run.below) f in
    let moved : (j : ℕ) → j < len → m' (buffer + j) ≡ m1 (payload + j) = λ j lt. ground (
      arith,
      at (buffer + j),
      ap m1 {x = payload + (buffer + j - buffer)} {y = payload + j} (omega arith),
    ) in
    let byte : (i : ℕ) → i < 4 → m' (buffer + k + i) ≡ m1 (payload + k + i) =
      λ i lt. ap m' (omega arith) ∙ moved (k + i) (omega arith) ∙ ap m1 (omega arith) in
    (
      m',
      e,
      omega (
        arith,
        moved k (omega arith),
        byte 1 (omega arith),
        byte 2 (omega arith),
        byte 3 (omega arith),
      ),
    )

-- A text of fewer than 4 bytes changes no byte outside of the buffer, and any longer one puts its
-- byte `i` at `buffer + i` for each `i` up to its end, past the 4 bytes of the buffer.
pub overflow_reach :
    (fuel : ℕ) {m : Memory} {payload buffer len : ℕ} {content : List ℕ}
    → IsRun m payload buffer len content
    → len < fuel
    → (m' : Memory) × (main fuel m payload buffer content ≡ some m')
      × ((x : ℕ)
          → (x < buffer) ⊎ (buffer + suc len ≤ x)
          → m' x ≡ store_bytes m payload (take payload_size content) x)
      × ((i : ℕ)
          → i ≤ len
          → m' (buffer + i) ≡ store_bytes m payload (take payload_size content) (payload + i))
unfolding main vulnerable_function
overflow_reach fuel {m} {payload} {buffer} {len} {content} run f =
    let m1 = store_bytes m payload (take payload_size content) in
    let (m', e, at) =
      strcpy-copied fuel {m = m1} {t = payload} buffer len run.text (inl run.below) f in
    (
      m',
      e,
      λ x out. ground (arith, at x),
      λ i le. ground (
        arith,
        at (buffer + i),
        ap m1 {x = payload + (buffer + i - buffer)} {y = payload + i} (omega arith),
      ),
    )
