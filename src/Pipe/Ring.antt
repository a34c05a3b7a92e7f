-- ===== src/Pipe/Ring.antt =====
-- The bytes that a pipe of xv6/pipe.c holds, in order, and what a write adds to them.
use buffer_overflow_attack.Base.{
  List, [], ap, ap₂, arith, get_or, get_or-set_ne, get_or-set_self, length, length-set, refl, set,
  suc, true, zero, ℕ, ◌%◌, ◌++◌, ◌+◌, ◌-◌, ◌<◌, ◌^◌, ◌↔◌, ◌∙◌, ◌∷◌, ◌≡◌, ◌≤◌,
}
use buffer_overflow_attack.Pipe.{Pipe, pipe_size, put, is_full, is_empty, init_pipe}

-- The number of bytes in the pipe: the difference of the wrapping counters.
abbrev pub count : Pipe → ℕ
count p = (p.nwrite + 2 ^ 32 - p.nread) % 2 ^ 32

pub record IsPipe (p : Pipe) : Type 0 where
  pub room : length p.buf ≡ pipe_size
  pub nread_word : p.nread < 2 ^ 32
  pub nwrite_word : p.nwrite < 2 ^ 32
  pub within : count p ≤ pipe_size

-- The `n` bytes from counter `h` on.
abbrev pub window : List ℕ → ℕ → ℕ → List ℕ
window buf h zero = []
window buf h (suc n) = get_or buf (h % pipe_size) 0 ∷ window buf ((h + 1) % 2 ^ 32) n

abbrev pub contents : Pipe → List ℕ
contents p = window p.buf p.nread (count p)

length-window : (buf : List ℕ) (h n : ℕ) → length (window buf h n) ≡ n
length-window buf h zero = refl
length-window buf h (suc n) = ap suc (length-window buf ((h + 1) % 2 ^ 32) n)

pub length-contents : (p : Pipe) → length (contents p) ≡ count p
length-contents p = length-window p.buf p.nread (count p)

-- A write just past a window adds its byte at the end.
window-set :
    (buf : List ℕ) (b n h i : ℕ)
    → length buf ≡ pipe_size
    → n < pipe_size
    → i ≡ (h + n) % 2 ^ 32
    → window (set buf (i % pipe_size) b) h (suc n) ≡ window buf h n ++ (b ∷ [])
window-set buf b zero h i room lt e =
    let same : h % pipe_size ≡ i % pipe_size = omega arith in
    rw (same, get_or-set_self buf (i % pipe_size) b 0 (omega arith))
window-set buf b (suc n) h i room lt e =
    ap₂ ◌∷◌ (get_or-set_ne buf (i % pipe_size) (h % pipe_size) b 0 (omega arith))
      (window-set buf b n ((h + 1) % 2 ^ 32) i room (omega arith) (omega arith))

-- A new pipe is valid and holds nothing.
pub init_pipe-IsPipe :
    (page : List ℕ)
    → length page ≡ pipe_size
    → IsPipe (init_pipe page) × (contents (init_pipe page) ≡ [])
unfolding init_pipe
init_pipe-IsPipe page e = (
  record { room = e; nread_word = omega arith; nwrite_word = omega arith; within = omega arith },
  refl,
)

pub put-IsPipe : {p : Pipe} (b : ℕ) → IsPipe p → count p < pipe_size → IsPipe (put p b)
unfolding put
put-IsPipe {p} b v lt = record {
  room = length-set p.buf (p.nwrite % pipe_size) b ∙ v.room;
  nread_word = v.nread_word;
  nwrite_word = omega arith;
  within = omega arith;
}

pub contents-put :
    {p : Pipe} (b : ℕ)
    → IsPipe p
    → count p < pipe_size
    → (contents (put p b) ≡ contents p ++ (b ∷ [])) × (count (put p b) ≡ suc (count p))
unfolding put
contents-put {p} b v lt =
    let more : count (put p b) ≡ suc (count p) = omega arith in
    (
      ap (window (put p b).buf p.nread) more
          ∙ window-set p.buf b (count p) p.nread p.nwrite v.room lt (omega arith),
      more,
    )

pub is_full-count : {p : Pipe} → IsPipe p → (is_full p ≡ true) ↔ (count p ≡ pipe_size)
is_full-count {p} v = (λ e. ground arith, λ e. ground arith)

pub is_empty-count : {p : Pipe} → IsPipe p → (is_empty p ≡ true) ↔ (count p ≡ 0)
is_empty-count {p} v = (λ e. ground arith, λ e. ground arith)
