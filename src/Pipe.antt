-- ===== src/Pipe.antt =====
-- xv6/pipe.c: a ring of 512 bytes between two ends. `p->lock` stands for the atomicity of a call up
-- to its return or its sleep; the processes that it wakes are the list of channels.
pub mod Ring
pub mod Write
pub mod Read
use buffer_overflow_attack.Base.{
  Bool, List, [], false, get_or, if◌then◌else◌, length, minus_one, not, pos, set, suc, true, zero,
  ℕ, ℤ, ◌%◌, ◌&&◌, ◌+◌, ◌==◌, ◌^◌, ◌||◌, ◌∷◌,
}

abbrev pub pipe_size : ℕ
pipe_size = 512

-- `struct pipe`. `nread` and `nwrite` are `uint` counters, which wrap.
pub record Pipe : Type 0 where
  pub buf : List ℕ
  pub nread : ℕ
  pub nwrite : ℕ
  pub readopen : Bool
  pub writeopen : Bool

-- The channels `&p->nread` and `&p->nwrite`.
pub data Chan : Type 0 where
  readers writers : Chan

-- How a call ends: with a value, or asleep, with the count of bytes that are done.
pub data Stop : Type 0 where
  returned : ℤ → Stop
  asleep : ℕ → Stop

-- What `pipealloc` puts into the page, whatever bytes it holds.
unfoldable pub init_pipe : List ℕ → Pipe
init_pipe page = record { buf = page; nread = 0; nwrite = 0; readopen = true; writeopen = true }

-- `p->data[p->nwrite++ % PIPESIZE] = b`
unfoldable pub put : Pipe → ℕ → Pipe
put p b = record p { buf = set p.buf (p.nwrite % pipe_size) b; nwrite = (p.nwrite + 1) % 2 ^ 32 }

abbrev pub is_full : Pipe → Bool
is_full p = p.nwrite == (p.nread + pipe_size) % 2 ^ 32

abbrev pub is_empty : Pipe → Bool
is_empty p = p.nread == p.nwrite

-- The loop of `pipewrite` on the bytes that are left, `i` being done. When a writer that slept is
-- woken, it goes on with the same bytes. `killed` is `myproc()->killed`.
unfoldable pub write_from : Bool → List ℕ → ℕ → Pipe → Stop × Pipe × List Chan
unfolding put
write_from killed [] i p = (returned (pos i), p, readers ∷ [])
write_from killed (b ∷ bs) i p =
    let rest = write_from killed bs (i + 1) (put p b) in
    if is_full p
    then (if not p.readopen || killed
        then (returned minus_one, p, [])
        else (asleep i, p, readers ∷ []))
    else rest

unfoldable pub pipewrite : Bool → List ℕ → Pipe → Stop × Pipe × List Chan
unfolding write_from
pipewrite killed src p = write_from killed src 0 p

-- The copy loop of `piperead`, for at most `n` more bytes.
unfoldable pub read_loop : ℕ → Pipe → List ℕ × Pipe
read_loop zero p = ([], p)
read_loop (suc n) p =
    let b = get_or p.buf (p.nread % pipe_size) 0 in
    let (bs, p') = read_loop n (record p { nread = (p.nread + 1) % 2 ^ 32 }) in
    if is_empty p then ([], p) else (b ∷ bs, p')

-- The bytes are those that go to `addr`.
unfoldable pub piperead : Bool → ℕ → Pipe → Stop × List ℕ × Pipe × List Chan
unfolding read_loop
piperead killed n p =
    if is_empty p && p.writeopen
    then (if killed then (returned minus_one, [], p, []) else (asleep 0, [], p, []))
    else (let (bs, p') = read_loop n p in (returned (pos (length bs)), bs, p', writers ∷ []))

-- The flag that `pipeclose` clears.
unfoldable pub close_end : Pipe → Bool → Pipe
close_end p writable =
    if writable then record p { writeopen = false } else record p { readopen = false }

-- `pipeclose`, with whether the page of the pipe is freed.
unfoldable pub pipeclose : Pipe → Bool → Pipe × List Chan × Bool
unfolding close_end
pipeclose p writable =
    let p' = close_end p writable in
    (p', (if writable then readers ∷ [] else writers ∷ []), not p'.readopen && not p'.writeopen)
