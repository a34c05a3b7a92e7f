-- ===== src/Console.antt =====
-- xv6/console.c: the input buffer of the console, where keys are edited until a line is complete.
-- `cons.lock` stands for the atomicity of `consoleintr`, and of `consoleread` up to its return or its
-- sleep. The calls of `consputc` are the list of what they print.
pub mod Store
pub mod Ring
pub mod Line
pub mod Keys
pub mod Read
pub mod Trip
use buffer_overflow_attack.Base.{
  Bool, List, [], false, if◌then◌else◌, ltb, not, suc, true, zero, ℕ, ◌%◌, ◌&&◌, ◌++◌, ◌+◌, ◌-◌,
  ◌==◌, ◌^◌, ◌||◌, ◌∷◌,
}
use buffer_overflow_attack.Str.{Memory, write}

abbrev pub input_buf : ℕ
input_buf = 128

-- `input`, with its `uint` counters, which wrap.
pub record Input : Type 0 where
  pub buf : Memory
  pub r : ℕ
  pub w : ℕ
  pub e : ℕ

abbrev pub back : ℕ
back = 256

abbrev pub control : ℕ → ℕ
control c = c - b'@'

-- `input.e - 1`
abbrev pub last : Input → ℕ
last p = (p.e + 2 ^ 32 - 1) % 2 ^ 32

-- The loop of C('U') for at most `fuel` keys.
unfoldable pub kill_line : ℕ → Input → Input × List ℕ
kill_line zero p = (p, [])
kill_line (suc fuel) p =
    let (p', shown) = kill_line fuel (record p { e = last p }) in
    if not (p.e == p.w) && not (p.buf (last p % input_buf) == b'\n')
    then (p', back ∷ shown)
    else (p, [])

unfoldable pub backspace : Input → Input × List ℕ
backspace p = if p.e == p.w then (p, []) else (record p { e = last p }, back ∷ [])

-- `(c == '\r') ? '\n' : c`
abbrev pub newline : ℕ → ℕ
newline c = if c == b'\r' then b'\n' else c

-- `input.buf[input.e++ % INPUT_BUF] = c`
unfoldable pub store : ℕ → Input → Input
unfolding write
store c p = record p { buf = write p.buf (p.e % input_buf) (c % 256); e = (p.e + 1) % 2 ^ 32 }

-- Whether a stored key completes the line.
abbrev pub completes : ℕ → Input → Bool
completes c p = c == b'\n' || c == control b'D' || p.e == (p.r + input_buf) % 2 ^ 32

-- The `default` case, with whether it wakes the readers.
unfoldable pub insert : ℕ → Input → Input × List ℕ × Bool
unfolding store
insert c p =
    let p' = store (newline c) p in
    if not (c == 0) && ltb ((p.e + 2 ^ 32 - p.r) % 2 ^ 32) input_buf
    then (if completes (newline c) p'
        then (record p' { w = p'.e }, newline c ∷ [], true)
        else (p', newline c ∷ [], false))
    else (p, [], false)

-- One key of the loop of `consoleintr`. C('P') only sets `doprocdump`. A line has no more keys than
-- the buffer.
unfoldable pub key : ℕ → Input → Input × List ℕ × Bool
unfolding kill_line backspace insert
key c p =
    if c == control b'P'
    then (p, [], false)
    else if c == control b'U'
    then (let (p', shown) = kill_line input_buf p in (p', shown, false))
    else if c == control b'H' || c == 127
    then (let (p', shown) = backspace p in (p', shown, false))
    else insert c p

-- The keys that `getc` returns until it returns -1, and whether `procdump` is called behind them.
unfoldable pub consoleintr : List ℕ → Input → Input × List ℕ × Bool
unfolding key
consoleintr [] p = (p, [], false)
consoleintr (c ∷ cs) p =
    let (p1, shown, woken) = key c p in
    let (p2, shown', dump) = consoleintr cs p1 in (p2, shown ++ shown', dump || c == control b'P')

-- How a read ends: with its count, with -1, or asleep with `n` bytes left to read.
pub data ReadEnd : Type 0 where
  counted : ℕ → ReadEnd
  failed : ReadEnd
  waits : ℕ → ReadEnd

-- The loop of `consoleread` with `n` bytes left of `target`. When a reader that slept is woken, it goes
-- on with the bytes that were left. `killed` is `myproc()->killed`.
unfoldable pub read_from : Bool → ℕ → ℕ → Input → ReadEnd × List ℕ × Input
read_from killed target zero p = (counted target, [], p)
read_from killed target (suc n) p =
    let c = p.buf (p.r % input_buf) in
    let p' = record p { r = (p.r + 1) % 2 ^ 32 } in
    let (end, bytes, q) = read_from killed target n p' in
    if p.r == p.w
    then (if killed then failed else waits (suc n), [], p)
    else if c == control b'D'
    then (counted (target - suc n), [], if ltb (suc n) target then p else p')
    else if c == b'\n'
    then (counted (target - n), c ∷ [], p')
    else (end, c ∷ bytes, q)

unfoldable pub consoleread : Bool → ℕ → Input → ReadEnd × List ℕ × Input
unfolding read_from
consoleread killed n p = read_from killed n n p
