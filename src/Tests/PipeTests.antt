-- ===== src/Tests/PipeTests.antt =====
-- xv6/pipe.c on a small pipe.
use buffer_overflow_attack.Base.{
  List, [], arith, false, length, pos, refl, replicate, set, true, ℕ, ◌∷◌, ◌≡◌, ◌≢◌, ◌⊎◌,
}
use buffer_overflow_attack.Pipe.{Pipe, returned, asleep, writers, pipewrite, piperead, init_pipe}
use buffer_overflow_attack.Pipe.Ring.{IsPipe, contents, init_pipe-IsPipe}
use buffer_overflow_attack.Pipe.Write.{Wrote, pipewrite_lem}
use buffer_overflow_attack.Pipe.Read.{piperead_lem}

abbrev page : List ℕ
page = replicate 512 0

-- Two bytes round the wrap of the counters.
abbrev wrapped : Pipe
wrapped = record {
  buf = set (set page 511 7) 0 8;
  nread = 0xffffffff;
  nwrite = 1;
  readopen = true;
  writeopen = true;
}

wrapped-IsPipe : IsPipe wrapped
wrapped-IsPipe = record {
  room = refl;
  nread_word = omega arith;
  nwrite_word = omega arith;
  within = omega arith;
}

init_pipe-IsPipe_example : IsPipe (init_pipe page) × (contents (init_pipe page) ≡ [])
init_pipe-IsPipe_example = init_pipe-IsPipe page refl

pipewrite_lem_example :
    Wrote false (1 ∷ 2 ∷ 3 ∷ []) 0 wrapped (pipewrite false (1 ∷ 2 ∷ 3 ∷ []) wrapped)
pipewrite_lem_example = pipewrite_lem false (1 ∷ 2 ∷ 3 ∷ []) wrapped-IsPipe

piperead_lem_example :
    let (stop, got, p', woken) = piperead false 1 wrapped in
    IsPipe p'
    × (got ≡ 7 ∷ [])
    × (contents p' ≡ 8 ∷ [])
    × ((contents wrapped ≢ []) ⊎ (true ≡ false)
        → (stop ≡ returned (pos (length got))) × (woken ≡ writers ∷ []))
    × (contents wrapped ≡ [] → true ≡ true → (p' ≡ wrapped) × (stop ≡ asleep 0) × (woken ≡ []))
piperead_lem_example = piperead_lem false 1 wrapped-IsPipe

read_test : (piperead false 5 wrapped).1 ≡ 7 ∷ 8 ∷ []
unfolding piperead
read_test = refl
