-- ===== src/Sh/Simple.antt =====
-- The redirections and the arguments of a printed command of xv6/sh.c are read back.
use buffer_overflow_attack.Base.{
  List, [], ap, append_assoc, arith, drop, false, get_or, if◌then◌else◌, leb, length, length-append,
  refl, suc, true, zero, ℕ, ◌++◌, ◌+◌, ◌<◌, ◌==◌, ◌∙◌, ◌∷◌, ◌≡◌,
}
use buffer_overflow_attack.Sh.{
  Redirs, Token, append, gettoken, max_args, parse_args, parsed, parseredirs, peek, read_token,
  redir, redir_file, redirected, redirects, skip_white, starts_in, symbol, then_parse, Args, Parsed,
  argument, ends_args, exec, simple_command, syntax_error,
}
use buffer_overflow_attack.Sh.Tokens.{skip_white-stays}
use buffer_overflow_attack.Sh.Print.{
  print_word, AllFiles, IsWord, Redirection, apply_redirs, input, output, print_redirs, EachWord,
  print_words,
}
use buffer_overflow_attack.Sh.Words.{
  stops, Settled, gettoken-print_word, peek-no, peek-yes, stops-Settled, stops-no, word-Settled,
  word-no,
}

-- A symbol of one byte, with nothing to skip behind it.
pub gettoken-less : (s : List ℕ) → Settled s → gettoken (b'<' ∷ s) ≡ (symbol b'<', s)
unfolding gettoken read_token skip_white
gettoken-less s settled = ap (λ t. (symbol b'<', t)) settled

gettoken-greater :
    (s : List ℕ)
    → Settled s
    → (get_or s 0 0 == b'>') ≡ false
    → gettoken (b'>' ∷ s) ≡ (symbol b'>', s)
unfolding gettoken read_token skip_white
gettoken-greater s settled alone =
    let two : Token × List ℕ = (append, drop 1 s) in
    let one : Token × List ℕ = (symbol b'>', s) in
    ap (λ t. let g = if t then two else one in (g.0, skip_white g.1)) alone
    ∙ ap (λ t. (symbol b'>', t)) settled

word-alone : (w s : List ℕ) → IsWord w → (get_or (print_word w s) 0 0 == b'>') ≡ false
word-alone [] s h = absurd (let l = h.1 in omega arith)
word-alone (c ∷ w) s h = let p = h.0.0 in ground arith

pub print_redirs-Settled :
    (rs : List Redirection) (s : List ℕ) → stops s ≡ true → Settled (print_redirs rs s)
unfolding skip_white
print_redirs-Settled [] s h = stops-Settled s h
print_redirs-Settled (input w ∷ rs) s h = refl
print_redirs-Settled (output w ∷ rs) s h = refl

-- One step of the loop.
redir_step :
    (fuel : ℕ) (r : Redirs) (s w t : List ℕ) (tok : Token)
    → peek redirects s ≡ (true, s)
    → gettoken s ≡ (tok, print_word w t)
    → IsWord w
    → Settled t
    → parseredirs (suc fuel) r s ≡ parseredirs fuel (λ cmd. redirected tok w (r cmd)) t
unfolding parseredirs
redir_step fuel r s w t tok peeked got is_word settled =
    ap
      (λ p.
        if p.0
        then redir_file (gettoken p.1).0 r (parseredirs fuel) (gettoken (gettoken p.1).1)
        else parsed r p.1)
      peeked
    ∙ ap (λ g. redir_file g.0 r (parseredirs fuel) (gettoken g.1)) got
    ∙ ap (redir_file tok r (parseredirs fuel)) (gettoken-print_word w t is_word settled)

pub parseredirs-stop :
    (fuel : ℕ) (r : Redirs) (s : List ℕ)
    → Settled s
    → starts_in redirects s ≡ false
    → parseredirs (suc fuel) r s ≡ parsed r s
unfolding parseredirs
parseredirs-stop fuel r s settled no_start =
    ap
      (λ p.
        if p.0
        then redir_file (gettoken p.1).0 r (parseredirs fuel) (gettoken (gettoken p.1).1)
        else parsed r p.1)
      (peek-no redirects s settled no_start)

length-print_word : (w s : List ℕ) → length s < length (print_word w s)
length-print_word [] s = omega arith
length-print_word (c ∷ w) s = let ih = length-print_word w s in omega arith

-- The redirections of a command are read back, in their order.
pub parseredirs-print :
    (fuel : ℕ) (rs : List Redirection) (r : Redirs) (s : List ℕ)
    → AllFiles rs
    → stops s ≡ true
    → length (print_redirs rs s) < fuel
    → parseredirs fuel r (print_redirs rs s) ≡ parsed (λ cmd. apply_redirs rs (r cmd)) s
parseredirs-print zero rs r s files h enough = absurd (omega arith)
parseredirs-print (suc fuel) [] r s files h enough =
    parseredirs-stop fuel r s (stops-Settled s h) (stops-no redirects s (λ c e. ground arith) h)
parseredirs-print (suc fuel) (input w ∷ rs) r s (is_word, files) h enough =
    let t = print_redirs rs s in
    let shorter = length-print_word w t in
    redir_step fuel r (b'<' ∷ print_word w t) w t (symbol b'<')
      (peek-yes redirects (b'<' ∷ print_word w t) (skip_white-stays b'<' (print_word w t) refl)
        refl)
      (gettoken-less (print_word w t) (word-Settled w t is_word)) is_word
      (print_redirs-Settled rs s h)
    ∙ parseredirs-print fuel rs (λ cmd. redir (r cmd) w 0 0) s files h (omega arith)
parseredirs-print (suc fuel) (output w ∷ rs) r s (is_word, files) h enough =
    let t = print_redirs rs s in
    let shorter = length-print_word w t in
    redir_step fuel r (b'>' ∷ print_word w t) w t (symbol b'>')
      (peek-yes redirects (b'>' ∷ print_word w t) (skip_white-stays b'>' (print_word w t) refl)
        refl)
      (gettoken-greater (print_word w t) (word-Settled w t is_word) (word-alone w t is_word))
      is_word (print_redirs-Settled rs s h)
    ∙ parseredirs-print fuel rs (λ cmd. redir (r cmd) w 0x201 1) s files h (omega arith)

-- What follows an argument.
abbrev behind_word : ℕ → Redirs → List (List ℕ) → List ℕ → Parsed Args
behind_word fuel r argv s = then_parse (parseredirs fuel r s) λ r' s3. parse_args fuel argv r' s3

-- Behind the last argument.
pub args_stop :
    (fuel : ℕ) (argv : List (List ℕ)) (r : Redirs) (s : List ℕ)
    → stops s ≡ true
    → parse_args (suc fuel) argv r s ≡ parsed (argv, r) s
unfolding parse_args
args_stop fuel argv r [] h = refl
args_stop fuel argv r (c ∷ s) h =
    ap
      (λ p.
        if p.0 then parsed (argv, r) p.1 else argument argv r (behind_word fuel r) (gettoken p.1))
      (peek-yes ends_args (c ∷ s) (stops-Settled (c ∷ s) h) h)

-- One argument.
args_step :
    (fuel : ℕ) (argv : List (List ℕ)) (r : Redirs) (w t : List ℕ)
    → IsWord w
    → Settled t
    → length argv + 1 < max_args
    → parse_args (suc fuel) argv r (print_word w t) ≡ behind_word fuel r (argv ++ (w ∷ [])) t
unfolding parse_args
args_step fuel argv r w t is_word settled few =
    let room : leb max_args (length argv + 1) ≡ false = ground arith in
    ap
      (λ p.
        if p.0 then parsed (argv, r) p.1 else argument argv r (behind_word fuel r) (gettoken p.1))
      (peek-no ends_args (print_word w t) (word-Settled w t is_word)
        (word-no ends_args w t (λ c e. ground arith) is_word))
    ∙ ap (argument argv r (behind_word fuel r)) (gettoken-print_word w t is_word settled)
    ∙ ap (λ b. if b then syntax_error else behind_word fuel r (argv ++ (w ∷ [])) t) room

-- The arguments are read back, with the redirections behind them.
pub args-print :
    (fuel : ℕ) (argv : List (List ℕ)) (r : Redirs) (w : List ℕ) (ws : List (List ℕ))
    (rs : List Redirection) (s : List ℕ)
    → IsWord w
    → EachWord ws
    → AllFiles rs
    → stops s ≡ true
    → length argv + 1 + length ws < max_args
    → length (print_word w (print_words ws (print_redirs rs s))) < fuel
    → parse_args fuel argv r (print_word w (print_words ws (print_redirs rs s)))
      ≡ parsed (argv ++ (w ∷ ws), λ cmd. apply_redirs rs (r cmd)) s
args-print zero argv r w ws rs s is_word each files h few enough = absurd (omega arith)
args-print (suc zero) argv r w ws rs s is_word each files h few enough =
    let shorter = length-print_word w (print_words ws (print_redirs rs s)) in absurd (omega arith)
args-print (suc (suc fuel)) argv r w [] rs s is_word each files h few enough =
    let t = print_redirs rs s in
    let shorter = length-print_word w t in
    let r' : Redirs = λ cmd. apply_redirs rs (r cmd) in
    args_step (suc fuel) argv r w t is_word (print_redirs-Settled rs s h) (omega arith)
    ∙ ap (λ p. then_parse p λ r' s3. parse_args (suc fuel) (argv ++ (w ∷ [])) r' s3)
        (parseredirs-print (suc fuel) rs r s files h (omega arith))
    ∙ args_stop fuel (argv ++ (w ∷ [])) r' s h
args-print (suc (suc fuel)) argv r w (v ∷ ws) rs s is_word (next, each) files h few enough =
    let t = print_words ws (print_redirs rs s) in
    let shorter = length-print_word w (print_word v t) in
    let longer = length-append argv (w ∷ []) in
    args_step (suc fuel) argv r w (print_word v t) is_word (word-Settled v t next) (omega arith)
    ∙ ap (λ p. then_parse p λ r' s3. parse_args (suc fuel) (argv ++ (w ∷ [])) r' s3)
        (parseredirs-stop fuel r (print_word v t) (word-Settled v t next)
          (word-no redirects v t (λ c e. ground arith) next))
    ∙ args-print (suc fuel) (argv ++ (w ∷ [])) r v ws rs s next each files h (omega arith)
        (omega arith)
    ∙ ap (λ l. parsed (l, λ cmd. apply_redirs rs (r cmd)) s) (append_assoc argv (w ∷ []) (v ∷ ws))

-- A simple command of words is read back.
pub simple_command-print :
    (fuel : ℕ) (ws : List (List ℕ)) (rs : List Redirection) (s : List ℕ)
    → EachWord ws
    → length ws < max_args
    → AllFiles rs
    → stops s ≡ true
    → length (print_words ws (print_redirs rs s)) < fuel
    → simple_command fuel (print_words ws (print_redirs rs s))
      ≡ parsed (apply_redirs rs (exec ws)) s
unfolding simple_command
simple_command-print zero ws rs s each few files h enough = absurd (omega arith)
simple_command-print (suc fuel) [] rs s each few files h enough =
    ap
      (λ p.
        then_parse p
          λ r s1. then_parse (parse_args (suc fuel) [] r s1) λ a s2. parsed (a.1 (exec a.0)) s2)
      (parseredirs-print (suc fuel) rs (λ cmd. cmd) s files h enough)
    ∙ ap (λ p. then_parse p λ a s2. parsed (a.1 (exec a.0)) s2)
        (args_stop fuel [] (apply_redirs rs) s h)
simple_command-print (suc fuel) (w ∷ ws) rs s (is_word, each) few files h enough =
    let t = print_words ws (print_redirs rs s) in
    ap
      (λ p.
        then_parse p
          λ r s1. then_parse (parse_args (suc fuel) [] r s1) λ a s2. parsed (a.1 (exec a.0)) s2)
      (parseredirs-stop fuel (λ cmd. cmd) (print_word w t) (word-Settled w t is_word)
        (word-no redirects w t (λ c e. ground arith) is_word))
    ∙ ap (λ p. then_parse p λ a s2. parsed (a.1 (exec a.0)) s2)
        (args-print (suc fuel) [] (λ cmd. cmd) w ws rs s is_word each files h (omega arith) enough)
