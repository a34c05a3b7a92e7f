-- ===== src/Sh.antt =====
-- xv6/sh.c: the parser of the shell. The text between `*ps` and `es` is the list of its bytes, so that
-- `*s` at `es` is the 0 behind them. A word is its bytes from `q` up to `eq`, where `nulterminate` puts
-- a NUL.
pub mod Tokens
pub mod Ends
pub mod Print
pub mod Words
pub mod Simple
pub mod Trip
use buffer_overflow_attack.Base.{
  Bool, List, [], drop, false, get_or, if◌then◌else◌, leb, length, not, suc, zero, ℕ, ◌&&◌, ◌*◌,
  ◌++◌, ◌+◌, ◌==◌, ◌||◌, ◌∷◌,
}

-- `strchr(whitespace, c)` and `strchr(symbols, c)` of a byte that is not 0.
abbrev pub is_white : ℕ → Bool
is_white c = c == b' ' || c == b'\t' || c == b'\r' || c == b'\n' || c == 11

abbrev pub is_symbol : ℕ → Bool
is_symbol c =
    c == b'<' || c == b'|' || c == b'>' || c == b'&' || c == b';' || c == b'(' || c == b')'

abbrev pub is_plain : ℕ → Bool
is_plain c = not (is_white c) && not (is_symbol c)

-- `while(s < es && strchr(whitespace, *s)) s++;`
unfoldable pub skip_white : List ℕ → List ℕ
skip_white [] = []
skip_white (c ∷ s) = if is_white c then skip_white s else c ∷ s

-- The loop over the bytes of a word: what it passes, and where it stops.
unfoldable pub take_word : List ℕ → List ℕ × List ℕ
take_word [] = ([], [])
take_word (c ∷ s) = let (w, rest) = take_word s in if is_plain c then (c ∷ w, rest) else ([], c ∷ s)

-- The results of `gettoken`: 0, the symbol itself, '+' and 'a' with the word.
pub data Token : Type 0 where
  finished : Token
  symbol : ℕ → Token
  append : Token
  word : List ℕ → Token

-- The `switch` of `gettoken`.
unfoldable pub read_token : List ℕ → Token × List ℕ
unfolding take_word
read_token [] = (finished, [])
read_token (c ∷ s) =
    let (w, rest) = take_word (c ∷ s) in
    if c == b'|' || c == b'(' || c == b')' || c == b';' || c == b'&' || c == b'<'
    then (symbol c, s)
    else if c == b'>'
    then (if get_or s 0 0 == b'>' then (append, drop 1 s) else (symbol c, s))
    else (word w, rest)

unfoldable pub gettoken : List ℕ → Token × List ℕ
unfolding skip_white read_token
gettoken s = let (t, rest) = read_token (skip_white s) in (t, skip_white rest)

abbrev pub starts_in : (ℕ → Bool) → List ℕ → Bool
starts_in toks [] = false
starts_in toks (c ∷ s) = toks c

-- `toks` tells the bytes of the third argument.
unfoldable pub peek : (ℕ → Bool) → List ℕ → Bool × List ℕ
unfolding skip_white
peek toks s = let s' = skip_white s in (starts_in toks s', s')

-- `struct cmd`. O_RDONLY is 0, and O_WRONLY|O_CREATE is 0x201.
pub data Cmd : Type 0 where
  exec : List (List ℕ) → Cmd
  redir : Cmd → List ℕ → ℕ → ℕ → Cmd
  pipe : Cmd → Cmd → Cmd
  list : Cmd → Cmd → Cmd
  background : Cmd → Cmd

-- How a call of the parser ends: with a value and the text that is left, with the panic of a syntax
-- error, or with no fuel left, which has no counterpart in the source.
pub data Parsed (A : Type 0) : Type 0 where
  parsed : A → List ℕ → Parsed A
  syntax_error : Parsed A
  unfinished : Parsed A

abbrev pub then_parse : {A B : Type 0} → Parsed A → (A → List ℕ → Parsed B) → Parsed B
then_parse (parsed a s) k = k a s
then_parse syntax_error k = syntax_error
then_parse unfinished k = unfinished

abbrev pub max_args : ℕ
max_args = 10

-- The bytes of "<>" and of "|)&;".
abbrev pub redirects : ℕ → Bool
redirects c = c == b'<' || c == b'>'

abbrev pub ends_args : ℕ → Bool
ends_args c = c == b'|' || c == b')' || c == b'&' || c == b';'

-- The `switch` of `parseredirs`.
abbrev pub redirected : Token → List ℕ → Cmd → Cmd
redirected (symbol c) w cmd = if c == b'<' then redir cmd w 0 0 else redir cmd w 0x201 1
redirected append w cmd = redir cmd w 0x201 1
redirected finished w cmd = cmd
redirected (word v) w cmd = cmd

-- A redirection as what it makes of the command: that of `parseexec` is filled in later.
abbrev pub Redirs : Type 0
Redirs = Cmd → Cmd

-- The file of a redirection by `tok`, and what follows.
abbrev pub redir_file :
    Token → Redirs → (Redirs → List ℕ → Parsed Redirs) → Token × List ℕ → Parsed Redirs
redir_file tok r k (word w, s) = k (λ cmd. redirected tok w (r cmd)) s
redir_file tok r k (finished, s) = syntax_error
redir_file tok r k (symbol c, s) = syntax_error
redir_file tok r k (append, s) = syntax_error

unfoldable pub parseredirs : ℕ → Redirs → List ℕ → Parsed Redirs
unfolding gettoken peek
parseredirs zero r s = unfinished
parseredirs (suc fuel) r s =
    let (more, s1) = peek redirects s in
    let (tok, s2) = gettoken s1 in
    if more then redir_file tok r (parseredirs fuel) (gettoken s2) else parsed r s1

-- The words of a command and its redirections.
abbrev pub Args : Type 0
Args = List (List ℕ) × Redirs

-- One argument of `parseexec`, and what follows.
abbrev pub argument :
    List (List ℕ) → Redirs → (List (List ℕ) → List ℕ → Parsed Args) → Token × List ℕ → Parsed Args
argument argv r k (finished, s) = parsed (argv, r) s
argument argv r k (symbol c, s) = syntax_error
argument argv r k (append, s) = syntax_error
argument argv r k (word w, s) =
    if leb max_args (length argv + 1) then syntax_error else k (argv ++ (w ∷ [])) s

-- The loop of `parseexec`.
unfoldable pub parse_args : ℕ → List (List ℕ) → Redirs → List ℕ → Parsed Args
unfolding gettoken peek parseredirs
parse_args zero argv r s = unfinished
parse_args (suc fuel) argv r s =
    let (stop, s1) = peek ends_args s in
    if stop
    then parsed (argv, r) s1
    else argument argv r
        (λ argv' s2. then_parse (parseredirs fuel r s2) λ r' s3. parse_args fuel argv' r' s3)
        (gettoken s1)

unfoldable pub simple_command : ℕ → List ℕ → Parsed Cmd
unfolding parseredirs parse_args
simple_command fuel s =
    then_parse (parseredirs fuel (λ cmd. cmd) s)
      λ r s1. then_parse (parse_args fuel [] r s1) λ (argv, r') s2. parsed (r' (exec argv)) s2

-- The loop of `parseline` over '&'.
unfoldable pub parse_backs : ℕ → Cmd → List ℕ → Parsed Cmd
unfolding gettoken peek
parse_backs zero cmd s = unfinished
parse_backs (suc fuel) cmd s =
    let (more, s1) = peek (λ c. c == b'&') s in
    if more then parse_backs fuel (background cmd) (gettoken s1).1 else parsed cmd s1

-- What a call leaves of the text is not a structural part of it, so each call costs a unit of fuel.
unfoldable mutual
  unfolding peek gettoken parse_backs simple_command parseredirs

  pub parseline : ℕ → List ℕ → Parsed Cmd
  parseline zero s = unfinished
  parseline (suc fuel) s = then_parse (parsepipe fuel s) λ cmd s1.
      then_parse (parse_backs fuel cmd s1) λ cmd' s2.
        let (more, s3) = peek (λ c. c == b';') s2 in
        if more
        then then_parse (parseline fuel (gettoken s3).1) (λ right s4. parsed (list cmd' right) s4)
        else parsed cmd' s3

  pub parsepipe : ℕ → List ℕ → Parsed Cmd
  parsepipe zero s = unfinished
  parsepipe (suc fuel) s = then_parse (parseexec fuel s) λ cmd s1.
      let (more, s2) = peek (λ c. c == b'|') s1 in
      if more
      then then_parse (parsepipe fuel (gettoken s2).1) (λ right s3. parsed (pipe cmd right) s3)
      else parsed cmd s2

  pub parseexec : ℕ → List ℕ → Parsed Cmd
  parseexec zero s = unfinished
  parseexec (suc fuel) s =
      let (more, s1) = peek (λ c. c == b'(') s in
      if more then parseblock fuel s1 else simple_command fuel s1

  pub parseblock : ℕ → List ℕ → Parsed Cmd
  parseblock zero s = unfinished
  parseblock (suc fuel) s = then_parse (parseline fuel (gettoken s).1) λ cmd s1.
      let (more, s2) = peek (λ c. c == b')') s1 in
      if more
      then then_parse (parseredirs fuel (λ c. c) (gettoken s2).1) (λ r s3. parsed (r cmd) s3)
      else syntax_error

-- The panic on what is left is a syntax error too.
unfoldable pub parsecmd : List ℕ → Parsed Cmd
unfolding parseline peek
parsecmd s =
    then_parse (parseline (4 * length s + 5) s)
      λ cmd s1. let s2 = skip_white s1 in if length s2 == 0 then parsed cmd [] else syntax_error
