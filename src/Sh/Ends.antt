-- ===== src/Sh/Ends.antt =====
-- The parser of xv6/sh.c ends, with a command or with a syntax error.
use buffer_overflow_attack.Base.{
  Bool, List, [], ap, arith, false, if◌then◌else◌, leb, length, refl, suc, true, zero, ℕ, ◌*◌, ◌++◌,
  ◌+◌, ◌<◌, ◌==◌, ◌∷◌, ◌≡◌, ◌≤◌,
}
use buffer_overflow_attack.Sh.{
  skip_white, Args, Cmd, Parsed, Redirs, Token, append, argument, background, ends_args, exec,
  finished, gettoken, max_args, parse_args, parse_backs, parsed, parseexec, parseline, parsepipe,
  parseredirs, peek, redir_file, redirected, redirects, simple_command, starts_in, symbol,
  syntax_error, then_parse, word, list, parseblock, parsecmd, pipe,
}
use buffer_overflow_attack.Sh.Tokens.{
  gettoken-peek, gettoken-word, length-gettoken, length-skip_white,
}

-- The call ends, and leaves no more than `n` bytes.
pub data Ends {A : Type 0} (n : ℕ) : Parsed A → Type 0 where
  leaves : (a : A) (s : List ℕ) → length s ≤ n → Ends n (parsed a s)
  rejects : Ends n syntax_error

then_parse-Ends :
    {A B : Type 0} (n n' : ℕ) (r : Parsed A) (k : A → List ℕ → Parsed B)
    → Ends n r
    → ((a : A) (s : List ℕ) → length s ≤ n → Ends n' (k a s))
    → Ends n' (then_parse r k)
then_parse-Ends n n' r k (leaves a s le) f = f a s le
then_parse-Ends n n' r k rejects f = rejects

Ends-if :
    {A : Type 0} (n : ℕ) (t : Bool) (x y : Parsed A)
    → (t ≡ true → Ends n x)
    → (t ≡ false → Ends n y)
    → Ends n (if t then x else y)
Ends-if n true x y p q = p refl
Ends-if n false x y p q = q refl

Ends-weaken : {A : Type 0} (n n' : ℕ) (r : Parsed A) → n ≤ n' → Ends n r → Ends n' r
Ends-weaken n n' r le (leaves a s h) = leaves a s (omega arith)
Ends-weaken n n' r le rejects = rejects

-- Behind `peek`.
parsed-Ends : {A : Type 0} (a : A) (s : List ℕ) → Ends (length s) (parsed a (skip_white s))
parsed-Ends a s = leaves a (skip_white s) (length-skip_white s)

redir_file-Ends :
    (n : ℕ) (tok : Token) (r : Redirs) (k : Redirs → List ℕ → Parsed Redirs) (s : List ℕ)
    → length s ≤ n
    → ((r' : Redirs) (s' : List ℕ) → length s' < n → Ends n (k r' s'))
    → Ends n (redir_file tok r k (gettoken s))
redir_file-Ends n tok r k s le f = go (gettoken s) refl
  where
    go : (g : Token × List ℕ) → gettoken s ≡ g → Ends n (redir_file tok r k g)
    go (finished, s') e = rejects
    go (symbol c, s') e = rejects
    go (append, s') e = rejects
    go (word w, s') e =
        let shorter = gettoken-word s w s' e in f (λ cmd. redirected tok w (r cmd)) s' (omega arith)

pub parseredirs-Ends :
    (fuel : ℕ) (r : Redirs) (s : List ℕ) → length s < fuel → Ends (length s) (parseredirs fuel r s)
unfolding parseredirs peek
parseredirs-Ends zero r s enough = absurd (omega arith)
parseredirs-Ends (suc fuel) r s enough =
    Ends-if (length s) (starts_in redirects (skip_white s)) _ _
      (λ found.
        let shorter = gettoken-peek redirects s found in
        redir_file-Ends (length s) (gettoken (skip_white s)).0 r (parseredirs fuel)
          (gettoken (skip_white s)).1 (omega arith)
          (λ r' s' lt.
            Ends-weaken (length s') (length s) _ (omega arith)
              (parseredirs-Ends fuel r' s' (omega arith))))
      (λ other. parsed-Ends r s)

argument-Ends :
    (n : ℕ) (argv : List (List ℕ)) (r : Redirs) (k : List (List ℕ) → List ℕ → Parsed Args)
    (s : List ℕ)
    → length s ≤ n
    → ((argv' : List (List ℕ)) (s' : List ℕ) → length s' < n → Ends n (k argv' s'))
    → Ends n (argument argv r k (gettoken s))
argument-Ends n argv r k s le f = go (gettoken s) refl
  where
    go : (g : Token × List ℕ) → gettoken s ≡ g → Ends n (argument argv r k g)
    go (finished, s') e =
        leaves (argv, r) s'
          (let l = ap (λ t. length t.1) e in let m = length-gettoken s in omega arith)
    go (symbol c, s') e = rejects
    go (append, s') e = rejects
    go (word w, s') e =
        let shorter = gettoken-word s w s' e in
        Ends-if n (leb max_args (length argv + 1)) _ _ (λ many. rejects)
          (λ few. f (argv ++ (w ∷ [])) s' (omega arith))

parse_args-Ends :
    (fuel : ℕ) (argv : List (List ℕ)) (r : Redirs) (s : List ℕ)
    → length s < fuel
    → Ends (length s) (parse_args fuel argv r s)
unfolding parse_args peek
parse_args-Ends zero argv r s enough = absurd (omega arith)
parse_args-Ends (suc fuel) argv r s enough =
    Ends-if (length s) (starts_in ends_args (skip_white s)) _ _ (λ found. parsed-Ends (argv, r) s)
      (λ other.
        argument-Ends (length s) argv r _ (skip_white s) (length-skip_white s) (λ argv' s' lt.
          then_parse-Ends (length s') (length s) (parseredirs fuel r s') _
            (parseredirs-Ends fuel r s' (omega arith))
            (λ r' s3 le.
              Ends-weaken (length s3) (length s) _ (omega arith)
                (parse_args-Ends fuel argv' r' s3 (omega arith)))))

simple_command-Ends :
    (fuel : ℕ) (s : List ℕ) → length s < fuel → Ends (length s) (simple_command fuel s)
unfolding simple_command
simple_command-Ends fuel s enough =
    then_parse-Ends (length s) (length s) (parseredirs fuel (λ cmd. cmd) s) _
      (parseredirs-Ends fuel (λ cmd. cmd) s enough)
      (λ r s1 le.
        then_parse-Ends (length s1) (length s) (parse_args fuel [] r s1) _
          (parse_args-Ends fuel [] r s1 (omega arith))
          (λ a s2 le'. leaves (a.1 (exec a.0)) s2 (omega arith)))

pub parse_backs-Ends :
    (fuel : ℕ) (cmd : Cmd) (s : List ℕ) → length s < fuel → Ends (length s) (parse_backs fuel cmd s)
unfolding parse_backs peek
parse_backs-Ends zero cmd s enough = absurd (omega arith)
parse_backs-Ends (suc fuel) cmd s enough =
    Ends-if (length s) (starts_in (λ c. c == b'&') (skip_white s)) _ _
      (λ found.
        let shorter = gettoken-peek (λ c. c == b'&') s found in
        let rest = (gettoken (skip_white s)).1 in
        Ends-weaken (length rest) (length s) _ (omega arith)
          (parse_backs-Ends fuel (background cmd) rest (omega arith)))
      (λ other. parsed-Ends cmd s)

mutual
  unfolding parseline parsepipe parseexec parseblock peek

  pub parseline-Ends :
      (fuel : ℕ) (s : List ℕ) → 4 * length s + 4 ≤ fuel → Ends (length s) (parseline fuel s)
  parseline-Ends zero s enough = absurd (omega arith)
  parseline-Ends (suc fuel) s enough =
      then_parse-Ends (length s) (length s) (parsepipe fuel s) _
        (parsepipe-Ends fuel s (omega arith))
        λ cmd s1 le1.
          then_parse-Ends (length s1) (length s) (parse_backs fuel cmd s1) _
            (parse_backs-Ends fuel cmd s1 (omega arith))
            λ cmd' s2 le2.
              Ends-if (length s) (starts_in (λ c. c == b';') (skip_white s2)) _ _
                (λ found.
                  let shorter = gettoken-peek (λ c. c == b';') s2 found in
                  let rest = (gettoken (skip_white s2)).1 in
                  then_parse-Ends (length rest) (length s) (parseline fuel rest) _
                    (parseline-Ends fuel rest (omega arith))
                    λ right s4 le4. leaves (list cmd' right) s4 (omega arith))
                (λ other. Ends-weaken (length s2) (length s) _ (omega arith) (parsed-Ends cmd' s2))

  pub parsepipe-Ends :
      (fuel : ℕ) (s : List ℕ) → 4 * length s + 3 ≤ fuel → Ends (length s) (parsepipe fuel s)
  parsepipe-Ends zero s enough = absurd (omega arith)
  parsepipe-Ends (suc fuel) s enough =
      then_parse-Ends (length s) (length s) (parseexec fuel s) _
        (parseexec-Ends fuel s (omega arith))
        λ cmd s1 le1.
          Ends-if (length s) (starts_in (λ c. c == b'|') (skip_white s1)) _ _
            (λ found.
              let shorter = gettoken-peek (λ c. c == b'|') s1 found in
              let rest = (gettoken (skip_white s1)).1 in
              then_parse-Ends (length rest) (length s) (parsepipe fuel rest) _
                (parsepipe-Ends fuel rest (omega arith))
                λ right s3 le3. leaves (pipe cmd right) s3 (omega arith))
            (λ other. Ends-weaken (length s1) (length s) _ (omega arith) (parsed-Ends cmd s1))

  pub parseexec-Ends :
      (fuel : ℕ) (s : List ℕ) → 4 * length s + 2 ≤ fuel → Ends (length s) (parseexec fuel s)
  parseexec-Ends zero s enough = absurd (omega arith)
  parseexec-Ends (suc fuel) s enough =
      let behind = length-skip_white s in
      Ends-if (length s) (starts_in (λ c. c == b'(') (skip_white s)) _ _
        (λ found.
          parseblock-Ends fuel (skip_white s) (length s) (gettoken-peek (λ c. c == b'(') s found)
            (omega arith))
        (λ other.
          Ends-weaken (length (skip_white s)) (length s) _ behind
            (simple_command-Ends fuel (skip_white s) (omega arith)))

  pub parseblock-Ends :
      (fuel : ℕ) (s : List ℕ) (n : ℕ)
      → length (gettoken s).1 < n
      → 4 * n + 1 ≤ fuel
      → Ends n (parseblock fuel s)
  parseblock-Ends zero s n shorter enough = absurd (omega arith)
  parseblock-Ends (suc fuel) s n shorter enough =
      let inside = (gettoken s).1 in
      then_parse-Ends (length inside) n (parseline fuel inside) _
        (parseline-Ends fuel inside (omega arith))
        λ cmd s1 le1.
          Ends-if n (starts_in (λ c. c == b')') (skip_white s1)) _ _
            (λ found.
              let less = gettoken-peek (λ c. c == b')') s1 found in
              let rest = (gettoken (skip_white s1)).1 in
              then_parse-Ends (length rest) n (parseredirs fuel (λ c. c) rest) _
                (parseredirs-Ends fuel (λ c. c) rest (omega arith))
                λ r s3 le3. leaves (r cmd) s3 (omega arith))
            (λ other. rejects)

-- `parsecmd` of any text ends: with a command, all of the text being used, or with a syntax error.
pub parsecmd-Ends : (s : List ℕ) → Ends 0 (parsecmd s)
unfolding parsecmd
parsecmd-Ends s =
    then_parse-Ends (length s) 0 (parseline (4 * length s + 5) s) _
      (parseline-Ends (4 * length s + 5) s (omega arith))
      λ cmd s1 le.
        Ends-if 0 (length (skip_white s1) == 0) _ _ (λ all. leaves cmd [] (omega arith))
          (λ more. rejects)

-- What a call that ends leaves is no longer than what it got.
pub Ends-length :
    {A : Type 0} (n : ℕ) (r : Parsed A) (a : A) (s : List ℕ)
    → Ends n r
    → r ≡ parsed a s
    → length s ≤ n
Ends-length n r a s (leaves b t le) e =
    let same : t ≡ s = cc in let same_length = ap length same in omega arith
Ends-length n r a s rejects e = cc
