-- ===== src/Sh/Trip.antt =====
-- The parser of xv6/sh.c reads the lines that Sh.Print prints.
use buffer_overflow_attack.Base.{
  Bool, List, [], ap, arith, false, if-yes, if◌then◌else◌, length, refl, suc, true, zero, ℕ, ◌*◌,
  ◌+◌, ◌<◌, ◌==◌, ◌||◌, ◌∙◌, ◌∷◌, ◌≡◌, ◌≤◌,
}
use buffer_overflow_attack.Sh.{
  Cmd, background, ends_args, gettoken, is_plain, parse_backs, parsed, read_token, skip_white,
  starts_in, symbol, Parsed, list, parseblock, parseexec, parseline, parsepipe, parseredirs, peek,
  pipe, syntax_error, then_parse, parsecmd, simple_command,
}
use buffer_overflow_attack.Sh.Tokens.{skip_white-stays}
use buffer_overflow_attack.Sh.Print.{
  EachWord, IsLine, IsPipeline, IsSimple, Line, Pipeline, Redirection, Simple, apply_backs, block,
  final, input, output, piped, print_backs, print_line, print_pipeline, print_redirs, print_simple,
  print_words, sequence, single, words, line_command, pipeline_command, simple_tree,
}
use buffer_overflow_attack.Sh.Ends.{
  Ends-length, parsepipe-Ends, parse_backs-Ends, parseexec-Ends, parseline-Ends,
}
use buffer_overflow_attack.Sh.Words.{
  stops, Settled, peek-no, peek-yes, stops-no, word-Settled, word-no, stops-Settled,
}
use buffer_overflow_attack.Sh.Simple.{simple_command-print, print_redirs-Settled, parseredirs-print}

-- What can stand behind a line and behind a pipeline.
abbrev closes : List ℕ → Bool
closes [] = true
closes (c ∷ s) = c == b')'

abbrev ends_pipeline : List ℕ → Bool
ends_pipeline [] = true
ends_pipeline (c ∷ s) = c == b')' || c == b'&' || c == b';'

pipeline-stops : (s : List ℕ) → ends_pipeline s ≡ true → stops s ≡ true
pipeline-stops [] h = refl
pipeline-stops (c ∷ s) h = ground arith

closes-pipeline : (s : List ℕ) → closes s ≡ true → ends_pipeline s ≡ true
closes-pipeline [] h = refl
closes-pipeline (c ∷ s) h = ground arith

pipeline-no :
    (toks : ℕ → Bool) (s : List ℕ)
    → ((c : ℕ) → (c == b')' || c == b'&' || c == b';') ≡ true → toks c ≡ false)
    → ends_pipeline s ≡ true
    → starts_in toks s ≡ false
pipeline-no toks [] f h = refl
pipeline-no toks (c ∷ s) f h = f c h

closes-no :
    (toks : ℕ → Bool) (s : List ℕ)
    → ((c : ℕ) → (c == b')') ≡ true → toks c ≡ false)
    → closes s ≡ true
    → starts_in toks s ≡ false
closes-no toks [] f h = refl
closes-no toks (c ∷ s) f h = f c h

print_backs-ends :
    (n : ℕ) (s : List ℕ) → ends_pipeline s ≡ true → ends_pipeline (print_backs n s) ≡ true
print_backs-ends zero s h = h
print_backs-ends (suc n) s h = refl

words-start :
    (toks : ℕ → Bool) (ws : List (List ℕ)) (rs : List Redirection) (s : List ℕ)
    → ((c : ℕ) → is_plain c ≡ true → toks c ≡ false)
    → ((c : ℕ) → ends_args c ≡ true → toks c ≡ false)
    → toks b'<' ≡ false
    → toks b'>' ≡ false
    → EachWord ws
    → stops s ≡ true
    → starts_in toks (print_words ws (print_redirs rs s)) ≡ false
words-start toks [] [] s f g less greater each h = stops-no toks s g h
words-start toks [] (input w ∷ rs) s f g less greater each h = less
words-start toks [] (output w ∷ rs) s f g less greater each h = greater
words-start toks (w ∷ ws) rs s f g less greater (is_word, each) h =
    word-no toks w (print_words ws (print_redirs rs s)) f is_word

words-Settled :
    (ws : List (List ℕ)) (rs : List Redirection) (s : List ℕ)
    → EachWord ws
    → stops s ≡ true
    → Settled (print_words ws (print_redirs rs s))
words-Settled [] rs s each h = print_redirs-Settled rs s h
words-Settled (w ∷ ws) rs s (is_word, each) h =
    word-Settled w (print_words ws (print_redirs rs s)) is_word

mutual
  unfolding print_line print_pipeline print_simple IsLine IsPipeline IsSimple

  line-Settled : (l : Line) (s : List ℕ) → IsLine l → closes s ≡ true → Settled (print_line l s)
  line-Settled (final p n) s v h =
      pipeline-Settled p (print_backs n s) v (print_backs-ends n s (closes-pipeline s h))
  line-Settled (sequence p n l) s v h =
      pipeline-Settled p (print_backs n (b';' ∷ print_line l s)) v.0
        (print_backs-ends n (b';' ∷ print_line l s) refl)

  pipeline-Settled :
      (p : Pipeline) (s : List ℕ)
      → IsPipeline p
      → ends_pipeline s ≡ true
      → Settled (print_pipeline p s)
  pipeline-Settled (single c) s v h = simple-Settled c s v (pipeline-stops s h)
  pipeline-Settled (piped c p) s v h = simple-Settled c (b'|' ∷ print_pipeline p s) v.0 refl

  simple-Settled :
      (c : Simple) (s : List ℕ) → IsSimple c → stops s ≡ true → Settled (print_simple c s)
  simple-Settled (block l rs) s v h =
      skip_white-stays b'(' (print_line l (b')' ∷ print_redirs rs s)) refl
  simple-Settled (words ws rs) s v h = words-Settled ws rs s v.0 h

read_token-symbol :
    (c : ℕ) (s : List ℕ)
    → (c == b'|' || c == b'(' || c == b')' || c == b';' || c == b'&' || c == b'<') ≡ true
    → read_token (c ∷ s) ≡ (symbol c, s)
unfolding read_token
read_token-symbol c s one = if-yes _ _ one

gettoken-symbol :
    (c : ℕ) (s : List ℕ)
    → (c == b'|' || c == b'(' || c == b')' || c == b';' || c == b'&' || c == b'<') ≡ true
    → Settled s
    → gettoken (c ∷ s) ≡ (symbol c, s)
unfolding gettoken
gettoken-symbol c s one settled =
    ap (λ t. ((read_token t).0, skip_white (read_token t).1)) (skip_white-stays c s (ground arith))
    ∙ ap (λ r. (r.0, skip_white r.1)) (read_token-symbol c s one)
    ∙ ap (λ t. (symbol c, t)) settled

print_backs-Settled : (n : ℕ) (s : List ℕ) → Settled s → Settled (print_backs n s)
print_backs-Settled zero s settled = settled
print_backs-Settled (suc n) s settled = skip_white-stays b'&' (print_backs n s) refl

parse_backs-print :
    (fuel n : ℕ) (cmd : Cmd) (s : List ℕ)
    → Settled s
    → starts_in (λ c. c == b'&') s ≡ false
    → length (print_backs n s) < fuel
    → parse_backs fuel cmd (print_backs n s) ≡ parsed (apply_backs n cmd) s
unfolding parse_backs
parse_backs-print zero n cmd s settled no_start enough = absurd (omega arith)
parse_backs-print (suc fuel) zero cmd s settled no_start enough =
    ap (λ p. if p.0 then parse_backs fuel (background cmd) (gettoken p.1).1 else parsed cmd p.1)
      (peek-no (λ c. c == b'&') s settled no_start)
parse_backs-print (suc fuel) (suc n) cmd s settled no_start enough =
    let t = print_backs n s in
    ap (λ p. if p.0 then parse_backs fuel (background cmd) (gettoken p.1).1 else parsed cmd p.1)
      (peek-yes (λ c. c == b'&') (b'&' ∷ t) (skip_white-stays b'&' t refl) refl)
    ∙ ap (λ g. parse_backs fuel (background cmd) g.1)
        (gettoken-symbol b'&' t refl (print_backs-Settled n s settled))
    ∙ parse_backs-print fuel n (background cmd) s settled no_start (omega arith)

-- What the calls do behind the first command.
abbrev behind_pipe : ℕ → Cmd → List ℕ → Parsed Cmd
behind_pipe fuel cmd s =
    let (found, s2) = peek (λ c. c == b'|') s in
    if found
    then then_parse (parsepipe fuel (gettoken s2).1) (λ right s3. parsed (pipe cmd right) s3)
    else parsed cmd s2

abbrev behind_backs : ℕ → Cmd → List ℕ → Parsed Cmd
behind_backs fuel cmd s =
    let (found, s3) = peek (λ c. c == b';') s in
    if found
    then then_parse (parseline fuel (gettoken s3).1) (λ right s4. parsed (list cmd right) s4)
    else parsed cmd s3

abbrev behind_pipeline : ℕ → Cmd → List ℕ → Parsed Cmd
behind_pipeline fuel cmd s =
    then_parse (parse_backs fuel cmd s) λ cmd' s2. behind_backs fuel cmd' s2

abbrev behind_line : ℕ → Cmd → List ℕ → Parsed Cmd
behind_line fuel cmd s =
    let (found, s2) = peek (λ c. c == b')') s in
    if found
    then then_parse (parseredirs fuel (λ c. c) (gettoken s2).1) (λ r s3. parsed (r cmd) s3)
    else syntax_error

behind_pipe-go :
    (fuel : ℕ) (cmd : Cmd) (t : List ℕ)
    → Settled t
    → behind_pipe fuel cmd (b'|' ∷ t)
      ≡ then_parse (parsepipe fuel t) (λ right s3. parsed (pipe cmd right) s3)
behind_pipe-go fuel cmd t settled =
    ap
      (λ p.
        if p.0
        then then_parse (parsepipe fuel (gettoken p.1).1) (λ right s3. parsed (pipe cmd right) s3)
        else parsed cmd p.1)
      (peek-yes (λ c. c == b'|') (b'|' ∷ t) (skip_white-stays b'|' t refl) refl)
    ∙ ap (λ g. then_parse (parsepipe fuel g.1) (λ right s3. parsed (pipe cmd right) s3))
        (gettoken-symbol b'|' t refl settled)

behind_pipe-stop :
    (fuel : ℕ) (cmd : Cmd) (s : List ℕ)
    → ends_pipeline s ≡ true
    → behind_pipe fuel cmd s ≡ parsed cmd s
behind_pipe-stop fuel cmd s h =
    ap
      (λ p.
        if p.0
        then then_parse (parsepipe fuel (gettoken p.1).1) (λ right s3. parsed (pipe cmd right) s3)
        else parsed cmd p.1)
      (peek-no (λ c. c == b'|') s (stops-Settled s (pipeline-stops s h))
        (pipeline-no (λ c. c == b'|') s (λ c e. ground arith) h))

behind_backs-go :
    (fuel : ℕ) (cmd : Cmd) (t : List ℕ)
    → Settled t
    → behind_backs fuel cmd (b';' ∷ t)
      ≡ then_parse (parseline fuel t) (λ right s4. parsed (list cmd right) s4)
behind_backs-go fuel cmd t settled =
    ap
      (λ p.
        if p.0
        then then_parse (parseline fuel (gettoken p.1).1) (λ right s4. parsed (list cmd right) s4)
        else parsed cmd p.1)
      (peek-yes (λ c. c == b';') (b';' ∷ t) (skip_white-stays b';' t refl) refl)
    ∙ ap (λ g. then_parse (parseline fuel g.1) (λ right s4. parsed (list cmd right) s4))
        (gettoken-symbol b';' t refl settled)

behind_backs-stop :
    (fuel : ℕ) (cmd : Cmd) (s : List ℕ) → closes s ≡ true → behind_backs fuel cmd s ≡ parsed cmd s
behind_backs-stop fuel cmd s h =
    ap
      (λ p.
        if p.0
        then then_parse (parseline fuel (gettoken p.1).1) (λ right s4. parsed (list cmd right) s4)
        else parsed cmd p.1)
      (peek-no (λ c. c == b';') s (stops-Settled s (pipeline-stops s (closes-pipeline s h)))
        (closes-no (λ c. c == b';') s (λ c e. ground arith) h))

behind_line-go :
    (fuel : ℕ) (cmd : Cmd) (t : List ℕ)
    → Settled t
    → behind_line fuel cmd (b')' ∷ t)
      ≡ then_parse (parseredirs fuel (λ c. c) t) (λ r s3. parsed (r cmd) s3)
behind_line-go fuel cmd t settled =
    ap
      (λ p.
        if p.0
        then then_parse (parseredirs fuel (λ c. c) (gettoken p.1).1) (λ r s3. parsed (r cmd) s3)
        else syntax_error)
      (peek-yes (λ c. c == b')') (b')' ∷ t) (skip_white-stays b')' t refl) refl)
    ∙ ap (λ g. then_parse (parseredirs fuel (λ c. c) g.1) (λ r s3. parsed (r cmd) s3))
        (gettoken-symbol b')' t refl settled)

mutual
  unfolding parseline parsepipe parseexec parseblock print_line print_pipeline print_simple
      line_command pipeline_command simple_tree IsLine IsPipeline IsSimple

  line-print :
      (fuel : ℕ) (l : Line) (s : List ℕ)
      → IsLine l
      → closes s ≡ true
      → 4 * length (print_line l s) + 4 ≤ fuel
      → parseline fuel (print_line l s) ≡ parsed (line_command l) s
  line-print zero l s v h enough = absurd (omega arith)
  line-print (suc fuel) (final p n) s v h enough =
      let t = print_backs n s in
      let ends = closes-pipeline s h in
      let first = pipeline-print fuel p t v (print_backs-ends n s ends) (omega arith) in
      let shorter =
        Ends-length (length (print_pipeline p t)) _ _ _
          (parsepipe-Ends fuel (print_pipeline p t) (omega arith)) first in
      let settled = stops-Settled s (pipeline-stops s ends) in
      ap (λ r. then_parse r (behind_pipeline fuel)) first
      ∙ ap (λ r. then_parse r (behind_backs fuel))
          (parse_backs-print fuel n (pipeline_command p) s settled
            (closes-no (λ c. c == b'&') s (λ c e. ground arith) h) (omega arith))
      ∙ behind_backs-stop fuel (apply_backs n (pipeline_command p)) s h
  line-print (suc fuel) (sequence p n l) s v h enough =
      let rest = print_line l s in
      let t = print_backs n (b';' ∷ rest) in
      let first =
        pipeline-print fuel p t v.0 (print_backs-ends n (b';' ∷ rest) refl) (omega arith) in
      let shorter =
        Ends-length (length (print_pipeline p t)) _ _ _
          (parsepipe-Ends fuel (print_pipeline p t) (omega arith)) first in
      let settled = skip_white-stays b';' rest refl in
      let cmd = apply_backs n (pipeline_command p) in
      let backs =
        parse_backs-print fuel n (pipeline_command p) (b';' ∷ rest) settled refl (omega arith) in
      let less =
        Ends-length (length t) _ _ _ (parse_backs-Ends fuel (pipeline_command p) t (omega arith))
          backs in
      ap (λ r. then_parse r (behind_pipeline fuel)) first
      ∙ ap (λ r. then_parse r (behind_backs fuel)) backs
      ∙ behind_backs-go fuel cmd rest (line-Settled l s v.1 h)
      ∙ ap (λ r. then_parse r (λ right s4. parsed (list cmd right) s4))
          (line-print fuel l s v.1 h (omega arith))

  pipeline-print :
      (fuel : ℕ) (p : Pipeline) (s : List ℕ)
      → IsPipeline p
      → ends_pipeline s ≡ true
      → 4 * length (print_pipeline p s) + 3 ≤ fuel
      → parsepipe fuel (print_pipeline p s) ≡ parsed (pipeline_command p) s
  pipeline-print zero p s v h enough = absurd (omega arith)
  pipeline-print (suc fuel) (single c) s v h enough =
      ap (λ r. then_parse r (behind_pipe fuel))
        (simple-print fuel c s v (pipeline-stops s h) (omega arith))
      ∙ behind_pipe-stop fuel (simple_tree c) s h
  pipeline-print (suc fuel) (piped c p) s v h enough =
      let rest = print_pipeline p s in
      let first = simple-print fuel c (b'|' ∷ rest) v.0 refl (omega arith) in
      let shorter =
        Ends-length (length (print_simple c (b'|' ∷ rest))) _ _ _
          (parseexec-Ends fuel (print_simple c (b'|' ∷ rest)) (omega arith)) first in
      ap (λ r. then_parse r (behind_pipe fuel)) first
      ∙ behind_pipe-go fuel (simple_tree c) rest (pipeline-Settled p s v.1 h)
      ∙ ap (λ r. then_parse r (λ right s3. parsed (pipe (simple_tree c) right) s3))
          (pipeline-print fuel p s v.1 h (omega arith))

  simple-print :
      (fuel : ℕ) (c : Simple) (s : List ℕ)
      → IsSimple c
      → stops s ≡ true
      → 4 * length (print_simple c s) + 2 ≤ fuel
      → parseexec fuel (print_simple c s) ≡ parsed (simple_tree c) s
  simple-print zero c s v h enough = absurd (omega arith)
  simple-print (suc zero) c s v h enough = absurd (omega arith)
  simple-print (suc (suc fuel)) (block l rs) s v h enough =
      let behind = print_redirs rs s in
      let t = print_line l (b')' ∷ behind) in
      let settled = line-Settled l (b')' ∷ behind) v.0 refl in
      let first = line-print fuel l (b')' ∷ behind) v.0 refl (omega arith) in
      let shorter = Ends-length (length t) _ _ _ (parseline-Ends fuel t (omega arith)) first in
      ap (λ p. if p.0 then parseblock (suc fuel) p.1 else simple_command (suc fuel) p.1)
        (peek-yes (λ c. c == b'(') (b'(' ∷ t) (skip_white-stays b'(' t refl) refl)
      ∙ ap (λ g. then_parse (parseline fuel g.1) (behind_line fuel))
          (gettoken-symbol b'(' t refl settled)
      ∙ ap (λ r. then_parse r (behind_line fuel)) first
      ∙ behind_line-go fuel (line_command l) behind (print_redirs-Settled rs s h)
      ∙ ap (λ r. then_parse r (λ f s3. parsed (f (line_command l)) s3))
          (parseredirs-print fuel rs (λ c. c) s v.1 h (omega arith))
  simple-print (suc (suc fuel)) (words ws rs) s v h enough =
      let t = print_words ws (print_redirs rs s) in
      ap (λ p. if p.0 then parseblock (suc fuel) p.1 else simple_command (suc fuel) p.1)
        (peek-no (λ c. c == b'(') t (words-Settled ws rs s v.0 h)
          (words-start (λ c. c == b'(') ws rs s (λ c e. ground arith) (λ c e. ground arith) refl
            refl v.0 h))
      ∙ simple_command-print (suc fuel) ws rs s v.0 v.1 v.2 h (omega arith)

-- `parsecmd` of the text of a line gives the command of the line: a '|' joins two simple commands, a '&'
-- puts the whole pipeline in front of it in the background, and a ';' stands between what comes so about
-- and the rest of the line; a later redirection stands outside of an earlier one, and "(" and ")" group.
-- Each word of the line is not empty and has neither white space nor symbols, and a simple command has
-- at least one word and fewer than MAXARGS.
pub parsecmd-print_line :
    (l : Line) → IsLine l → parsecmd (print_line l []) ≡ parsed (line_command l) []
unfolding parsecmd skip_white
parsecmd-print_line l v =
    ap
      (λ r.
        then_parse r λ cmd s1.
          let s2 = skip_white s1 in if length s2 == 0 then parsed cmd [] else syntax_error)
      (line-print (4 * length (print_line l []) + 5) l [] v refl (omega arith))
