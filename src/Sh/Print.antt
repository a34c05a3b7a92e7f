-- ===== src/Sh/Print.antt =====
-- The lines that the shell of xv6/sh.c accepts, as trees, with their texts and their commands.
use buffer_overflow_attack.Base.{List, [], length, suc, true, zero, ℕ, ◌++◌, ◌<◌, ◌∷◌, ◌≡◌}
use buffer_overflow_attack.Sh.{Cmd, background, exec, is_plain, list, max_args, pipe, redir}

pub data Redirection : Type 0 where
  input output : List ℕ → Redirection

-- A line is pipelines with ';' between them, each behind with so many '&'; a pipeline is simple
-- commands with '|' between them; a simple command is a line in parentheses or words, with redirections.
mutual
  pub data Line : Type 0 where
    final : Pipeline → ℕ → Line
    sequence : Pipeline → ℕ → Line → Line

  pub data Pipeline : Type 0 where
    single : Simple → Pipeline
    piped : Simple → Pipeline → Pipeline

  pub data Simple : Type 0 where
    block : Line → List Redirection → Simple
    words : List (List ℕ) → List Redirection → Simple

-- The text of each, in front of `rest`.
abbrev pub print_word : List ℕ → List ℕ → List ℕ
print_word w rest = w ++ (b' ' ∷ rest)

abbrev pub print_words : List (List ℕ) → List ℕ → List ℕ
print_words [] rest = rest
print_words (w ∷ ws) rest = print_word w (print_words ws rest)

abbrev pub print_redirs : List Redirection → List ℕ → List ℕ
print_redirs [] rest = rest
print_redirs (input w ∷ rs) rest = b'<' ∷ print_word w (print_redirs rs rest)
print_redirs (output w ∷ rs) rest = b'>' ∷ print_word w (print_redirs rs rest)

abbrev pub print_backs : ℕ → List ℕ → List ℕ
print_backs zero rest = rest
print_backs (suc n) rest = b'&' ∷ print_backs n rest

unfoldable mutual
  pub print_line : Line → List ℕ → List ℕ
  print_line (final p n) rest = print_pipeline p (print_backs n rest)
  print_line (sequence p n l) rest = print_pipeline p (print_backs n (b';' ∷ print_line l rest))

  pub print_pipeline : Pipeline → List ℕ → List ℕ
  print_pipeline (single c) rest = print_simple c rest
  print_pipeline (piped c p) rest = print_simple c (b'|' ∷ print_pipeline p rest)

  pub print_simple : Simple → List ℕ → List ℕ
  print_simple (block l rs) rest = b'(' ∷ print_line l (b')' ∷ print_redirs rs rest)
  print_simple (words ws rs) rest = print_words ws (print_redirs rs rest)

-- The command of each.
abbrev pub apply_redirs : List Redirection → Cmd → Cmd
apply_redirs [] cmd = cmd
apply_redirs (input w ∷ rs) cmd = apply_redirs rs (redir cmd w 0 0)
apply_redirs (output w ∷ rs) cmd = apply_redirs rs (redir cmd w 0x201 1)

abbrev pub apply_backs : ℕ → Cmd → Cmd
apply_backs zero cmd = cmd
apply_backs (suc n) cmd = apply_backs n (background cmd)

unfoldable mutual
  pub line_command : Line → Cmd
  line_command (final p n) = apply_backs n (pipeline_command p)
  line_command (sequence p n l) = list (apply_backs n (pipeline_command p)) (line_command l)

  pub pipeline_command : Pipeline → Cmd
  pipeline_command (single c) = simple_tree c
  pipeline_command (piped c p) = pipe (simple_tree c) (pipeline_command p)

  pub simple_tree : Simple → Cmd
  simple_tree (block l rs) = apply_redirs rs (line_command l)
  simple_tree (words ws rs) = apply_redirs rs (exec ws)

-- A word has a byte, and no whitespace and no symbols; there are fewer than MAXARGS in a command.
abbrev pub AllPlain : List ℕ → Type 0
AllPlain [] = Unit {0}
AllPlain (c ∷ w) = (is_plain c ≡ true) × AllPlain w

abbrev pub IsWord : List ℕ → Type 0
IsWord w = AllPlain w × (0 < length w)

abbrev pub EachWord : List (List ℕ) → Type 0
EachWord [] = Unit {0}
EachWord (w ∷ ws) = IsWord w × EachWord ws

abbrev pub file_of_redir : Redirection → List ℕ
file_of_redir (input w) = w
file_of_redir (output w) = w

abbrev pub AllFiles : List Redirection → Type 0
AllFiles [] = Unit {0}
AllFiles (r ∷ rs) = IsWord (file_of_redir r) × AllFiles rs

unfoldable mutual
  pub IsLine : Line → Type 0
  IsLine (final p n) = IsPipeline p
  IsLine (sequence p n l) = IsPipeline p × IsLine l

  pub IsPipeline : Pipeline → Type 0
  IsPipeline (single c) = IsSimple c
  IsPipeline (piped c p) = IsSimple c × IsPipeline p

  pub IsSimple : Simple → Type 0
  IsSimple (block l rs) = IsLine l × AllFiles rs
  IsSimple (words ws rs) = EachWord ws × (length ws < max_args) × AllFiles rs
