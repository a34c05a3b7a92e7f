-- ===== src/Tests/ShTests.antt =====
-- The parser of xv6/sh.c on lines.
use buffer_overflow_attack.Base.{[], arith, refl, ◌∷◌, ◌≡◌}
use buffer_overflow_attack.Sh.{parsecmd, parsed, syntax_error}
use buffer_overflow_attack.Sh.Ends.{parsecmd-Ends, Ends}
use buffer_overflow_attack.Sh.Print.{
  Line, IsLine, block, final, line_command, output, piped, print_line, sequence, single, words,
}
use buffer_overflow_attack.Sh.Trip.{parsecmd-print_line}

-- "(a;b" without its parenthesis.
parsecmd-Ends_example : Ends 0 (parsecmd (b'(' ∷ b'a' ∷ b';' ∷ b'b' ∷ []))
parsecmd-Ends_example = parsecmd-Ends (b'(' ∷ b'a' ∷ b';' ∷ b'b' ∷ [])

unclosed : parsecmd (b'(' ∷ b'a' ∷ b';' ∷ b'b' ∷ []) ≡ syntax_error
unfolding parsecmd
unclosed = refl

-- "(a ;b & )>c |d x ", printed.
abbrev piped_block : Line
piped_block =
    final
      (piped
        (block
          (sequence (single (words ((b'a' ∷ []) ∷ []) [])) 0
            (final (single (words ((b'b' ∷ []) ∷ []) [])) 1))
          (output (b'c' ∷ []) ∷ []))
        (single (words ((b'd' ∷ []) ∷ (b'x' ∷ []) ∷ []) [])))
      0

piped_block-IsLine : IsLine piped_block
unfolding IsLine
piped_block-IsLine = (
  (
    (
      ((((refl, tt), omega arith), tt), omega arith, tt),
      ((((refl, tt), omega arith), tt), omega arith, tt),
    ),
    (((refl, tt), omega arith), tt),
  ),
  ((((refl, tt), omega arith), (((refl, tt), omega arith), tt)), omega arith, tt),
)

parsecmd-print_line_example :
    parsecmd (print_line piped_block []) ≡ parsed (line_command piped_block) []
parsecmd-print_line_example = parsecmd-print_line piped_block piped_block-IsLine
