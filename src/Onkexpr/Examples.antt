-- ===== src/Onkexpr/Examples.antt =====
-- internal/onkexpr: runs of the evaluator, and the theorems at concrete inputs.
use onekit.Base.{
  ◌≡◌, ◌≢◌, refl, false, none, some, List, [], ◌∷◌, Text, bytes, arith, text_eq, if◌then◌else◌,
}
use onekit.Base.Int.{ℤ, pos, negsuc}
use onekit.Onkexpr.Arith.{plus, times, int_arithmetic, min_int64, int_add}
use onekit.Onkexpr.Arith.Exact.{exact, int_arithmetic-exact}
use onekit.Onkexpr.Outcome
use onekit.Onkexpr.Source
use onekit.Onkexpr.Source.{Token, ident, punct, int, eof}
use onekit.Onkexpr.Lexer.{lex}
use onekit.Onkexpr.Lexer.Located.{Lexed, lex-ne-out_of_fuel, lex-Lexed}
use onekit.Onkexpr.Syntax
use onekit.Onkexpr.Syntax.{
  Node, at, int_lit, ident, list_lit, quantified, every, some_item, binary, less, compute,
}
use onekit.Onkexpr.Parser.{parse}
use onekit.Onkexpr.Parser.Termination.{parse-ne-out_of_fuel}
use onekit.Onkexpr.Value.{Value}
use onekit.Onkexpr.Exec.{Scope}
use onekit.Onkexpr.Samples.{equal_texts, whole_numbers, schema}
use onekit.Onkexpr.Eval.{eval}
use onekit.Onkexpr.Eval.ScopeLaws.{scope-eval}

int_arithmetic-exact_example :
    int_arithmetic times min_int64 (negsuc 0) ≡ exact times min_int64 (negsuc 0)
int_arithmetic-exact_example =
    int_arithmetic-exact times min_int64 (negsuc 0) (ground arith) (ground arith)

add_in_range : int_arithmetic plus (pos 40) (pos 2) ≡ Outcome.ok (pos 42)
unfolding int_arithmetic int_add
add_in_range = refl

abbrev source : Text
source = bytes "a < 10"

abbrev tokens : List Token
tokens =
    record { kind = Source.ident; text = bytes "a"; pos = 0 }
    ∷ record { kind = punct; text = bytes "<"; pos = 2 }
    ∷ record { kind = Source.int; text = bytes "10"; pos = 4 }
    ∷ record { kind = eof; text = []; pos = 6 }
    ∷ []

lex-source : lex source ≡ Source.ok tokens
unfolding lex
lex-source = refl

lex-ne-out_of_fuel_example : lex source ≢ Source.out_of_fuel
lex-ne-out_of_fuel_example = lex-ne-out_of_fuel source

lex-Lexed_example : Lexed 0 source tokens
lex-Lexed_example = lex-Lexed source tokens lex-source

parse-ne-out_of_fuel_example : parse {F = Text} (λ t. some t) source ≢ Source.out_of_fuel
parse-ne-out_of_fuel_example = parse-ne-out_of_fuel (λ t. some t) source

-- `[1, 2].all(x, x < 2)`
abbrev all_small : Node ℤ
all_small =
    quantified (at 7) every
      (list_lit (at 0)
        (Syntax.cons (int_lit (at 1) (pos 1)) (Syntax.cons (int_lit (at 4) (pos 2)) Syntax.nil)))
      (bytes "x") (binary (at 16) less (Syntax.ident (at 14) (bytes "x")) (int_lit (at 18) (pos 2)))

abbrev bound : Scope ℤ
bound name = if text_eq name (bytes "x") then some (Value.string (bytes "kept")) else none

all_small_runs :
    (eval whole_numbers schema equal_texts all_small bound).0 ≡ Outcome.ok (Value.bool false)
unfolding eval
all_small_runs = refl

scope-eval_example : (eval whole_numbers schema equal_texts all_small bound).1 ≡ bound
scope-eval_example = scope-eval whole_numbers schema equal_texts all_small bound
