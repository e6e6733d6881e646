-- ===== src/Onkexpr/Parser/Tests.antt =====
-- Runs of the parser; a number with a fraction is read as its text.
use onekit.Base.{◌≡◌, refl, none, some, [], Text, bytes}
use onekit.Base.Int.{pos}
use onekit.Onkexpr.Arith.{plus, times, min_int64}
use onekit.Onkexpr.Source.{Outcome, ok, fail, chained_comparison, ended_before, too_deep}
use onekit.Onkexpr.Syntax.{Node, at, int_lit, ident, binary, call, select, cons, nil, compute}
use onekit.Onkexpr.Parser.{parse}

abbrev run : Text → Outcome (Node Text)
run = parse (λ t. some t)

precedence :
    run (bytes "1+2*3")
    ≡ ok (
        binary
          (at 1)
          (compute plus)
          (int_lit (at 0) (pos 1))
          (binary (at 3) (compute times) (int_lit (at 2) (pos 2)) (int_lit (at 4) (pos 3))))
unfolding parse
precedence = refl

associativity :
    run (bytes "1+2+3")
    ≡ ok (
        binary
          (at 3)
          (compute plus)
          (binary (at 1) (compute plus) (int_lit (at 0) (pos 1)) (int_lit (at 2) (pos 2)))
          (int_lit (at 4) (pos 3)))
unfolding parse
associativity = refl

least_integer : run (bytes "-9223372036854775808") ≡ ok (int_lit (at 0) min_int64)
unfolding parse
least_integer = refl

method_call :
    run (bytes "self.name.size()")
    ≡ ok (
        call
          (at 10)
          (bytes "size")
          (cons (select (at 5) (ident (at 0) (bytes "self")) (bytes "name") none) nil)
          [])
unfolding parse
method_call = refl

chained : run (bytes "1<2<3") ≡ fail 3 chained_comparison
unfolding parse
chained = refl

unclosed : run (bytes "(1") ≡ fail 2 (ended_before (bytes ")"))
unfolding parse
unclosed = refl

-- A bracket costs two levels, and the limit is 48.
abbrev deep : Text
deep = bytes "((((((((((((((((((((((((1))))))))))))))))))))))))"

nested_too_deeply : run deep ≡ fail 24 too_deep
unfolding parse
nested_too_deeply = refl
