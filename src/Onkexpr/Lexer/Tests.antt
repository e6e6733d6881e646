-- ===== src/Onkexpr/Lexer/Tests.antt =====
-- Runs of the lexer on short inputs.
use onekit.Base.{◌≡◌, refl, [], ◌∷◌, bytes}
use onekit.Onkexpr.Source.{
  eof, ident, int, double, string, punct, ok, fail, unexpected_character, invalid_escape,
}
use onekit.Onkexpr.Lexer.{lex}

lex_comparison :
    lex (bytes "a1 <= 10.5e3")
    ≡ ok (
        record { kind = ident; text = bytes "a1"; pos = 0 }
        ∷ record { kind = punct; text = bytes "<="; pos = 3 }
        ∷ record { kind = double; text = bytes "10.5e3"; pos = 6 }
        ∷ record { kind = eof; text = []; pos = 12 }
        ∷ [])
unfolding lex
lex_comparison = refl

-- A dot with no digit behind it is not a part of the number.
lex_method :
    lex (bytes "1.x")
    ≡ ok (
        record { kind = int; text = bytes "1"; pos = 0 }
        ∷ record { kind = punct; text = bytes "."; pos = 1 }
        ∷ record { kind = ident; text = bytes "x"; pos = 2 }
        ∷ record { kind = eof; text = []; pos = 3 }
        ∷ [])
unfolding lex
lex_method = refl

lex_string :
    lex (39 ∷ 97 ∷ 92 ∷ 117 ∷ bytes "20aC'")
    ≡ ok (
        record { kind = string; text = 97 ∷ 226 ∷ 130 ∷ 172 ∷ []; pos = 0 }
        ∷ record { kind = eof; text = []; pos = 9 }
        ∷ [])
unfolding lex
lex_string = refl

lex_bad : lex (bytes "a # b") ≡ fail 2 (unexpected_character 35)
unfolding lex
lex_bad = refl

lex_surrogate : lex (39 ∷ 92 ∷ 117 ∷ bytes "d800'") ≡ fail 2 invalid_escape
unfolding lex
lex_surrogate = refl
