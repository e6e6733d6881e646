-- ===== src/Onkcompile/Decorators/Located.antt =====
-- internal/onkcompile/validate.go: where `validateDecorators` reports an error.
use onekit.Base.{ℕ, ◌≡◌, ◌≢◌, List, ◌∷◌, ◌++◌, Text}
use onekit.Onkschema.{Decorator}
use onekit.Onkcompile.Errors.{CompileError}
use onekit.Onkcompile.Checked.{Checked, passed}
use onekit.Onkcompile.Decorators.{Rules, decorators_checked}

module _ (path : Text) (line : ℕ) where
  -- The error is in the file and at the line and column of the decorator, or, where the decorator has no
  -- line, at the line of the declaration.
  abbrev pub IsAt : Decorator → CompileError → Type 0
  IsAt d e =
      (e.path ≡ path)
      × ((d.line ≢ 0 → (e.line ≡ d.line) × (e.column ≡ d.col))
          × (d.line ≡ 0 → (e.line ≡ line) × (e.column ≡ 0)))

  -- The error is at the place of a decorator before which all pass.
  abbrev pub IsFirstFault : Rules → List Text → List Decorator → CompileError → Type 0
  IsFirstFault rules seen ds e =
      (before : List Decorator) × ((d : Decorator) × ((rest : List Decorator) × ((ds
              ≡ before ++ d ∷ rest)
            × ((decorators_checked path line rules seen before ≡ passed) × IsAt d e))))
