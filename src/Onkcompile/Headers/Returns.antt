-- ===== src/Onkcompile/Headers/Returns.antt =====
-- internal/onkcompile/validate_service.go: `validateHeaders` never indexes out of range.
use onekit.Base.{
  ◌≡◌, refl, Bool, Option, none, some, List, [], ◌∷◌, Text, text_eq, bytes, All, arith,
}
use onekit.Base.Dict.{lookup}
use onekit.Onkschema.{Decorator, HeaderDecl}
use onekit.Onkcompile.Decls.{find_declared}
use onekit.Onkcompile.Checked.{pass_all, Returns, when-Returns, and_next-Returns, pass_all-Returns}
use onekit.Onkcompile.Decorators.{header_decorators}
use onekit.Onkcompile.Decorators.Counted.{
  IsCounted, TakesAtLeast, CoversValues, args_found, with_value-Returns,
  validate_decorators-Returns, validate_decorators-IsCounted,
}
use onekit.Onkcompile.Fields.Returns.{find_declared-All}
use onekit.Onkcompile.Headers.{
  name_checks, auth_checks, auth_checked, format_checked, header_checks, headers_checked,
  validate_headers,
}

headers_take :
    CoversValues header_decorators
    × (TakesAtLeast header_decorators (bytes "auth") 1
        × TakesAtLeast header_decorators (bytes "format") 1)
unfolding header_decorators lookup text_eq
headers_take = ((tt, omega arith), (omega arith, omega arith))

module _ (to_lower : Text → Text) (equal_fold : Text → Text → Bool) (path : Text) where
  names-Returns :
      (seen : List Text) (h : HeaderDecl)
      → Returns (pass_all (name_checks to_lower equal_fold path seen h))
  unfolding name_checks
  names-Returns seen h =
      pass_all-Returns (name_checks to_lower equal_fold path seen h)
        (when-Returns _ _, λ _. (when-Returns _ _, λ _. (when-Returns _ _, λ _. tt)))

  auth_checks-Returns :
      (h : HeaderDecl) (v : Text) → Returns (pass_all (auth_checks to_lower equal_fold path h v))
  unfolding auth_checks
  auth_checks-Returns h v =
      pass_all-Returns (auth_checks to_lower equal_fold path h v)
        (when-Returns _ _, λ _. (when-Returns _ _, λ _. tt))

  auth_checked-Returns :
      (h : HeaderDecl) (o : Option Decorator)
      → find_declared h.decorators (bytes "auth") ≡ o
      → All (IsCounted header_decorators) h.decorators
      → Returns (auth_checked to_lower equal_fold path h o)
  unfolding auth_checked
  auth_checked-Returns h none e c = when-Returns _ _
  auth_checked-Returns h (some d) e c =
      let found =
        find_declared-All (IsCounted header_decorators) h.decorators (bytes "auth") d c e in
      with_value-Returns 0 d.args _
        (args_found header_decorators d (bytes "auth") 1 found.0 headers_take.1.0 found.1)
        (auth_checks-Returns h)

  format_checked-Returns :
      (h : HeaderDecl) (o : Option Decorator)
      → find_declared h.decorators (bytes "format") ≡ o
      → All (IsCounted header_decorators) h.decorators
      → Returns (format_checked to_lower equal_fold path h o)
  unfolding format_checked
  format_checked-Returns h none e c = tt
  format_checked-Returns h (some d) e c =
      let found =
        find_declared-All (IsCounted header_decorators) h.decorators (bytes "format") d c e in
      with_value-Returns 0 d.args _
        (args_found header_decorators d (bytes "format") 1 found.0 headers_take.1.1 found.1)
        (λ v. when-Returns _ _)

  header-Returns :
      (seen : List Text) (h : HeaderDecl)
      → Returns (pass_all (header_checks to_lower equal_fold path seen h))
  unfolding header_checks
  header-Returns seen h = pass_all-Returns (header_checks to_lower equal_fold path seen h) (
    names-Returns seen h,
    λ _. (
      validate_decorators-Returns path h.line h.decorators header_decorators headers_take.0,
      λ c. (
        when-Returns _ _,
        λ _. (
          auth_checked-Returns h _ refl
              (validate_decorators-IsCounted path h.line h.decorators header_decorators c),
          λ _. (
            format_checked-Returns h _ refl
                (validate_decorators-IsCounted path h.line h.decorators header_decorators c),
            λ _. tt,
          ),
        ),
      ),
    ),
  )

  headers-Returns :
      (seen : List Text) (hs : List HeaderDecl)
      → Returns (headers_checked to_lower equal_fold path seen hs)
  unfolding headers_checked
  headers-Returns seen [] = tt
  headers-Returns seen (h ∷ hs) =
      and_next-Returns _ _ (header-Returns seen h)
        (λ _. headers-Returns (to_lower h.name ∷ seen) hs)

  -- `validateHeaders` returns for all headers: none of the arguments that it indexes is missing.
  pub validate_headers-Returns :
      (hs : List HeaderDecl) → Returns (validate_headers to_lower equal_fold path hs)
  unfolding validate_headers
  validate_headers-Returns hs = headers-Returns [] hs
