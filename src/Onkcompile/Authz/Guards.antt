-- ===== src/Onkcompile/Authz/Guards.antt =====
-- internal/onkcompile/validate_authz.go and httpkit/guard.go: the guards that the compiler accepts, when
-- a server resolves them.
use mathlib.Core.Option.{some-injective}
use onekit.Base.{
  ◌≡◌, subst, true, Option, none, some, List, [], ◌∷◌, map, Text, bytes, text_eq, text_eq→eq,
  cut_prefix, All, inl, inr, Bool-cases, arith,
}
use onekit.Base.Strings.{split}
use onekit.Onkir.Schema.{Arg}
use onekit.Onkschema.{Decorator, RpcDecl}
use onekit.Onkcompile.Errors.{
  Complaint, CompileError, contains, first_of-none, first_error-none, or_next-none,
}
use onekit.Onkcompile.Decls.{rpc_route}
use onekit.Onkcompile.Paths.{path_parameter_names}
use onekit.Onkcompile.Authz.{
  at_decorator, placeholder_error, segment_checked, pattern_checks, pattern_checked, validate_guard,
}
use onekit.Httpkit.Guard.{
  safe_guard_value, SafeAt, Resolves, resolve_guards, resolve_guards-Resolves,
}

All-contains :
    (P : Text → Type 0) (names : List Text) (name : Text)
    → All P names
    → contains names name ≡ true
    → P name
All-contains P [] name h k = ground (arith, k)
All-contains P (n ∷ names) name h k = elim (Bool-cases (text_eq n name)) [
  | inl e ↦ subst P (text_eq→eq n name e) h.0
  | inr e ↦ All-contains P names name h.1 (ground (arith, e, k))
]

module _ (fail : Complaint → CompileError) (params : List Text) (path_value : Text → Text)
    (safe : All (λ n. safe_guard_value (path_value n) ≡ true) params) where
  placeholder-SafeAt :
      (pattern name : Text) (o : Option Text)
      → placeholder_error fail params pattern o ≡ none
      → o ≡ some name
      → safe_guard_value (path_value name) ≡ true
  placeholder-SafeAt pattern name none h e = ground (arith, e)
  placeholder-SafeAt pattern name (some n) h e = elim (Bool-cases (contains params n)) [
    | inl k ↦
        subst (λ m. safe_guard_value (path_value m) ≡ true) (some-injective _ _ e)
          (All-contains (λ m. safe_guard_value (path_value m) ≡ true) params n safe k)
    | inr k ↦ ground (arith, k, h)
  ]

  segment_checked-SafeAt :
      (pattern s : Text) → segment_checked fail params pattern s ≡ none → SafeAt path_value s
  unfolding segment_checked
  segment_checked-SafeAt pattern s h =
      λ name e. placeholder-SafeAt pattern name (cut_prefix (bytes ":") s) h e

  All-SafeAt :
      (pattern : Text) (ss : List Text)
      → All (λ s. segment_checked fail params pattern s ≡ none) ss
      → All (SafeAt path_value) ss
  All-SafeAt pattern [] h = tt
  All-SafeAt pattern (s ∷ ss) h = (segment_checked-SafeAt pattern s h.0, All-SafeAt pattern ss h.1)

  pattern_checked-SafeAt :
      (a : Arg)
      → pattern_checked fail params a ≡ none
      → All (SafeAt path_value) (split b'/' a.value)
  unfolding pattern_checked
  pattern_checked-SafeAt a h = All-SafeAt a.value (split b'/' a.value) (
      first_error-none (segment_checked fail params a.value) (split b'/' a.value)
        (unfold pattern_checks in (first_of-none (pattern_checks fail params a.value) h).1.0))

  args-SafeAt :
      (args : List Arg)
      → All (λ a. pattern_checked fail params a ≡ none) args
      → All (λ p. All (SafeAt path_value) (split b'/' p)) (map (λ (a : Arg). a.value) args)
  args-SafeAt [] h = tt
  args-SafeAt (a ∷ rest) h = (pattern_checked-SafeAt a h.0, args-SafeAt rest h.1)

-- The patterns of a `@guard` that the compiler accepts resolve for every request whose values of the
-- route's parameters are safe: each is not empty, not `.` or `..`, and has no slash, backslash or
-- control character.
pub resolve_guards-validate_guard :
    (path : Text) (rpc : RpcDecl) (d : Decorator) (path_value : Text → Text)
    → validate_guard path rpc d ≡ none
    → All (λ n. safe_guard_value (path_value n) ≡ true) (path_parameter_names (rpc_route rpc))
    → Resolves (resolve_guards path_value (map (λ (a : Arg). a.value) d.args))
unfolding validate_guard
resolve_guards-validate_guard path rpc d path_value h safe =
    resolve_guards-Resolves path_value (map (λ (a : Arg). a.value) d.args) (
      args-SafeAt (at_decorator path rpc d (bytes "invalid_guard"))
        (path_parameter_names (rpc_route rpc)) path_value safe d.args
        (first_error-none _ d.args (or_next-none _ _ h).1))
