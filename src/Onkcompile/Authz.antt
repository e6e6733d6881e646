-- ===== src/Onkcompile/Authz.antt =====
-- internal/onkcompile/validate_authz.go: what `@requires`, `@meta`, `@guard`, `@authorize` and `@success`
-- may say.
pub mod Guards
use onekit.Base.{
  ℕ, ◌≡◌, Bool, true, false, not, Option, none, some, List, [], ◌∷◌, map, Text, bytes, text_eq,
  cut_prefix, ◌&&◌, ◌||◌, ltb, between, ◌==◌, any, all, keep, length, if◌then◌else◌,
}
use onekit.Base.Int.{ℤ, pos, ltb_ℤ}
use onekit.Base.Decimal.{parse_int64}
use onekit.Base.Strings.{split}
use onekit.Onkir.Schema.{Arg}
use onekit.Onkschema.{Decorator, RpcDecl}
use onekit.Onkcompile.Errors.{
  Complaint, CompileError, requires_needs_scope, single_requires, authorize_arguments,
  meta_arguments, guard_pattern_size, guard_needs_pattern, success_takes_one, success_on_stream,
  invalid_scope, duplicate_scope, not_on_ws, invalid_meta_key, meta_value_size, duplicate_meta_key,
  success_status, guard_placeholder, at_line, contains, refuse, or_next, first_of, first_error,
}
use onekit.Onkcompile.Names.{is_letter_or_digit}
use onekit.Onkcompile.Decls.{has_declared, first_value, rpc_route}
use onekit.Onkcompile.Paths.{path_parameter_names}

-- `validScopeName`
unfoldable pub valid_scope_name : Text → Bool
valid_scope_name value =
    not (text_eq value [])
    && all (λ c. is_letter_or_digit c || any (λ d. c == d) (bytes ":_.-/")) value

-- The loop over the scopes, with the set of those seen.
unfoldable pub scopes_checked : Text → ℕ → List Text → List Arg → Option CompileError
unfolding valid_scope_name first_of
scopes_checked path line seen [] = none
scopes_checked path line seen (a ∷ rest) = first_of (
    refuse (not (valid_scope_name a.value)) (at_line path line (invalid_scope a.value))
    ∷ refuse (contains seen a.value) (at_line path line (duplicate_scope a.value))
    ∷ scopes_checked path line (a.value ∷ seen) rest
    ∷ [])

-- `validateRequires`
unfoldable pub validate_requires : Text → RpcDecl → Decorator → Option CompileError
unfolding scopes_checked first_of
validate_requires path rpc d = first_of (
    refuse (length d.args == 0) (at_line path rpc.line requires_needs_scope)
    ∷ refuse (ltb 1 (length (keep (λ o. text_eq o.name (bytes "requires")) rpc.decorators)))
        (at_line path rpc.line single_requires)
    ∷ scopes_checked path rpc.line [] d.args
    ∷ [])

-- The position of the decorator, or of its RPC where it has none.
abbrev pub at_decorator : Text → RpcDecl → Decorator → Text → Complaint → CompileError
at_decorator path rpc d code msg = record {
  path = path;
  line = if d.line == 0 then rpc.line else d.line;
  column = if d.line == 0 then rpc.col else d.col;
  code = code;
  msg = msg;
}

abbrev starts_lower : Text → Bool
starts_lower [] = false
starts_lower (c ∷ s) = between b'a' b'z' c

abbrev is_key_byte : ℕ → Bool
is_key_byte c = between b'a' b'z' c || between b'0' b'9' c || c == b'.' || c == b'_' || c == b'-'

-- `validMetaKey`
unfoldable pub valid_meta_key : Text → Bool
valid_meta_key key = not (ltb 64 (length key)) && starts_lower key && all is_key_byte key

abbrev same_key : List Arg → Text → Bool
same_key (a ∷ b ∷ []) key = text_eq a.value key
same_key _ key = false

-- Another `@meta` of the RPC with the key.
abbrev is_other_meta : Decorator → Text → Decorator → Bool
is_other_meta d key other =
    text_eq other.name (bytes "meta")
    && same_key other.args key
    && (not (other.line == d.line) || not (other.col == d.col))

abbrev meta_checked :
    (Complaint → CompileError) → RpcDecl → Decorator → List Arg → Option CompileError
unfolding valid_meta_key first_of
meta_checked fail rpc d (k ∷ v ∷ []) = first_of (
    refuse (not (valid_meta_key k.value)) (fail (invalid_meta_key k.value))
    ∷ refuse (text_eq v.value [] || ltb 200 (length v.value)) (fail (meta_value_size k.value))
    ∷ refuse (any (is_other_meta d k.value) rpc.decorators) (fail (duplicate_meta_key k.value))
    ∷ [])
meta_checked fail rpc d _ = some (fail meta_arguments)

-- `validateMeta`
unfoldable pub validate_meta : Text → RpcDecl → Decorator → Option CompileError
unfolding meta_checked
validate_meta path rpc d =
    meta_checked (at_decorator path rpc d (bytes "invalid_meta")) rpc d d.args

abbrev pub placeholder_error :
    (Complaint → CompileError) → List Text → Text → Option Text → Option CompileError
placeholder_error fail params pattern none = none
placeholder_error fail params pattern (some name) =
    refuse (not (contains params name)) (fail (guard_placeholder name pattern))

unfoldable pub segment_checked :
    (Complaint → CompileError) → List Text → Text → Text → Option CompileError
unfolding cut_prefix
segment_checked fail params pattern segment =
    placeholder_error fail params pattern (cut_prefix (bytes ":") segment)

-- A round of the loop over the patterns.
unfoldable pub pattern_checks :
    (Complaint → CompileError) → List Text → Text → List (Option CompileError)
unfolding segment_checked first_error split
pattern_checks fail params pattern =
    refuse (text_eq pattern [] || ltb 200 (length pattern)) (fail guard_pattern_size)
    ∷ first_error (segment_checked fail params pattern) (split b'/' pattern)
    ∷ []

unfoldable pub pattern_checked : (Complaint → CompileError) → List Text → Arg → Option CompileError
unfolding pattern_checks first_of
pattern_checked fail params a = first_of (pattern_checks fail params a.value)

-- `validateGuard`
unfoldable pub validate_guard : Text → RpcDecl → Decorator → Option CompileError
unfolding pattern_checked first_error
validate_guard path rpc d =
    let fail = at_decorator path rpc d (bytes "invalid_guard") in
    or_next (refuse (length d.args == 0) (fail guard_needs_pattern))
      (first_error (pattern_checked fail (path_parameter_names (rpc_route rpc))) d.args)

abbrev is_2xx : Option ℤ → Bool
is_2xx none = false
is_2xx (some n) = not (ltb_ℤ n (pos 200)) && not (ltb_ℤ (pos 299) n)

-- `validateSuccess`
unfoldable pub validate_success : Text → RpcDecl → Decorator → Option CompileError
unfolding first_of has_declared
validate_success path rpc d = first_of (
    refuse (not (length d.args == 1)) (at_line path rpc.line success_takes_one)
    ∷ refuse (not (is_2xx (parse_int64 (first_value d.args))))
        (at_line path rpc.line (success_status (first_value d.args)))
    ∷ refuse
        (has_declared rpc.decorators (bytes "stream") || has_declared rpc.decorators (bytes "ws"))
        (at_line path rpc.line success_on_stream)
    ∷ [])

-- `validateAuthorization`
unfoldable pub validate_authorization : Text → RpcDecl → Decorator → Option CompileError
unfolding validate_requires validate_meta validate_guard
validate_authorization path rpc d =
    if text_eq d.name (bytes "requires")
    then validate_requires path rpc d
    else if text_eq d.name (bytes "meta")
    then validate_meta path rpc d
    else if text_eq d.name (bytes "guard")
    then validate_guard path rpc d
    else refuse (not (length d.args == 2)) (record {
      path = path;
      line = rpc.line;
      column = d.col;
      code = [];
      msg = authorize_arguments;
    })

-- `rejectAuthorizationOnWS`
unfoldable pub reject_authorization_on_ws : Text → RpcDecl → Option CompileError
unfolding first_error has_declared
reject_authorization_on_ws path rpc =
    first_error
      (λ name. refuse (has_declared rpc.decorators name) (at_line path rpc.line (not_on_ws name)))
      (map bytes ("requires" ∷ "authorize" ∷ "meta" ∷ "guard" ∷ []))
