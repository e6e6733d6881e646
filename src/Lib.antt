-- ===== src/Lib.antt =====
-- A verification library for onekit, which generates API clients and servers from schemas. It is
-- about the expression language of validation and authorization rules in internal/onkexpr, what the
-- compiled schema says by its decorators in internal/onkir, checks of the compiler in
-- internal/onkcompile, the comparison of schemas in internal/onkcompat, and the package httpkit that
-- generated servers use.
--
-- A rule is a text. `lex` cuts it into tokens, `Parse` builds a tree, `Check` writes types into the
-- tree and picks the fields it selects, and `Eval` runs the tree on a request. Here
--   Onkexpr/Lexer and its children: lexer.go. `lex_loop` is the loop of `lex`, one `lex_step` for
--     each round; Scan has the scanners of words, numbers and punctuation, Strings `scanString`.
--   Onkexpr/Syntax and Onkexpr/Source: ast.go, and the tokens and errors of the front end.
--   Onkexpr/Parser and its children: parser.go. `parse_ternary`, `parse_unary` and the levels
--     between are the methods of the source; Cursor has the parser's state and its small steps.
--   Onkexpr/Check, Check/Types and Check/Rules: check.go. The source writes a type into each node; a
--     check here returns the node with the type written. The texts of the errors are data.
--   Onkexpr/Soundness and its children: the rules of check.go against the operations of eval.go.
--   Onkexpr/Arith: `intArithmetic` of eval.go, with the wrap-around of int64 written out.
--   Onkexpr/Value, Operators, Exec and Eval: the evaluator of eval.go. The scope is a Go map that the
--     evaluator writes to, so an action returns the scope that it leaves.
--   Onkexpr/Json: `FromJSON` of eval.go, which makes the values of a message.
--   Onkexpr/Rules: rules.go, which collects the rules of a message and reports those that a value breaks.
--   Onkexpr/Pattern: regex.go, `ValidateRegex`: the checks of the text, and the recursive descent on the runes
--     that Base/Utf8 reads from it. The checker asks it of the pattern of a `matches`.
--   Onkexpr/Authorize: authorize.go, the rules of authorization of a method.
--   Onkir/Schema: internal/onkir/ir.go. A pointer is an address into a store.
--   Onkir/Decorators, Members, Methods, Paths, ByteSize, Names and Walk: internal/onkir/helpers.go. Walk has the
--     searches of the message graph, by the search of Base/Search.
--   Onkschema: the declarations of internal/onkschema/schema.go.
--   Onkcompile/Paths: `validateHTTPPath` and `pathParameterNames`; Authz: validate_authz.go.
--   Onkcompile/Checked: an error that may be nil, or a panic. Decorators, Types, Values, Fields and Enums:
--     `validateDecorators`, `validateFieldDecl` and `validateEnumDecl` of validate.go. Bounds: bounds.go.
--     Headers: `validateHeaders` of validate_service.go.
--   Onkcompat and its children: `Compare` of internal/onkcompat/compat.go. Signatures has the texts that are
--     compared, its children what equal texts say of types and constraints, Collect the maps of a package,
--     Compare and Report the findings.
--   Httpkit/Guard: httpkit/guard.go. Recorder: recorder.go, with the calls that the wrapped writer gets.
--   Httpkit/ClientIp and State: state.go. Handlers: `Health`, `SPA` and `IfNoneMatch` of handlers.go.
--   Httpkit/Envelope: envelope.go, the response to a failed request.
--   Base: text as bytes, integers over the native numbers, decimal and UTF-8 reading, lists.
--
-- Bounds: the loop of the lexer has one more round than the source has bytes, and each round takes at
-- least one byte. The parser has one more than the number of tokens for its calls and for the rounds of
-- each loop, and every call and round takes a token. Nesting is bounded by 48 levels as in the source. A
-- pattern takes one more round of a loop than it has runes, and its groups nest 8 levels at most, as in
-- the source. A search of messages has one more round than there are messages, since each is entered
-- once. A run of these that would need more fuel has an outcome of its own, `out_of_fuel`. The
-- comparison of packages has none: its walks from a message to those that it uses, and into nested
-- messages and enums, go at most `size` + 1 levels deep and stop there. `size` stands for the number of
-- messages of the package, which the source does not keep, and is a number of the model's package: its
-- results hold for every such number.
--
-- Where a result asks that every enum has a value, or that its values have different names:
-- internal/onkcompile/validate.go refuses a schema with another one. That each field is the first of its
-- name in its message is asked of the schema too.
--
-- Parameters: float64 is a type `F` with the operations that the evaluator uses, and nothing is assumed
-- of them; `strconv.ParseFloat`, base64 and the matching of regular expressions are functions; that of
-- regular expressions has no result for a pattern that does not compile, where `fullMatch` panics, and
-- the results on the evaluator ask that the patterns that `ValidateRegex` accepts compile.
-- `strings.ToLower`, which needs the tables of Unicode, is one where a name may not be ASCII. Of net and
-- net/netip the functions are a record of parameters, `json.Marshal` is a function that may fail;
-- `regexp.Compile` and the parser of regexp/syntax are functions, and so is the test for an uppercase
-- letter; a file system says of a name whether it is there and a directory. Go's panics are errors of
-- the model: a missing argument, a missing type, a pattern that does not compile, and the comparison of
-- two slices or maps.
--
-- Not modelled: the lowering of expressions to other languages, the texts of errors, the middleware of
-- httpkit with the digests of its entity tags, the call of `OnServe` before a file is served, what
-- net/http sends on a `Flush`, `Unwrap` of the recorder, and the other parts of the repository: the
-- generators and the importers are text templates and conversions. Of the compiler messages, services
-- and RPCs, the resolution of types and the checks of the whole contract are left out.
pub mod Base
pub mod Onkir
pub mod Onkexpr
pub mod Onkschema
pub mod Onkcompile
pub mod Onkcompat
pub mod Httpkit
