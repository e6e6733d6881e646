-- ===== src/Onkexpr/Pattern.antt =====
-- internal/onkexpr/regex.go: `ValidateRegex` on the runes of a pattern, without the positions in the texts
-- of its errors. What is left of the pattern is no structural part of it across a group, so `alternation`
-- takes fuel, and the loops take their own.
pub mod Bounded
mod Tests
use onekit.Base.Utf8.{decode_runes}
use onekit.Base.{
  ◌≡◌, ◌≢◌, ℕ, zero, suc, ◌+◌, ◌-◌, ◌*◌, ◌≤◌, Bool, true, false, not, ◌&&◌, ◌||◌, Option, none,
  some, List, [], ◌∷◌, Text, bytes, length, between, ltb, leb, any, ◌==◌, if◌then◌else◌,
}

pub data PatternError : Type 0 where
  too_deep empty_alternative missing_paren only_plain_groups : PatternError
  nested_repetition repeated_alternation : PatternError
  dot_not_portable no_anchors nothing_to_repeat needs_escape : PatternError
  ends_with_backslash dash_outside_class not_portable : PatternError
  missing_bracket empty_class backwards_range nested_brackets literal_dash literal_caret doubled :
      PatternError
  lazy_quantifier possessive_quantifier : PatternError
  expected_number open_ended missing_brace bad_bounds : PatternError
  unmatched_paren empty_pattern too_long not_utf8 : PatternError

-- `out_of_fuel` has no counterpart in the program.
pub data Parsed (A : Type 0) : Type 0 where
  ok : A → Parsed A
  failed : PatternError → Parsed A
  out_of_fuel : Parsed A

-- `regexParser`: the rune before the position, and the runes from there.
pub data Cursor : Type 0 where
  from : Option ℕ → List ℕ → Cursor

abbrev pub rest_of : Cursor → List ℕ
rest_of (from b rest) = rest

abbrev pub Reader : Type 0 → Type 0
Reader A = Cursor → Parsed (A × Cursor)

module _ {A B : Type 0} where
  abbrev pub bind : Parsed A → (A → Parsed B) → Parsed B
  bind (ok a) f = f a
  bind (failed e) f = failed e
  bind out_of_fuel f = out_of_fuel

abbrev pub behind : ℕ → List ℕ → Cursor
behind c rest = from (some c) rest

-- `regexInfo`: whether a part repeats, and whether it holds an alternative.
pub record Info : Type 0 where
  pub repeats : Bool
  pub alternation : Bool

abbrev pub plain : Info
plain = record { repeats = false; alternation = false }

abbrev pub join : Info → Info → Info
join a b = record { repeats = a.repeats || b.repeats; alternation = a.alternation || b.alternation }

abbrev is_one_of : Text → ℕ → Bool
is_one_of cs c = any (λ d. d == c) cs

-- `escape`, behind the backslash.
unfoldable pub escape : Bool → Reader ℕ
escape in_class (from b []) = failed ends_with_backslash
escape in_class (from b (c ∷ rest)) =
    if c == b'n'
    then ok (10, behind c rest)
    else if c == b't'
    then ok (9, behind c rest)
    else if c == b'r'
    then ok (13, behind c rest)
    else if is_one_of (bytes "\\.^$|?*+()[]{}/") c
    then ok (c, behind c rest)
    else if c == b'-'
    then (if in_class then ok (c, behind c rest) else failed dash_outside_class)
    else failed not_portable

abbrev same_as : ℕ → Option ℕ → Bool
same_as c none = false
same_as c (some d) = c == d

-- `classChar`, at a rune.
unfoldable pub class_char : Option ℕ → ℕ → List ℕ → Parsed (ℕ × Cursor)
unfolding escape
class_char b c rest =
    if c == 92
    then escape true (behind c rest)
    else if c == b'['
    then failed nested_brackets
    else if c == b'-'
    then failed literal_dash
    else if c == b'^'
    then failed literal_caret
    else if is_one_of (bytes "&|~") c && same_as c b
    then failed doubled
    else ok (c, behind c rest)

-- The upper end of a range behind a dash.
abbrev pub class_end : ℕ → ℕ × Cursor → Parsed Cursor
class_end low (high, s) = if ltb high low then failed backwards_range else ok s

-- What follows a rune of a class: a dash and the end of a range, unless the dash is the last rune.
unfoldable pub class_range : ℕ → Cursor → Parsed Cursor
unfolding class_char
class_range low (from b (d ∷ c ∷ rest)) =
    if d == b'-' && not (c == b']')
    then bind (class_char (some d) c rest) (class_end low)
    else ok (from b (d ∷ c ∷ rest))
class_range low s = ok s

-- The loop of `class`, which has read an item or not.
unfoldable pub class_loop : ℕ → Bool → Cursor → Parsed Cursor
unfolding class_char class_range
class_loop zero started s = out_of_fuel
class_loop (suc f) started (from b []) = failed missing_bracket
class_loop (suc f) started (from b (c ∷ rest)) =
    let more =
      bind (class_char b c rest) λ (low, s). bind (class_range low s) (class_loop f true) in
    if c == b']' then (if started then ok (behind c rest) else failed empty_class) else more

-- `class`, behind the opening bracket: a caret may stand first.
unfoldable pub class_start : ℕ → List ℕ → Cursor
class_start b [] = behind b []
class_start b (c ∷ rest) = if c == b'^' then behind c rest else behind b (c ∷ rest)

abbrev pub no_info : Parsed Cursor → Parsed (Info × Cursor)
no_info r = bind r λ s. ok (plain, s)

abbrev pub class : ℕ → List ℕ → Parsed (Info × Cursor)
class b rest = no_info (class_loop (suc (length rest)) false (class_start b rest))

-- `atom`, at a rune, given the parser of a group.
abbrev pub closed : Info × Cursor → Parsed (Info × Cursor)
closed (info, from b []) = failed missing_paren
closed (info, from b (c ∷ rest)) =
    if c == b')' then ok (info, behind c rest) else failed missing_paren

unfoldable pub group_start : ℕ → List ℕ → Parsed Cursor
group_start b (c ∷ d ∷ rest) =
    if c == b'?'
    then (if d == b':' then ok (behind d rest) else failed only_plain_groups)
    else ok (behind b (c ∷ d ∷ rest))
group_start b (c ∷ []) = if c == b'?' then failed only_plain_groups else ok (behind b (c ∷ []))
group_start b [] = ok (behind b [])

unfoldable pub atom : Reader Info → ℕ → List ℕ → Parsed (Info × Cursor)
unfolding escape class_loop class_start group_start
atom inner c rest =
    let group = bind (group_start c rest) λ s. bind (inner s) closed in
    if c == b'('
    then group
    else if c == b'['
    then class c rest
    else if c == 92
    then bind (escape false (behind c rest)) (λ (r, s). ok (plain, s))
    else if c == b'.'
    then failed dot_not_portable
    else if is_one_of (bytes "^$") c
    then failed no_anchors
    else if is_one_of (bytes "*+?{") c
    then failed nothing_to_repeat
    else if is_one_of (bytes "}]") c
    then failed needs_escape
    else ok (plain, behind c rest)

-- `number`: the digits, and whether there were any. The value stays below ten times the bound.
unfoldable pub number_loop : ℕ → Bool → Option ℕ → List ℕ → (ℕ × Bool) × Cursor
number_loop value found b [] = ((value, found), from b [])
number_loop value found b (c ∷ rest) =
    let v = value * 10 + (c - b'0') in
    let more = number_loop (if ltb 10000 v then 10000 else v) true (some c) rest in
    if between b'0' b'9' c then more else ((value, found), from b (c ∷ rest))

-- The end of `bounds`.
unfoldable pub bounds_end : ℕ → ℕ → Cursor → Parsed Cursor
bounds_end low high (from b []) = failed missing_brace
bounds_end low high (from b (c ∷ rest)) =
    if c == b'}'
    then (if ltb high low || ltb 1000 high then failed bad_bounds else ok (behind c rest))
    else failed missing_brace

abbrev pub upper_bound : ℕ → (ℕ × Bool) × Cursor → Parsed Cursor
upper_bound low ((high, found), s) = if found then bounds_end low high s else failed open_ended

unfoldable pub bounds_tail : ℕ → Cursor → Parsed Cursor
unfolding number_loop bounds_end
bounds_tail low (from b []) = failed missing_brace
bounds_tail low (from b (c ∷ rest)) =
    if c == b','
    then upper_bound low (number_loop 0 false (some c) rest)
    else bounds_end low low (from b (c ∷ rest))

-- `bounds`, behind the opening brace.
abbrev pub bounds_from : (ℕ × Bool) × Cursor → Parsed Cursor
bounds_from ((low, found), s) = if found then bounds_tail low s else failed expected_number

-- The quantifiers of the source.
pub data Quant : Type 0 where
  absent optional repeat : Quant

-- No quantifier may follow a quantifier.
unfoldable pub quantified : Quant → Cursor → Parsed (Quant × Cursor)
quantified q (from b []) = ok (q, from b [])
quantified q (from b (c ∷ rest)) =
    if c == b'?'
    then failed lazy_quantifier
    else if c == b'+'
    then failed possessive_quantifier
    else if c == b'*' || c == b'{'
    then failed nested_repetition
    else ok (q, from b (c ∷ rest))

-- `quantifier`
unfoldable pub quantifier : Reader Quant
unfolding number_loop bounds_tail quantified
quantifier (from b []) = ok (absent, from b [])
quantifier (from b (c ∷ rest)) =
    if c == b'?'
    then quantified optional (behind c rest)
    else if c == b'*' || c == b'+'
    then quantified repeat (behind c rest)
    else if c == b'{'
    then bind (bounds_from (number_loop 0 false (some c) rest)) (quantified repeat)
    else ok (absent, from b (c ∷ rest))

-- The end of a round of `concat`.
abbrev pub repeated : Info → Info → Quant → Parsed Info
repeated info a repeat =
    if a.repeats
    then failed nested_repetition
    else if a.alternation
    then failed repeated_alternation
    else ok (record (join info a) { repeats = true })
repeated info a _ = ok (join info a)

abbrev pub concat_end : Bool → Info → Cursor → Parsed (Info × Cursor)
concat_end started info s = if started then ok (info, s) else failed empty_alternative

-- The loop of `concat`.
unfoldable pub concat_loop : ℕ → Reader Info → Bool → Info → Cursor → Parsed (Info × Cursor)
unfolding atom quantifier
concat_loop zero inner started info s = out_of_fuel
concat_loop (suc f) inner started info (from b []) = concat_end started info (from b [])
concat_loop (suc f) inner started info (from b (c ∷ rest)) =
    let more = bind (atom inner c rest) λ (a, s).
      bind (quantifier s)
        λ (q, s'). bind (repeated info a q) λ info'. concat_loop f inner true info' s' in
    if c == b'|' || c == b')' then concat_end started info (from b (c ∷ rest)) else more

abbrev pub concat : Reader Info → Reader Info
concat inner s = concat_loop (suc (length (rest_of s))) inner false plain s

-- The loop of `alternation`.
abbrev pub next_branch :
    (Info → Cursor → Parsed (Info × Cursor)) → Info → Cursor → Parsed (Info × Cursor)
next_branch loop info (from b []) = ok (info, from b [])
next_branch loop info (from b (c ∷ rest)) =
    if c == b'|'
    then loop (record info { alternation = true }) (behind c rest)
    else ok (info, from b (c ∷ rest))

unfoldable pub branch_loop : ℕ → Reader Info → Info → Cursor → Parsed (Info × Cursor)
unfolding concat_loop
branch_loop zero inner info s = out_of_fuel
branch_loop (suc f) inner info s =
    bind (concat inner s) λ (branch, s'). next_branch (branch_loop f inner) (join info branch) s'

-- `alternation`, with fuel for the groups: their depth is bounded.
unfoldable pub alternation : ℕ → ℕ → Reader Info
unfolding branch_loop
alternation zero depth s = out_of_fuel
alternation (suc f) depth s =
    let branches = branch_loop (suc (length (rest_of s))) (alternation f (suc depth)) plain s in
    if ltb 8 depth then failed too_deep else branches

abbrev pub at_end : Info × Cursor → Parsed (Unit {0})
at_end (info, from b []) = ok tt
at_end (info, from b (c ∷ rest)) = failed unmatched_paren

-- `ValidateRegex` behind the checks of the text: its runes, read from the first.
unfoldable pub validate_runes : List ℕ → Parsed (Unit {0})
unfolding alternation
validate_runes runes = bind (alternation 10 0 (from none runes)) at_end

-- `ValidateRegex`
abbrev on_runes : Option (List ℕ) → Parsed (Unit {0})
unfolding validate_runes
on_runes none = failed not_utf8
on_runes (some runes) = validate_runes runes

unfoldable pub validate_regex : Text → Parsed (Unit {0})
unfolding on_runes decode_runes
validate_regex [] = failed empty_pattern
validate_regex (c ∷ s) =
    if ltb 256 (length (c ∷ s)) then failed too_long else on_runes (decode_runes (c ∷ s))

abbrev pub is_valid : Parsed (Unit {0}) → Bool
is_valid (ok a) = true
is_valid _ = false

-- Go's package regexp compiles a pattern that `ValidateRegex` accepts: the match does not panic.
abbrev pub MatchesValid : (Text → Text → Option Bool) → Type 0
MatchesValid full_match =
    (re s : Text) → is_valid (validate_regex re) ≡ true → full_match re s ≢ none
