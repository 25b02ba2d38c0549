-- ===== src/Handles.antt =====
-- internal/handles/handles.go: how the hub normalizes and validates handles and agent references.
-- Texts are lists of code points; `len` of a Go string counts bytes, which agrees here because only
-- ASCII texts are measured.
pub mod Shape
pub mod Suffix
mod Tests
use moltenhub.Base.{
  ℕ, zero, suc, ◌+◌, ◌-◌, ◌≤◌, ◌<◌, ◌≡◌, refl, sym, ap, subst, ◌∙◌, ◌≢◌, ◌↔◌, ◌⊎◌, inl, inr, Bool,
  true, false, not, ◌&&◌, ◌||◌, Option, none, some, List, [], ◌∷◌, ◌++◌, map, length, length-append,
  arith, ltb, leb, ◌==◌, if◌then◌else◌, Bool-cases, Option-cases, is_empty, All,
}
use moltenhub.Base.{take, reverse}
use moltenhub.Base.Text.{
  Text, text, text_eq, trim_func, trim_space, to_lower, contains_char, split, join,
}

abbrev pub max_length : ℕ
max_length = 64

-- The errors of the package.
pub data HandleError : Type 0 where
  invalid_handle blocked_handle invalid_agent_ref : HandleError

unfoldable pub is_alnum : ℕ → Bool
is_alnum c = (leb b'a' c && leb c b'z') || (leb b'0' c && leb c b'9')

-- One of the characters `.`, `_` and `-`.
unfoldable pub is_sep : ℕ → Bool
is_sep c = c == b'-' || c == b'_' || c == b'.'

-- The character that the loop writes for `r`, if it may write a separator here.
unfoldable pub separator : ℕ → ℕ
unfolding is_sep
separator r = if is_sep r then r else b'-'

-- The loop of `Normalize`. Its two flags are one here: no separator may be written at the beginning
-- (`b.Len() == 0`) or after another (`prevSep`).
unfoldable pub scan : Bool → Text → Text
unfolding is_alnum separator
scan blocked [] = []
scan blocked (r ∷ rs) = elim (is_alnum r) [
  | true ↦ r ∷ scan false rs
  | false ↦ elim blocked [ true ↦ scan true rs | false ↦ separator r ∷ scan true rs ]
]

-- strings.Trim(s, "._-")
unfoldable pub trim_seps : Text → Text
unfolding trim_func is_sep
trim_seps = trim_func is_sep

unfoldable pub clip : Text → Text
unfolding trim_seps
clip out = if ltb max_length (length out) then trim_seps (take max_length out) else out

unfoldable pub normalize : Text → Text
unfolding scan trim_seps clip
normalize raw = clip (trim_seps (scan true (trim_space (to_lower raw))))

normalize_parts : List Text → List Text
normalize_parts [] = []
normalize_parts (p ∷ ps) =
    let rest = normalize_parts ps in let h = normalize p in if is_empty h then rest else h ∷ rest

is_slash : ℕ → Bool
is_slash c = c == b'/'

unfoldable pub normalize_agent_ref : Text → Text
unfolding normalize_parts is_slash
normalize_agent_ref raw =
    let trimmed = trim_space (to_lower raw) in
    if is_empty trimmed
    then []
    else if contains_char b'/' trimmed
    then join (text "/") (normalize_parts (split b'/' (trim_func is_slash trimmed)))
    else normalize trimmed

unfoldable pub is_handle_char : ℕ → Bool
unfolding is_alnum is_sep
is_handle_char c = is_alnum c || is_sep c

unfoldable pub all_chars : (ℕ → Bool) → Text → Bool
all_chars p [] = true
all_chars p (c ∷ s) = p c && all_chars p s

-- ^[a-z0-9][a-z0-9._-]{1,63}$
unfoldable pub matches_handle_regex : Text → Bool
unfolding is_alnum is_handle_char all_chars
matches_handle_regex [] = false
matches_handle_regex (c ∷ s) =
    is_alnum c && all_chars is_handle_char s && leb 1 (length s) && leb (length s) 63

abbrev blocked_words : List Text
blocked_words =
    text "asshole"
    ∷ text "bastard"
    ∷ text "bitch"
    ∷ text "bullshit"
    ∷ text "cunt"
    ∷ text "dick"
    ∷ text "fuck"
    ∷ text "fucker"
    ∷ text "fucking"
    ∷ text "motherfucker"
    ∷ text "nigger"
    ∷ text "nigga"
    ∷ text "pussy"
    ∷ text "shit"
    ∷ text "shitty"
    ∷ text "slut"
    ∷ text "whore"
    ∷ []

in_words : List Text → Text → Bool
in_words [] w = false
in_words (v ∷ vs) w = text_eq v w || in_words vs w

unfoldable pub in_blocked_set : Text → Bool
unfolding in_words
in_blocked_set w = in_words blocked_words w

-- The maximal runs of letters and digits: strings.FieldsFunc drops empty ones. `word` is the run
-- that the walk is in, reversed.
fields_from : Text → Text → List Text
unfolding is_alnum
fields_from word [] = if is_empty word then [] else reverse word ∷ []
fields_from word (r ∷ rs) = elim (is_alnum r) [
  | true ↦ fields_from (r ∷ word) rs
  | false ↦ let rest = fields_from [] rs in if is_empty word then rest else reverse word ∷ rest
]

unfoldable pub split_alpha_num_tokens : Text → List Text
unfolding fields_from
split_alpha_num_tokens s = fields_from [] s

unfoldable pub compact_alpha_num : Text → Text
unfolding is_alnum
compact_alpha_num [] = []
compact_alpha_num (r ∷ rs) =
    let rest = compact_alpha_num rs in if is_alnum r then r ∷ rest else rest

any_blocked : List Text → Bool
any_blocked [] = false
any_blocked (t ∷ ts) = in_blocked_set t || any_blocked ts

unfoldable pub is_blocked : Text → Bool
unfolding any_blocked
is_blocked handle =
    let s = to_lower (trim_space handle) in
    if is_empty s
    then false
    else if any_blocked (split_alpha_num_tokens s)
    then true
    else let compact = compact_alpha_num s in
      if is_empty compact then false else in_blocked_set compact

unfoldable pub validate_handle : Text → Option HandleError
validate_handle handle =
    if matches_handle_regex handle
    then (if is_blocked handle then some blocked_handle else none)
    else some invalid_handle

all_valid : List Text → Bool
all_valid [] = true
all_valid (p ∷ ps) = elim (validate_handle p) [ none ↦ all_valid ps | some _ ↦ false ]

unfoldable pub validate_agent_ref : Text → Option HandleError
unfolding all_valid is_slash
validate_agent_ref ref =
    if contains_char b'/' ref
    then (let parts = split b'/' (trim_func is_slash ref) in
        let n = length parts in
        if not (n == 2) && not (n == 3) && not (n == 4)
        then some invalid_agent_ref
        else if all_valid parts
        then none
        else some invalid_agent_ref)
    else elim (validate_handle ref) [ none ↦ none | some _ ↦ some invalid_agent_ref ]

unfoldable pub build_agent_uri : Text → Option Text → Text → Text
build_agent_uri org none agent = normalize org ++ (text "/" ++ normalize agent)
build_agent_uri org (some human) agent =
    if is_empty (trim_space human)
    then normalize org ++ (text "/" ++ normalize agent)
    else normalize org ++ (text "/" ++ (normalize human ++ (text "/" ++ normalize agent)))

unfoldable pub build_human_agent_uri : Text → Text → Text
build_human_agent_uri human agent =
    text "human/" ++ (normalize human ++ (text "/agent/" ++ normalize agent))
