-- ===== src/Strings.antt =====
-- The functions of Go's `strings` that several parts use, on text as bytes. Case and white space
-- are those of ASCII.
use eirctl.Prelude.{
  not, ℕ, ◌+◌, ◌-◌, Bool, true, false, List, [], ◌∷◌, ◌++◌, Option, none, some, Text, ◌==◌, ◌&&◌,
  ◌||◌, leb, text_eq, has_prefix, if◌then◌else◌, map, reverse,
}

unfoldable pub is_empty : Text → Bool
is_empty [] = true
is_empty (c ∷ s) = false

unfoldable pub lower_char : ℕ → ℕ
lower_char c = if leb b'A' c && leb c b'Z' then c + 32 else c

unfoldable pub upper_char : ℕ → ℕ
upper_char c = if leb b'a' c && leb c b'z' then c - 32 else c

-- `strings.ToLower` and `strings.ToUpper`
unfoldable pub to_lower : Text → Text
to_lower s = map lower_char s

unfoldable pub to_upper : Text → Text
to_upper s = map upper_char s

-- `strings.EqualFold`
unfoldable pub equal_fold : Text → Text → Bool
equal_fold s t = text_eq (to_lower s) (to_lower t)

-- `unicode.IsSpace`
unfoldable pub is_space : ℕ → Bool
is_space c = c == b' ' || (leb 9 c && leb c 13)

unfoldable pub trim_left : Text → Text
trim_left [] = []
trim_left (c ∷ s) = let rest = trim_left s in if is_space c then rest else c ∷ s

-- `strings.TrimSpace`
unfoldable pub trim_space : Text → Text
trim_space s = reverse (trim_left (reverse (trim_left s)))

-- The words of a text, where `word` has been read.
unfoldable pub fields_from : (word : Text) → Text → List Text
fields_from word [] = if is_empty word then [] else word ∷ []
fields_from word (c ∷ s) = elim (is_space c) [
  | true ↦ if is_empty word then fields_from [] s else word ∷ fields_from [] s
  | false ↦ fields_from (word ++ c ∷ []) s
]

-- `strings.Fields`
unfoldable pub fields : Text → List Text
fields s = fields_from [] s

-- `strings.Join(words, " ")`
unfoldable pub join_words : List Text → Text
join_words [] = []
join_words (word ∷ []) = word
join_words (word ∷ next ∷ words) = word ++ b' ' ∷ join_words (next ∷ words)

-- `strings.Join(strings.Fields(s), " ")`
unfoldable pub normalize_spaces : Text → Text
normalize_spaces s = join_words (fields s)

-- `strings.TrimPrefix`
unfoldable pub trim_prefix : Text → Text → Text
trim_prefix s [] = s
trim_prefix [] (c ∷ prefix) = []
trim_prefix (b ∷ s) (c ∷ prefix) =
    if has_prefix (b ∷ s) (c ∷ prefix) then trim_prefix s prefix else b ∷ s

-- `strings.Replace(s, old, "", 1)`
unfoldable pub remove_first : (old : Text) → Text → Text
remove_first old [] = []
remove_first old (c ∷ s) = elim (has_prefix (c ∷ s) old) [
  | true ↦ trim_prefix (c ∷ s) old
  | false ↦ c ∷ remove_first old s
]

-- `strings.ReplaceAll(s, "**", "*")`
unfoldable pub single_stars : Text → Text
single_stars [] = []
single_stars (c ∷ []) = c ∷ []
single_stars (c ∷ d ∷ s) = elim (c == b'*' && d == b'*') [
  | true ↦ b'*' ∷ single_stars s
  | false ↦ c ∷ single_stars (d ∷ s)
]

-- `strings.HasSuffix`
unfoldable pub has_suffix : Text → Text → Bool
has_suffix s suffix = has_prefix (reverse s) (reverse suffix)

-- `filepath.Ext` of a name without slashes: from the last dot on.
unfoldable pub extension : Text → Text
extension [] = []
extension (c ∷ s) =
    let rest = extension s in if not (is_empty rest) then rest else if c == b'.' then c ∷ s else []

-- The text before the last separator, if there is one.
unfoldable pub before_last : ℕ → Text → Option Text
before_last sep [] = none
before_last sep (c ∷ s) = elim (before_last sep s) [
  | some before ↦ some (c ∷ before)
  | none ↦ if c == sep then some [] else none
]
