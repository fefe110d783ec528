-- ===== src/Util/Text.antt =====
-- The operations of JavaScript on texts that the services share: lines, trimming, white space and
-- the simple patterns of their regular expressions. A text is its characters, and only
-- `utf16_length` counts code units.
pub mod Lines
use Prim.Native.Char.{Char, code}
use Prim.Native.String
use switchpilot.Prelude.{
  ℕ, suc, ◌+◌, String, Bool, true, false, not, ◌&&◌, ◌||◌, List, [], ◌∷◌, Option, none, some, leb,
  ◌==◌, if◌then◌else◌, is_some,
}
use text.Mathlib.Text.{find?}

-- `\s`, which is also what `trim` takes away.
unfoldable pub is_space : Char → Bool
is_space c =
    let n = code c in
    leb 9 n && leb n 13
    || n == 32
    || n == 160
    || n == 5760
    || leb 8192 n && leb n 8202
    || n == 8232
    || n == 8233
    || n == 8239
    || n == 8287
    || n == 12288
    || n == 65279

unfoldable pub trim_start : String → String
unfolding is_space
trim_start String.[] = String.[]
trim_start (String.◌∷◌ c s) = let rest = trim_start s in if is_space c then rest else String.◌∷◌ c s

-- A character before the end of a text that has been trimmed.
abbrev pub before_end : Char → String → String
before_end c String.[] = if is_space c then String.[] else String.◌∷◌ c String.[]
before_end c (String.◌∷◌ d s) = String.◌∷◌ c (String.◌∷◌ d s)

unfoldable pub trim_end : String → String
unfolding is_space
trim_end String.[] = String.[]
trim_end (String.◌∷◌ c s) = before_end c (trim_end s)

unfoldable pub trim : String → String
unfolding trim_start trim_end
trim s = trim_end (trim_start s)

abbrev pub is_newline : Char → Bool
is_newline c = code c == 10

abbrev pub onto_first : Char → List String → List String
onto_first c [] = String.◌∷◌ c String.[] ∷ []
onto_first c (l ∷ ls) = String.◌∷◌ c l ∷ ls

-- `split('\n')`
unfoldable pub lines : String → List String
lines String.[] = String.[] ∷ []
lines (String.◌∷◌ c s) =
    let rest = lines s in if is_newline c then String.[] ∷ rest else onto_first c rest

abbrev pub newline : Char
newline = String.char_at "\n" 0

-- A line, its end and what follows.
unfoldable pub join_line : String → String → String
join_line String.[] text = String.◌∷◌ newline text
join_line (String.◌∷◌ c l) text = String.◌∷◌ c (join_line l text)

-- `join('\n')`
unfoldable pub unlines : List String → String
unfolding join_line
unlines [] = ""
unlines (l ∷ []) = l
unlines (l ∷ m ∷ ls) = join_line l (unlines (m ∷ ls))

-- `text.includes(part)`
abbrev pub includes : String → String → Bool
includes text part = is_some (find? text part)

abbrev pub is_empty : String → Bool
is_empty String.[] = true
is_empty (String.◌∷◌ c s) = false

unfoldable pub utf16_length : String → ℕ
utf16_length String.[] = 0
utf16_length (String.◌∷◌ c s) =
    if leb 65536 (code c) then suc (suc (utf16_length s)) else suc (utf16_length s)

-- What follows a prefix.
unfoldable pub strip_prefix : String → String → Option String
strip_prefix String.[] s = some s
strip_prefix (String.◌∷◌ p ps) String.[] = none
strip_prefix (String.◌∷◌ p ps) (String.◌∷◌ c s) =
    let rest = strip_prefix ps s in if code p == code c then rest else none

abbrev pub has_prefix : String → String → Bool
has_prefix prefix s = is_some (strip_prefix prefix s)

abbrev pub starts_with_space : String → Bool
starts_with_space String.[] = false
starts_with_space (String.◌∷◌ c s) = is_space c

abbrev pub space_follows : Option String → Bool
space_follows none = false
space_follows (some rest) = starts_with_space rest

-- `/^\s*no\s/`
unfoldable pub negates : String → Bool
unfolding trim_start strip_prefix is_space
negates s = space_follows (strip_prefix "no" (trim_start s))
