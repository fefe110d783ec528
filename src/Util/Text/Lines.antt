-- ===== src/Util/Text/Lines.antt =====
-- Lines of a text and back.
use Prim.Native.Char.{Char}
use switchpilot.Prelude.{◌≡◌, refl, String, Bool, true, false, not, ◌&&◌, List, [], ◌∷◌, All, arith}
use switchpilot.Util.Text.{is_newline, join_line, lines, unlines}

-- A text without a line end.
abbrev pub is_line : String → Bool
is_line String.[] = true
is_line (String.◌∷◌ c s) = not (is_newline c) && is_line s

abbrev pub IsLine : String → Type 0
IsLine l = is_line l ≡ true

line_head : (c : Char) (l : String) → IsLine (String.◌∷◌ c l) → is_newline c ≡ false
line_head c l h = ground (arith, h)

IsLine-tail : (c : Char) (l : String) → IsLine (String.◌∷◌ c l) → IsLine l
IsLine-tail c l h = ground (arith, h)

lines-join_line : (l text : String) → IsLine l → lines (join_line l text) ≡ l ∷ lines text
unfolding lines join_line
lines-join_line String.[] text h = refl
lines-join_line (String.◌∷◌ c l) text h =
    rw (line_head c l h, lines-join_line l text (IsLine-tail c l h)) refl

lines-line : (l : String) → IsLine l → lines l ≡ l ∷ []
unfolding lines
lines-line String.[] h = refl
lines-line (String.◌∷◌ c l) h = rw (line_head c l h, lines-line l (IsLine-tail c l h)) refl

-- Joining lines and splitting the text gives the lines.
pub lines-unlines :
    (l : String) (ls : List String) → IsLine l → All IsLine ls → lines (unlines (l ∷ ls)) ≡ l ∷ ls
unfolding unlines
lines-unlines l [] h hs = lines-line l h
lines-unlines l (m ∷ ls) h (k, hs) =
    rw (lines-join_line l (unlines (m ∷ ls)) h, lines-unlines m ls k hs) refl
