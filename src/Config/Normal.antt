-- ===== src/Config/Normal.antt =====
-- What the comparison of configurations looks at (normalizeConfig of
-- backend/src/services/configService.ts).
use switchpilot.Prelude.{◌≡◌, ap, String, not, List, ◌∷◌, keep, map, All}
use switchpilot.Util.Text.{trim, trim_end, unlines}
use switchpilot.Util.Text.Lines.{IsLine, lines-unlines}
use switchpilot.Config.{is_volatile, normalize_config}

-- The lines that count, without the blanks at their ends.
abbrev pub significant : List String → List String
significant ls = map trim_end (keep (λ l. not (is_volatile l)) ls)

pub normalize_config-significant :
    (l : String) (ls : List String)
    → IsLine l
    → All IsLine ls
    → normalize_config (unlines (l ∷ ls)) ≡ trim (unlines (significant (l ∷ ls)))
unfolding normalize_config
normalize_config-significant l ls h hs =
    ap (λ (x : List String). trim (unlines (significant x))) (lines-unlines l ls h hs)
