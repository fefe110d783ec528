-- ===== src/Netflow/Flow/Cache.antt =====
-- Laws of the template cache.
use switchpilot.Prelude.{◌≡◌, refl, ◌↔◌, true, some, [], ◌∷◌, arith, if◌then◌else◌, str_eq_iff}
use switchpilot.Netflow.Flow.{Key, Template, TemplateCache, key_eq, get, put}

pub key_eq_iff : (j k : Key) → (key_eq j k ≡ true) ↔ (j ≡ k)
unfolding key_eq
key_eq_iff j k = (
  λ h. ground (arith, str_eq_iff j.exporter k.exporter),
  λ h. ground (arith, str_eq_iff j.exporter k.exporter),
)

-- A lookup after a write, for every pair of keys.
pub get-put :
    (j k : Key) (t : Template) (m : TemplateCache)
    → get j (put k t m) ≡ (if key_eq k j then some t else get j m)
unfolding get put
get-put j k t [] = refl
get-put j k t ((i, u) ∷ m) =
    ground (arith, key_eq_iff k j, key_eq_iff i k, key_eq_iff i j, get-put j k t m)
