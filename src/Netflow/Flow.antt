-- ===== src/Netflow/Flow.antt =====
-- Flows, templates and the template cache (backend/src/services/netflow/decode.ts).
pub mod Cache
use switchpilot.Prelude.{
  ℕ, String, Bool, ◌&&◌, List, [], ◌∷◌, Option, none, some, ◌==◌, if◌then◌else◌, str_eq,
}
use switchpilot.Netflow.Action.{Action, pure}
use switchpilot.Netflow.Buffer.{Ip}

-- `none` in an address is the empty text, `none` in a number is NaN or `undefined`.
pub record Flow : Type 0 where
  pub src_ip : Option Ip
  pub dst_ip : Option Ip
  pub src_port : Option ℕ
  pub dst_port : Option ℕ
  pub protocol : Option ℕ
  pub bytes : Option ℕ
  pub packets : Option ℕ

pub record Field : Type 0 where
  pub type : ℕ
  pub len : ℕ

abbrev pub Template : Type 0
Template = List Field

-- The key `exporterIp:sourceId:templateId`. The last two are numerals, so the text determines them.
pub record Key : Type 0 where
  pub exporter : String
  pub source : ℕ
  pub template : ℕ

unfoldable pub key_eq : Key → Key → Bool
key_eq j k = str_eq j.exporter k.exporter && j.source == k.source && j.template == k.template

abbrev pub TemplateCache : Type 0
TemplateCache = List (Key × Template)

-- `Map.get` and `Map.set`.
unfoldable pub get : Key → TemplateCache → Option Template
unfolding key_eq
get k [] = none
get k ((j, t) ∷ m) = if key_eq j k then some t else get k m

unfoldable pub put : Key → Template → TemplateCache → TemplateCache
unfolding key_eq
put k t [] = (k, t) ∷ []
put k t ((j, u) ∷ m) = if key_eq j k then (j, t) ∷ m else (j, u) ∷ put k t m

abbrev pub M : Type 0 → Type 0
M A = Action TemplateCache A

abbrev pub set_template : Key → Template → M Unit
set_template k t m = pure tt (put k t m)

abbrev pub get_template : Key → M (Option Template)
get_template k m = pure (get k m) m
