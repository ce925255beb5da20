-- ===== src/Base/Text.antt =====
-- Comparison of strings, and Python's truth test on an optional string.
pub use Prim.Native.String.{◌++◌ as str_append}
pub use text.Mathlib.Text.{◌==◌ as str_eq, starts_with}
pub use text.Mathlib.TextEquality.{eq_iff}
pub use text.Mathlib.TextPositions.{eq_refl, starts_with-append}
use Prim.Native.String.{String}
use Prim.Native.String.append
use mathlib.Core.Bool.{Bool, false}
use mathlib.Core.Option.{Option, none, some}
use mathlib.Core.Path.{◌≡◌}
use mathlib.Core.Logic.{◌≢◌}
use native.Mathlib.Omega.{arith}
use kalyx_mao_engine.Base.Tests.{if◌then◌else◌}

abbrev pub is_empty : String → Bool
is_empty s = str_eq s ""

-- `given or fallback`: `None` and the empty string are both false in Python.
abbrev pub or_else : Option String → String → String
or_else none fallback = fallback
or_else (some s) fallback = if is_empty s then fallback else s

pub str_eq-false : (s t : String) → s ≢ t → str_eq s t ≡ false
str_eq-false s t h = ground (arith, eq_iff s t)

-- Text in front of which something stands is not empty.
pub is_empty-append : (s t : String) → is_empty s ≡ false → is_empty (str_append s t) ≡ false
is_empty-append String.[] t h = absurd (ground (arith, h))
is_empty-append (String.◌∷◌ c s) t h =
    str_eq-false (str_append (String.◌∷◌ c s) t) "" (λ e. cc (append.cons c s t, e))
