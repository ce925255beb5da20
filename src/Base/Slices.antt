-- ===== src/Base/Slices.antt =====
-- `s[:n]`, `needle in s` and `s.split(".")`, on the characters of a string.
use Prim.Native.Nat.{ℕ, zero, suc}
use Prim.Native.Char.{Char, code}
use Prim.Native.String.{String}
use Prim.Native.String.append
use mathlib.Core.Path.{◌≡◌, refl}
use mathlib.Core.Bool.{Bool, true, false, ◌||◌}
use mathlib.Core.Logic.{inl, inr}
use native.Mathlib.Omega.{arith}
use mathlib.Core.List.{List, [], ◌∷◌}
use kalyx_mao_engine.Base.Tests.{◌==◌, if◌then◌else◌, Bool-cases}
use kalyx_mao_engine.Base.Text.{starts_with, str_append}

unfoldable pub take_chars : ℕ → String → String
take_chars zero s = String.[]
take_chars (suc n) String.[] = String.[]
take_chars (suc n) (String.◌∷◌ c s) = String.◌∷◌ c (take_chars n s)

unfoldable pub is_inside : String → String → Bool
is_inside needle String.[] = starts_with String.[] needle
is_inside needle (String.◌∷◌ c s) = starts_with (String.◌∷◌ c s) needle || is_inside needle s

abbrev pub is_dot : Char → Bool
is_dot c = code c == b'.'

-- A character goes in front of the first part.
abbrev pub onto_first : Char → List String → List String
onto_first c [] = String.◌∷◌ c String.[] ∷ []
onto_first c (w ∷ ws) = String.◌∷◌ c w ∷ ws

unfoldable pub split_dots : String → List String
split_dots String.[] = String.[] ∷ []
split_dots (String.◌∷◌ c s) =
    let rest = split_dots s in if is_dot c then String.[] ∷ rest else onto_first c rest

unfoldable pub has_dot : String → Bool
has_dot String.[] = false
has_dot (String.◌∷◌ c s) = is_dot c || has_dot s

-- Text without a dot is one part.
pub split_dots-whole : (s : String) → has_dot s ≡ false → split_dots s ≡ s ∷ []
unfolding has_dot split_dots
split_dots-whole String.[] h = refl
split_dots-whole (String.◌∷◌ c s) h = ground (arith, split_dots-whole s)

split_at_dot :
    (c : Char) (t : String)
    → is_dot c ≡ true
    → split_dots (str_append (String.◌∷◌ c String.[]) t) ≡ String.[] ∷ split_dots t
unfolding split_dots
split_at_dot c t h = rw (append.cons c String.[] t) (rw (append.nil t) (simp h))

-- What stands before the first dot is the first part.
pub split_dots-append :
    (s t : String)
    → has_dot s ≡ false
    → split_dots (str_append s (str_append "." t)) ≡ s ∷ split_dots t
unfolding has_dot split_dots
split_dots-append String.[] t h = rw (append.nil (str_append "." t)) (split_at_dot _ t refl)
split_dots-append (String.◌∷◌ c s) t h = elim (Bool-cases (is_dot c)) [
  | inl dot ↦ cc (simp dot at h)
  | inr other ↦
      rw (append.cons c s (str_append "." t))
        (simp (other, split_dots-append s t (simp other at h)))
]

onto_first-eq :
    (c : Char) (parts : List String)
    → (w : String) × (ws : List String) × (onto_first c parts ≡ String.◌∷◌ c w ∷ ws)
onto_first-eq c [] = (String.[], [], refl)
onto_first-eq c (w ∷ ws) = (w, ws, refl)

-- Text that begins with another character than the dot has a first part that begins with it.
pub split_dots-first :
    (c : Char) (s : String)
    → is_dot c ≡ false
    → (w : String) × (ws : List String) × (split_dots (String.◌∷◌ c s) ≡ String.◌∷◌ c w ∷ ws)
unfolding split_dots
split_dots-first c s h = rw h (onto_first-eq c (split_dots s))
