-- ===== src/Prelude/Text.antt =====
-- Text operations of Python that the strategies use.
use Prim.Native.Char.{Char, code}
use Prim.Native.String.{String, ◌++◌}
use mathlib.Core.Path.{◌≡◌}
use mathlib.Core.Bool.{Bool, ◌||◌}
use text.Mathlib.Text.{starts_with, ◌==◌ as str_eq}
use text.Mathlib.TextLemmas.{nil-append, cons-append}
use mathlib.Core.List.{List, [], ◌∷◌}
use mathlib.Core.Option.{Option, none, some}
use aurex_trade.Prelude.Tests.{◌==◌, if◌then◌else◌}

-- `s.rsplit("_", 1)`: `none` if there is no underscore, and else what stands on both sides of the
-- last one.
unfoldable pub split_last : String → Option (String × String)
split_last String.[] = none
split_last (String.◌∷◌ c s) = elim (split_last s) [
  | some (l, r) ↦ some (String.◌∷◌ c l, r)
  | none ↦ if code c == b'_' then some (String.[], s) else none
]

-- The pieces of an f-string, joined.
abbrev pub concat : List String → String
concat [] = ""
concat (s ∷ []) = s
concat (s ∷ t ∷ ss) = s ++ concat (t ∷ ss)

-- `part in text`
unfoldable pub contains_text : String → String → Bool
contains_text part String.[] = starts_with "" part
contains_text part (String.◌∷◌ c s) = starts_with (String.◌∷◌ c s) part || contains_text part s

-- `text.endswith(part)`
unfoldable pub ends_with : String → String → Bool
ends_with part String.[] = str_eq part ""
ends_with part (String.◌∷◌ c s) = str_eq part (String.◌∷◌ c s) || ends_with part s

abbrev underscore : Char
underscore = "_"

abbrev blank : Char
blank = " "

-- `text.replace("_", " ")`
unfoldable pub spaced : String → String
spaced String.[] = String.[]
spaced (String.◌∷◌ c s) = String.◌∷◌ (if code c == b'_' then blank else c) (spaced s)

-- What follows the last underscore has none, and all that stands before it is kept.
pub split_last-append :
    (level side : String)
    → split_last side ≡ none
    → split_last (level ++ ("_" ++ side)) ≡ some (level, side)
unfolding split_last
split_last-append String.[] side h =
    rw nil-append (rw (cons-append underscore "" side, nil-append) (rw (h, split_last)))
split_last-append (String.◌∷◌ c level) side h =
    rw cons-append (rw (split_last-append level side h, split_last))
