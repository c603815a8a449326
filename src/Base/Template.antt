-- ===== src/Base/Template.antt =====
-- Template literals: the texts of the pieces, one after the other.
use Prim.Native.String
use Prim.Native.String.{String}
use mathlib.Core.List.{List, [], ◌∷◌}

unfoldable pub template : List String → String
template [] = ""
template (s ∷ ss) = String.◌++◌ s (template ss)
