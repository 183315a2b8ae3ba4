-- ===== src/Base/Text.antt =====
-- The parts of an f-string, joined.
use Prim.Native.String.{String, ◌++◌}
use mathlib.Core.List.{List, [], ◌∷◌}

abbrev pub concat : List String → String
concat [] = ""
concat (s ∷ []) = s
concat (s ∷ (t ∷ ts)) = s ++ concat (t ∷ ts)
