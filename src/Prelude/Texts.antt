-- ===== src/Prelude/Texts.antt =====
-- A text as the list of its code points, which are its bytes if it is ASCII.
use Prim.Native.Char.{code}
use Prim.Native.String.{String}
use mathlib.Core.List.{[], ◌∷◌}
use oasis_chain.Prelude.Lists.{Bytes}

-- `String` has its own `[]` and `∷`.
abbrev pub codes : String → Bytes
codes String.[] = []
codes (String.◌∷◌ c s) = code c ∷ codes s
