-- ===== src/Prelude/Text.antt =====
-- The bytes of an ASCII text.
use Prim.Native.String.{String}
use Prim.Native.Char.{code}
use mathlib.Core.List.{[], ◌∷◌}
use vemory.Prelude.Equality.{Bytes}

abbrev pub codes : String → Bytes
codes String.[] = []
codes (String.◌∷◌ c s) = code c ∷ codes s
