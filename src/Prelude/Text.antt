-- ===== src/Prelude/Text.antt =====
-- Texts as the lists of the numbers of their characters.
use Prim.Native.Char.{code}
pub use Prim.Native.String.{String}
use yazpp.Prelude.{ℕ, List, [], ◌∷◌, ◌++◌}

-- `String` has its own `[]` and `∷`.
abbrev pub codes : String → List ℕ
codes String.[] = []
codes (String.◌∷◌ c s) = code c ∷ codes s

-- The texts one after the other.
abbrev pub texts : List String → List ℕ
texts [] = []
texts (s ∷ ss) = codes s ++ texts ss
