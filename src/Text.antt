-- ===== src/Text.antt =====
-- Text literals as their bytes.
use Prim.Native.Char.{code}
use Prim.Native.String.{String}
use loom_client.Common.{ℕ, List, [], ◌∷◌}

-- All literals of the code are ASCII.
abbrev pub codes : String → List ℕ
codes String.[] = []
codes (String.◌∷◌ c s) = code c ∷ codes s
