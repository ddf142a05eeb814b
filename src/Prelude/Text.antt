-- ===== src/Prelude/Text.antt =====
-- Texts as code points, where the program looks inside them.
use Prim.Native.Char.{code}
use Prim.Native.Nat.{ℕ, ◌-◌}
use Prim.Native.String.{String}
use mathlib.Core.Bool.{Bool, ◌&&◌, ◌||◌}
use mathlib.Core.List.{[], ◌∷◌, reverse}
use das_boot.Prelude.Lists.{Bytes, length, drop, bytes_equal}
use das_boot.Prelude.Tests.{leb, ◌==◌, if◌then◌else◌}

-- The code points of a text: its bytes, where it is ASCII.
abbrev pub codes : String → Bytes
codes String.[] = []
codes (String.◌∷◌ c s) = code c ∷ codes s

-- `strings.HasSuffix`: a suffix in code points is one in UTF-8 bytes.
unfoldable pub has_suffix : String → String → Bool
unfolding bytes_equal
has_suffix s t =
    leb (length (codes t)) (length (codes s))
    && bytes_equal (drop (length (codes s) - length (codes t)) (codes s)) (codes t)

-- The white space of `strings.TrimSpace` in ASCII: tab to carriage return, and space.
abbrev pub is_space : ℕ → Bool
is_space c = c == 32 || (leb 9 c && leb c 13)

unfoldable pub trim_left_space : Bytes → Bytes
trim_left_space [] = []
trim_left_space (c ∷ s) = let rest = trim_left_space s in if is_space c then rest else c ∷ s

unfoldable pub trim_space : Bytes → Bytes
unfolding trim_left_space
trim_space s = reverse (trim_left_space (reverse (trim_left_space s)))
