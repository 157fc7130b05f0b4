-- ===== src/Base/Text.antt =====
-- Texts as the code points that the code walks, and the string tests that it makes.
use Prim.Native.Nat.{ℕ}
use Prim.Native.Char.{code}
use Prim.Native.String.{String}
use mathlib.Core.Bool.{Bool, ◌&&◌, ◌||◌}
use mathlib.Core.List.{List, [], ◌∷◌, reverse}
use threadloop.Base.Test.{leb, eqb, if◌then◌else◌}
use threadloop.Base.Equality.{nat_eq, list_eq}
use threadloop.Base.Sequence.{all, length}

abbrev pub codes : String → List ℕ
codes String.[] = []
codes (String.◌∷◌ c s) = code c ∷ codes s

-- The characters that `String.prototype.trim` removes.
pub is_space : ℕ → Bool
is_space c =
    leb 0x9 c && leb c 0xd
    || eqb c 0x20
    || eqb c 0xa0
    || eqb c 0x1680
    || leb 0x2000 c && leb c 0x200a
    || eqb c 0x2028
    || eqb c 0x2029
    || eqb c 0x202f
    || eqb c 0x205f
    || eqb c 0x3000
    || eqb c 0xfeff

pub trim_start : List ℕ → List ℕ
trim_start [] = []
trim_start (c ∷ cs) = if is_space c then trim_start cs else c ∷ cs

unfoldable pub trim : List ℕ → List ℕ
unfolding trim_start is_space
trim cs = reverse (trim_start (reverse (trim_start cs)))

-- The class [0-9a-f].
abbrev pub is_lower_hex : ℕ → Bool
is_lower_hex c = leb b'0' c && leb c b'9' || leb b'a' c && leb c b'f'

-- /^[0-9a-f]{n}$/
unfoldable pub is_hex_of_length : ℕ → String → Bool
is_hex_of_length n s = eqb (length (codes s)) n && all is_lower_hex (codes s)
