-- ===== src/Base/Text.antt =====
-- Python's texts as native strings: their code points and `strip`.
use Prim.Native.Char.{code}
use Prim.Native.String.{String, [], ◌∷◌}
use Prim.Native.Nat.{ℕ}
use mathlib.Core.Bool.{Bool, ◌&&◌, ◌||◌}
use mathlib.Core.List.{List}
use bxi_car_v.Base.Tests.{leb, ◌==◌, if◌then◌else◌}

unfoldable pub codes : String → List ℕ
codes [] = List.[]
codes (c ∷ cs) = List.◌∷◌ (code c) (codes cs)

-- `str.isspace` of one code point, which `strip` goes by.
unfoldable pub is_space : ℕ → Bool
is_space c =
    (leb 9 c && leb c 13 || leb 28 c && leb c 32)
    || ((c == 133 || c == 160 || c == 5760)
        || (leb 8192 c && leb c 8202
            || (c == 8232 || c == 8233 || (c == 8239 || c == 8287 || c == 12288))))

lstrip : String → String
lstrip [] = []
lstrip (c ∷ cs) = let rest = lstrip cs in if is_space (code c) then rest else c ∷ cs

rstrip : String → String
rstrip [] = []
rstrip (c ∷ cs) = elim (rstrip cs) [
  | [] ↦ if is_space (code c) then [] else c ∷ []
  | d ∷ ds ↦ c ∷ d ∷ ds
]

-- `text.strip()`
unfoldable pub strip_text : String → String
unfolding lstrip rstrip is_space
strip_text cs = rstrip (lstrip cs)
