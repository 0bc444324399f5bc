-- ===== src/Text.antt =====
-- The methods of Python's `str` that the program calls: a text is its sequence of code points.
-- `str.lower` follows the Unicode tables, which are not modelled: it is a field of `Platform`.
pub mod Order
use Prim.Native.String.{[], ◌∷◌}
use webhook_relay_api.Prelude.{
  ℕ, suc, String, Char, code, ◌≡◌, refl, Bool, true, false, not, ◌&&◌, ◌||◌, List, ltb, leb, eqb,
  if◌then◌else◌, truthy,
}

-- `str.isspace` of one character: what `strip()` removes.
unfoldable pub is_space : ℕ → Bool
is_space c =
    (leb 9 c && leb c 13)
    || (leb 28 c && leb c 32)
    || eqb c 0x85
    || eqb c 0xa0
    || eqb c 0x1680
    || (leb 0x2000 c && leb c 0x200a)
    || eqb c 0x2028
    || eqb c 0x2029
    || eqb c 0x202f
    || eqb c 0x205f
    || eqb c 0x3000

unfoldable pub lstrip : String → String
unfolding is_space
lstrip [] = []
lstrip (c ∷ s) = let rest = lstrip s in elim (is_space (code c)) [ true ↦ rest | false ↦ c ∷ s ]

-- A space is dropped where nothing is left behind it.
unfoldable pub rstrip : String → String
unfolding is_space
rstrip [] = []
rstrip (c ∷ s) =
    let rest = rstrip s in if is_space (code c) && not (truthy rest) then [] else c ∷ rest

unfoldable pub strip : String → String
unfolding lstrip rstrip
strip s = rstrip (lstrip s)

-- One more character at the head of the first part.
abbrev pub onto_first : Char → List String → List String
onto_first c List.[] = List.◌∷◌ (c ∷ []) List.[]
onto_first c (List.◌∷◌ part parts) = List.◌∷◌ (c ∷ part) parts

-- `s.split(sep)` for a separator of one character.
unfoldable pub split : ℕ → String → List String
split sep [] = List.◌∷◌ [] List.[]
split sep (c ∷ s) =
    let parts = split sep s in if eqb (code c) sep then List.◌∷◌ [] parts else onto_first c parts

-- `s.isascii()`
unfoldable pub is_ascii : String → Bool
is_ascii [] = true
is_ascii (c ∷ s) = ltb (code c) 128 && is_ascii s

-- `s.replace(" ", "_")`
unfoldable pub underscored : String → String
underscored [] = []
underscored (c ∷ s) = (if eqb (code c) b' ' then "_" else c) ∷ underscored s

split_test : split b',' " a,,b " ≡ List.◌∷◌ " a" (List.◌∷◌ "" (List.◌∷◌ "b " List.[]))
unfolding split
split_test = refl

strip_test : strip "  a b " ≡ "a b"
unfolding strip
strip_test = refl

-- `s.startswith(prefix)`
unfoldable pub startswith : String → String → Bool
startswith s [] = true
startswith [] (c ∷ prefix) = false
startswith (d ∷ s) (c ∷ prefix) = eqb (code d) (code c) && startswith s prefix

-- Whether the text has the character.
unfoldable pub has_char : ℕ → String → Bool
has_char c [] = false
has_char c (d ∷ s) = eqb (code d) c || has_char c s

-- Whether a `%` is left when each `%%` is taken away.
unfoldable pub lone_percent : String → Bool
lone_percent [] = false
lone_percent (c ∷ []) = eqb (code c) b'%'
lone_percent (c ∷ d ∷ s) =
    let rest = lone_percent (d ∷ s) in
    let after = lone_percent s in
    if eqb (code c) b'%' then (if eqb (code d) b'%' then after else true) else rest

-- `len(s)`
unfoldable pub text_length : String → ℕ
text_length [] = 0
text_length (c ∷ s) = suc (text_length s)
