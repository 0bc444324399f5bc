-- ===== src/Text/Order.antt =====
-- The order of texts by code points, in which the database compares ids.
use Prim.Native.String.{[], ◌∷◌}
use text.Mathlib.TextEquality.{Char-path}
use webhook_relay_api.Prelude.{
  String, Char, code, ◌≡◌, refl, Bool, true, false, ◌&&◌, ◌||◌, ltb, eqb, arith,
}

-- `a < b`
unfoldable pub text_lt : String → String → Bool
text_lt [] [] = false
text_lt [] (d ∷ t) = true
text_lt (c ∷ s) [] = false
text_lt (c ∷ s) (d ∷ t) = ltb (code c) (code d) || (eqb (code c) (code d) && text_lt s t)

pub text_lt_asym : (a b : String) → text_lt a b ≡ true → text_lt b a ≡ false
unfolding text_lt
text_lt_asym [] [] h = refl
text_lt_asym [] (d ∷ t) h = refl
text_lt_asym (c ∷ s) [] h = cc
text_lt_asym (c ∷ s) (d ∷ t) h = ground (arith, text_lt_asym s t)

pub text_le_trans :
    (a b c : String) → text_lt b a ≡ false → text_lt c b ≡ false → text_lt c a ≡ false
unfolding text_lt
text_le_trans [] [] [] h k = refl
text_le_trans [] [] (e ∷ u) h k = refl
text_le_trans [] (d ∷ t) [] h k = cc
text_le_trans [] (d ∷ t) (e ∷ u) h k = refl
text_le_trans (c ∷ s) [] z h k = cc
text_le_trans (c ∷ s) (d ∷ t) [] h k = cc
text_le_trans (c ∷ s) (d ∷ t) (e ∷ u) h k = ground (arith, text_le_trans s t u)

pub text_lt_total : (a b : String) → text_lt a b ≡ false → text_lt b a ≡ false → a ≡ b
unfolding text_lt
text_lt_total [] [] h k = refl
text_lt_total [] (d ∷ t) h k = cc
text_lt_total (c ∷ s) [] h k = cc
text_lt_total (c ∷ s) (d ∷ t) h k =
    cons_path c d s t (Char-path c d (ground arith))
      (text_lt_total s t (ground arith) (ground arith))
  where
    cons_path : (c d : Char) (s t : String) → c ≡ d → s ≡ t → c ∷ s ≡ d ∷ t
    cons_path c d s t p q i = p i ∷ q i
