-- ===== src/Migration/Names.antt =====
-- Lists of named objects: what is added at the end, and what a drop leaves.
use webhook_relay_api.Prelude.{
  ◌≡◌, refl, ◌∙◌, Bool, true, false, not, ◌||◌, List, [], ◌∷◌, ◌++◌, any, keep, arith,
}

module _ {A : Type 0} (p : A → Bool) where
  pub any_last : (l : List A) (x : A) → any p (l ++ x ∷ []) ≡ (any p l || p x)
  any_last [] x = ground arith
  any_last (y ∷ l) x = ground (arith, any_last l x)

  -- What a drop leaves of a list whose last element alone has the name.
  pub keep_init :
      (l : List A) (x : A) → any p l ≡ false → p x ≡ true → keep (λ y. not (p y)) (l ++ x ∷ []) ≡ l
  keep_init [] x free named = ground arith
  keep_init (y ∷ l) x free named = ground (arith, keep_init l x)

  pub keep_all : (l : List A) → any p l ≡ false → keep (λ y. not (p y)) l ≡ l
  keep_all [] free = refl
  keep_all (y ∷ l) free = ground (arith, keep_all l)

  pub any_with : (l : List A) (x : A) → p x ≡ true → any p (l ++ x ∷ []) ≡ true
  any_with l x named = any_last l x ∙ ground arith

  pub free_with : (l : List A) (x : A) → any p l ≡ false → p x ≡ false → any p (l ++ x ∷ []) ≡ false
  free_with l x free other = any_last l x ∙ ground arith
