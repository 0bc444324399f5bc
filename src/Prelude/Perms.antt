-- ===== src/Prelude/Perms.antt =====
-- Permutations of short and of sorted lists.
use mathlib.Core.List.{
  List, [], ◌∷◌, Perm, Pairwise, Pairwise-cons, mem-cons, mem-cons_self, mem-singleton, perm-cons,
}
use mathlib.Core.Logic.Or
use mathlib.Core.List.Perm
use mathlib.Core.Path.{◌≡◌, refl, sym, ap, subst, ◌∙◌}

module _ {ℓ} {A : Type ℓ} (A_set : IsSet A) where
  pub perm_singleton : (l : List A) (a : A) → Perm l (a ∷ []) → l ≡ a ∷ []
  perm_singleton [] a h = cc (Perm.length-eq h)
  perm_singleton (x ∷ []) a h =
      ap (λ y. y ∷ []) ((mem-singleton A_set).0 ((Perm.mem_iff h).0 mem-cons_self))
  perm_singleton (x ∷ y ∷ l) a h = cc (Perm.length-eq h)

  pub perm_nil : (l : List A) → Perm l [] → l ≡ []
  perm_nil [] h = refl
  perm_nil (x ∷ l) h = cc (Perm.length-eq h)

-- A list that is sorted by an asymmetric order is determined by its members.
module _ {ℓ} {A : Type ℓ} (A_set : IsSet A) (R : A → A → Type 0)
    (asym : (a b : A) → R a b → R b a → ⊥) where
  heads :
      (x y : A) (xs ys : List A)
      → Perm (x ∷ xs) (y ∷ ys)
      → Pairwise R (x ∷ xs)
      → Pairwise R (y ∷ ys)
      → x ≡ y
  heads x y xs ys h p q =
      Or.elim (A_set x y) (mem-cons.0 ((Perm.mem_iff h).0 mem-cons_self)) (λ e. e)
        (λ m.
          Or.elim (A_set x y) (mem-cons.0 ((Perm.mem_iff h).1 mem-cons_self)) sym
            (λ k. absurd (asym x y ((Pairwise-cons.0 p).0 y k) ((Pairwise-cons.0 q).0 x m))))

  pub sorted_unique : (l m : List A) → Perm l m → Pairwise R l → Pairwise R m → l ≡ m
  sorted_unique [] [] h p q = refl
  sorted_unique [] (y ∷ ys) h p q = cc (Perm.length-eq h)
  sorted_unique (x ∷ xs) [] h p q = cc (Perm.length-eq h)
  sorted_unique (x ∷ xs) (y ∷ ys) h p q =
      let same = heads x y xs ys h p q in
      let rest : Perm xs ys = (perm-cons y).0 (subst (λ z. Perm (z ∷ xs) (y ∷ ys)) same h) in
      ap (λ z. z ∷ xs) same
      ∙ ap (λ l. y ∷ l) (sorted_unique xs ys rest (Pairwise-cons.0 p).1 (Pairwise-cons.0 q).1)
