-- ===== src/Prelude/Keeping.antt =====
-- The comprehension `keep` against permutations and sorted lists.
use mathlib.Core.List.{List, [], ◌∷◌, Perm, Pairwise, filter}
use mathlib.Core.List.Perm
use mathlib.Core.List.Pairwise
use mathlib.Core.Path.{◌≡◌, refl}
use mathlib.Core.Bool.{Bool, true, Bool-discrete, ◌&&◌}
use native.Mathlib.Omega.{arith}
use webhook_relay_api.Prelude.Lists.{keep}

module _ {ℓ} {A : Type ℓ} (p : A → Bool) where
  keep-eq-filter : (l : List A) → keep p l ≡ filter (λ x. Bool-discrete (p x) true) l
  keep-eq-filter [] = refl
  keep-eq-filter (x ∷ l) = ground (arith, keep-eq-filter l)

  pub keep-perm : {l m : List A} → Perm l m → Perm (keep p l) (keep p m)
  keep-perm {l} {m} h = rw (keep-eq-filter l, keep-eq-filter m) (Perm.filter _ h)

  pub keep-Pairwise {κ} : {R : A → A → Type κ} {l : List A} → Pairwise R l → Pairwise R (keep p l)
  keep-Pairwise {l} h = rw (keep-eq-filter l) (Pairwise.filter _ h)

pub keep-keep {ℓ} :
    {A : Type ℓ} (p q : A → Bool) (l : List A) → keep p (keep q l) ≡ keep (λ x. q x && p x) l
keep-keep p q [] = refl
keep-keep p q (x ∷ l) = ground (arith, keep-keep p q l)
