-- ===== src/Prelude/Alls.antt =====
-- What holds of all elements of a list.
use mathlib.Core.Path.{◌≡◌, refl, sym, ap, subst}
use mathlib.Core.Logic.{inl, inr}
use mathlib.Core.Bool.{Bool, false}
use mathlib.Core.List.{List, [], ◌∷◌, ◌++◌, map}
use native.Mathlib.Omega.{arith}
use webhook_relay_api.Prelude.Lists.{All, IsIn, any, keep, keep-true, keep-false}
use webhook_relay_api.Prelude.Tests.{Bool-cases}

module _ {A : Type 0} (P : A → Type 0) where
  pub All-append : (l : List A) (x : A) → All P l → P x → All P (l ++ x ∷ [])
  All-append [] x h one = (one, tt)
  All-append (y ∷ l) x (first, h) one = (first, All-append l x h one)

  pub All-keep : (test : A → Bool) (l : List A) → All P l → All P (keep test l)
  All-keep test [] h = tt
  All-keep test (x ∷ l) (first, h) = elim (Bool-cases (test x)) [
    | inl passes ↦ subst (All P) (sym (keep-true test x l passes)) (first, All-keep test l h)
    | inr fails ↦ subst (All P) (sym (keep-false test x l fails)) (All-keep test l h)
  ]

module _ {A : Type 0} (P Q : A → Type 0) where
  pub All-map : (f : A → A) (l : List A) → ((x : A) → P x → Q (f x)) → All P l → All Q (map f l)
  All-map f [] step h = tt
  All-map f (x ∷ l) step (first, h) = (step x first, All-map f l step h)

  pub All-weaken : (l : List A) → ((x : A) → P x → Q x) → All P l → All Q l
  All-weaken [] step h = tt
  All-weaken (x ∷ l) step (first, h) = (step x first, All-weaken l step h)

pub All_of_IsIn : {A : Type 0} (P : A → Type 0) (x : A) (l : List A) → IsIn x l → All P l → P x
All_of_IsIn P x [] m h = elim m [ ]
All_of_IsIn P x (y ∷ l) (inl same) (first, h) = subst P (sym same) first
All_of_IsIn P x (y ∷ l) (inr m) (first, h) = All_of_IsIn P x l m h

-- Where no element passes the test.
pub All-both :
    {A : Type 0} (P Q : A → Type 0) (test : A → Bool) (l : List A)
    → ((x : A) → test x ≡ false → P x → Q x)
    → any test l ≡ false
    → All P l
    → All Q l
All-both P Q test [] step none_of h = tt
All-both P Q test (x ∷ l) step none_of (first, h) =
    (step x (ground arith) first, All-both P Q test l step (ground arith) h)

pub All-each : {A : Type 0} (P : A → Type 0) (l : List A) → ((x : A) → P x) → All P l
All-each P [] each = tt
All-each P (x ∷ l) each = (each x, All-each P l each)

module _ {A : Type 0} (x : A) where
  pub IsIn-append : (l more : List A) → IsIn x l → IsIn x (l ++ more)
  IsIn-append [] more h = elim h [ ]
  IsIn-append (y ∷ l) more (inl same) = inl same
  IsIn-append (y ∷ l) more (inr h) = inr (IsIn-append l more h)

  pub IsIn-after : (l more : List A) → IsIn x more → IsIn x (l ++ more)
  IsIn-after [] more h = h
  IsIn-after (y ∷ l) more h = inr (IsIn-after l more h)

  pub IsIn-last : (l : List A) → IsIn x (l ++ x ∷ [])
  IsIn-last [] = inl refl
  IsIn-last (y ∷ l) = inr (IsIn-last l)

pub IsIn-map : {A B : Type 0} (f : A → B) (x : A) (l : List A) → IsIn x l → IsIn (f x) (map f l)
IsIn-map f x [] h = elim h [ ]
IsIn-map f x (y ∷ l) (inl same) = inl (ap f same)
IsIn-map f x (y ∷ l) (inr h) = inr (IsIn-map f x l h)
