-- ===== src/Event/Unique.antt =====
-- The constraints of the table `events`, and the statements that keep them.
use webhook_relay_api.Prelude.{
  suc, ◌≤◌, String, ◌≡◌, refl, sym, ap, subst, keep-true, keep-false, ◌∙◌, Bool, true, false, ◌||◌,
  ◌&&◌, Option, none, some, List, [], ◌∷◌, ◌++◌, map, arith, any, keep, length, IsIn, eq_iff, ◌==◌,
  Bool-cases, inl, inr,
}
use webhook_relay_api.Event.{Event, clashes, sql_eq}

-- No two rows have one id, or one source and one idempotency key.
abbrev pub IsUnique : List Event → Type 0
IsUnique [] = Unit
IsUnique (e ∷ es) = (any (clashes e) es ≡ false) × IsUnique es

clashes_comm : (e f : Event) → clashes e f ≡ clashes f e
unfolding clashes
clashes_comm e f = clash_comm e.id f.id e.source f.source e.idempotency_key f.idempotency_key
  where
    clash_comm :
        (i j s t : String) (k l : Option String)
        → (j == i || (t == s && sql_eq l k)) ≡ (i == j || (s == t && sql_eq k l))
    clash_comm i j s t none none = ground (arith, eq_iff i j, eq_iff j i, eq_iff s t, eq_iff t s)
    clash_comm i j s t none (some l) =
        ground (arith, eq_iff i j, eq_iff j i, eq_iff s t, eq_iff t s)
    clash_comm i j s t (some k) none =
        ground (arith, eq_iff i j, eq_iff j i, eq_iff s t, eq_iff t s)
    clash_comm i j s t (some k) (some l) =
        ground (arith, eq_iff i j, eq_iff j i, eq_iff s t, eq_iff t s, eq_iff k l, eq_iff l k)

any-append :
    (p : Event → Bool) (xs : List Event) (y : Event) → any p (xs ++ y ∷ []) ≡ (any p xs || p y)
any-append p [] y = ground arith
any-append p (x ∷ xs) y = ground (arith, any-append p xs y)

-- INSERT of a row that clashes with none.
pub IsUnique-append :
    (rows : List Event) (e : Event)
    → IsUnique rows
    → any (clashes e) rows ≡ false
    → IsUnique (rows ++ e ∷ [])
IsUnique-append [] e h fresh = (refl, tt)
IsUnique-append (r ∷ rows) e (apart, h) fresh = (
  ground (arith, any-append (clashes r) rows e, clashes_comm e r),
  IsUnique-append rows e h (ground arith),
)

any-map :
    (p : Event → Bool) (f : Event → Event) (xs : List Event)
    → ((e : Event) → p (f e) ≡ p e)
    → any p (map f xs) ≡ any p xs
any-map p f [] h = refl
any-map p f (x ∷ xs) h = ground (arith, h x, any-map p f xs h)

-- UPDATE of columns that no constraint is about.
module _ (f : Event → Event) (same : (e r : Event) → clashes (f e) (f r) ≡ clashes e r) where
  any-clashes-map :
      (e : Event) (xs : List Event) → any (clashes (f e)) (map f xs) ≡ any (clashes e) xs
  any-clashes-map e [] = refl
  any-clashes-map e (x ∷ xs) = ground (arith, same e x, any-clashes-map e xs)

  pub IsUnique-map : (rows : List Event) → IsUnique rows → IsUnique (map f rows)
  IsUnique-map [] h = tt
  IsUnique-map (r ∷ rows) (apart, h) = (any-clashes-map r rows ∙ apart, IsUnique-map rows h)

any-keep : (p q : Event → Bool) (xs : List Event) → any p xs ≡ false → any p (keep q xs) ≡ false
any-keep p q [] h = refl
any-keep p q (x ∷ xs) h = ground (arith, any-keep p q xs)

-- DELETE.
pub IsUnique-keep : (q : Event → Bool) (rows : List Event) → IsUnique rows → IsUnique (keep q rows)
IsUnique-keep q [] h = tt
IsUnique-keep q (r ∷ rows) (apart, h) = elim (Bool-cases (q r)) [
  | inl yes_q ↦
      subst IsUnique (sym (keep-true q r rows yes_q))
        (any-keep (clashes r) q rows apart, IsUnique-keep q rows h)
  | inr no_q ↦ subst IsUnique (sym (keep-false q r rows no_q)) (IsUnique-keep q rows h)
]

-- A test that only clashing rows pass together selects one row at most.
module _ (q : Event → Bool)
    (pair : (e r : Event) → q e ≡ true → q r ≡ true → clashes e r ≡ true) where
  none_left :
      (r : Event) (rest : List Event) → q r ≡ true → any (clashes r) rest ≡ false → keep q rest ≡ []
  none_left r [] passes apart = refl
  none_left r (x ∷ rest) passes apart = ground (arith, pair r x passes, none_left r rest passes)

  pub keep-le_one : (rows : List Event) → IsUnique rows → length (keep q rows) ≤ 1
  keep-le_one [] h = omega arith
  keep-le_one (r ∷ rows) (apart, h) = ground (arith, none_left r rows, keep-le_one rows h)

pub any_of_IsIn :
    (p : Event → Bool) (e : Event) (rows : List Event)
    → IsIn e rows
    → p e ≡ true
    → any p rows ≡ true
any_of_IsIn p e [] m h = elim m [ ]
any_of_IsIn p e (r ∷ rows) (inl same) h = rw (ap p (sym same) ∙ h)
any_of_IsIn p e (r ∷ rows) (inr m) h = ground (arith, any_of_IsIn p e rows m h)

length-eq-zero : (l : List Event) → length l ≡ 0 → l ≡ []
length-eq-zero [] h = refl
length-eq-zero (x ∷ l) h = absurd (omega arith)

keep_some :
    (q : Event → Bool) (e : Event) (rows : List Event)
    → IsIn e rows
    → q e ≡ true
    → 1 ≤ length (keep q rows)
keep_some q e [] m h = elim m [ ]
keep_some q e (r ∷ rows) (inl same) h = ground (arith, ap q same)
keep_some q e (r ∷ rows) (inr m) h = ground (arith, keep_some q e rows m h)

-- Where one row at most is selected, a row that is selected is the only one.
pub keep_only :
    (q : Event → Bool) (e : Event) (rows : List Event)
    → IsIn e rows
    → q e ≡ true
    → length (keep q rows) ≤ 1
    → keep q rows ≡ e ∷ []
keep_only q e [] m h le = elim m [ ]
keep_only q e (r ∷ rows) (inl same) h le =
    let kept = keep-true q r rows (ap q (sym same) ∙ h) in
    let one : suc (length (keep q rows)) ≤ 1 = subst (λ l. length l ≤ 1) kept le in
    kept ∙ rw (length-eq-zero (keep q rows) (omega arith)) (ap (λ x. x ∷ []) (sym same))
keep_only q e (r ∷ rows) (inr m) h le = elim (Bool-cases (q r)) [
  | inl passes ↦
      let one = subst (λ l. length l ≤ 1) (keep-true q r rows passes) le in
      absurd (omega (arith, keep_some q e rows m h))
  | inr fails ↦
      let same = keep-false q r rows fails in
      same ∙ keep_only q e rows m h (subst (λ l. length l ≤ 1) same le)
]
