-- ===== src/Event/Order.antt =====
-- The order in which events are listed.
use mathlib.Core.List.{
  Perm, Pairwise, Pairwise-cons, Mem, mem-cons, mem-cons_self, not-mem-nil, mem-append,
}
use mathlib.Core.HLevel.{¬_prop}
use mathlib.Core.Logic.Or
use mathlib.Core.Bool.{Bool-set}
use mathlib.Core.List.Perm
use mathlib.Core.List.Pairwise
use webhook_relay_api.Prelude.{
  ◌≡◌, ◌≢◌, Bool, true, false, List, [], ◌∷◌, ◌++◌, arith, ap, sym, refl, ◌∙◌, eq_iff, any, keep,
  keep-true, keep-false, Bool-cases, inl, inr,
}
use webhook_relay_api.Prelude.Keeping.{keep-Pairwise}
use webhook_relay_api.Prelude.Perms.{sorted_unique}
use webhook_relay_api.Text.Order.{text_lt_asym, text_le_trans, text_lt_total}
use webhook_relay_api.Event.{Event, Event-set, clashes, newer}
use webhook_relay_api.Event.Unique.{IsUnique}
use webhook_relay_api.Database.{IsOrdering}

newer_asym : (a b : Event) → newer a b ≡ true → newer b a ≡ false
unfolding newer
newer_asym a b h = ground (arith, text_lt_asym b.id a.id, text_lt_asym a.id b.id)

not_newer_trans : (a b c : Event) → newer b a ≡ false → newer c b ≡ false → newer c a ≡ false
unfolding newer
not_newer_trans a b c h k = ground (arith, text_le_trans c.id b.id a.id)

-- Two rows neither of which goes before the other have one id.
newer_total : (a b : Event) → newer a b ≡ false → newer b a ≡ false → a.id ≡ b.id
unfolding newer
newer_total a b h k = ground (arith, text_lt_total a.id b.id)

pub newer-IsOrdering : IsOrdering newer
newer-IsOrdering = record { asymmetric = newer_asym; not_before_trans = not_newer_trans }

newer_irrefl : (a : Event) → newer a a ≡ false
newer_irrefl a = elim (Bool-cases (newer a a)) [ inl h ↦ newer_asym a a h | inr h ↦ h ]

-- Each row goes before all that follow it.
abbrev pub IsNewestFirst : List Event → Type 0
IsNewestFirst = Pairwise (λ a b. newer a b ≡ true)

newer_excl : (a b : Event) → newer a b ≡ true → newer b a ≡ true → ⊥
newer_excl a b h k = cc (newer_asym a b h)

-- The order leaves no choice.
pub IsNewestFirst-unique : (l m : List Event) → Perm l m → IsNewestFirst l → IsNewestFirst m → l ≡ m
IsNewestFirst-unique = sorted_unique Event-set (λ a b. newer a b ≡ true) newer_excl

abbrev HaveDistinctIds : List Event → Type 0
HaveDistinctIds = Pairwise (λ a b. a.id ≢ b.id)

id-ne_of_clashes : (a b : Event) → clashes a b ≡ false → a.id ≢ b.id
unfolding clashes
id-ne_of_clashes a b h e = ground (arith, eq_iff b.id a.id)

mem-any : (p : Event → Bool) (l : List Event) (b : Event) → any p l ≡ false → Mem b l → p b ≡ false
mem-any p [] b h m = absurd (not-mem-nil m)
mem-any p (x ∷ l) b h m =
    Or.elim (Bool-set _ _) (mem-cons.0 m) (λ e. rw e (ground arith))
      (λ k. mem-any p l b (ground arith) k)

distinct_of_unique : (rows : List Event) → IsUnique rows → HaveDistinctIds rows
distinct_of_unique [] h = Pairwise.nil
distinct_of_unique (r ∷ rows) (apart, h) =
    Pairwise-cons.1
      (λ b m. id-ne_of_clashes r b (mem-any (clashes r) rows b apart m), distinct_of_unique rows h)

newer_of_weak : (a b : Event) → newer b a ≡ false → a.id ≢ b.id → newer a b ≡ true
newer_of_weak a b weak differ = elim (Bool-cases (newer a b)) [
  | inl h ↦ h
  | inr h ↦ absurd (differ (newer_total a b h weak))
]

-- A sorted list of selected rows of a table with its constraints.
pub newest_first :
    (test : Event → Bool) (rows all : List Event)
    → IsUnique rows
    → Perm all (keep test rows)
    → Pairwise (λ a b. newer b a ≡ false) all
    → IsNewestFirst all
newest_first test rows all unique perm weak =
    let distinct : HaveDistinctIds all =
      (Perm.Pairwise-iff (λ a b. ¬_prop) (λ a b n e. n (sym e)) perm).1
        (keep-Pairwise test (distinct_of_unique rows unique)) in
    Pairwise.imp₂ newer_of_weak weak distinct

keep_after :
    (x : Event) (l : List Event) → ((b : Event) → Mem b l → newer x b ≡ true) → keep (newer x) l ≡ l
keep_after x [] h = refl
keep_after x (b ∷ l) h =
    keep-true (newer x) b l (h b mem-cons_self)
    ∙ ap (λ m. b ∷ m) (keep_after x l (λ c m. h c (mem-cons.1 (Or.inr m))))

-- The rows that `x` goes before are those behind it.
pub keep-newer :
    (before : List Event) (x : Event) (behind : List Event)
    → IsNewestFirst (before ++ x ∷ behind)
    → keep (newer x) (before ++ x ∷ behind) ≡ behind
keep-newer [] x behind h =
    keep-false (newer x) x behind (newer_irrefl x) ∙ keep_after x behind (Pairwise-cons.0 h).0
keep-newer (a ∷ before) x behind h =
    let ahead : newer a x ≡ true = (Pairwise-cons.0 h).0 x (mem-append.1 (Or.inr mem-cons_self)) in
    keep-false (newer x) a (before ++ x ∷ behind) (newer_asym a x ahead)
    ∙ keep-newer before x behind (Pairwise-cons.0 h).1
