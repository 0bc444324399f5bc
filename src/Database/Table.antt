-- ===== src/Database/Table.antt =====
-- A list of rows meets the assumptions on the database: what SQLite would do, with an insertion sort
-- for ORDER BY. It is used to run the model on concrete inputs.
use mathlib.Core.Logic.Or
use mathlib.Core.List.{Perm, Pairwise, mem-cons, Pairwise-cons, not-mem-nil}
use mathlib.Core.List.Perm
use mathlib.Core.Bool.{Bool-set}
use webhook_relay_api.Prelude.{
  ℕ, ◌≡◌, refl, Bool, true, false, not, Option, none, some, List, [], ◌∷◌, ◌++◌, map, ◌==◌,
  if◌then◌else◌, any, keep, take, length, Bool-cases, inl, inr,
}
use webhook_relay_api.Datetime.{Datetime, naive, aware, utc, to_utc}
use webhook_relay_api.Event.{Event, clashes}
use webhook_relay_api.Database.{stored_columns, stored, set_relay, IsOrdering, Database}

module _ (before : Event → Event → Bool) where
  unfoldable pub place : Event → List Event → List Event
  place x [] = x ∷ []
  place x (y ∷ ys) = let rest = place x ys in if before x y then x ∷ y ∷ ys else y ∷ rest

  unfoldable pub sort : List Event → List Event
  unfolding place
  sort [] = []
  sort (x ∷ xs) = place x (sort xs)

  place-perm : (x : Event) (l : List Event) → Perm (place x l) (x ∷ l)
  unfolding place
  place-perm x [] = Perm.refl _
  place-perm x (y ∷ ys) = elim (Bool-cases (before x y)) [
    | inl h ↦ rw (h, place) (Perm.refl _)
    | inr h ↦ rw (h, place) (Perm.trans (Perm.cons y (place-perm x ys)) (Perm.swap x y ys))
  ]

  sort-perm : (l : List Event) → Perm (sort l) l
  unfolding sort
  sort-perm [] = Perm.refl _
  sort-perm (x ∷ xs) = Perm.trans (place-perm x (sort xs)) (Perm.cons x (sort-perm xs))

  abbrev Weak : Event → Event → Type 0
  Weak a b = before b a ≡ false

  place-sorted :
      IsOrdering before → (x : Event) (l : List Event) → Pairwise Weak l → Pairwise Weak (place x l)
  unfolding place
  place-sorted o x [] h = Pairwise-cons.1 (λ a m. absurd (not-mem-nil m), h)
  place-sorted o x (y ∷ ys) h = elim (Bool-cases (before x y)) [
    | inl b ↦
        rw (b, place)
          (Pairwise-cons.1 (
            λ z m.
                Or.elim (Bool-set _ _) (mem-cons.0 m) (λ e. rw e (o.asymmetric x y b))
                  (λ k. o.not_before_trans x y z (o.asymmetric x y b) ((Pairwise-cons.0 h).0 z k)),
            h,
          ))
    | inr b ↦
        rw (b, place)
          (Pairwise-cons.1 (
            λ z m.
                Or.elim (Bool-set _ _) (mem-cons.0 ((Perm.mem_iff (place-perm x ys)).0 m))
                  (λ e. rw e b) (λ k. (Pairwise-cons.0 h).0 z k),
            place-sorted o x ys (Pairwise-cons.0 h).1,
          ))
  ]

  sort-sorted : IsOrdering before → (l : List Event) → Pairwise Weak (sort l)
  unfolding sort
  sort-sorted o [] = Pairwise.nil
  sort-sorted o (x ∷ xs) = place-sorted o x (sort xs) (sort-sorted o xs)

-- A driver that drops the offset of a time.
unfoldable pub drop_offset : Datetime → Datetime
drop_offset (naive wall) = naive wall
drop_offset (aware i offset) = naive i

abbrev pub first? : List Event → Option Event
first? [] = none
first? (e ∷ more) = some e

pub first?-eq : (l : List Event) (e : Event) (more : List Event) → l ≡ e ∷ more → first? l ≡ some e
first?-eq l e more h = rw h

unfoldable pub insert_row : Event → List Event → Option (List Event)
unfolding drop_offset
insert_row e d = if any (clashes e) d then none else some (d ++ stored drop_offset e ∷ [])

pub insert_row-clash :
    (e : Event) (d : List Event) → any (clashes e) d ≡ true → insert_row e d ≡ none
unfolding insert_row
insert_row-clash e d h = rw h

pub insert_row-fresh :
    (e : Event) (d : List Event)
    → any (clashes e) d ≡ false
    → (d' : List Event) × (insert_row e d ≡ some d') × (d' ≡ d ++ stored drop_offset e ∷ [])
unfolding insert_row
insert_row-fresh e d h = (d ++ stored drop_offset e ∷ [], rw h, refl)

pub drop_offset-utc : (t : ℕ) → to_utc (drop_offset (aware t utc)) ≡ aware t utc
unfolding to_utc drop_offset
drop_offset-utc t = refl

unfoldable pub select_rows : (Event → Bool) → (Event → Event → Bool) → ℕ → List Event → List Event
unfolding sort place
select_rows test before n d = take n (sort before (keep test d))

pub select_rows-sorted :
    (test : Event → Bool) (before : Event → Event → Bool) (n : ℕ) (d : List Event)
    → IsOrdering before
    → (all : List Event) × Perm all (keep test d)
      × Pairwise (λ a b. before b a ≡ false) all
      × (select_rows test before n d ≡ take n all)
unfolding select_rows
select_rows-sorted test before n d o = (
  sort before (keep test d),
  sort-perm before (keep test d),
  sort-sorted before o (keep test d),
  refl,
)

pub nothing_first : (l : List Event) → l ≡ [] → first? l ≡ none
nothing_first l h = rw h

unfoldable pub table : Database (List Event)
unfolding insert_row select_rows drop_offset
table = record {
  rows = λ d. d;
  store_time = drop_offset;
  insert = insert_row;
  get = λ id d. first? (keep (λ row. row.id == id) d);
  select = keep;
  select_ordered = select_rows;
  update_relay = λ id u. map (set_relay id (stored_columns drop_offset u));
  delete = λ test d. (keep (λ row. not (test row)) d, length (keep test d));
  store_time_utc = drop_offset-utc;
  insert_clash = insert_row-clash;
  insert_fresh = insert_row-fresh;
  get_lem = λ id d. nothing_first (keep (λ row. row.id == id) d);
  get_first = λ id d. first?-eq (keep (λ row. row.id == id) d);
  select_perm = λ test d. Perm.refl _;
  select_ordered_sorted = select_rows-sorted;
  rows-update_relay = λ id u d. refl;
  rows-delete = λ test d. refl;
  count-delete = λ test d. refl;
}
