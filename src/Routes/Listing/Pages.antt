-- ===== src/Routes/Listing/Pages.antt =====
-- Pages of the listing: what each holds, and that following the cursors visits every event once.
use mathlib.Core.List.{Perm}
use mathlib.Core.List.Perm
use webhook_relay_api.Prelude.{
  ℕ, zero, suc, ◌+◌, ◌≤◌, ◌<◌, String, ◌≡◌, refl, sym, ap, subst, ◌∙◌, Bool, true, ◌&&◌, Option,
  none, some, List, [], ◌∷◌, ◌++◌, arith, keep, length, take, map, get_last?, ltb, if◌then◌else◌,
  length-take,
}
use webhook_relay_api.Prelude.Keeping.{keep-perm, keep-Pairwise, keep-keep}
use webhook_relay_api.Result.{ok}
use webhook_relay_api.Platform.{Platform}
use webhook_relay_api.Event.{Event, newer}
use webhook_relay_api.Event.Unique.{IsUnique}
use webhook_relay_api.Event.Order.{
  IsNewestFirst, IsNewestFirst-unique, newest_first, keep-newer, newer-IsOrdering,
}
use webhook_relay_api.Database.{Database}
use webhook_relay_api.App.{App, get_db}
use webhook_relay_api.Routes.{EventsListResponse, event_item}
use webhook_relay_api.Routes.Cursor.{
  IsCodec, encode_cursor, decode_cursor-encode_cursor, encode_cursor-truthy,
}
use webhook_relay_api.Routes.Listing.{
  from_source, cursor_test, cursor_after, page_of, fetch, list_events,
}

take-take : (n m : ℕ) (l : List Event) → n ≤ m → take n (take m l) ≡ take n l
take-take zero m l h = refl
take-take (suc n) zero l h = absurd (omega arith)
take-take (suc n) (suc m) [] h = refl
take-take (suc n) (suc m) (x ∷ l) h = ap (λ k. x ∷ k) (take-take n m l (omega arith))

more-take_suc : (n : ℕ) (l : List Event) → ltb n (length (take (n + 1) l)) ≡ ltb n (length l)
more-take_suc n l = ground (arith, length-take (n + 1) l)

-- A list cut behind its `n`-th item.
pub split_take :
    (n : ℕ) (l : List Event)
    → n < length l
    → 1 ≤ n
    → (before : List Event) × (tail : Event) × (behind : List Event) × (l ≡ before ++ tail ∷ behind)
      × (take n l ≡ before ++ tail ∷ [])
      × (get_last? (take n l) ≡ some tail)
      × (length behind + n ≡ length l)
split_take n [] h k = absurd (omega arith)
split_take zero (x ∷ l) h k = absurd (omega arith)
split_take (suc zero) (x ∷ l) h k = ([], x, l, refl, refl, refl, omega arith)
split_take (suc (suc n)) (x ∷ []) h k = absurd (omega arith)
split_take (suc (suc n)) (x ∷ y ∷ l) h k =
    let (before, tail, behind, whole, cut, last, count) =
      split_take (suc n) (y ∷ l) (omega arith) (omega arith) in
    (x ∷ before, tail, behind, ap (λ m. x ∷ m) whole, ap (λ m. x ∷ m) cut, last, omega arith)

module _ (p : Platform) where
  cursor_test-encode :
      IsCodec p
      → (x : Event) → cursor_test p (some (encode_cursor p x.received_at x.id)) ≡ ok (newer x)
  unfolding cursor_test newer
  cursor_test-encode codec x =
      rw (encode_cursor-truthy p codec x.received_at x.id)
        (rw (decode_cursor-encode_cursor p codec x.received_at x.id) refl)

module _ (p : Platform) (limit : ℕ) where
  -- The page that stands at the front of a list of events.
  abbrev pub front : List Event → EventsListResponse
  front l = record {
    events = map event_item (take limit l);
    next_cursor = if ltb limit (length l) then cursor_after p (get_last? (take limit l)) else none;
  }

  page_of-take : (l : List Event) → page_of p limit (take (limit + 1) l) ≡ front l
  unfolding page_of
  page_of-take l = rw (take-take limit (limit + 1) l (omega arith), more-take_suc limit l)

  module _ {Db : Type 0} (db : Database Db) (app : App Db) (source : Option String)
      (live : app.session ≡ true) (unique : IsUnique (db.rows app.db)) where
    -- The events of the source, in the order in which they are listed.
    abbrev pub IsListing : List Event → Type 0
    IsListing all = IsNewestFirst all × Perm all (keep (from_source source) (db.rows app.db))

    select-newest :
        (test : Event → Bool) (l : List Event)
        → IsNewestFirst l
        → Perm l (keep test (db.rows app.db))
        → (n : ℕ) → db.select_ordered test newer n app.db ≡ take n l
    select-newest test l sorted perm n =
        let (all, same, weak, taken) =
          db.select_ordered_sorted test newer n app.db newer-IsOrdering in
        let strict = newest_first test (db.rows app.db) all unique same weak in
        taken
        ∙ ap (take n) (IsNewestFirst-unique all l (Perm.trans same (Perm.symm perm)) strict sorted)

    fetch-front :
        (test : Event → Bool) (l : List Event)
        → IsNewestFirst l
        → Perm l (keep (λ row. from_source source row && test row) (db.rows app.db))
        → fetch p db source limit test app ≡ (ok (front l), app)
    unfolding get_db
    fetch-front test l sorted perm = rw live (
        rw (select-newest (λ row. from_source source row && test row) l sorted perm (limit + 1))
          (rw (page_of-take l)))

    keep_both :
        (l : List Event)
        → keep (λ row. from_source source row && true) l ≡ keep (from_source source) l
    keep_both [] = refl
    keep_both (x ∷ l) = ground (arith, keep_both l)

    -- The first page is the front of the listing.
    pub list_events-first :
        (all : List Event)
        → IsListing all
        → list_events p db limit none source app ≡ (ok (front all), app)
    unfolding list_events cursor_test
    list_events-first all (sorted, perm) =
        fetch-front (λ row. true) all sorted
          (subst (Perm all) (sym (keep_both (db.rows app.db))) perm)

    -- The page behind an event of the listing, asked for with the cursor of that event.
    pub list_events-next :
        IsCodec p
        → (before : List Event) (x : Event) (behind : List Event) → IsListing (before ++ x ∷ behind)
        → list_events p db limit (some (encode_cursor p x.received_at x.id)) source app
          ≡ (ok (front behind), app)
    unfolding list_events
    list_events-next codec before x behind (sorted, perm) =
        let cut = keep-newer before x behind sorted in
        let rest = subst IsNewestFirst cut (keep-Pairwise (newer x) sorted) in
        let selected =
          subst (Perm behind) (keep-keep (newer x) (from_source source) (db.rows app.db)) (
            subst (λ l. Perm l (keep (newer x) (keep (from_source source) (db.rows app.db)))) cut
              (keep-perm (newer x) perm)) in
        rw (cursor_test-encode p codec x) (fetch-front (newer x) behind rest selected)
