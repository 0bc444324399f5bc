-- ===== src/Routes/Listing/Walk.antt =====
-- A client that follows the cursors of the listing.
use mathlib.Core.List.{Perm, append_assoc, map-append}
use webhook_relay_api.Prelude.{
  ℕ, zero, suc, ◌≤◌, ◌<◌, String, ◌≡◌, refl, sym, ap, subst, ◌∙◌, true, Option, none, some, List,
  [], ◌∷◌, ◌++◌, arith, length, take, take_all, keep, map, ltb, Bool-cases, inl, inr, ltb→lt,
}
use webhook_relay_api.Result.{ok}
use webhook_relay_api.Platform.{Platform}
use webhook_relay_api.Event.{Event}
use webhook_relay_api.Event.Unique.{IsUnique}
use webhook_relay_api.Event.Order.{IsNewestFirst}
use webhook_relay_api.Database.{Database}
use webhook_relay_api.App.{App, Exec, pure, ◌>>=◌}
use webhook_relay_api.Routes.{EventItem, event_item}
use webhook_relay_api.Routes.Cursor.{IsCodec, encode_cursor}
use webhook_relay_api.Routes.Listing.{from_source, list_events}
use webhook_relay_api.Routes.Listing.Pages.{
  split_take, front, IsListing, list_events-first, list_events-next,
}

module _ (p : Platform) {Db : Type 0} (db : Database Db) (limit : ℕ) (source : Option String) where
  -- Requests pages until one has no cursor, `fuel` pages at most; `none` means that the fuel ran out.
  unfoldable pub walk : ℕ → Option String → Exec (App Db) (Option (List EventItem))
  walk zero cursor = pure none
  walk (suc fuel) cursor = do
    page ← list_events p db limit cursor source
    elim page.next_cursor [
      | none ↦ pure (some page.events)
      | some next ↦ (do
        rest ← walk fuel (some next)
        pure (elim rest [ none ↦ none | some items ↦ some (page.events ++ items) ]))
    ]

module _ (p : Platform) (codec : IsCodec p) {Db : Type 0} (db : Database Db) (limit : ℕ)
    (positive : 1 ≤ limit) (app : App Db) (source : Option String) (live : app.session ≡ true)
    (unique : IsUnique (db.rows app.db)) (all : List Event)
    (listing : IsListing p limit db app source live unique all) where
  walk_from :
      (fuel : ℕ) (cursor : Option String) (seen l : List Event)
      → all ≡ seen ++ l
      → list_events p db limit cursor source app ≡ (ok (front p limit l), app)
      → length l < fuel
      → walk p db limit source fuel cursor app ≡ (ok (some (map event_item l)), app)
  unfolding walk
  walk_from zero cursor seen l e page h = absurd (omega arith)
  walk_from (suc fuel) cursor seen l e page h = elim (Bool-cases (ltb limit (length l))) [
    | inl more ↦
        (let (before, tail, behind, whole, cut, last, count) =
            split_take limit l (ltb→lt limit (length l) more) positive in
          let joined =
            e ∙ ap (λ k. seen ++ k) whole ∙ sym (append_assoc seen before (tail ∷ behind)) in
          let next =
            list_events-next p limit db app source live unique codec (seen ++ before) tail behind
              (subst (IsListing p limit db app source live unique) joined listing) in
          let rest =
            walk_from fuel (some (encode_cursor p tail.received_at tail.id))
              ((seen ++ before) ++ tail ∷ []) behind
              (joined ∙ sym (append_assoc (seen ++ before) (tail ∷ []) behind)) next
              (omega arith) in
          let items =
            sym (map-append event_item (take limit l) behind)
            ∙ ap (map event_item)
                (ap (λ k. k ++ behind) cut ∙ append_assoc before (tail ∷ []) behind ∙ sym whole) in
          rw page (rw more (rw last (rw rest (ap (λ k. (ok (some k), app)) items)))))
    | inr last ↦
        rw page (
          rw last (ap (λ k. (ok (some (map event_item k)), app)) (take_all limit l (ground arith))))
  ]

module _ (p : Platform) {Db : Type 0} (db : Database Db) (limit : ℕ) (source : Option String)
    (app : App Db) where
  -- Where the session exists, the limit is positive, the cursor codec inverts and the events of the
  -- database are unique, requesting pages until one has no cursor returns every event of the source,
  -- newest first, each once, within as many pages as there are events and one more; nothing changes.
  pub walk-listing :
      IsCodec p
      → 1 ≤ limit
      → app.session ≡ true
      → IsUnique (db.rows app.db)
      → (all : List Event) → IsNewestFirst all
      → Perm all (keep (from_source source) (db.rows app.db))
      → (fuel : ℕ) → length all < fuel
      → walk p db limit source fuel none app ≡ (ok (some (map event_item all)), app)
  walk-listing codec positive live unique all sorted perm fuel h =
      walk_from p codec db limit positive app source live unique all (sorted, perm) fuel none [] all
        refl (list_events-first p limit db app source live unique all (sorted, perm)) h
