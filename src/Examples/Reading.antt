-- ===== src/Examples/Reading.antt =====
-- The cursors and the pages of the listing at concrete rows.
use mathlib.Core.List.{Perm, Pairwise, Pairwise-cons, mem-cons, not-mem-nil}
use mathlib.Core.List.Perm
use mathlib.Core.Logic.Or
use mathlib.Core.Bool.{Bool-set}
use webhook_relay_api.Prelude.{
  ◌≡◌, refl, sym, subst, true, some, none, List, [], ◌∷◌, keep, map, arith,
}
use webhook_relay_api.Result.{ok}
use webhook_relay_api.Datetime.{naive, as_utc}
use webhook_relay_api.Event.{Event, newer, clashes}
use webhook_relay_api.Event.Unique.{IsUnique}
use webhook_relay_api.Event.Order.{IsNewestFirst}
use webhook_relay_api.Database.Table.{table}
use webhook_relay_api.Routes.{
  event_item, event_relay_result, apply_relay_result, queue_full_relay_result,
}
use webhook_relay_api.Routes.Results.{event_relay_result-apply}
use webhook_relay_api.Routes.Cursor.{encode_cursor, decode_cursor, decode_cursor-encode_cursor}
use webhook_relay_api.Routes.Listing.{from_source}
use webhook_relay_api.Routes.Listing.Walk.{walk, walk-listing}
use webhook_relay_api.Examples.World.{platform, platform-IsCodec, row, known, app}

cursor_read_back : decode_cursor platform (encode_cursor platform (naive 20) "e2") ≡ ok (20, "e2")
cursor_read_back = decode_cursor-encode_cursor platform platform-IsCodec (naive 20) "e2"

-- The rows of the source, newest first.
abbrev newest : List Event
newest = row "e2" 20 none ∷ row "e1" 10 (some "k1") ∷ []

newest-IsNewestFirst : IsNewestFirst newest
unfolding newer
newest-IsNewestFirst = Pairwise-cons.1 (
  λ b m.
      Or.elim (Bool-set _ _) (mem-cons.0 m)
        (λ e. subst (λ x. newer (row "e2" 20 none) x ≡ true) (sym e) refl)
        (λ k. absurd (not-mem-nil k)),
  Pairwise-cons.1 (λ b m. absurd (not-mem-nil m), Pairwise.nil),
)

newest-Perm : Perm newest (keep (from_source (some "shop")) known)
newest-Perm = Perm.swap _ _ []

known-IsUnique : IsUnique known
unfolding clashes
known-IsUnique = (refl, (refl, tt))

walk-listing_example :
    walk platform table 1 (some "shop") 3 none (app known)
    ≡ (ok (some (map event_item newest)), app known)
unfolding table
walk-listing_example =
    walk-listing platform table 1 (some "shop") (app known) platform-IsCodec (omega arith) refl
      known-IsUnique newest newest-IsNewestFirst newest-Perm 3 (omega arith)

result_read_back :
    event_relay_result (apply_relay_result (row "e1" 10 none) queue_full_relay_result)
    ≡ some queue_full_relay_result
unfolding as_utc
result_read_back = event_relay_result-apply (row "e1" 10 none) queue_full_relay_result
