-- ===== src/Datetime.antt =====
-- Python's `datetime`, as far as the program uses it, and `_as_utc` (app/api/routes.py).
-- A naive value is the microseconds of its wall clock since the start of the year 1. An aware value
-- is the microseconds of its UTC instant with the offset, in minutes, in which it is written.
use webhook_relay_api.Prelude.{
  ℕ, ◌+◌, ◌-◌, ◌*◌, ◌≡◌, refl, Option, none, some, ltb, leb, if◌then◌else◌,
}
use webhook_relay_api.Prelude.Int.{ℤ, pos, negsuc}
use webhook_relay_api.Result.{Result, ok, err, overflow_error}

pub data Datetime : Type 0 where
  naive : ℕ → Datetime
  aware : ℕ → ℤ → Datetime

-- `timezone.utc`
abbrev pub utc : ℤ
utc = pos 0

-- `_as_utc` on a value that is not `None`.
unfoldable pub to_utc : Datetime → Datetime
to_utc (naive wall) = aware wall utc
to_utc (aware instant offset) = aware instant utc

unfoldable pub as_utc : Option Datetime → Option Datetime
unfolding to_utc
as_utc none = none
as_utc (some value) = some (to_utc value)

-- The instant that a database column stands for: both kinds are kept in UTC.
abbrev pub instant : Datetime → ℕ
instant (naive wall) = wall
instant (aware i offset) = i

-- The microseconds of a day, and the first instant past `datetime.max`: 3652059 days.
abbrev pub day_micros : ℕ
day_micros = 86400000000

abbrev pub end_of_time : ℕ
end_of_time = 3652059 * day_micros

-- `now - timedelta(days=days)`, which raises outside the range of `datetime`.
unfoldable pub minus_days : ℕ → ℤ → Result ℕ
minus_days now (pos days) =
    if ltb now (days * day_micros) then err overflow_error else ok (now - days * day_micros)
minus_days now (negsuc days) =
    if leb end_of_time (now + (days + 1) * day_micros)
    then err overflow_error
    else ok (now + (days + 1) * day_micros)

-- Normalising a second time changes nothing, and the instant is kept.
pub to_utc_idem : (d : Datetime) → to_utc (to_utc d) ≡ to_utc d
unfolding to_utc
to_utc_idem (naive w) = refl
to_utc_idem (aware i o) = refl

pub instant-to_utc : (d : Datetime) → instant (to_utc d) ≡ instant d
unfolding to_utc
instant-to_utc (naive w) = refl
instant-to_utc (aware i o) = refl

pub to_utc-eq-aware : (d : Datetime) → to_utc d ≡ aware (instant d) utc
unfolding to_utc
to_utc-eq-aware (naive w) = refl
to_utc-eq-aware (aware i o) = refl
