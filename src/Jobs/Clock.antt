-- ===== src/Jobs/Clock.antt =====
-- The clock helpers of backend/app/services/job_service.py. Times are microseconds; a value with
-- no time zone is UTC, so `_normalized` is the identity here.
use data_analytics_platform.Base.{
  ℕ, ◌+◌, ◌*◌, ◌-◌, ◌/◌, max, min, Bool, true, false, ◌&&◌, Option, none, some, leb, ltb, is_none,
}

-- What the database's clock gives to one call: `selected` to its SELECT, `executed` to its UPDATE,
-- and two more to a call that it ends with. `override` is the argument `now`.
pub record Clock : Type 0 where
  pub postgresql : Bool
  pub override : Option ℕ
  pub selected : ℕ
  pub executed : ℕ
  pub then_selected : ℕ
  pub then_executed : ℕ

-- The readings of the nested call.
abbrev pub later : Clock → Clock
later c = record c { selected = c.then_selected; executed = c.then_executed }

abbrev pub or_else : Option ℕ → ℕ → ℕ
or_else none d = d
or_else (some v) d = v

unfoldable pub database_now : Clock → ℕ
database_now c = or_else c.override c.selected

abbrev pub choose : Bool → ℕ → ℕ → ℕ
choose true x y = x
choose false x y = y

-- `_lease_clock`
unfoldable pub lease_clock : Clock → ℕ → ℕ
lease_clock c current = choose (is_none c.override && c.postgresql) c.executed current

abbrev pub second : ℕ
second = 1000000

-- `_lease_deadline`
unfoldable pub lease_deadline : Clock → ℕ → ℕ → ℕ
lease_deadline c current seconds = lease_clock c current + max 1 seconds * second

-- `lease_expires_at > clock`, where SQL's NULL compares as false.
abbrev pub lease_after : Option ℕ → ℕ → Bool
lease_after none clock = false
lease_after (some t) clock = ltb clock t

-- `lease_expires_at <= clock`, likewise.
abbrev pub lease_by : Option ℕ → ℕ → Bool
lease_by none clock = false
lease_by (some t) clock = leb t clock

-- `min(lease_seconds, max(1, ceil((lease - current).total_seconds()) + 1))`
unfoldable pub remaining_seconds : ℕ → ℕ → ℕ → ℕ
remaining_seconds seconds lease current =
    min seconds (max 1 ((lease - current + (second - 1)) / second + 1))
