-- ===== src/Manifest/Cron/Tests.antt =====
-- Runs of the cron expressions.
use moduless.Base.{◌≡◌, refl, Bool, true, false, bytes, Bytes, Option, some, none, ℕ}
use moduless.Manifest.Cron.{parse_schedule, parse_part, schedule_matches, ok, err, Time}

fires : Bytes → Time → Option Bool
fires expr t = elim (parse_schedule expr) [ err e ↦ none | ok s ↦ some (schedule_matches s t) ]

-- The first of the month, or a Monday.
monday :
    fires (bytes "0 0 1 * 1") (record { minute = 0; hour = 0; day = 8; month = 6; weekday = 1 })
    ≡ some true
unfolding fires parse_schedule schedule_matches
monday = refl

quarter :
    fires
      (bytes "*/15 9-17 * * *")
      (record { minute = 46; hour = 9; day = 8; month = 6; weekday = 1 })
    ≡ some false
unfolding fires parse_schedule schedule_matches
quarter = refl

has_bit : Bytes → ℕ → Option Bool
has_bit part w = elim (parse_part part 0 59) [ err e ↦ none | ok m ↦ some (m w) ]

-- A step of 2^63 - 1 wraps around and adds a minute that the expression does not name.
step_wraps : has_bit (bytes "2/9223372036854775807") 0 ≡ some true
unfolding has_bit parse_part
step_wraps = refl
