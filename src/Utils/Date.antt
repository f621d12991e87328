-- ===== src/Utils/Date.antt =====
-- src/modules/utils/date.rs: the calendar date of a day, and the text of a date header. Days before
-- 1970 do not occur, since earlier times are cut off at the epoch.
use image_resizer.Prelude.{List, [], if◌then◌else◌, leb, ltb, ℕ, ◌*◌, ◌+◌, ◌-◌, ◌/◌, ◌∷◌}
use image_resizer.Text.{Str, codes}

abbrev weekdays : List Str
weekdays =
    codes "Thu"
    ∷ codes "Fri"
    ∷ codes "Sat"
    ∷ codes "Sun"
    ∷ codes "Mon"
    ∷ codes "Tue"
    ∷ codes "Wed"
    ∷ []

abbrev months : List Str
months =
    codes "Jan"
    ∷ codes "Feb"
    ∷ codes "Mar"
    ∷ codes "Apr"
    ∷ codes "May"
    ∷ codes "Jun"
    ∷ codes "Jul"
    ∷ codes "Aug"
    ∷ codes "Sep"
    ∷ codes "Oct"
    ∷ codes "Nov"
    ∷ codes "Dec"
    ∷ []

-- The date of a day of an era of 400 years that begins on the first of March: the year of the era,
-- the month and the day.
unfoldable pub civil_of_era : ℕ → ℕ × ℕ × ℕ
civil_of_era doe =
    let yoe = (doe - doe / 1460 + doe / 36524 - doe / 146096) / 365 in
    let doy = doe - (365 * yoe + yoe / 4 - yoe / 100) in
    let mp = (5 * doy + 2) / 153 in
    let d = doy - (153 * mp + 2) / 5 + 1 in
    let m = if ltb mp 10 then mp + 3 else mp - 9 in (yoe, m, d)

unfoldable pub civil_from_days : ℕ → ℕ × ℕ × ℕ
unfolding civil_of_era
civil_from_days days =
    let z = days + 719468 in
    let era = z / 146097 in
    let doe = z - era * 146097 in
    let (yoe, m, d) = civil_of_era doe in
    let y = yoe + era * 400 in (if leb m 2 then y + 1 else y, m, d)
