-- ===== src/Dates/Stamp.antt =====
-- server/web/lib/utils/date.ts: `formatDateTimeWithMilliseconds`, for a date given by what its
-- methods return (`getMonth` counts from 0, and `getFullYear` is negative before the year 0), none
-- where the value is no date.
pub mod Laws
use poolx.Common.{ℕ, ◌+◌, List, [], ◌∷◌, ◌++◌, Option, none, some}
use poolx.Common.Int.{ℤ}
use poolx.Common.Number.{print_int, pad_start}
use poolx.Common.Text.{Text, units}

pub record DateParts : Type 0 where
  pub full_year : ℤ
  pub month : ℕ
  pub date : ℕ
  pub hours : ℕ
  pub minutes : ℕ
  pub seconds : ℕ
  pub milliseconds : ℕ

-- `pad`, whose size is 2 where none is given.
abbrev pub pad : ℕ → Text
pad value = pad_start value 2

unfoldable pub format_date_time_with_milliseconds : Option DateParts → Text
format_date_time_with_milliseconds none = units "—"
format_date_time_with_milliseconds (some d) =
    print_int d.full_year
    ++ b'-'
      ∷ (pad (d.month + 1)
          ++ b'-'
            ∷ (pad d.date
                ++ b' '
                  ∷ (pad d.hours
                      ++ b':'
                        ∷ (pad d.minutes
                            ++ b':' ∷ (pad d.seconds ++ b'.' ∷ pad_start d.milliseconds 3)))))
