-- ===== src/Calendar.antt =====
-- The C library's `gmtime`, for times that are not negative, and the padded numbers of the formats
-- `%04d` and `%02d`, as `process_mdtm_cmd` and `list_thread` of jni/yftp/client_node.cpp use them.
use yftpserver.Prelude.{
  ℕ, zero, suc, ◌+◌, ◌-◌, ◌*◌, ◌/◌, ◌%◌, ◌≡◌, refl, Bytes, ◌∷◌, ◌++◌, [], lit, if◌then◌else◌, ltb,
  ◌==◌, length,
}
use yftpserver.Reply.{decimal, decimal_digits}

-- The fields of `struct tm` that are read; `year` counts from 0 and `month` from 1.
pub record Tm : Type 0 where
  pub year : ℕ
  pub month : ℕ
  pub day : ℕ
  pub hour : ℕ
  pub minute : ℕ
  pub second : ℕ

-- Days since 0000-03-01 split into eras of 400 years, years from March, and months of 153/5 days.
unfoldable pub gmtime : ℕ → Tm
gmtime t =
    let days = t / 86400 + 719468 in
    let doe = days % 146097 in
    let yoe = (doe - doe / 1460 + doe / 36524 - doe / 146096) / 365 in
    let doy = doe - (365 * yoe + yoe / 4 - yoe / 100) in
    let mp = (5 * doy + 2) / 153 in
    let month = if ltb mp 10 then mp + 3 else mp - 9 in
    record {
      year = (yoe + days / 146097 * 400) + (if ltb month 3 then 1 else 0);
      month = month;
      day = doy - (153 * mp + 2) / 5 + 1;
      hour = t % 86400 / 3600;
      minute = t % 3600 / 60;
      second = t % 60;
    }

abbrev zeros : ℕ → Bytes
zeros zero = []
zeros (suc n) = b'0' ∷ zeros n

unfoldable pub padded : ℕ → ℕ → Bytes
padded width n = let digits = decimal n in zeros (width - length digits) ++ digits

-- `%04d%02d%02d%02d%02d%02d`.
unfoldable pub mdtm_text : ℕ → Bytes
mdtm_text time =
    let t = gmtime time in
    padded 4 t.year
    ++ (padded 2 t.month
        ++ (padded 2 t.day ++ (padded 2 t.hour ++ (padded 2 t.minute ++ padded 2 t.second))))

abbrev spaces : ℕ → Bytes
spaces zero = []
spaces (suc n) = b' ' ∷ spaces n

-- The digits to the right of a field.
unfoldable pub aligned : ℕ → ℕ → Bytes
aligned width n = let digits = decimal n in spaces (width - length digits) ++ digits

-- `month_string`.
unfoldable pub month_name : ℕ → Bytes
month_name m =
    if m == 1
    then lit "Jan"
    else if m == 2
    then lit "Feb"
    else if m == 3
    then lit "Mar"
    else if m == 4
    then lit "Apr"
    else if m == 5
    then lit "May"
    else if m == 6
    then lit "Jun"
    else if m == 7
    then lit "Jul"
    else if m == 8
    then lit "Aug"
    else if m == 9
    then lit "Sep"
    else if m == 10
    then lit "Oct"
    else if m == 11
    then lit "Nov"
    else lit "Dec"

-- A time in a listing: the year where the time is more than 180 days ago, else the hour.
unfoldable pub listed_time : ℕ → ℕ → Bytes
listed_time now time =
    let t = gmtime time in
    month_name t.month
    ++ b' '
      ∷ (aligned 2 t.day
          ++ b' '
            ∷ (if ltb (time + 15552000) now
                then aligned 5 t.year
                else padded 2 t.hour ++ b':' ∷ padded 2 t.minute))

-- The time -1, which stands for a time that could not be read.
unfoldable pub no_time : ℕ → Bytes
no_time now = if ltb now 15552000 then lit "Dec 31 23:59" else lit "Dec 31  1969"

leap_day : mdtm_text 1456704000 ≡ lit "20160229000000"
unfolding mdtm_text lit padded decimal decimal_digits gmtime
leap_day = refl

last_second : mdtm_text 1483228799 ≡ lit "20161231235959"
unfolding mdtm_text lit padded decimal decimal_digits gmtime
last_second = refl

listed_long_ago : listed_time 1483228799 1456704000 ≡ lit "Feb 29  2016"
unfolding listed_time lit month_name aligned padded decimal decimal_digits gmtime
listed_long_ago = refl
