-- ===== src/Csid/Util.antt =====
-- crates/csid/src/util.rs: the civil date of a time and the two texts of it. A text is the list of
-- its bytes.
pub mod Calendar
pub mod Eras
mod Examples
use csid.Prelude.{
  ℕ, zero, suc, ◌+◌, ◌-◌, ◌*◌, ◌/◌, ◌%◌, ◌≤◌, ◌<◌, ◌≡◌, refl, ap, sym, ◌∙◌, arith, Bool, true,
  false, not, ◌&&◌, ◌||◌, ltb, leb, ◌==◌, if◌then◌else◌, List, [], ◌∷◌, ◌++◌, length, replicate,
  Bool-cases, inl, inr, ltb→lt, ◌⊎◌,
}

-- Howard Hinnant's algorithm. Its one caller gives a day count that is not negative, so the branch
-- on a negative count is left out.
unfoldable pub civil_from_days : ℕ → ℕ × ℕ × ℕ
civil_from_days days =
    let z = days + 719468 in
    let era = z / 146097 in
    let doe = z - era * 146097 in
    let yoe = (doe - doe / 1460 + doe / 36524 - doe / 146096) / 365 in
    let y = yoe + era * 400 in
    let doy = doe - (365 * yoe + yoe / 4 - yoe / 100) in
    let mp = (5 * doy + 2) / 153 in
    let d = doy - (153 * mp + 2) / 5 + 1 in
    let m = if ltb mp 10 then mp + 3 else mp - 9 in (if leb m 2 then y + 1 else y, m, d)

pub record CivilTime : Type 0 where
  pub date : ℕ × ℕ × ℕ
  pub hour : ℕ
  pub minute : ℕ
  pub second : ℕ

unfoldable pub split_time : ℕ → CivilTime
unfolding civil_from_days
split_time secs =
    let rem = secs % 86400 in
    record {
      date = civil_from_days (secs / 86400);
      hour = rem / 3600;
      minute = rem % 3600 / 60;
      second = rem % 60;
    }

-- Decimal digits, with one more than a 64-bit number can have as fuel.
abbrev digits_on : ℕ → ℕ → List ℕ
digits_on zero n = []
digits_on (suc fuel) n =
    let front = digits_on fuel (n / 10) in
    (if ltb n 10 then [] else front) ++ ((b'0' + n % 10) ∷ [])

-- `{:0w}`.
abbrev pub padded : ℕ → ℕ → List ℕ
padded w n = let digits = digits_on 21 n in replicate (w - length digits) b'0' ++ digits

unfoldable pub rfc3339_utc : ℕ → List ℕ
unfolding split_time
rfc3339_utc secs =
    let t = split_time secs in
    padded 4 (t.date.0)
    ++ (b'-'
        ∷ (padded 2 (t.date.1)
            ++ (b'-'
                ∷ (padded 2 (t.date.2)
                    ++ (b'T'
                        ∷ (padded 2 (t.hour)
                            ++ (b':'
                                ∷ (padded 2 (t.minute)
                                    ++ (b':' ∷ (padded 2 (t.second) ++ (b'Z' ∷ [])))))))))))

unfoldable pub compact_stamp : ℕ → List ℕ
unfolding split_time
compact_stamp secs =
    let t = split_time secs in
    padded 4 (t.date.0)
    ++ (padded 2 (t.date.1)
        ++ (padded 2 (t.date.2)
            ++ (b'-' ∷ (padded 2 (t.hour) ++ (padded 2 (t.minute) ++ padded 2 (t.second))))))
