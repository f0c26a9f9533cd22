-- ===== src/Csid/Util/Calendar.antt =====
-- The calendar, and the days of a year that begins in March, which crates/csid/src/util.rs counts
-- in.
use csid.Prelude.{
  ℕ, zero, suc, ◌+◌, ◌-◌, ◌*◌, ◌/◌, ◌%◌, ◌<◌, ◌≡◌, refl, ap, sym, ◌∙◌, arith, Bool, false, not,
  ◌&&◌, ◌||◌, ltb, leb, ◌==◌, if◌then◌else◌, Bool-cases, inl, inr, lt→ltb, le→ltb, ◌⊎◌,
}

-- The Gregorian calendar.
abbrev pub is_leap : ℕ → Bool
is_leap y = (y % 4 == 0) && (not (y % 100 == 0) || (y % 400 == 0))

abbrev pub days_in : Bool → ℕ → ℕ
days_in leap m =
    if m == 2
    then (if leap then 29 else 28)
    else if (m == 4 || m == 6) || (m == 9 || m == 11)
    then 30
    else 31

abbrev pub next_day : ℕ × ℕ × ℕ → ℕ × ℕ × ℕ
next_day (y, m, d) =
    if ltb d (days_in (is_leap y) m)
    then (y, m, d + 1)
    else if m == 12
    then (y + 1, 1, 1)
    else (y, m + 1, 1)

abbrev pub iterate {ℓ} : {A : Type ℓ} → ℕ → (A → A) → A → A
iterate zero f a = a
iterate (suc n) f a = f (iterate n f a)

-- The years of the algorithm begin in March. `leap` says whether the next January's year is one.
abbrev month_of : ℕ → ℕ
month_of doy = let mp = (5 * doy + 2) / 153 in if ltb mp 10 then mp + 3 else mp - 9

abbrev day_of : ℕ → ℕ
day_of doy = let mp = (5 * doy + 2) / 153 in doy - (153 * mp + 2) / 5 + 1

abbrev pub date_at : ℕ → ℕ → ℕ × ℕ × ℕ
date_at y doy = (if leb (month_of doy) 2 then y + 1 else y, month_of doy, day_of doy)

abbrev pub year_days : Bool → ℕ
year_days leap = if leap then 366 else 365

days_in-inside :
    (leap : Bool) (doy : ℕ)
    → suc doy < year_days leap
    → (5 * suc doy + 2) / 153 ≡ (5 * doy + 2) / 153
    → day_of doy < days_in leap (month_of doy)
days_in-inside leap doy h e = ground arith

days_in-last :
    (leap : Bool) (doy : ℕ)
    → suc doy < year_days leap
    → (5 * suc doy + 2) / 153 ≡ suc ((5 * doy + 2) / 153)
    → day_of doy ≡ days_in leap (month_of doy)
days_in-last leap doy h e = ground arith

abbrev year_at : ℕ → ℕ → ℕ
year_at y m = if leb m 2 then y + 1 else y

triple : (a b c x y z : ℕ) → a ≡ x → b ≡ y → c ≡ z → ◌≡◌ {A = ℕ × ℕ × ℕ} (a, b, c) (x, y, z)
triple a b c x y z p q r = rw (p, q, r)

days_in-year_at :
    (leap : ℕ → Bool) (y m : ℕ) → days_in (leap (year_at y m)) m ≡ days_in (leap (y + 1)) m
days_in-year_at leap y zero = refl
days_in-year_at leap y (suc zero) = refl
days_in-year_at leap y (suc (suc zero)) = refl
days_in-year_at leap y (suc (suc (suc m))) = ground arith

next_day-inside :
    (y m d : ℕ)
    → d < days_in (is_leap (y + 1)) m
    → next_day (year_at y m, m, d) ≡ (year_at y m, m, d + 1)
next_day-inside y m d h = rw (days_in-year_at is_leap y m, lt→ltb d (days_in (is_leap (y + 1)) m) h)

next_day-last :
    (y m d : ℕ)
    → d ≡ days_in (is_leap (y + 1)) m
    → next_day (year_at y m, m, d)
      ≡ (if m == 12 then year_at y m + 1 else year_at y m, if m == 12 then 1 else m + 1, 1)
next_day-last y m d h =
    let over : ltb d (days_in (is_leap (y + 1)) m) ≡ false =
      le→ltb d (days_in (is_leap (y + 1)) m) (omega arith) in
    elim (Bool-cases (m == 12)) [
      | inl e ↦ rw (days_in-year_at is_leap y m, over, e)
      | inr e ↦ rw (days_in-year_at is_leap y m, over, e)
    ]

same_month :
    (doy : ℕ) → (5 * suc doy + 2) / 153 ≡ (5 * doy + 2) / 153 → day_of (suc doy) ≡ day_of doy + 1
same_month doy e = omega arith

new_month :
    (doy : ℕ)
    → suc doy < 366
    → (5 * suc doy + 2) / 153 ≡ suc ((5 * doy + 2) / 153)
    → (month_of (suc doy) ≡ (if month_of doy == 12 then 1 else month_of doy + 1))
      × (day_of (suc doy) ≡ 1)
new_month doy h e = (ground arith, omega arith)

new_year :
    (y doy : ℕ)
    → suc doy < 366
    → (5 * suc doy + 2) / 153 ≡ suc ((5 * doy + 2) / 153)
    → year_at y (month_of (suc doy))
      ≡ (if month_of doy == 12 then year_at y (month_of doy) + 1 else year_at y (month_of doy))
new_year y doy h e = ground arith

month_steps :
    (doy : ℕ)
    → ((5 * suc doy + 2) / 153 ≡ (5 * doy + 2) / 153)
      ⊎ ((5 * suc doy + 2) / 153 ≡ suc ((5 * doy + 2) / 153))
month_steps doy = ground arith

days_le : (leap : Bool) (n : ℕ) → n < year_days leap → n < 366
days_le leap n h = ground arith

pub date_at-suc :
    (y doy : ℕ)
    → suc doy < year_days (is_leap (y + 1))
    → date_at y (suc doy) ≡ next_day (date_at y doy)
date_at-suc y doy h = elim (month_steps doy) [
  | inl e ↦
      let month : month_of (suc doy) ≡ month_of doy =
        ap (λ (mp : ℕ). if ltb mp 10 then mp + 3 else mp - 9) e in
      triple _ _ _ _ _ _ (ap (year_at y) month) month (same_month doy e)
      ∙ sym
          (next_day-inside y (month_of doy) (day_of doy) (days_in-inside (is_leap (y + 1)) doy h e))
  | inr e ↦
      let short : suc doy < 366 = days_le (is_leap (y + 1)) (suc doy) h in
      triple _ _ _ _ _ _ (new_year y doy short e) ((new_month doy short e).0)
        ((new_month doy short e).1)
      ∙ sym (next_day-last y (month_of doy) (day_of doy) (days_in-last (is_leap (y + 1)) doy h e))
]

last_day :
    (leap : Bool) (doy : ℕ)
    → suc doy ≡ year_days leap
    → (month_of doy ≡ 2) × (day_of doy ≡ days_in leap (month_of doy))
last_day leap doy h = (ground arith, ground arith)

pub date_at-year :
    (y doy : ℕ)
    → suc doy ≡ year_days (is_leap (y + 1))
    → date_at (suc y) 0 ≡ next_day (date_at y doy)
date_at-year y doy h =
    let february = last_day (is_leap (y + 1)) doy h in
    triple _ _ _ _ _ _ (suc_eq y) refl refl
    ∙ ap
        (λ (m : ℕ).
          (if m == 12 then year_at y m + 1 else year_at y m, if m == 12 then 1 else m + 1, 1))
        (sym (february.0))
    ∙ sym (next_day-last y (month_of doy) (day_of doy) (february.1))
  where
    suc_eq : (a : ℕ) → suc a ≡ a + 1
    suc_eq a = omega arith
