-- ===== src/Csid/Util/Eras.antt =====
-- The dates of crates/csid/src/util.rs against the calendar: each day is the one after the last.
use csid.Csid.Util.{civil_from_days}
use csid.Csid.Util.Calendar.{
  is_leap, next_day, iterate, year_days, date_at, date_at-suc, date_at-year,
}
use mathlib.Core.Path.{subst}
use csid.Prelude.{
  ℕ, zero, suc, ◌+◌, ◌-◌, ◌*◌, ◌/◌, ◌≤◌, ◌<◌, ◌≡◌, refl, ap, sym, ◌∙◌, arith, false, ltb,
  Bool-cases, inl, inr, ltb→lt, ◌⊎◌,
}

-- The year of the era, and the day that it starts on.
abbrev yoe_of : ℕ → ℕ
yoe_of doe = (doe - doe / 1460 + doe / 36524 - doe / 146096) / 365

abbrev start : ℕ → ℕ
start yoe = 365 * yoe + yoe / 4 - yoe / 100

abbrev date_of : ℕ → ℕ → ℕ × ℕ × ℕ
date_of era doe = date_at (yoe_of doe + era * 400) (doe - start (yoe_of doe))

start-yoe_of : (doe : ℕ) → doe < 146097 → start (yoe_of doe) ≤ doe
start-yoe_of doe h = omega arith

yoe_of-lt : (doe : ℕ) → doe < 146097 → yoe_of doe < 400
yoe_of-lt doe h = omega arith

start-suc :
    (era yoe : ℕ)
    → yoe < 399
    → start (suc yoe) ≡ start yoe + year_days (is_leap (yoe + era * 400 + 1))
start-suc era yoe h = ground arith

era_ends_leap : (era : ℕ) → year_days (is_leap (399 + era * 400 + 1)) ≡ 366
era_ends_leap era = ground arith

-- A day is followed by one in the same year of the era, or by the first of the next year.
yoe_of-suc :
    (doe : ℕ)
    → suc doe < 146097
    → ((yoe_of (suc doe) ≡ yoe_of doe)
        × ((suc doe < start (suc (yoe_of doe))) ⊎ (yoe_of doe ≡ 399)))
      ⊎ ((yoe_of (suc doe) ≡ suc (yoe_of doe))
          × (suc doe ≡ start (suc (yoe_of doe)))
          × (yoe_of doe < 399))
yoe_of-suc doe h = ground arith

same_year :
    (era doe : ℕ)
    → suc doe < 146097
    → (suc doe < start (suc (yoe_of doe))) ⊎ (yoe_of doe ≡ 399)
    → suc (doe - start (yoe_of doe)) < year_days (is_leap (yoe_of doe + era * 400 + 1))
same_year era doe h f = elim (Bool-cases (ltb (yoe_of doe) 399)) [
  | inl e ↦
      let g : yoe_of doe < 399 = ltb→lt (yoe_of doe) 399 e in
      ground (arith, start-suc era (yoe_of doe) g, start-yoe_of doe, f)
  | inr e ↦
      let g : yoe_of doe ≡ 399 = last_year doe h e in
      subst (λ q. suc (doe - start q) < year_days (is_leap (q + era * 400 + 1))) (sym g)
        (omega (arith, h, era_ends_leap era))
]
  where
    last_year : (n : ℕ) → suc n < 146097 → ltb (yoe_of n) 399 ≡ false → yoe_of n ≡ 399
    last_year n k e = ground (arith, yoe_of-lt n)

date_of-suc : (era doe : ℕ) → suc doe < 146097 → date_of era (suc doe) ≡ next_day (date_of era doe)
date_of-suc era doe h =
    let yoe : ℕ = yoe_of doe in
    let y : ℕ = yoe + era * 400 in
    let doy : ℕ = doe - start yoe in
    let from : start yoe ≤ doe = start-yoe_of doe (omega arith) in
    elim (yoe_of-suc doe h) [
      | inl (e, f) ↦
          ap (λ (q : ℕ). date_at (q + era * 400) (suc doe - start q)) e
          ∙ ap (date_at y) (suc_sub doe (start yoe) from)
          ∙ date_at-suc y doy (same_year era doe h f)
      | inr (e, f, g) ↦
          ap (λ (q : ℕ). date_at (q + era * 400) (suc doe - start q)) e
          ∙ ap (date_at (suc yoe + era * 400)) (sub_eq (suc doe) (start (suc yoe)) f)
          ∙ ap (λ (q : ℕ). date_at q 0) (suc_add yoe (era * 400))
          ∙ date_at-year y doy (omega (arith, f, start-suc era yoe g, from))
    ]
  where
    suc_sub : (a b : ℕ) → b ≤ a → suc a - b ≡ suc (a - b)
    suc_sub a b k = omega arith

    sub_eq : (a b : ℕ) → a ≡ b → a - b ≡ 0
    sub_eq a b k = omega arith

    suc_add : (a b : ℕ) → suc a + b ≡ suc (a + b)
    suc_add a b = omega arith

date_of-era : (era : ℕ) → date_of (suc era) 0 ≡ next_day (date_of era 146096)
date_of-era era =
    ap (λ (q : ℕ). date_at q 0) (next era)
    ∙ date_at-year (399 + era * 400) 365 (sym (era_ends_leap era))
  where
    next : (n : ℕ) → 0 + suc n * 400 ≡ suc (399 + n * 400)
    next n = omega arith

date_of-days :
    (z : ℕ)
    → date_of (suc z / 146097) (suc z - suc z / 146097 * 146097)
      ≡ next_day (date_of (z / 146097) (z - z / 146097 * 146097))
date_of-days z =
    let era : ℕ = z / 146097 in
    let doe : ℕ = z - era * 146097 in
    elim (era_steps z) [
      | inl (e, f, g) ↦ cong2 e f ∙ date_of-suc era doe g
      | inr (e, f, g) ↦
          cong2 e f ∙ date_of-era era ∙ ap (λ (d : ℕ). next_day (date_of era d)) (sym g)
    ]
  where
    cong2 : {a b c d : ℕ} → a ≡ b → c ≡ d → date_of a c ≡ date_of b d
    cong2 {a} {b} {c} {d} p q = ap (λ (n : ℕ). date_of n c) p ∙ ap (date_of b) q

    era_steps :
        (n : ℕ)
        → ((suc n / 146097 ≡ n / 146097)
            × (suc n - suc n / 146097 * 146097 ≡ suc (n - n / 146097 * 146097))
            × (suc (n - n / 146097 * 146097) < 146097))
          ⊎ ((suc n / 146097 ≡ suc (n / 146097))
              × (suc n - suc n / 146097 * 146097 ≡ 0)
              × (n - n / 146097 * 146097 ≡ 146096))
    era_steps n = ground arith

civil_from_days-suc : (days : ℕ) → civil_from_days (suc days) ≡ next_day (civil_from_days days)
unfolding civil_from_days
civil_from_days-suc days =
    ap (λ (z : ℕ). date_of (z / 146097) (z - z / 146097 * 146097)) (suc_add days 719468)
    ∙ date_of-days (days + 719468)
  where
    suc_add : (a b : ℕ) → suc a + b ≡ suc (a + b)
    suc_add a b = omega arith

-- The date of a day count is the calendar's, that many days after 1 January 1970.
pub civil_from_days-iterate : (days : ℕ) → civil_from_days days ≡ iterate days next_day (1970, 1, 1)
unfolding civil_from_days
civil_from_days-iterate zero = refl
civil_from_days-iterate (suc days) =
    civil_from_days-suc days ∙ ap next_day (civil_from_days-iterate days)
