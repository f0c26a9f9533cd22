-- ===== src/Csid/Util/Examples.antt =====
-- Dates and their texts.
use csid.Csid.Util.{civil_from_days, compact_stamp}
use csid.Csid.Util.Calendar.{iterate, next_day}
use csid.Csid.Util.Eras.{civil_from_days-iterate}
use csid.Prelude.{◌≡◌, refl, [], ◌∷◌}

leap_day : civil_from_days 19782 ≡ (2024, 2, 29)
unfolding civil_from_days
leap_day = refl

session_stamp :
    compact_stamp 1784712667
    ≡ b'2' ∷ b'0' ∷ b'2' ∷ b'6' ∷ b'0' ∷ b'7' ∷ b'2' ∷ b'2' ∷ b'-' ∷ b'0' ∷ b'9' ∷ b'3' ∷ b'1'
      ∷ b'0' ∷ b'7' ∷ []
unfolding compact_stamp
session_stamp = refl

civil_from_days-iterate_example : civil_from_days 60 ≡ iterate 60 next_day (1970, 1, 1)
civil_from_days-iterate_example = civil_from_days-iterate 60
