-- ===== src/Csid/Census/Cap.antt =====
-- The session's totals of crates/csid/src/census.rs, whose table of transmitters has a cap.
use csid.Prelude.Dict.{find, or_default}
use csid.Csid.Census.{Classified}
use csid.Csid.Census.Keys.{mac_key, same_optional}
use csid.Csid.Census.Tally.{Totals, is_beacon}
use csid.Prelude.{ℕ, ◌+◌, ◌≤◌, ◌≡◌, false, ◌&&◌, some, List, [], ◌∷◌}
use csid.Prelude.{if◌then◌else◌, length}

-- The number at a key, 0 if the key is missing.
abbrev pub number_at : List ℕ → List (List ℕ × ℕ) → ℕ
number_at k m = or_default mac_key 0 (find mac_key k m)

-- The frames of a list that a transmitter sent, and its beacons.
abbrev pub sent_by : List ℕ → List Classified → ℕ
sent_by k [] = 0
sent_by k (c ∷ cs) =
    let rest = sent_by k cs in if same_optional c.ta (some k) then rest + 1 else rest

abbrev pub beacons_by : List ℕ → List Classified → ℕ
beacons_by k [] = 0
beacons_by k (c ∷ cs) =
    let rest = beacons_by k cs in
    if same_optional c.ta (some k) && is_beacon c then rest + 1 else rest

-- The table is within its cap, counts no frame twice, and is exact while nothing was left out.
pub record IsTally (k : List ℕ) (n b : ℕ) (t : Totals) : Type 0 where
  pub within : length t.per_ta ≤ t.max_transmitters
  pub some_room : 1 ≤ t.max_transmitters
  pub at_most : number_at k t.per_ta ≤ n
  pub exact : t.capped ≡ false → number_at k t.per_ta ≡ n
  pub every_beacon : number_at k t.beacons ≡ b
