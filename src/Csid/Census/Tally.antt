-- ===== src/Csid/Census/Tally.antt =====
-- The counts of crates/csid/src/census.rs: Minute, Totals and CensusCounters. A HashMap is the list
-- of its entries, an atomic counter a number that wraps.
use csid.Prelude.Dict.{find, upsert}
use csid.Csid.Census.{
  Kind, mgmt, ctrl, data_frame, ext, Sounding, vht_bfi, he_bfi, ndpa, Classified,
}
use csid.Csid.Census.Keys.{BucketKey, mac_key, bucket_key}
use csid.Prelude.{ℕ, ◌+◌, ◌%◌, ◌^◌, max, Bool, true, false, Option, none, some, List, [], ◌∷◌}
use csid.Prelude.{ltb, ◌==◌, if◌then◌else◌, length}

unfoldable pub bucket_of : Classified → BucketKey
bucket_of c = record {
  ta = c.ta;
  bssid = c.bssid;
  kind = c.kind;
  subtype = c.subtype;
  sounding = c.sounding;
}

pub record Minute : Type 0 where
  pub minute_unix : ℕ
  pub buckets : List (BucketKey × (ℕ × ℕ))

abbrev pub new_minute : ℕ → Minute
new_minute minute_unix = record { minute_unix = minute_unix; buckets = [] }

-- `fetch_add(1)`, and `+= 1` in a release build.
abbrev pub plus_one : ℕ → ℕ
plus_one n = (n + 1) % 2 ^ 64

abbrev pub bump : Bool → ℕ × ℕ → ℕ × ℕ
bump protected e = (plus_one (e.0), if protected then plus_one (e.1) else e.1)

-- `Minute::note`.
unfoldable pub note_minute : Classified → Minute → Minute
note_minute c m = record m {
  buckets = upsert bucket_key (bucket_of c) (0, 0) (bump c.protected) m.buckets;
}

pub record Totals : Type 0 where
  pub per_ta : List (List ℕ × ℕ)
  pub beacons : List (List ℕ × ℕ)
  pub capped : Bool
  pub max_transmitters : ℕ

abbrev pub new_totals : ℕ → Totals
new_totals max_transmitters = record {
  per_ta = [];
  beacons = [];
  capped = false;
  max_transmitters = max max_transmitters 1;
}

-- The table of transmitters takes a new one only below its cap.
unfoldable pub note_transmitter : List ℕ → Option ℕ → Totals → Totals
note_transmitter ta (some n) t = record t { per_ta = upsert mac_key ta 0 plus_one t.per_ta }
note_transmitter ta none t =
    if ltb (length t.per_ta) t.max_transmitters
    then record t { per_ta = upsert mac_key ta 0 (λ _. 1) t.per_ta }
    else record t { capped = true }

abbrev pub is_beacon : Classified → Bool
is_beacon c = elim c.kind [
  | mgmt ↦ c.subtype == 8
  | ctrl ↦ false
  | data_frame ↦ false
  | ext ↦ false
]

unfoldable pub note_beacon : List ℕ → Bool → Totals → Totals
note_beacon ta false t = t
note_beacon ta true t = record t { beacons = upsert mac_key ta 0 plus_one t.beacons }

unfoldable pub note_named : Option (List ℕ) → Classified → Totals → Totals
unfolding note_transmitter note_beacon
note_named none c t = t
note_named (some ta) c t =
    note_beacon ta (is_beacon c) (note_transmitter ta (find mac_key ta t.per_ta) t)

-- `Totals::note`.
unfoldable pub note_totals : Classified → Totals → Totals
unfolding note_named
note_totals c t = note_named c.ta c t

pub record CensusCounters : Type 0 where
  pub mgmt_frames : ℕ
  pub ctrl_frames : ℕ
  pub data_frames : ℕ
  pub ext_frames : ℕ
  pub protected_frames : ℕ
  pub vht_bfi_frames : ℕ
  pub he_bfi_frames : ℕ
  pub ndpa_frames : ℕ

unfoldable pub count_kind : Kind → CensusCounters → CensusCounters
count_kind mgmt n = record n { mgmt_frames = plus_one n.mgmt_frames }
count_kind ctrl n = record n { ctrl_frames = plus_one n.ctrl_frames }
count_kind data_frame n = record n { data_frames = plus_one n.data_frames }
count_kind ext n = record n { ext_frames = plus_one n.ext_frames }

unfoldable pub count_sounding : Option Sounding → CensusCounters → CensusCounters
count_sounding none n = n
count_sounding (some vht_bfi) n = record n { vht_bfi_frames = plus_one n.vht_bfi_frames }
count_sounding (some he_bfi) n = record n { he_bfi_frames = plus_one n.he_bfi_frames }
count_sounding (some ndpa) n = record n { ndpa_frames = plus_one n.ndpa_frames }

-- `CensusCounters::note`.
unfoldable pub note_counters : Classified → CensusCounters → CensusCounters
unfolding count_kind count_sounding
note_counters c n =
    let n1 = count_kind c.kind n in
    let n2 =
      if c.protected then record n1 { protected_frames = plus_one n1.protected_frames } else n1 in
    count_sounding c.sounding n2

-- Frames noted one after the other.
abbrev pub fold_frames {ℓ} : {S : Type ℓ} → (Classified → S → S) → List Classified → S → S
fold_frames note [] s = s
fold_frames note (c ∷ cs) s = fold_frames note cs (note c s)
