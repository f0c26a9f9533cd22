-- ===== src/Csid/Ble/Examples.antt =====
-- Advertisements and HCI packets at concrete bytes.
use csid.Csid.Ble.{RawAdv, addr_kind, rpa_resolvable}
use csid.Csid.Ble.Adverts.{LabFrame, company_id, lab_of, extract, canonical_uuid}
use csid.Csid.Ble.Hci.{parse_hci_event, command_status, scan_enable_command}
use csid.Csid.Ble.Walk.{Ad, ad_bytes, ads_bytes, IsInside, first_of}
use csid.Csid.Ble.Lab.{lab_uuid, frame_of, extract-lab_uuid, extract-IsInside}
use csid.Csid.Ble.Reports.{reports_bytes, event_bytes, parse_hci_event-reports}
use mathlib.Core.List.{reverse}
use csid.Prelude.{ℕ, ◌+◌, ◌≡◌, refl, inl, inr, true, false, none, some, List, [], ◌∷◌, ◌++◌, arith}
use csid.Prelude.{length, take}
use csid.Prelude.Int.{pos, negsuc}

abbrev namespace : List ℕ
namespace = 0xa1 ∷ 0xb2 ∷ 0xc3 ∷ 0xd4 ∷ 1 ∷ 2 ∷ 3 ∷ 4 ∷ 5 ∷ 6 ∷ 7 ∷ 8 ∷ []

abbrev flags : Ad
flags = record { ad_type = 1; payload = 6 ∷ [] }

abbrev vendor : Ad
vendor = record { ad_type = 0xff; payload = 0x4c ∷ 0 ∷ 2 ∷ 0x15 ∷ [] }

abbrev lab_ad : Ad
lab_ad = record { ad_type = 7; payload = reverse (lab_uuid namespace 300 7) ++ (9 ∷ []) }

abbrev phone : RawAdv
phone = record {
  event_type = 0;
  addr_type = 1;
  addr = 1 ∷ 2 ∷ 3 ∷ 4 ∷ 5 ∷ 0x46 ∷ [];
  rssi = negsuc 60;
  payload = 2 ∷ 1 ∷ 6 ∷ [];
}

abbrev beacon : RawAdv
beacon = record {
  event_type = 3;
  addr_type = 0;
  addr = 9 ∷ 8 ∷ 7 ∷ 6 ∷ 5 ∷ 4 ∷ [];
  rssi = pos 3;
  payload = [];
}

vendor_read : company_id (ads_bytes (flags ∷ vendor ∷ [])) ≡ some 0x4c
unfolding company_id
vendor_read = refl

phone_rotates : addr_kind phone.addr_type phone.addr ≡ rpa_resolvable
unfolding addr_kind
phone_rotates = refl

scan_enabled : scan_enable_command true ≡ 1 ∷ 0x0c ∷ 0x20 ∷ 2 ∷ 1 ∷ 0 ∷ []
unfolding scan_enable_command
scan_enabled = refl

command_accepted : command_status (4 ∷ 0x0e ∷ 4 ∷ 1 ∷ 0x0c ∷ 0x20 ∷ 0 ∷ []) 0x200c ≡ some 0
unfolding command_status
command_accepted = refl

before_clear : first_of (lab_of namespace) (flags ∷ vendor ∷ []) ≡ none
unfolding lab_of
before_clear = refl

extract-lab_uuid_example :
    extract namespace (ads_bytes (flags ∷ vendor ∷ []) ++ (ad_bytes lab_ad ++ (0 ∷ [])))
    ≡ some (record {
      uuid = canonical_uuid (lab_uuid namespace 300 7);
      participant_key = 300;
      session_key = 7;
    })
extract-lab_uuid_example =
    extract-lab_uuid namespace (flags ∷ vendor ∷ []) 7 300 7 (9 ∷ []) (0 ∷ []) refl (omega arith)
      (omega arith) (inr (inl refl)) before_clear

extract-IsInside_example :
    let air : List ℕ = ads_bytes (flags ∷ vendor ∷ []) ++ (ad_bytes lab_ad ++ (0 ∷ [])) in
    let frame : LabFrame = record {
      uuid = canonical_uuid (lab_uuid namespace 300 7);
      participant_key = 300;
      session_key = 7;
    } in
    (le : List ℕ) × IsInside le air
    × (length le ≡ 16)
    × (take 12 (reverse le) ≡ namespace)
    × (frame_of (reverse le) ≡ frame)
extract-IsInside_example =
    extract-IsInside namespace (ads_bytes (flags ∷ vendor ∷ []) ++ (ad_bytes lab_ad ++ (0 ∷ [])))
      (record {
        uuid = canonical_uuid (lab_uuid namespace 300 7);
        participant_key = 300;
        session_key = 7;
      })
      extract-lab_uuid_example

parse_hci_event-reports_example :
    parse_hci_event (
      event_bytes
        (2 + length (reports_bytes (phone ∷ beacon ∷ [])))
        2
        (reports_bytes (phone ∷ beacon ∷ []) ++ (77 ∷ [])))
    ≡ record { advs = phone ∷ beacon ∷ []; truncated = false; ignored = false }
parse_hci_event-reports_example =
    parse_hci_event-reports (phone ∷ beacon ∷ []) (77 ∷ [])
      ((refl, omega arith), ((refl, omega arith), tt))
