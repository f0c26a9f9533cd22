-- ===== src/Csid/Ble/Hci.antt =====
-- HCI packets in crates/csid/src/ble.rs: advertising reports, commands and their status.
use csid.Csid.Ble.{RawAdv}
use csid.Prelude.{
  ℕ, zero, suc, ◌+◌, ◌-◌, ◌*◌, ◌%◌, ◌^◌, min, Bool, true, false, not, ◌&&◌, ◌||◌, Option, none,
  some, List, [], ◌∷◌, ◌++◌,
}
use csid.Prelude.{ltb, leb, ◌==◌, if◌then◌else◌, length, get_or, take, drop}
use csid.Prelude.Bytes.{le_bytes, of_le_bytes}
use csid.Prelude.Int.{of_pattern}

pub record ParsedEvent : Type 0 where
  pub advs : List RawAdv
  pub truncated : Bool
  pub ignored : Bool

abbrev pub ignored_event : ParsedEvent
ignored_event = record { advs = []; truncated = false; ignored = true }

abbrev pub report_fixed : ℕ
report_fixed = 9

-- The report at the front of the bytes.
unfoldable pub read_report : List ℕ → RawAdv
read_report d =
    let data_len = get_or d 8 0 in
    record {
      event_type = get_or d 0 0;
      addr_type = get_or d 1 0;
      addr = take 6 (drop 2 d);
      rssi = of_pattern 128 (get_or d (report_fixed + data_len) 0);
      payload = take data_len (drop report_fixed d);
    }

-- The loop over the reports, on the bytes behind `off`; the test says whether they ran out.
unfoldable pub parse_reports : ℕ → List ℕ → List RawAdv × Bool
unfolding read_report
parse_reports zero d = ([], false)
parse_reports (suc num) d =
    let data_len = get_or d 8 0 in
    let later = parse_reports num (drop (report_fixed + data_len + 1) d) in
    if ltb (length d) report_fixed
    then ([], true)
    else if leb (length d) (report_fixed + data_len)
    then ([], true)
    else (read_report d ∷ later.0, later.1)

unfoldable pub parse_params : List ℕ → ParsedEvent
unfolding parse_reports
parse_params params =
    if ltb (length params) 2 || not (get_or params 0 0 == 2)
    then ignored_event
    else let found = parse_reports (get_or params 1 0) (drop 2 params) in
      record { advs = found.0; truncated = found.1; ignored = false }

unfoldable pub parse_hci_event : List ℕ → ParsedEvent
unfolding parse_params
parse_hci_event buf =
    let end = min (3 + get_or buf 2 0) (length buf) in
    if (ltb (length buf) 5 || not (get_or buf 0 0 == 4)) || not (get_or buf 1 0 == 0x3e)
    then ignored_event
    else parse_params (take (end - 3) (drop 3 buf))

abbrev pub hci_opcode : ℕ → ℕ → ℕ
hci_opcode ogf ocf = ogf * 2 ^ 10 + ocf

abbrev pub op_le_set_scan_parameters : ℕ
op_le_set_scan_parameters = hci_opcode 8 0x0b

abbrev pub op_le_set_scan_enable : ℕ
op_le_set_scan_enable = hci_opcode 8 0x0c

unfoldable pub build_hci_command : ℕ → List ℕ → List ℕ
build_hci_command op params = 1 ∷ (le_bytes 2 op ++ (length params % 256 ∷ params))

unfoldable pub scan_parameters_command : ℕ → ℕ → List ℕ
unfolding build_hci_command
scan_parameters_command interval_units window_units =
    build_hci_command op_le_set_scan_parameters
      (0 ∷ (le_bytes 2 interval_units ++ (le_bytes 2 window_units ++ (0 ∷ 0 ∷ []))))

unfoldable pub scan_enable_command : Bool → List ℕ
unfolding build_hci_command
scan_enable_command enable =
    build_hci_command op_le_set_scan_enable ((if enable then 1 else 0) ∷ 0 ∷ [])

unfoldable pub command_status : List ℕ → ℕ → Option ℕ
command_status buf op =
    let params = drop 3 buf in
    if ltb (length buf) 3 || not (get_or buf 0 0 == 4)
    then none
    else if get_or buf 1 0 == 0x0e && leb 4 (length params)
    then (if of_le_bytes (get_or params 1 0 ∷ get_or params 2 0 ∷ []) == op
        then some (get_or params 3 0)
        else none)
    else if get_or buf 1 0 == 0x0f && leb 4 (length params)
    then (if of_le_bytes (get_or params 2 0 ∷ get_or params 3 0 ∷ []) == op
        then some (get_or params 0 0)
        else none)
    else none
