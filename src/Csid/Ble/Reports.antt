-- ===== src/Csid/Ble/Reports.antt =====
-- Advertising reports of crates/csid/src/ble.rs, written the way a controller sends them.
use csid.Csid.Ble.{RawAdv}
use csid.Csid.Ble.Hci.{ParsedEvent, read_report, parse_reports, parse_params, parse_hci_event}
use csid.Prelude.{
  take-all, get_or-append_at, take-append_at, take-append, drop-append_right, length-append,
  get_or-take, take-min,
}
use csid.Prelude.Int.{of_pattern-to_pattern}
use csid.Prelude.{
  ℕ, suc, ◌+◌, ◌-◌, ◌≤◌, ◌<◌, min, ◌≡◌, refl, sym, ap, ◌∙◌, ◌⊎◌, inl, inr, Bool, true, false, List,
  [], ◌∷◌, ◌++◌, append-nil, append_assoc, arith,
}
use csid.Prelude.{
  ltb, leb, ltb→lt, lt→ltb, le→leb, Bool-cases, length, get_or, take, drop, All, length-append,
  length-take, take-append,
}
use csid.Prelude.Int.{IsSigned, to_pattern, of_pattern-to_pattern}

-- The address has six bytes, and the signal strength is an `i8`.
abbrev pub IsReport : RawAdv → Type 0
IsReport a = (length a.addr ≡ 6) × IsSigned 128 a.rssi

-- `event_type(1) addr_type(1) addr(6) data_len(1) data(data_len) rssi(1)`.
abbrev pub report_bytes : RawAdv → List ℕ
report_bytes a =
    a.event_type
    ∷ a.addr_type
    ∷ (a.addr ++ (length a.payload ∷ (a.payload ++ (to_pattern 128 a.rssi ∷ []))))

abbrev pub reports_bytes : List RawAdv → List ℕ
reports_bytes [] = []
reports_bytes (a ∷ advs) = report_bytes a ++ reports_bytes advs

-- An event packet with this number of reports and these bytes of them.
abbrev pub event_bytes : ℕ → ℕ → List ℕ → List ℕ
event_bytes plen num body = 4 ∷ 0x3e ∷ plen ∷ 2 ∷ num ∷ body

-- A report and what follows it, byte by byte.
abbrev report_then : RawAdv → List ℕ → List ℕ
report_then a rest =
    a.event_type
    ∷ a.addr_type
    ∷ (a.addr ++ (length a.payload ∷ (a.payload ++ (to_pattern 128 a.rssi ∷ rest))))

report_bytes-append : (a : RawAdv) (rest : List ℕ) → report_bytes a ++ rest ≡ report_then a rest
report_bytes-append a rest = rw (append_assoc, append_assoc)

report_then-len :
    (a : RawAdv) (rest : List ℕ)
    → length a.addr ≡ 6
    → get_or (report_then a rest) 8 0 ≡ length a.payload
report_then-len a rest h = get_or-append_at a.addr _ 6 0 0 (omega arith)

report_then-drop :
    (a : RawAdv) (rest : List ℕ) (m k : ℕ)
    → length a.addr ≡ 6
    → m ≡ 9 + k
    → drop m (report_then a rest) ≡ drop k (a.payload ++ (to_pattern 128 a.rssi ∷ rest))
report_then-drop a rest m k h e =
    drop-append_right (a.event_type ∷ a.addr_type ∷ a.addr) _ m (suc k) (omega arith)

report_then-rssi :
    (a : RawAdv) (rest : List ℕ)
    → length a.addr ≡ 6
    → get_or (report_then a rest) (9 + length a.payload) 0 ≡ to_pattern 128 a.rssi
report_then-rssi a rest h =
    get_or-append_at (a.event_type ∷ a.addr_type ∷ a.addr) _ (9 + length a.payload)
      (suc (length a.payload)) 0 (omega arith)
    ∙ get_or-append_at a.payload _ (length a.payload) 0 0 (omega arith)

length-report_then :
    (a : RawAdv) (rest : List ℕ)
    → length a.addr ≡ 6
    → length (report_then a rest) ≡ 10 + length a.payload + length rest
length-report_then a rest h = omega (
  arith,
  length-append a.addr (length a.payload ∷ (a.payload ++ (to_pattern 128 a.rssi ∷ rest))),
  length-append a.payload (to_pattern 128 a.rssi ∷ rest),
)

read_report-report_then :
    (a : RawAdv) (rest : List ℕ) → IsReport a → read_report (report_then a rest) ≡ a
unfolding read_report
read_report-report_then a rest (h, hs) = rw (
  report_then-len a rest h,
  report_then-rssi a rest h,
  of_pattern-to_pattern 128 a.rssi hs,
  report_then-drop a rest 9 0 h refl,
  take-append_at a.addr _ 6 h,
  take-append a.payload (to_pattern 128 a.rssi ∷ rest),
)

parse_reports-report_then :
    (num : ℕ) (a : RawAdv) (rest : List ℕ)
    → IsReport a
    → let later = parse_reports num rest in
      parse_reports (suc num) (report_then a rest) ≡ (a ∷ later.0, later.1)
unfolding parse_reports
parse_reports-report_then num a rest h =
    let wide : ltb (length (report_then a rest)) 9 ≡ false =
      ground (arith, length-report_then a rest h.0) in
    let whole : leb (length (report_then a rest)) (9 + length a.payload) ≡ false =
      ground (arith, length-report_then a rest h.0) in
    let next : drop (9 + length a.payload + 1) (report_then a rest) ≡ rest =
      report_then-drop a rest (9 + length a.payload + 1) (length a.payload + 1) h.0 (omega arith)
      ∙ drop-append_right a.payload (to_pattern 128 a.rssi ∷ rest) (length a.payload + 1) 1
          (omega arith) in
    rw (read_report-report_then a rest h, report_then-len a rest h.0, wide, whole, next)

parse_reports-report :
    (num : ℕ) (a : RawAdv) (rest : List ℕ)
    → IsReport a
    → let later = parse_reports num rest in
      parse_reports (suc num) (report_bytes a ++ rest) ≡ (a ∷ later.0, later.1)
parse_reports-report num a rest h =
    ap (parse_reports (suc num)) (report_bytes-append a rest)
    ∙ parse_reports-report_then num a rest h

parse_reports-reports :
    (advs : List RawAdv) (num : ℕ) (rest : List ℕ)
    → All IsReport advs
    → let later = parse_reports num rest in
      parse_reports (length advs + num) (reports_bytes advs ++ rest) ≡ (advs ++ later.0, later.1)
parse_reports-reports [] num rest h = ap (λ (n : ℕ). parse_reports n rest) (omega arith)
parse_reports-reports (a ∷ advs) num rest (h, hs) =
    ap (λ (n : ℕ). parse_reports n ((report_bytes a ++ reports_bytes advs) ++ rest)) (omega arith)
    ∙ ap (parse_reports (suc (length advs + num)))
        (append_assoc (report_bytes a) (reports_bytes advs) rest)
    ∙ parse_reports-report (length advs + num) a (reports_bytes advs ++ rest) h
    ∙ ap (λ (l : List RawAdv × Bool). (a ∷ l.0, l.1)) (parse_reports-reports advs num rest hs)

parse_reports-whole :
    (advs : List RawAdv)
    → All IsReport advs
    → parse_reports (length advs) (reports_bytes advs) ≡ (advs, false)
unfolding parse_reports
parse_reports-whole [] h = refl
parse_reports-whole (a ∷ advs) (h, hs) =
    parse_reports-report (length advs) a (reports_bytes advs) h
    ∙ ap (λ (l : List RawAdv × Bool). (a ∷ l.0, l.1)) (parse_reports-whole advs hs)

parse_reports-short :
    (num : ℕ) (d : List ℕ)
    → (length d < 9) ⊎ (length d ≤ 9 + get_or d 8 0)
    → parse_reports (suc num) d ≡ ([], true)
unfolding parse_reports
parse_reports-short num d (inl h) = rw (lt→ltb (length d) 9 h)
parse_reports-short num d (inr h) = elim (Bool-cases (ltb (length d) 9)) [
  | inl e ↦ rw e
  | inr e ↦ rw (e, le→leb (length d) (9 + get_or d 8 0) h)
]

-- A report that is cut short ends the reading.
parse_reports-cut :
    (a : RawAdv) (num k : ℕ)
    → length a.addr ≡ 6
    → k < length (report_bytes a)
    → parse_reports (suc num) (take k (report_bytes a)) ≡ ([], true)
parse_reports-cut a num k h lt =
    let bytes : List ℕ = report_bytes a in
    let whole : bytes ≡ report_then a [] = sym (append-nil bytes) ∙ report_bytes-append a [] in
    let long : length bytes ≡ 10 + length a.payload =
      ap length whole ∙ length-report_then a [] h ∙ omega arith in
    parse_reports-short num (take k bytes) (
      cut_at k bytes (length a.payload) lt long
        (ap (λ (d : List ℕ). get_or d 8 0) whole ∙ report_then-len a [] h))
  where
    cut_at :
        (k : ℕ) (bytes : List ℕ) (n : ℕ)
        → k < length bytes
        → length bytes ≡ 10 + n
        → get_or bytes 8 0 ≡ n
        → (length (take k bytes) < 9) ⊎ (length (take k bytes) ≤ 9 + get_or (take k bytes) 8 0)
    cut_at k bytes n lt long len = elim (Bool-cases (ltb k 9)) [
      | inl e ↦ inl (omega (arith, ltb→lt k 9 e, length-take k bytes))
      | inr e ↦ inr (ground (arith, length-take k bytes, get_or-take k 8 bytes 0))
    ]

abbrev event_of : List RawAdv × Bool → ParsedEvent
event_of found = record { advs = found.0; truncated = found.1; ignored = false }

parse_params-body :
    (num : ℕ) (body : List ℕ) → parse_params (2 ∷ num ∷ body) ≡ event_of (parse_reports num body)
unfolding parse_params
parse_params-body num body = rw wide
  where
    wide : ltb (suc (suc (length body))) 2 ≡ false
    wide = ground arith

parse_hci_event-body :
    (plen num : ℕ) (body : List ℕ)
    → 2 ≤ plen
    → parse_hci_event (event_bytes plen num body)
      ≡ event_of (parse_reports num (take (plen - 2) body))
unfolding parse_hci_event
parse_hci_event-body plen num body h =
    rw (wide, ends) (parse_params-body num (take (plen - 2) body))
  where
    wide : ltb (length (event_bytes plen num body)) 5 ≡ false
    wide = ground arith

    ends :
        take (min (3 + plen) (length (event_bytes plen num body)) - 3) (2 ∷ num ∷ body)
        ≡ 2 ∷ num ∷ take (plen - 2) body
    ends =
        ap (λ (k : ℕ). take k (2 ∷ num ∷ body)) (count plen (length body) h)
        ∙ ap (λ t. 2 ∷ num ∷ t) (take-min (plen - 2) body)
      where
        count :
            (n m : ℕ)
            → 2 ≤ n
            → min (3 + n) (suc (suc (suc (suc (suc m))))) - 3 ≡ suc (suc (min (n - 2) m))
        count n m le = omega arith

pub parse_hci_event-reports :
    (advs : List RawAdv) (rest : List ℕ)
    → All IsReport advs
    → let body = reports_bytes advs in
      parse_hci_event (event_bytes (2 + length body) (length advs) (body ++ rest))
      ≡ record { advs = advs; truncated = false; ignored = false }
parse_hci_event-reports advs rest h =
    let body : List ℕ = reports_bytes advs in
    let declared : take (2 + length body - 2) (body ++ rest) ≡ body =
      take-append_at body rest (2 + length body - 2) (omega arith) in
    let all : parse_reports (length advs) body ≡ (advs, false) = parse_reports-whole advs h in
    parse_hci_event-body (2 + length body) (length advs) (body ++ rest) (omega arith)
    ∙ ap event_of (ap (parse_reports (length advs)) declared ∙ all)

pub parse_hci_event-cut :
    (advs : List RawAdv) (a : RawAdv) (plen more k : ℕ)
    → All IsReport advs
    → IsReport a
    → k < length (report_bytes a)
    → let body = reports_bytes advs ++ take k (report_bytes a) in
      2 + length body ≤ plen
      → parse_hci_event (event_bytes plen (length advs + suc more) body)
        ≡ record { advs = advs; truncated = true; ignored = false }
parse_hci_event-cut advs a plen more k hs h lt long =
    let cut : List ℕ = take k (report_bytes a) in
    let body : List ℕ = reports_bytes advs ++ cut in
    let read : parse_reports (length advs + suc more) body ≡ (advs, true) =
      parse_reports-reports advs (suc more) cut hs
      ∙ ap (λ (l : List RawAdv × Bool). (advs ++ l.0, l.1)) (parse_reports-cut a more k h.0 lt)
      ∙ ap (λ (l : List RawAdv). (l, true)) (append-nil advs) in
    parse_hci_event-body plen (length advs + suc more) body (omega arith)
    ∙ ap event_of (
        ap (parse_reports (length advs + suc more)) (take-all (plen - 2) body (omega arith)) ∙ read)
