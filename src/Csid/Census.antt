-- ===== src/Csid/Census.antt =====
-- crates/csid/src/census.rs: the classes of frames and the counts of a minute and of a session.
-- The order of a HashMap's iteration is not modelled, and with it the sorted rows of the log.
pub mod Keys
pub mod Tally
pub mod Counts
pub mod Cap
pub mod Agreement
mod Examples
use csid.Csid.Timesync.Payload.{bit}
use csid.Prelude.{
  ℕ, zero, suc, ◌+◌, ◌-◌, ◌*◌, ◌/◌, ◌%◌, ◌^◌, ◌≤◌, ◌<◌, min, max, ◌≡◌, refl, sym, ap, ◌∙◌, ◌≢◌, ◌↔◌,
  ◌⊎◌, inl, inr, Bool, true, false, not, ◌&&◌, ◌||◌, Option, none, some, List, [], ◌∷◌, ◌++◌, map,
  append-nil, append_assoc, arith,
}
use csid.Prelude.{
  ltb, leb, ◌==◌, if◌then◌else◌, ltb→lt, lt→ltb, le→ltb, le→leb, lt→leb, leb→le, ==_iff, ==_refl,
  Bool-cases, Option-cases, length, get_elem?, get_or, range_map, length-range_map,
  get_elem?-range_map, get_elem?-append_right, get_elem?-append_left, take, drop, replicate, All,
  length-append, length-take, length-drop, length-replicate, take-append-drop, take-append,
  drop-append, All-append, eq_bytes, eq_bytes_refl, eq_bytes→eq,
}
use csid.Prelude.Bytes.{
  IsByte, le_bytes, of_le_bytes, be_bytes, of_be_bytes, length-le_bytes, length-be_bytes,
  le_bytes-IsByte, of_le_bytes-le_bytes, of_be_bytes-be_bytes, of_le_bytes-lt, le_bytes-of_le_bytes,
  get_or-IsByte,
}
use csid.Prelude.Int.{
  ℤ, pos, negsuc, pos_part, neg_part, sub_ℕ, IsSigned, to_pattern, of_pattern, to_pattern-lt,
  of_pattern-to_pattern, of_pattern-IsSigned,
}

pub data Kind : Type 0 where
  mgmt : Kind
  ctrl : Kind
  data_frame : Kind
  ext : Kind

pub data Sounding : Type 0 where
  vht_bfi : Sounding
  he_bfi : Sounding
  ndpa : Sounding

pub record Classified : Type 0 where
  pub kind : Kind
  pub subtype : ℕ
  pub ta : Option (List ℕ)
  pub bssid : Option (List ℕ)
  pub sounding : Option Sounding
  pub protected : Bool

pub data Reject : Type 0 where
  not_radiotap : Reject
  short : Reject

-- `Result<Classified, Reject>`.
pub data Class : Type 0 where
  classified : Classified → Class
  rejected : Reject → Class

unfoldable pub mac_at : List ℕ → ℕ → Option (List ℕ)
mac_at b off = if ltb (length b) (off + 6) then none else some (take 6 (drop off b))

-- Whether a control frame of this subtype names only its receiver.
abbrev pub names_receiver : ℕ → Bool
names_receiver subtype = (subtype == 7 || subtype == 12) || subtype == 13

unfoldable pub control : List ℕ → ℕ → Class
unfolding mac_at
control mpdu subtype =
    let frame : Option (List ℕ) → Class = λ ta. classified (record {
      kind = ctrl;
      subtype = subtype;
      ta = ta;
      bssid = none;
      sounding = if subtype == 5 then some ndpa else none;
      protected = false;
    }) in
    if names_receiver subtype
    then frame none
    else if ltb (length mpdu) 16
    then rejected short
    else frame (mac_at mpdu 10)

-- The label of an action frame's body, by its category and action.
unfoldable pub report : Option ℕ → Option ℕ → Option Sounding
report none action = none
report (some category) none = none
report (some category) (some action) =
    if category == 21 && action == 0
    then some vht_bfi
    else if category == 30 && action == 0
    then some he_bfi
    else none

unfoldable pub sounding_of : List ℕ → ℕ → ℕ → Option Sounding
unfolding report
sounding_of mpdu fc1 subtype =
    let body_off = 24 + (if bit 7 fc1 then 4 else 0) in
    if (subtype == 13 || subtype == 14) && not (bit 6 fc1)
    then report (get_elem? mpdu body_off) (get_elem? mpdu (body_off + 1))
    else none

unfoldable pub management : List ℕ → ℕ → ℕ → Class
unfolding mac_at sounding_of
management mpdu fc1 subtype =
    if ltb (length mpdu) 24
    then rejected short
    else classified (record {
      kind = mgmt;
      subtype = subtype;
      ta = mac_at mpdu 10;
      bssid = mac_at mpdu 16;
      sounding = sounding_of mpdu fc1 subtype;
      protected = bit 6 fc1;
    })

-- Which address is the BSSID depends on the DS bits.
unfoldable pub data_bssid : List ℕ → ℕ → Option (List ℕ)
unfolding mac_at
data_bssid mpdu ds =
    if ds == 0
    then mac_at mpdu 16
    else if ds == 1
    then mac_at mpdu 4
    else if ds == 2
    then mac_at mpdu 10
    else none

unfoldable pub data_class : List ℕ → ℕ → ℕ → Class
unfolding mac_at data_bssid
data_class mpdu fc1 subtype =
    if ltb (length mpdu) 24
    then rejected short
    else classified (record {
      kind = data_frame;
      subtype = subtype;
      ta = mac_at mpdu 10;
      bssid = data_bssid mpdu (fc1 % 4);
      sounding = none;
      protected = bit 6 fc1;
    })

unfoldable pub classify_mpdu : List ℕ → Class
classify_mpdu mpdu =
    let fc0 = get_or mpdu 0 0 in
    let fc1 = get_or mpdu 1 0 in
    let ftype = fc0 / 4 % 4 in
    let subtype = fc0 / 16 % 16 in
    if ltb (length mpdu) 10
    then rejected short
    else if ftype == 1
    then control mpdu subtype
    else if ftype == 0
    then management mpdu fc1 subtype
    else if ftype == 2
    then data_class mpdu fc1 subtype
    else classified (record {
      kind = ext;
      subtype = subtype;
      ta = none;
      bssid = none;
      sounding = none;
      protected = bit 6 fc1;
    })

-- The length of the radiotap header.
unfoldable pub rt_len : List ℕ → ℕ
rt_len frame = of_le_bytes (get_or frame 2 0 ∷ get_or frame 3 0 ∷ [])

unfoldable pub classify : List ℕ → Class
unfolding rt_len
classify frame =
    if ltb (length frame) 8 || not (get_or frame 0 0 == 0)
    then rejected not_radiotap
    else if not (leb 8 (rt_len frame) && leb (rt_len frame) 1024)
        || ltb (length frame) (rt_len frame)
    then rejected not_radiotap
    else classify_mpdu (drop (rt_len frame) frame)
