-- ===== src/Csid/Timesync/Receiver.antt =====
-- The receive loop of crates/csid/src/timesync/rx.rs, with the counters of timesync/mod.rs. What the
-- socket gives, the time of day and whether the log takes a row are arguments; the log is the list
-- of its rows.
pub mod Heard
pub mod Beats
use csid.Csid.Census.Tally.{plus_one}
use csid.Csid.Timesync.Payload.{
  TxKind, csid_frame, app_frame, Stamp, Reject, protected, not_data_frame, Recognised, stamped,
  rejected, recognise,
}
use csid.Csid.Timesync.Pairing.{StampSource, Row, from_stamp}
use csid.Prelude.{
  ℕ, zero, suc, ◌+◌, ◌-◌, ◌*◌, ◌/◌, ◌%◌, ◌^◌, ◌≤◌, ◌<◌, min, max, ◌≡◌, refl, sym, ap, ◌∙◌, ◌≢◌, ◌↔◌,
  ◌⊎◌, inl, inr, Bool, true, false, not, ◌&&◌, ◌||◌, Option, none, some, List, [], ◌∷◌, ◌++◌, map,
  append-nil, append_assoc, arith,
}
use csid.Prelude.{
  ltb, leb, ◌==◌, if◌then◌else◌, ltb→lt, lt→ltb, le→ltb, le→leb, lt→leb, leb→le, ==_iff, ==_refl,
  Bool-cases, Option-cases, length, get_elem?, get_or, range_map, length-range_map,
  get_elem?-range_map, get_elem?-append_right, get_elem?-append_left, take, drop, replicate, All,
  length-append, length-take, length-drop, length-replicate, take-append-drop, take-append,
  drop-append, All-append, eq_bytes, eq_bytes_refl, eq_bytes→eq,
}
use csid.Prelude.Bytes.{
  IsByte, le_bytes, of_le_bytes, be_bytes, of_be_bytes, length-le_bytes, length-be_bytes,
  le_bytes-IsByte, of_le_bytes-le_bytes, of_be_bytes-be_bytes, of_le_bytes-lt, le_bytes-of_le_bytes,
  get_or-IsByte,
}
use csid.Prelude.Int.{
  ℤ, pos, negsuc, pos_part, neg_part, sub_ℕ, IsSigned, to_pattern, of_pattern, to_pattern-lt,
  of_pattern-to_pattern, of_pattern-IsSigned,
}

pub record TimesyncCounters : Type 0 where
  pub frames_seen : ℕ
  pub own_transmissions : ℕ
  pub rows_csid : ℕ
  pub rows_app : ℕ
  pub protected_frames : ℕ
  pub no_stamp : ℕ
  pub not_data : ℕ
  pub errors : ℕ
  pub first_row_ns : ℕ
  pub last_row_ns : ℕ

abbrev pub count_row : TxKind → TimesyncCounters → TimesyncCounters
count_row csid_frame c = record c { rows_csid = plus_one c.rows_csid }
count_row app_frame c = record c { rows_app = plus_one c.rows_app }

unfoldable pub note_row : TxKind → ℕ → TimesyncCounters → TimesyncCounters
note_row kind unix_ts_ns c = record (count_row kind c) {
  first_row_ns = if c.first_row_ns == 0 then unix_ts_ns else c.first_row_ns;
  last_row_ns = unix_ts_ns;
}

unfoldable pub note_reject : Reject → TimesyncCounters → TimesyncCounters
note_reject protected c = record c { protected_frames = plus_one c.protected_frames }
note_reject not_data_frame c = record c { not_data = plus_one c.not_data }
note_reject _ c = record c { no_stamp = plus_one c.no_stamp }

abbrev pub packet_outgoing : ℕ
packet_outgoing = 4

-- A frame read, the time of day when it was, and whether the log takes its row.
pub record Received : Type 0 where
  pub frame : List ℕ
  pub pkttype : ℕ
  pub kernel_ns : Option ℕ
  pub now_ns : ℕ
  pub appended : Bool

-- What a read gives: a timeout, an error, a frame.
pub data Recv : Type 0 where
  idle : Recv
  failed : Recv
  received : Received → Recv

pub record Receiver : Type 0 where
  pub counters : TimesyncCounters
  pub log : List Row

abbrev pub unwrap_or : Option ℕ → ℕ → ℕ
unwrap_or none now = now
unwrap_or (some t) now = t

abbrev append_row : Bool → Row → Receiver → Receiver
append_row true row s = record s { log = s.log ++ (row ∷ []) }
append_row false row s = record s {
  counters = record (s.counters) { errors = plus_one s.counters.errors };
}

-- The arms of `match payload::recognise(frame)`.
unfoldable pub on_recognised : StampSource → ℕ → Bool → Recognised → Receiver → Receiver
unfolding note_row note_reject
on_recognised stamp_src unix_ts_ns appended (stamped stamp) s =
    let row = from_stamp stamp unix_ts_ns stamp_src in
    append_row appended row (record s { counters = note_row stamp.kind unix_ts_ns s.counters })
on_recognised stamp_src unix_ts_ns appended (rejected r) s = record s {
  counters = note_reject r s.counters;
}

abbrev pub count_own : Receiver → Receiver
count_own s = record s {
  counters = record (s.counters) { own_transmissions = plus_one s.counters.own_transmissions };
}

abbrev pub count_seen : Receiver → Receiver
count_seen s = record s {
  counters = record (s.counters) { frames_seen = plus_one s.counters.frames_seen };
}

-- The body of the loop.
unfoldable pub receive : StampSource → Recv → Receiver → Receiver
unfolding on_recognised
receive stamp_src idle s = s
receive stamp_src failed s = record s {
  counters = record (s.counters) { errors = plus_one s.counters.errors };
}
receive stamp_src (received r) s =
    if r.pkttype == packet_outgoing
    then count_own s
    else on_recognised stamp_src (unwrap_or r.kernel_ns r.now_ns) r.appended (recognise r.frame)
        (count_seen s)

abbrev pub receive_all : StampSource → List Recv → Receiver → Receiver
receive_all stamp_src [] s = s
receive_all stamp_src (e ∷ es) s = receive_all stamp_src es (receive stamp_src e s)
