-- ===== src/Csid/Timesync/Receiver/Heard.antt =====
-- What the receive loop of crates/csid/src/timesync/rx.rs counts and logs of what it reads.
use csid.Csid.Timesync.Payload.{
  TxKind, csid_frame, app_frame, Reject, protected, not_data_frame, not_radiotap, short, no_stamp,
  Recognised, stamped, rejected, recognise,
}
use csid.Csid.Census.Tally.{plus_one}
use csid.Csid.Timesync.Pairing.{StampSource, Row, from_stamp}
use csid.Csid.Timesync.Receiver.{
  TimesyncCounters, count_row, note_reject, Receiver, Recv, idle, failed, received, packet_outgoing,
  unwrap_or, on_recognised, count_seen, receive, receive_all,
}
use csid.Prelude.{
  ℕ, ◌+◌, ◌^◌, ◌≤◌, ◌<◌, ◌≡◌, refl, sym, ap, ◌∙◌, inl, inr, Bool, true, false, List, [], ◌∷◌, ◌++◌,
  append-nil, append_assoc, arith,
}
use csid.Prelude.{◌==◌, if◌then◌else◌, Bool-cases, length}

-- Every frame that was seen is counted under one verdict.
abbrev pub IsCounted : TimesyncCounters → Type 0
IsCounted c =
    c.rows_csid + c.rows_app + c.protected_frames + c.no_stamp + c.not_data ≡ c.frames_seen

-- The row of a frame: of one that is not this node's own, is recognised, and is taken by the log.
abbrev pub row_of : StampSource → ℕ → Bool → Recognised → List Row
row_of stamp_src unix_ts_ns appended (rejected r) = []
row_of stamp_src unix_ts_ns appended (stamped stamp) =
    if appended then from_stamp stamp unix_ts_ns stamp_src ∷ [] else []

abbrev pub rows_heard : StampSource → Recv → List Row
rows_heard stamp_src (received r) =
    if r.pkttype == packet_outgoing
    then []
    else row_of stamp_src (unwrap_or r.kernel_ns r.now_ns) r.appended (recognise r.frame)
rows_heard stamp_src _ = []

abbrev pub rows_of : StampSource → List Recv → List Row
rows_of stamp_src [] = []
rows_of stamp_src (e ∷ es) = rows_heard stamp_src e ++ rows_of stamp_src es

abbrev IsNext : List Row → Receiver → Receiver → Type 0
IsNext rows s after =
    (after.log ≡ s.log ++ rows)
    × IsCounted after.counters
    × (after.counters.frames_seen ≤ s.counters.frames_seen + 1)

abbrev seen : TimesyncCounters → TimesyncCounters
seen c = record c { frames_seen = plus_one c.frames_seen }

abbrev IsOneMore : TimesyncCounters → TimesyncCounters → Type 0
IsOneMore c after = IsCounted after × (after.frames_seen ≤ c.frames_seen + 1)

module _ (c : TimesyncCounters) (h : IsCounted c) (k : c.frames_seen + 1 < 2 ^ 64) where
  count_row-IsOneMore : (kind : TxKind) → IsOneMore c (count_row kind (seen c))
  count_row-IsOneMore csid_frame = (omega arith, omega arith)
  count_row-IsOneMore app_frame = (omega arith, omega arith)

  note_reject-IsOneMore : (r : Reject) → IsOneMore c (note_reject r (seen c))
  unfolding note_reject
  note_reject-IsOneMore protected = (omega arith, omega arith)
  note_reject-IsOneMore not_data_frame = (omega arith, omega arith)
  note_reject-IsOneMore not_radiotap = (omega arith, omega arith)
  note_reject-IsOneMore short = (omega arith, omega arith)
  note_reject-IsOneMore no_stamp = (omega arith, omega arith)

on_recognised-IsNext :
    (stamp_src : StampSource) (unix_ts_ns : ℕ) (appended : Bool) (r : Recognised) (s : Receiver)
    → IsCounted s.counters
    → s.counters.frames_seen + 1 < 2 ^ 64
    → IsNext
        (row_of stamp_src unix_ts_ns appended r)
        s
        (on_recognised stamp_src unix_ts_ns appended r (count_seen s))
unfolding on_recognised
on_recognised-IsNext stamp_src t true (stamped stamp) s h k =
    let (counted, one) = count_row-IsOneMore s.counters h k stamp.kind in (refl, counted, one)
on_recognised-IsNext stamp_src t false (stamped stamp) s h k =
    let (counted, one) = count_row-IsOneMore s.counters h k stamp.kind in
    (sym (append-nil s.log), counted, one)
on_recognised-IsNext stamp_src t appended (rejected r) s h k =
    let (counted, one) = note_reject-IsOneMore s.counters h k r in
    (sym (append-nil s.log), counted, one)

receive-IsNext :
    (stamp_src : StampSource) (e : Recv) (s : Receiver)
    → IsCounted s.counters
    → s.counters.frames_seen + 1 < 2 ^ 64
    → IsNext (rows_heard stamp_src e) s (receive stamp_src e s)
unfolding receive
receive-IsNext stamp_src idle s h k = (sym (append-nil s.log), h, omega arith)
receive-IsNext stamp_src failed s h k = (sym (append-nil s.log), h, omega arith)
receive-IsNext stamp_src (received r) s h k = elim (Bool-cases (r.pkttype == packet_outgoing)) [
  | inl e ↦ rw e (sym (append-nil s.log), h, omega arith)
  | inr e ↦ rw e (
      on_recognised-IsNext stamp_src (unwrap_or r.kernel_ns r.now_ns) r.appended (recognise r.frame)
        s h k)
]

-- Of whatever is read, the log takes in order the rows of the frames that are not this node's own
-- and are recognised, each with the kernel's stamp where there is one, less those whose append
-- fails; and the frames seen are at all times the sum of the verdicts on them. Fewer than 2^64
-- frames are read.
pub receive_all-IsCounted :
    (stamp_src : StampSource) (es : List Recv) (s : Receiver)
    → IsCounted s.counters
    → s.counters.frames_seen + length es < 2 ^ 64
    → let after = receive_all stamp_src es s in
      (after.log ≡ s.log ++ rows_of stamp_src es) × IsCounted after.counters
receive_all-IsCounted stamp_src [] s h k = (sym (append-nil s.log), h)
receive_all-IsCounted stamp_src (e ∷ es) s h k =
    let (log, counted, one) = receive-IsNext stamp_src e s h (omega arith) in
    let next = receive stamp_src e s in
    let (later, all) = receive_all-IsCounted stamp_src es next counted (omega arith) in
    (
      later
          ∙ ap (λ (l : List Row). l ++ rows_of stamp_src es) log
          ∙ append_assoc s.log (rows_heard stamp_src e) (rows_of stamp_src es),
      all,
    )
