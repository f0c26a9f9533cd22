-- ===== src/Csiscope/Ingest.antt =====
-- crates/csiscope/src/ingest.rs: one datagram after the other into the ring, with the counters of
-- state.rs. The counters are 64-bit and count datagrams and bytes; they are unbounded here. The
-- arrival time is an argument.
pub mod Session
use csid.Csiq.Error.{Result, ok, err, stuck}
use csid.Csiq.Live.{LiveDatagram, decode}
use csid.Csiscope.Ring.{Sample, Ring, push_sample}
use csid.Prelude.{
  ℕ, zero, suc, ◌+◌, ◌-◌, ◌*◌, ◌/◌, ◌%◌, ◌^◌, ◌≤◌, ◌<◌, min, max, ◌≡◌, refl, sym, ap, ◌∙◌, ◌≢◌, ◌↔◌,
  ◌⊎◌, inl, inr, Bool, true, false, not, ◌&&◌, ◌||◌, Option, none, some, List, [], ◌∷◌, ◌++◌, map,
  append-nil, append_assoc, arith,
}
use csid.Prelude.{
  ltb, leb, ◌==◌, if◌then◌else◌, ltb→lt, lt→ltb, le→ltb, le→leb, lt→leb, leb→le, ==_iff, ==_refl,
  Bool-cases, Option-cases, length, get_elem?, get_or, range_map, length-range_map,
  get_elem?-range_map, get_elem?-append_right, get_elem?-append_left, take, drop, replicate, All,
  length-append, length-take, length-drop, length-replicate, take-append-drop, take-append,
  drop-append, All-append, eq_bytes, eq_bytes_refl, eq_bytes→eq,
}
use csid.Prelude.Bytes.{
  IsByte, le_bytes, of_le_bytes, be_bytes, of_be_bytes, length-le_bytes, length-be_bytes,
  le_bytes-IsByte, of_le_bytes-le_bytes, of_be_bytes-be_bytes, of_le_bytes-lt, le_bytes-of_le_bytes,
  get_or-IsByte,
}
use csid.Prelude.Int.{
  ℤ, pos, negsuc, pos_part, neg_part, sub_ℕ, IsSigned, to_pattern, of_pattern, to_pattern-lt,
  of_pattern-to_pattern, of_pattern-IsSigned,
}

pub record Tracker : Type 0 where
  pub session_uid : ℕ
  pub last_seq : Option ℕ
  pub ftm_last : Option ℕ
  pub ftm_wraps : ℕ

abbrev pub new_tracker : Tracker
new_tracker = record { session_uid = 0; last_seq = none; ftm_last = none; ftm_wraps = 0 }

-- What `observe` does on a change of the session.
abbrev pub enter_session : Tracker → ℕ → Tracker
enter_session t uid =
    if t.session_uid == uid
    then t
    else record { session_uid = uid; last_seq = none; ftm_last = none; ftm_wraps = 0 }

-- `seq.wrapping_sub(prev.wrapping_add(1))`.
abbrev pub seq_gap : Option ℕ → ℕ → ℕ
seq_gap none seq = 0
seq_gap (some prev) seq = (seq + 2 ^ 32 - (prev + 1) % 2 ^ 32) % 2 ^ 32

abbrev pub wraps_after : Option ℕ → ℕ → ℕ → ℕ
wraps_after none ftm wraps = wraps
wraps_after (some prev) ftm wraps = if ltb ftm prev then (wraps + 1) % 2 ^ 64 else wraps

pub record Observed : Type 0 where
  pub tracker : Tracker
  pub ticks : ℕ
  pub gap : ℕ
  pub changed : Bool

unfoldable pub observe : Tracker → ℕ → ℕ → ℕ → Observed
observe t0 session_uid seq ftm =
    let t = enter_session t0 session_uid in
    let wraps = wraps_after t.ftm_last ftm t.ftm_wraps in
    record {
      tracker = record t { last_seq = some seq; ftm_last = some ftm; ftm_wraps = wraps };
      ticks = (wraps * 2 ^ 32 + ftm) % 2 ^ 64;
      gap = seq_gap t.last_seq seq;
      changed = not (t0.session_uid == session_uid);
    }

pub record Counters : Type 0 where
  pub received : ℕ
  pub decode_errors : ℕ
  pub sender_gaps : ℕ
  pub session_changes : ℕ
  pub bytes : ℕ
  pub last_ns : ℕ

abbrev pub new_counters : Counters
new_counters = record {
  received = 0;
  decode_errors = 0;
  sender_gaps = 0;
  session_changes = 0;
  bytes = 0;
  last_ns = 0;
}

pub record Hub : Type 0 where
  pub ring : Ring
  pub counters : Counters

unfoldable pub push_hub : Hub → Sample → Hub
push_hub h s = record {
  ring = push_sample h.ring s;
  counters = record h.counters { received = h.counters.received + 1; last_ns = s.recv_ns };
}

-- The end of `accept`, on the datagram's length and what the tracker says of it.
unfoldable pub accept_observed : ℕ → ℕ → LiveDatagram → Hub → Observed → Hub × Tracker
unfolding push_hub
accept_observed now n dg hub seen =
    let c = hub.counters in
    let counted = record hub {
      counters = record c {
        bytes = c.bytes + n;
        sender_gaps = c.sender_gaps + seen.gap;
        session_changes = c.session_changes + (if seen.changed then 1 else 0);
      };
    } in
    (
      push_hub counted (record {
        session_uid = dg.session_uid;
        seq = dg.seq;
        ftm_ticks = seen.ticks;
        recv_ns = now;
        body = dg.body;
      }),
      seen.tracker,
    )

-- The match on what the datagram decodes to. `stuck` is the model's case for a run out of fuel,
-- which no payload is decoded to.
unfoldable pub accept_decoded : ℕ → ℕ → Result LiveDatagram → Hub × Tracker → Hub × Tracker
unfolding observe accept_observed
accept_decoded now n (err e) (hub, tracker) =
    let c = hub.counters in
    (
      record hub {
        counters = record c { bytes = c.bytes + n; decode_errors = c.decode_errors + 1 };
      },
      tracker,
    )
accept_decoded now n stuck (hub, tracker) = (hub, tracker)
accept_decoded now n (ok dg) (hub, tracker) =
    accept_observed now n dg hub (observe tracker dg.session_uid dg.seq dg.body.ftm)

unfoldable pub accept : ℕ → List ℕ → Hub × Tracker → Hub × Tracker
unfolding accept_decoded
accept now bytes s = accept_decoded now (length bytes) (decode bytes) s
