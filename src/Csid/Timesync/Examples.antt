-- ===== src/Csid/Timesync/Examples.antt =====
-- Rows and ticks whose clock was stepped back, on which the pairing is run.
use csid.Csid.Timesync.Payload.{csid_frame, unix}
use csid.Csid.Timesync.Address.{mac_string}
use csid.Csid.Inject.{InjectConfig}
use csid.Csid.Timesync.Receiver.{Receiver, Recv, receive_all}
use csid.Csid.Timesync.Receiver.Heard.{IsCounted, rows_of, receive_all-IsCounted}
use csid.Csid.Timesync.Receiver.Beats.{Beat, recv_of, beat_row, receive_all-beats}
use csid.Csid.Timesync.Skew.{Arrival, SeqWindow, common_differences}
use csid.Csid.Timesync.Skew.Common.{IsCommon, common_differences-IsCommon}
use csid.Prelude.Int.{pos}
use csid.Csid.Timesync.Pairing.{Row, kernel, CsiTick, pair_ftm, pair, seal, push_ticks, new_index}
use csid.Csid.Timesync.Pairing.Agreement.{Paired, pair_ftm-Paired}
use csid.Prelude.{
  ℕ, zero, suc, ◌+◌, ◌-◌, ◌*◌, ◌/◌, ◌%◌, ◌^◌, ◌≤◌, ◌<◌, min, max, ◌≡◌, refl, sym, ap, ◌∙◌, ◌≢◌, ◌↔◌,
  ◌⊎◌, inl, inr, Bool, true, false, not, ◌&&◌, ◌||◌, Option, none, some, List, [], ◌∷◌, ◌++◌, map,
  append-nil, append_assoc, arith,
}
use csid.Prelude.{
  ltb, leb, ◌==◌, if◌then◌else◌, ltb→lt, lt→ltb, le→ltb, le→leb, lt→leb, leb→le, ==_iff, ==_refl,
  Bool-cases, Option-cases, length, get_elem?, get_or, range_map, length-range_map,
  get_elem?-range_map, get_elem?-append_right, get_elem?-append_left, take, drop, replicate, All,
  length-append, length-take, length-drop, length-replicate, take-append-drop, take-append,
  drop-append, All-append, eq_bytes, eq_bytes_refl, eq_bytes→eq,
}
use csid.Prelude.Int.{negsuc}

abbrev transmitter : List ℕ
transmitter = 2 ∷ 0 ∷ 0 ∷ 0 ∷ 0 ∷ 1 ∷ []

abbrev row_at : ℕ → Row
row_at unix_ts_ns = record {
  unix_ts_ns = unix_ts_ns;
  rx_stamp_src = kernel;
  tx_kind = csid_frame;
  tx_id = [];
  tx_mac = mac_string transmitter;
  seq = 0;
  tx_stamp_ns = 0;
  tx_clock = unix;
  tx_wall_ns = none;
  ftm = none;
  ftm_lag_ns = none;
}

abbrev tick_at : ℕ → ℕ → CsiTick
tick_at unix_ts_ns ftm = record { unix_ts_ns = unix_ts_ns; ftm = ftm; src_mac = transmitter }

abbrev heard : List Row
heard = row_at 1000 ∷ row_at 2000 ∷ row_at 5000 ∷ []

abbrev ticks : List CsiTick
ticks = tick_at 2040 8 ∷ tick_at 1970 7 ∷ tick_at 1010 5 ∷ tick_at 990 4 ∷ []

-- Ticks out of order; a tie is the earlier tick's; a row with no tick near stays as it was.
paired_rows : pair_ftm heard ticks 50 ≡ (
  record (row_at 1000) { ftm = some 4; ftm_lag_ns = some (negsuc 9) }
      ∷ record (row_at 2000) { ftm = some 7; ftm_lag_ns = some (negsuc 29) }
      ∷ row_at 5000
      ∷ [],
  2,
)
unfolding pair_ftm mac_string csid.Csid.Timesync.Address.parse_mac csid.Prelude.Text.split_on
    csid.Prelude.Text.hex_byte csid.Prelude.Text.hex_digit csid.Prelude.Text.u8_from_hex
    csid.Prelude.Text.hex_digits csid.Prelude.Text.digit_value csid.Prelude.Dict.find
    csid.Prelude.Dict.upsert csid.Csid.Timesync.Pairing.seal_ticks
paired_rows = refl

pair_ftm-Paired_example :
    let result = pair_ftm heard ticks 50 in Paired 50 ticks heard (result.0) (result.1)
pair_ftm-Paired_example =
    pair_ftm-Paired heard ticks 50 (omega arith, (omega arith, (omega arith, (omega arith, tt))))
      (omega arith, (omega arith, (omega arith, tt))) (omega arith)

abbrev peer : InjectConfig
peer = record {
  frame_bytes = 64;
  src_mac = mac_string transmitter;
  dst_mac = mac_string (replicate 6 0xff);
  bitrate_mbps = 6;
  monitor_tx_rate = 0;
}

abbrev beats : List Beat
beats =
    record { seq = 4; tx_unix_ns = 100; pkttype = 0; kernel_ns = some 130; now_ns = 140 }
    ∷ record { seq = 5; tx_unix_ns = 200; pkttype = 3; kernel_ns = none; now_ns = 240 }
    ∷ []

abbrev listening : Receiver
listening = record {
  counters = record {
    frames_seen = 3;
    own_transmissions = 9;
    rows_csid = 1;
    rows_app = 0;
    protected_frames = 1;
    no_stamp = 0;
    not_data = 1;
    errors = 0;
    first_row_ns = 50;
    last_row_ns = 50;
  };
  log = [];
}

receive_all-beats_example :
    (receive_all kernel (map (recv_of peer) beats) listening).log
    ≡ [] ++ map (beat_row peer kernel) beats
receive_all-beats_example =
    receive_all-beats peer kernel beats listening
      ((omega arith, omega arith, omega arith), ((omega arith, omega arith, omega arith), tt)) refl
      (omega arith)

abbrev reads : List Recv
reads = map (recv_of peer) beats

receive_all-IsCounted_example :
    let after = receive_all kernel reads listening in
    (after.log ≡ [] ++ rows_of kernel reads) × IsCounted after.counters
receive_all-IsCounted_example = receive_all-IsCounted kernel reads listening refl (omega arith)

abbrev here : List Arrival
here =
    record { seq = 2; unix_ts_ns = 900 }
    ∷ record { seq = 1; unix_ts_ns = 500 }
    ∷ record { seq = 2; unix_ts_ns = 800 }
    ∷ record { seq = 7; unix_ts_ns = 999 }
    ∷ []

abbrev there : List Arrival
there =
    record { seq = 1; unix_ts_ns = 600 }
    ∷ record { seq = 2; unix_ts_ns = 750 }
    ∷ record { seq = 7; unix_ts_ns = 950 }
    ∷ []

abbrev window : SeqWindow
window = record { lo = 1; hi = 5 }

taken :
    common_differences here there window
    ≡ record { diffs = negsuc 99 ∷ pos 50 ∷ []; discarded = 0; outside_window = 1 }
unfolding common_differences
taken = refl

common_differences-IsCommon_example :
    IsCommon here there window (common_differences here there window)
common_differences-IsCommon_example = common_differences-IsCommon here there window
