-- ===== src/Csid/Examples.antt =====
-- Frames and addresses on which the lemmas of the daemon's modules are applied.
use csid.Csid.Timesync.Address.{mac_string}
use csid.Csid.Timesync.Payload.{csid_frame, unix, Stamp, stamped, bit, rt_len, recognise}
use csid.Csid.Timesync.Guards.{IsOnItsClock, recognise-stamped}
use csid.Csid.Inject.{InjectConfig, parse_mac, build_frame}
use csid.Csid.Inject.Delivery.{recognise-build_frame}
use csid.Prelude.{ℕ, ◌+◌, ◌/◌, ◌%◌, ◌≤◌, ◌<◌, ◌≡◌, false, none, List, [], ◌∷◌, arith}
use csid.Prelude.{length, get_or, take, drop, replicate}

abbrev sentinel : List ℕ
sentinel = 0xef ∷ 0xbe ∷ 0xad ∷ 0xde ∷ 0xad ∷ 0xde ∷ []

abbrev rated : InjectConfig
rated = record {
  frame_bytes = 64;
  src_mac = mac_string sentinel;
  dst_mac = mac_string (replicate 6 0xff);
  bitrate_mbps = 6;
  monitor_tx_rate = 0;
}

abbrev sent : Stamp
sent = record {
  kind = csid_frame;
  tx_id = mac_string (parse_mac rated.src_mac);
  tx_mac = parse_mac rated.src_mac;
  seq = 77;
  tx_stamp_ns = 1700000000000000000;
  tx_clock = unix;
  tx_wall_ns = none;
}

abbrev on_air : List ℕ
on_air = build_frame rated 77 1700000000000000000

recognise-build_frame_example : recognise (build_frame rated 77 1700000000000000000) ≡ stamped sent
recognise-build_frame_example =
    recognise-build_frame rated 77 1700000000000000000 (omega arith) (omega arith)

recognise-stamped_example :
    (hdr_len : ℕ) × (8 ≤ rt_len on_air)
    × (rt_len on_air + hdr_len < length on_air)
    × (24 ≤ hdr_len)
    × (get_or (drop (rt_len on_air) on_air) 0 0 / 4 % 4 ≡ 2)
    × (bit 6 (get_or (drop (rt_len on_air) on_air) 1 0) ≡ false)
    × (sent.tx_mac ≡ take 6 (drop 10 (drop (rt_len on_air) on_air)))
    × IsOnItsClock (drop hdr_len (drop (rt_len on_air) on_air)) sent
recognise-stamped_example =
    recognise-stamped on_air sent
      (recognise-build_frame rated 77 1700000000000000000 (omega arith) (omega arith))
