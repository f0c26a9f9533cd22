-- ===== src/Csid/Timesync/Receiver/Beats.antt =====
-- From the injector of one node (crates/csid/src/inject.rs) to the time-transfer log of another
-- (crates/csid/src/timesync/rx.rs).
use csid.Csid.Timesync.Address.{mac_string}
use csid.Csid.Timesync.Payload.{csid_frame, unix}
use csid.Csid.Timesync.Pairing.{StampSource, Row, from_stamp}
use csid.Csid.Timesync.Receiver.{Receiver, Recv, received, packet_outgoing, unwrap_or, receive_all}
use csid.Csid.Timesync.Receiver.Heard.{
  IsCounted, row_of, rows_heard, rows_of, receive_all-IsCounted,
}
use csid.Csid.Inject.{InjectConfig, parse_mac, build_frame}
use csid.Csid.Inject.Delivery.{recognise-build_frame}
use mathlib.Core.Path.{ap₂}
use csid.Prelude.Members.{length-map}
use csid.Prelude.{
  ℕ, ◌+◌, ◌^◌, ◌<◌, ◌≡◌, refl, ap, ◌∙◌, ◌≢◌, true, false, Option, none, some, List, [], ◌∷◌, ◌++◌,
  map, arith,
}
use csid.Prelude.{◌==◌, length, All}

-- A frame of the injector as it is received.
pub record Beat : Type 0 where
  pub seq : ℕ
  pub tx_unix_ns : ℕ
  pub pkttype : ℕ
  pub kernel_ns : Option ℕ
  pub now_ns : ℕ

abbrev pub IsBeat : Beat → Type 0
IsBeat b = (b.seq < 2 ^ 64) × (b.tx_unix_ns < 2 ^ 64) × (b.pkttype ≢ packet_outgoing)

abbrev pub recv_of : InjectConfig → Beat → Recv
recv_of cfg b = received (record {
  frame = build_frame cfg b.seq b.tx_unix_ns;
  pkttype = b.pkttype;
  kernel_ns = b.kernel_ns;
  now_ns = b.now_ns;
  appended = true;
})

-- The kernel's stamp, where there is one.
abbrev heard_at : Option ℕ → ℕ → ℕ
heard_at none now_ns = now_ns
heard_at (some kernel_ns) now_ns = kernel_ns

heard_at_lem :
    (kernel_ns : Option ℕ) (now_ns : ℕ) → unwrap_or kernel_ns now_ns ≡ heard_at kernel_ns now_ns
heard_at_lem none now_ns = refl
heard_at_lem (some kernel_ns) now_ns = refl

-- The row of a beat: its counter and its sender's time, the sender's address, the time of receipt.
abbrev pub beat_row : InjectConfig → StampSource → Beat → Row
beat_row cfg stamp_src b = record {
  unix_ts_ns = heard_at b.kernel_ns b.now_ns;
  rx_stamp_src = stamp_src;
  tx_kind = csid_frame;
  tx_id = mac_string (parse_mac cfg.src_mac);
  tx_mac = mac_string (parse_mac cfg.src_mac);
  seq = b.seq;
  tx_stamp_ns = b.tx_unix_ns;
  tx_clock = unix;
  tx_wall_ns = none;
  ftm = none;
  ftm_lag_ns = none;
}

module _ (cfg : InjectConfig) (stamp_src : StampSource) where
  rows_heard-recv_of :
      (b : Beat) → IsBeat b → rows_heard stamp_src (recv_of cfg b) ≡ beat_row cfg stamp_src b ∷ []
  unfolding from_stamp
  rows_heard-recv_of b (hs, ht, other) =
      let apart : (b.pkttype == packet_outgoing) ≡ false = ground arith in
      rw (apart, heard_at_lem b.kernel_ns b.now_ns)
        (ap (row_of stamp_src (heard_at b.kernel_ns b.now_ns) true)
          (recognise-build_frame cfg b.seq b.tx_unix_ns hs ht))

  rows_of-recv_of :
      (bs : List Beat)
      → All IsBeat bs
      → rows_of stamp_src (map (recv_of cfg) bs) ≡ map (beat_row cfg stamp_src) bs
  rows_of-recv_of [] h = refl
  rows_of-recv_of (b ∷ bs) (h, hs) =
      ap₂ (λ (xs ys : List Row). xs ++ ys) (rows_heard-recv_of b h) (rows_of-recv_of bs hs)

-- A node that reads a peer's beats logs one row of each, in order: the counter and the send time that
-- the beat was made of, the peer's configured address, and the kernel's stamp of the receipt, or the
-- time of the read where there is none. The log takes them, none is the node's own, and fewer than
-- 2^64 frames are read.
pub receive_all-beats :
    (cfg : InjectConfig) (stamp_src : StampSource) (bs : List Beat) (s : Receiver)
    → All IsBeat bs
    → IsCounted s.counters
    → s.counters.frames_seen + length bs < 2 ^ 64
    → (receive_all stamp_src (map (recv_of cfg) bs) s).log
      ≡ s.log ++ map (beat_row cfg stamp_src) bs
receive_all-beats cfg stamp_src bs s h counted room =
    (receive_all-IsCounted stamp_src (map (recv_of cfg) bs) s counted
      (omega (arith, length-map (recv_of cfg) bs))).0
    ∙ ap (λ (rows : List Row). s.log ++ rows) (rows_of-recv_of cfg stamp_src bs h)
