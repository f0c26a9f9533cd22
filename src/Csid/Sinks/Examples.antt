-- ===== src/Csid/Sinks/Examples.antt =====
-- A capture file with a message that does not parse, and a listener that was away for a record.
use csid.Csiq.Error.{ok}
use csid.Csiq.Record.{CsiRecord, default_node}
use csid.Csiq.Width
use csid.Csiscope.Ring.{new_ring}
use csid.Csiscope.Ingest.{new_counters}
use csid.Csiq.Raw.Framing.{message}
use csid.Csid.Sinks.{RawCsiMessage, DurableSink}
use csid.Csid.Sinks.Durable.{
  write_messages, messages, open_file, read_all, parse_all, reader_of, read_all-write_messages,
}
use csid.Csid.Sinks.Published.{Outgoing, Ends}
use csid.Prelude.{◌^◌, ◌<◌, ◌≡◌, true, false, none, some, List, [], ◌∷◌, arith}
use csid.Prelude.{length, replicate}
use csid.Prelude.Bytes.{be_bytes}
use csid.Prelude.Int.{pos, negsuc}

abbrev captured : List RawCsiMessage
captured =
    record { hdr = replicate 96 1; csi = 1 ∷ 0 ∷ 255 ∷ 255 ∷ []; unix_ts_ns = 5 }
    ∷ record { hdr = 1 ∷ []; csi = []; unix_ts_ns = 6 }
    ∷ []

small_file : length (messages captured) < 2 ^ 64
unfolding message be_bytes
small_file = omega arith

read_all-write_messages_example :
    (s : DurableSink) × (write_messages captured (open_file [] 0) ≡ ok s)
    × (s.out.written ≡ messages captured)
    × (s.bytes ≡ length (messages captured))
    × (read_all 3 (reader_of (Width.unknown 9) true s.out.written)
        ≡ parse_all (Width.unknown 9) true captured)
read_all-write_messages_example =
    read_all-write_messages (Width.unknown 9) true captured (omega arith, (omega arith, tt))
      small_file

abbrev beat : CsiRecord
beat = record {
  ftm = 1000;
  us = 1;
  unix_ts_ns = 2;
  rnf = 0;
  phy = none;
  bw_antsel = none;
  mono_us = none;
  vendor_hdr = none;
  node = default_node;
  seq = 7;
  nrx = 2;
  ntx = 1;
  ntone = 1;
  rssi = negsuc 42 ∷ negsuc 44 ∷ [];
  src_mac = 0xde ∷ 0xad ∷ 0xbe ∷ 0xef ∷ 0 ∷ 1 ∷ [];
  channel = 36;
  width = Width.unknown 9;
  iq = pos 1 ∷ negsuc 1 ∷ pos 3 ∷ negsuc 3 ∷ [];
}

-- Two targets: the second send of the second record fails, and that of the third does, which still
-- arrives; the fourth is lost on the way, though both sends succeed.
abbrev outgoing : List Outgoing
outgoing =
    record { now = 1; outcomes = true ∷ true ∷ []; arrives = true; body = beat }
    ∷ record { now = 2; outcomes = true ∷ false ∷ []; arrives = false; body = beat }
    ∷ record { now = 3; outcomes = false ∷ true ∷ []; arrives = true; body = beat }
    ∷ record { now = 4; outcomes = true ∷ true ∷ []; arrives = false; body = beat }
    ∷ record { now = 5; outcomes = true ∷ true ∷ []; arrives = true; body = beat }
    ∷ []

abbrev ends : Ends
ends = (
  record { session_uid = 5; seq = 11; live_sent = 8; live_dropped = 3; warned = false },
  (
    record { ring = new_ring 2 100; counters = new_counters },
    record { session_uid = 5; last_seq = some 10; ftm_last = some 900; ftm_wraps = 0 },
  ),
)
