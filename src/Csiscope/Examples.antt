-- ===== src/Csiscope/Examples.antt =====
-- A ring of two samples, and a session with lost datagrams.
use csid.Csiq.Record.{CsiRecord, default_node, IsTyped}
use csid.Csiq.Width
use csid.Csiq.Record.Matrix.{coeff_count}
use csid.Csiscope.Ring.{Sample, Ring, new_ring, push_sample, evict, since}
use csid.Csiscope.Ring.Eviction.{IsHeld, IsFull}
use csid.Csiscope.Ring.History.{IsAnswer, push_samples, push_samples-IsHeld, since-IsHeld}
use csid.Csiscope.Ingest.{Tracker, new_counters, Hub}
use csid.Csiscope.Ingest.Session.{Sent}
use csid.Prelude.{◌≡◌, refl, none, some, List, [], ◌∷◌, arith}
use csid.Prelude.Int.{pos, negsuc}

abbrev beat : CsiRecord
beat = record {
  ftm = 1000;
  us = 1;
  unix_ts_ns = 2;
  rnf = 0;
  phy = none;
  bw_antsel = none;
  mono_us = none;
  vendor_hdr = none;
  node = default_node;
  seq = 7;
  nrx = 2;
  ntx = 1;
  ntone = 1;
  rssi = negsuc 42 ∷ negsuc 44 ∷ [];
  src_mac = 0xde ∷ 0xad ∷ 0xbe ∷ 0xef ∷ 0 ∷ 1 ∷ [];
  channel = 36;
  width = Width.unknown 9;
  iq = pos 1 ∷ negsuc 1 ∷ pos 3 ∷ negsuc 3 ∷ [];
}

beat-IsTyped : IsTyped beat
unfolding Width.to_code
beat-IsTyped = omega arith

abbrev sample : Sample
sample = record { session_uid = 5; seq = 0; ftm_ticks = 1000; recv_ns = 9; body = beat }

abbrev later_sample : Sample
later_sample = record sample { seq = 1; recv_ns = 10 }

abbrev pushed : List Sample
pushed = sample ∷ (later_sample ∷ (sample ∷ []))

abbrev full_ring : Ring
full_ring = push_samples (new_ring 2 100) pushed

push_samples-IsHeld_example : IsHeld pushed full_ring × IsFull pushed full_ring
push_samples-IsHeld_example = push_samples-IsHeld 2 100 pushed

since-IsHeld_example : IsAnswer pushed full_ring 0 1 (since full_ring 0 1)
since-IsHeld_example =
    since-IsHeld pushed full_ring 0 1 ((push_samples-IsHeld 2 100 pushed).0) (omega arith)

missed : since full_ring 0 1 ≡ (3, sample ∷ [], 2)
unfolding since push_sample evict coeff_count
missed = refl

abbrev hub : Hub
hub = record { ring = new_ring 2 100; counters = new_counters }

abbrev running : Tracker
running = record { session_uid = 5; last_seq = some 10; ftm_last = some 900; ftm_wraps = 0 }

abbrev arrivals : List Sent
arrivals =
    record { now = 1; seq = 11; body = beat } ∷ (record { now = 2; seq = 15; body = beat } ∷ [])
