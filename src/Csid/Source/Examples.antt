-- ===== src/Csid/Source/Examples.antt =====
-- A datagram with two events behind a message of another family.
use csid.Csid.Source.{DriverConfig, timed_out, datagram, message, recv}
use csid.Csid.Source.Events.{vendor_event, Foreign, foreign_bytes, recv-vendor_event}
use csid.Prelude.{ℕ, ◌≡◌, refl, List, [], ◌∷◌, ◌++◌, arith}

abbrev iax : DriverConfig
iax = record {
  vendor_oui = 0x001735;
  csi_event_subcmd = 0x24;
  attr_csi_hdr = 0x4d;
  attr_csi_data = 0x4e;
}

abbrev scan : Foreign
scan = record { ty = 20; flags = 0; seq = 0; cmd = 33; payload = 1 ∷ 2 ∷ 3 ∷ 4 ∷ []; words = 1 }

abbrev event : List ℕ → List ℕ
event csi = vendor_event iax 28 0 3 (7 ∷ 7 ∷ 7 ∷ []) csi

recv-vendor_event_example :
    recv iax 28 (
      datagram 99 (foreign_bytes (scan ∷ []) (event (1 ∷ 2 ∷ []) ++ event (3 ∷ 4 ∷ [])))
      ∷ timed_out
      ∷ [])
    ≡ (message (record { hdr = 7 ∷ 7 ∷ 7 ∷ []; csi = 1 ∷ 2 ∷ []; unix_ts_ns = 99 }), timed_out ∷ [])
recv-vendor_event_example =
    recv-vendor_event iax 28 0 3 99 (7 ∷ 7 ∷ 7 ∷ []) (1 ∷ 2 ∷ []) (event (3 ∷ 4 ∷ [])) (scan ∷ [])
      (timed_out ∷ []) (omega arith, omega arith, omega arith, omega arith, omega arith)
      (omega arith) (omega arith) ((omega arith, omega arith, omega arith, refl), tt)
