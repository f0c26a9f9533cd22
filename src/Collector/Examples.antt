-- ===== src/Collector/Examples.antt =====
-- Datagrams on which the lemmas of the collector's modules are applied.
use csid.Csid.Timesync.Payload.{mndp_stamp}
use csid.Collector.Proto.{packet, magic, parsed, decode}
use csid.Collector.Proto.Reply.{app_stamp, mndp_stamp-decode}
use csid.Prelude.{ℕ, ◌+◌, ◌*◌, ◌≡◌, refl, ◌≢◌, true, none, some, List, [], ◌∷◌, ◌++◌, arith}
use csid.Prelude.{replicate}
use csid.Prelude.Bytes.{be_bytes, of_be_bytes}
use csid.Collector.Session.{
  Float64, Arrival, Session, create, expected, highest, is_duplicate, count_packet, count_gap,
  record_data, record_all, lost,
}
use csid.Collector.Session.Counters.{IsCounted}
use csid.Collector.Session.Loss.{lost-IsCounted, lost-late}

abbrev phone : List ℕ
phone = replicate 16 0xcd

-- A datagram with one byte of payload.
abbrev datagram : List ℕ
datagram =
    magic
    ++ (1
        ∷ 1
        ∷ 0
        ∷ 0
        ∷ (phone
            ++ (be_bytes 4 7 ++ (be_bytes 8 123 ++ (be_bytes 8 456 ++ (0 ∷ 1 ∷ 0 ∷ 0 ∷ 9 ∷ []))))))

accepted : decode datagram ≡ packet (parsed datagram)
unfolding decode parsed be_bytes of_be_bytes
accepted = refl

is_data : (parsed datagram).kind ≢ 3
unfolding parsed
is_data = omega arith

mndp_stamp-decode_example :
    mndp_stamp datagram (replicate 6 0xaa) ≡ some (app_stamp (replicate 6 0xaa) (parsed datagram))
mndp_stamp-decode_example =
    mndp_stamp-decode datagram (replicate 6 0xaa) (parsed datagram) accepted is_data

-- Natural numbers in place of floating-point numbers.
abbrev exact : Float64
exact = record {
  Value = ℕ;
  of_u64 = λ n. n;
  to_u64 = λ n. n;
  add = λ a b. a + b;
  mul = λ a b. a * b;
  to_u64-of_u64 = λ n _. refl;
}

abbrev row : ℕ → ℕ → Arrival
row time sequence = record {
  arrival_unix_ns = time;
  arrival_sequence = sequence;
  phone_mono_ns = 0;
  phone_wall_ms = 0;
  arrival_bytes = 48;
  kernel_stamped = true;
}

-- Numbers 0, 1 and 4 arrive; then 3 arrives late.
abbrev in_order : List Arrival
in_order = row 1000 0 ∷ row 6000 1 ∷ row 21000 4 ∷ []

abbrev after : List Arrival → Session exact
after rows = elim (record_all exact rows (create exact)) [ none ↦ create exact | some s ↦ s ]

abbrev late : Arrival
late = row 30000 3

counted : IsCounted exact (after in_order)
unfolding record_all record_data count_packet count_gap highest is_duplicate expected
counted = record {
  logged = refl;
  seen = refl;
  small = omega arith;
  repeated = omega arith;
  fresh = omega arith;
}

lost-IsCounted_example :
    lost exact (after in_order) + (after in_order).packets
    ≡ expected (after in_order).highest_seq + (after in_order).duplicates
lost-IsCounted_example = lost-IsCounted exact (after in_order) counted

lost-late_example :
    (lost exact (after (in_order ++ (late ∷ []))) ≡ lost exact (after in_order))
    × ((after (in_order ++ (late ∷ []))).duplicates ≡ (after in_order).duplicates + 1)
unfolding record_all record_data count_packet count_gap highest is_duplicate expected
lost-late_example =
    lost-late exact late (after in_order) (after (in_order ++ (late ∷ []))) counted (omega arith)
      (omega arith) refl
