-- ===== src/Csid/Sinks.antt =====
-- crates/csid/src/sinks.rs: the two sinks of a session. A file is a sink of bytes (Csiq/Stream); what
-- a flush, a sync, the creation of a file and a send answer is an argument.
pub mod Durable
pub mod Published
mod Examples
use csid.Csiq.Error.{Result, ok, err, ◌>>=◌, ◌>>◌}
use csid.Csiq.Record.{CsiRecord}
use csid.Csiq.Live.{encode}
use csid.Csiq.Stream.{Sink, write_all}
use csid.Prelude.{
  ℕ, zero, suc, ◌+◌, ◌-◌, ◌*◌, ◌/◌, ◌%◌, ◌^◌, ◌≤◌, ◌<◌, min, max, ◌≡◌, refl, sym, ap, ◌∙◌, ◌≢◌, ◌↔◌,
  ◌⊎◌, inl, inr, Bool, true, false, not, ◌&&◌, ◌||◌, Option, none, some, List, [], ◌∷◌, ◌++◌, map,
  append-nil, append_assoc, arith,
}
use csid.Prelude.{
  ltb, leb, ◌==◌, if◌then◌else◌, ltb→lt, lt→ltb, le→ltb, le→leb, lt→leb, leb→le, ==_iff, ==_refl,
  Bool-cases, Option-cases, length, get_elem?, get_or, range_map, length-range_map,
  get_elem?-range_map, get_elem?-append_right, get_elem?-append_left, take, drop, replicate, All,
  length-append, length-take, length-drop, length-replicate, take-append-drop, take-append,
  drop-append, All-append, eq_bytes, eq_bytes_refl, eq_bytes→eq,
}
use csid.Prelude.Bytes.{
  IsByte, le_bytes, of_le_bytes, be_bytes, of_be_bytes, length-le_bytes, length-be_bytes,
  le_bytes-IsByte, of_le_bytes-le_bytes, of_be_bytes-be_bytes, of_le_bytes-lt, le_bytes-of_le_bytes,
  get_or-IsByte,
}
use csid.Prelude.Int.{
  ℤ, pos, negsuc, pos_part, neg_part, sub_ℕ, IsSigned, to_pattern, of_pattern, to_pattern-lt,
  of_pattern-to_pattern, of_pattern-IsSigned,
}

pub record RawCsiMessage : Type 0 where
  pub hdr : List ℕ
  pub csi : List ℕ
  pub unix_ts_ns : ℕ

abbrev all_zero : List ℕ → Bool
all_zero [] = true
all_zero (b ∷ bs) = (b == 0) && all_zero bs

abbrev is_nil : List ℕ → Bool
is_nil [] = true
is_nil (b ∷ bs) = false

unfoldable pub payload_is_empty : List ℕ → Bool
payload_is_empty csi = is_nil csi || all_zero csi

-- The stream to the current file, and the counter of bytes.
pub record DurableSink : Type 0 where
  pub out : Sink
  pub bytes : ℕ

unfoldable pub write : RawCsiMessage → DurableSink → Result DurableSink
write msg s = do
  let msg_len = (4 + length msg.hdr + 4 + length msg.csi) % 2 ^ 32
  out1 ← write_all (be_bytes 4 msg_len) s.out
  out2 ← write_all (be_bytes 4 (length msg.hdr % 2 ^ 32)) out1
  out3 ← write_all msg.hdr out2
  out4 ← write_all (be_bytes 4 (length msg.csi % 2 ^ 32)) out3
  out5 ← write_all msg.csi out4
  ok (record { out = out5; bytes = (s.bytes + (4 + msg_len)) % 2 ^ 64 })

-- What was sealed, and the sink on the new file.
unfoldable pub rotate :
    Result (Unit {0})
    → Result (Unit {0})
    → Result Sink
    → DurableSink
    → Result (List ℕ × DurableSink)
rotate flushed synced created s = do
  flushed
  synced
  next ← created
  ok (s.out.written, record s { out = next })

unfoldable pub finish : Result (Unit {0}) → Result (Unit {0}) → DurableSink → Result (List ℕ)
finish flushed synced s = do flushed; synced; ok (s.out.written)

pub record LiveSink : Type 0 where
  pub session_uid : ℕ
  pub seq : ℕ
  pub live_sent : ℕ
  pub live_dropped : ℕ
  pub warned : Bool

-- `last`, after a send to each target: a Unix socket has one.
abbrev pub all_sent : List Bool → Bool
all_sent [] = true
all_sent (sent ∷ rest) = sent && all_sent rest

-- The sink and the datagram that was sent.
unfoldable pub publish : CsiRecord → List Bool → LiveSink → LiveSink × List ℕ
publish r outcomes s =
    let next = record s { seq = (s.seq + 1) % 2 ^ 32 } in
    (
      if all_sent outcomes
          then record next { live_sent = (s.live_sent + 1) % 2 ^ 64; warned = false }
          else record next { live_dropped = (s.live_dropped + 1) % 2 ^ 64; warned = true },
      encode s.session_uid s.seq r,
    )
