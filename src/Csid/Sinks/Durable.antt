-- ===== src/Csid/Sinks/Durable.antt =====
-- The durable stream of crates/csid/src/sinks.rs, read back by crates/csiq/src/raw.rs.
use csid.Csiq.Error.{unexpected_eof, Result, ok, stuck, ◌>>=◌, >>=_assoc}
use csid.Csiq.Width.{Width}
use csid.Csiq.Record.{CsiRecord, IsU32}
use csid.Csiq.Stream.{write_all}
use csid.Csiq.Raw.{RawReader, parse_record_opts, next_record}
use csid.Csiq.Raw.Framing.{
  message, message_body, length-message_body, next_record-message, next_record-tail,
}
use mathlib.Core.Path.{ap₂}
use csid.Csid.Sinks.{RawCsiMessage, DurableSink, write}
use csid.Prelude.{
  ℕ, zero, suc, ◌+◌, ◌%◌, ◌^◌, ◌<◌, ◌≡◌, refl, sym, ap, ◌∙◌, Bool, Option, none, some, List, [],
  ◌∷◌, ◌++◌, append-nil, append_assoc, arith,
}
use csid.Prelude.{length, All, length-append}
use csid.Prelude.Bytes.{be_bytes, length-be_bytes}

-- A message whose length fits its word.
abbrev pub IsShort : RawCsiMessage → Type 0
IsShort msg = IsU32 (8 + length msg.hdr + length msg.csi)

abbrev pub write_messages : List RawCsiMessage → DurableSink → Result DurableSink
write_messages [] s = ok s
write_messages (msg ∷ msgs) s = do next ← write msg s; write_messages msgs next

abbrev pub messages : List RawCsiMessage → List ℕ
messages [] = []
messages (msg ∷ msgs) = message msg.hdr msg.csi ++ messages msgs

-- A file that takes all that is written to it.
abbrev pub open_file : List ℕ → ℕ → DurableSink
open_file w n = record { out = record { written = w; room = none }; bytes = n }

append_five :
    (w a b c d e : List ℕ)
    → (((((w ++ a) ++ b) ++ c) ++ d) ++ e) ≡ w ++ (a ++ (b ++ (c ++ (d ++ e))))
append_five w a b c d e = simp (append_assoc)

length-message : (hdr csi : List ℕ) → length (message hdr csi) ≡ 4 + length (message_body hdr csi)
unfolding message
length-message hdr csi =
    length-append (be_bytes 4 (length (message_body hdr csi))) (message_body hdr csi)
    ∙ ap (λ k. k + length (message_body hdr csi))
        (length-be_bytes 4 (length (message_body hdr csi)))

-- A file that takes all is left with the message behind what it held, and its length is counted.
write-message :
    (msg : RawCsiMessage) (w : List ℕ) (n : ℕ)
    → IsShort msg
    → n + length (message msg.hdr msg.csi) < 2 ^ 64
    → write msg (open_file w n)
      ≡ ok (open_file (w ++ message msg.hdr msg.csi) (n + length (message msg.hdr msg.csi)))
unfolding write write_all message message_body
write-message msg w n h room =
    let long = length-message_body msg.hdr msg.csi in
    let total : (4 + length msg.hdr + 4 + length msg.csi) % 2 ^ 32
        ≡ length (message_body msg.hdr msg.csi) =
      omega (arith, long) in
    let count : (n + (4 + length (message_body msg.hdr msg.csi))) % 2 ^ 64
        ≡ n + (4 + length (message_body msg.hdr msg.csi)) =
      omega (arith, length-message msg.hdr msg.csi) in
    let hdr_len : length msg.hdr % 2 ^ 32 ≡ length msg.hdr = omega arith in
    let csi_len : length msg.csi % 2 ^ 32 ≡ length msg.csi = omega arith in
    rw (length-message msg.hdr msg.csi) (
      rw (total, hdr_len, csi_len, count)
        (ap (λ b. ok (open_file b (n + (4 + length (message_body msg.hdr msg.csi)))))
          (append_five w (be_bytes 4 (length (message_body msg.hdr msg.csi)))
            (be_bytes 4 (length msg.hdr)) msg.hdr (be_bytes 4 (length msg.csi)) msg.csi)))

-- Whatever is written to a file that takes all, the file holds the messages in order, and their
-- bytes are counted.
write_messages-open_file :
    (msgs : List RawCsiMessage) (w : List ℕ) (n : ℕ)
    → All IsShort msgs
    → n + length (messages msgs) < 2 ^ 64
    → write_messages msgs (open_file w n)
      ≡ ok (open_file (w ++ messages msgs) (n + length (messages msgs)))
write_messages-open_file [] w n h room =
    ap₂ (λ b k. ok (open_file b k)) (sym (append-nil w)) (omega arith)
write_messages-open_file (msg ∷ msgs) w n (h, hs) room =
    let m = message msg.hdr msg.csi in
    let both = length-append m (messages msgs) in
    rw (write-message msg w n h (omega (arith, both))) (
      rw (write_messages-open_file msgs (w ++ m) (n + length m) hs (omega (arith, both)))
        (ap₂ (λ b k. ok (open_file b k)) (append_assoc w m (messages msgs)) (omega (arith, both))))

-- The caller's loop: `next_record` until there is none, at most `fuel` times.
abbrev collect : Option CsiRecord → Result (List CsiRecord) → Result (List CsiRecord)
collect none rest = ok []
collect (some r) rest = do rs ← rest; ok (r ∷ rs)

abbrev pub read_all : ℕ → RawReader → Result (List CsiRecord)
read_all zero rd = stuck
read_all (suc fuel) rd = do (r, next) ← next_record rd; collect r (read_all fuel next)

-- What the parser makes of the messages themselves, up to the first it refuses.
abbrev pub parse_all : Width → Bool → List RawCsiMessage → Result (List CsiRecord)
parse_all width keep [] = ok []
parse_all width keep (msg ∷ msgs) = do
  r ← parse_record_opts msg.hdr msg.csi width keep
  rs ← parse_all width keep msgs
  ok (r ∷ rs)

abbrev pub reader_of : Width → Bool → List ℕ → RawReader
reader_of width keep bytes = record {
  inner = record { bytes = bytes; ending = unexpected_eof };
  width = width;
  keep_vendor_hdr = keep;
}

read_all-messages :
    (width : Width) (keep : Bool) (msgs : List RawCsiMessage)
    → All IsShort msgs
    → read_all (suc (length msgs)) (reader_of width keep (messages msgs))
      ≡ parse_all width keep msgs
read_all-messages width keep [] h =
    rw (next_record-tail (reader_of width keep []) refl (omega arith))
read_all-messages width keep (msg ∷ msgs) (h, hs) =
    rw
      (next_record-message (reader_of width keep (messages (msg ∷ msgs))) msg.hdr msg.csi
        (messages msgs) h refl)
      (>>=_assoc (parse_record_opts msg.hdr msg.csi width keep) _ _
        ∙ ap (λ t. parse_record_opts msg.hdr msg.csi width keep >>= λ r. collect (some r) t)
            (read_all-messages width keep msgs hs))

-- A capture file that took all of the messages handed to the durable sink holds, byte for byte, their
-- frames one after the other and nothing else, with their bytes counted, and the raw reader's loop makes of the file what the parser makes of
-- the messages, in order, the first error included. Each message's length fits a word of 32 bits, the
-- file's one of 64.
pub read_all-write_messages :
    (width : Width) (keep : Bool) (msgs : List RawCsiMessage)
    → All IsShort msgs
    → length (messages msgs) < 2 ^ 64
    → (s : DurableSink) × (write_messages msgs (open_file [] 0) ≡ ok s)
      × (s.out.written ≡ messages msgs)
      × (s.bytes ≡ length (messages msgs))
      × (read_all (suc (length msgs)) (reader_of width keep s.out.written)
          ≡ parse_all width keep msgs)
read_all-write_messages width keep msgs h room = (
  open_file (messages msgs) (length (messages msgs)),
  write_messages-open_file msgs [] 0 h (omega arith)
      ∙ ap (λ k. ok (open_file (messages msgs) k)) (omega arith),
  refl,
  refl,
  read_all-messages width keep msgs h,
)
