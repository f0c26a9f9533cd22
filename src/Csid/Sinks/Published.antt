-- ===== src/Csid/Sinks/Published.antt =====
-- The live stream from the sink of crates/csid/src/sinks.rs to one of its receivers, the ingest of
-- crates/csiscope/src/ingest.rs. Over UDP a send to one target may fail where another succeeds, and a
-- datagram that was sent may not arrive, so that both are told for each record; what arrives does so
-- in order and once.
use csid.Csiq.Record.{CsiRecord, IsTyped, IsU64}
use csid.Csiscope.Ingest.{Tracker, Hub, accept}
use csid.Csid.Sinks.{LiveSink, publish}
use csid.Prelude.{ℕ, ◌+◌, ◌<◌, ◌≡◌, Bool, true, false, some, List, [], ◌∷◌}
use csid.Prelude.{◌==◌, if◌then◌else◌, length}

-- A record handed to the sink, whether the send to each target succeeds, whether the datagram arrives
-- at the receiver, and when.
pub record Outgoing : Type 0 where
  pub now : ℕ
  pub outcomes : List Bool
  pub arrives : Bool
  pub body : CsiRecord

abbrev pub Ends : Type 0
Ends = LiveSink × (Hub × Tracker)

abbrev deliver : Bool → ℕ → List ℕ → Hub × Tracker → Hub × Tracker
deliver true now datagram s = accept now datagram s
deliver false now datagram s = s

abbrev pub publish_next : Outgoing → Ends → Ends
publish_next o (sink, receiver) =
    let p = publish o.body o.outcomes sink in (p.0, deliver o.arrives o.now (p.1) receiver)

abbrev pub publish_all : List Outgoing → Ends → Ends
publish_all [] e = e
publish_all (o ∷ os) e = publish_all os (publish_next o e)

abbrev pub IsOutgoing : Outgoing → Type 0
IsOutgoing o = IsTyped o.body

-- The receiver knows the sink's session and has received number `prev` of it last.
abbrev pub IsInSession : ℕ → Ends → Type 0
IsInSession prev (sink, (hub, t)) =
    IsU64 sink.session_uid
    × (t.session_uid ≡ sink.session_uid)
    × (t.last_seq ≡ some prev)
    × (prev < sink.seq)

-- The sends that fail.
abbrev pub failures : List Bool → ℕ
failures [] = 0
failures (true ∷ rest) = failures rest
failures (false ∷ rest) = failures rest + 1

-- Of the records handed over, those with no failing send, those with one, and those that arrive.
abbrev pub whole : List Outgoing → ℕ
whole [] = 0
whole (o ∷ os) = (if failures o.outcomes == 0 then 1 else 0) + whole os

abbrev pub failing : List Outgoing → ℕ
failing [] = 0
failing (o ∷ os) = (if failures o.outcomes == 0 then 0 else 1) + failing os

abbrev pub arrivals : List Outgoing → ℕ
arrivals [] = 0
arrivals (o ∷ os) = (if o.arrives then 1 else 0) + arrivals os

-- From the ends `e` with `prev` received last to the ends `after` with `last`, some records later.
abbrev pub IsAccounted : List Outgoing → ℕ → ℕ → Ends → Ends → Type 0
IsAccounted os prev last (s, (hub, t)) (s', (hub', t')) =
    (s'.seq ≡ s.seq + length os)
    × (s'.live_sent ≡ s.live_sent + whole os)
    × (s'.live_dropped ≡ s.live_dropped + failing os)
    × (hub'.counters.received ≡ hub.counters.received + arrivals os)
    × (hub'.counters.sender_gaps + arrivals os + prev ≡ hub.counters.sender_gaps + last)
    × (hub'.counters.decode_errors ≡ hub.counters.decode_errors)
    × (hub'.counters.session_changes ≡ hub.counters.session_changes)

-- The sink's side of a record.
abbrev IsPublished : List Bool → LiveSink → LiveSink → Type 0
IsPublished outcomes s s' =
    (s'.seq ≡ s.seq + 1)
    × (s'.session_uid ≡ s.session_uid)
    × (s'.live_sent ≡ s.live_sent + (if failures outcomes == 0 then 1 else 0))
    × (s'.live_dropped ≡ s.live_dropped + (if failures outcomes == 0 then 0 else 1))

-- The receiver's side of a record.
abbrev IsDelivered : ℕ → Bool → ℕ → ℕ → Hub → Hub × Tracker → Type 0
IsDelivered uid arrives prev last hub after =
    (after.1.session_uid ≡ uid)
    × (after.1.last_seq ≡ some last)
    × (after.0.counters.received ≡ hub.counters.received + (if arrives then 1 else 0))
    × (after.0.counters.sender_gaps + (if arrives then 1 else 0) + prev
        ≡ hub.counters.sender_gaps + last)
    × (after.0.counters.decode_errors ≡ hub.counters.decode_errors)
    × (after.0.counters.session_changes ≡ hub.counters.session_changes)
