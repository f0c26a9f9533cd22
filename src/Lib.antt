-- ===== src/Lib.antt =====
-- csid captures channel state information (CSI) from a Wi-Fi card, writes it in the CSIQ format,
-- and runs beside it the tools of a measurement campaign: an injector of paced frames, a
-- recogniser of transmit stamps in received frames, and a collector that answers and counts the
-- datagrams of a phone. This library models the parts of the program that decide what bytes mean.
--
-- The parts and their files:
--
-- * Csiq, the crate crates/csiq. Csiq/Record, Csiq/Width, Csiq/Bandwidth and Csiq/Modulation are
--   record.rs: the record, its wire codes and the matrix accessors. Csiq/Tlv is tlv.rs:
--   encode_payload in Tlv/Encode, decode_payload in Tlv/Decode, the fields that a payload is
--   framed in (Tlv/Frames) as the view that the codec is compared with. Csiq/Stream is what the
--   readers and writers use of std::io, Csiq/Container is container.rs on it: new_writer and
--   write_record, new_reader and next_record, each as explicit state passing. Csiq/Live is live.rs,
--   the datagram of one record. Csiq/Raw and Csiq/RateFlags are raw.rs: the vendor header of fixed
--   offsets, the rate word, and the length-prefixed stream. Csiq/Unwrap is FtmUnwrapper of lib.rs.
-- * Csid, of the crate crates/csid. Csid/Timesync/Payload is timesync/payload.rs, one function per
--   layer that recognise walks through: radiotap, 802.11, LLC/SNAP, IPv4, UDP, MNDP.
--   Csid/Timesync/Address has the MAC address texts of that file. Csid/Inject is build_frame of
--   inject.rs and what it calls, and Csid/Inject/Pacing the loop that sends frames on a grid of
--   deadlines. Csid/Caps is caps.rs: channels, frequencies, the centre of a wide capture and
--   validate_radio. Csid/Census is census.rs: classify, and the counters of a minute and of a
--   session, whose HashMaps are association lists (Prelude/Dict). Csid/Ble is ble.rs: the kinds of
--   addresses, the walk over the AD structures with the two functions on it (Ble/Adverts), and the
--   HCI packets (Ble/Hci). Csid/Util is the civil dates and the two time texts of util.rs.
--   Csid/Airtime is the radiotap walk of airtime.rs: its fields (Airtime/Fields) and presence words
--   (Airtime/Parse). Csid/Source is source.rs: the attributes and messages of netlink, the request
--   that registers the socket, and recv, on the list of what the socket gives. Csid/Sinks is
--   sinks.rs: write, rotate and finish of DurableSink, and publish of LiveSink. Csid/Timesync/Pairing
--   is the part of timesync/mod.rs that attributes ticks to rows, TickIndex and pair_ftm, and
--   Csid/Timesync/Receiver the loop of timesync/rx.rs with the counters of mod.rs.
--   Csid/Timesync/Skew is the integer part of timesync/skew.rs, seq_index and common_differences.
--   Csid/Fleet/Clock is fleet/clock.rs: an exchange, estimate, fleet_skew and within_budget.
-- * Collector, of the crate crates/collector. Collector/Proto is proto.rs, the same datagrams as
--   their receiver reads and answers them. Collector/Session is the counting part of session.rs,
--   and Collector/Table its SessionTable: get_or_create, and expire with its loop.
-- * Csiscope, of the crate crates/csiscope. Csiscope/Ring is the bounded buffer of state.rs with
--   its eviction and its readers, and Csiscope/Ingest is ingest.rs: one datagram into the tracker, the counters and
--   the ring. Csiscope/Class is class.rs: the class of a record, its text, and the census of a
--   window with its dominant class.
-- * Prelude has the Boolean tests, lists over the native numbers, integers by their bit patterns,
--   byte orders, texts, and dictionaries.
--
-- The parts meet in bytes: a raw record is exported by encode_payload, a container and a live
-- datagram carry payloads of encode_payload, recognise reads the frames that build_frame makes and
-- the datagrams that the collector reads as a UDP peer, and the airtime parser the headers of the
-- injector's frames. The ingest of csiscope reads the datagrams that Csiq/Live encodes, which the
-- live sink publishes (Csid/Sinks/Published); the raw reader reads the files that the durable sink
-- writes (Csid/Sinks/Durable); the time-transfer log has a row of each frame of a peer's injector
-- (Csid/Timesync/Receiver/Beats).
--
-- Conventions. Numbers are natural numbers, with the wrap of a machine word written out; a record
-- predicate (IsTyped in Csiq/Record) says which values a Rust type has. i16 and i32 are integers
-- read from and written to their two's complement pattern. Text is the list of its bytes. An error
-- is a value; a run out of fuel is `stuck`, apart from every error. The loop of decode_payload gets
-- the payload's length as fuel, since a round takes five bytes at least, and the iterator of the
-- container a number above that of the records, since each takes five bytes of the file at least. The
-- walks of Csid/Source get the number of bytes, since an attribute takes four and a message sixteen.
--
-- Parameters. serde_json is a printer and a parser of session blocks, of which nothing is
-- assumed (Csiq/Container); f64 is a type with conversions and arithmetic (Collector/Session).
-- Whether a write of the collector to its buffered file succeeds is an argument. The paced loop
-- of the injector gets the time and the outcome of a send in each of its rounds as a list, and
-- the ingest of csiscope the time of each arrival. So are what a flush, a sync, a send and a
-- read answer in Csid/Sinks, Csid/Timesync/Receiver and Csid/Source, and which datagrams of the
-- live sink arrive in Csid/Sinks/Published; and the bound that a node's time daemon gives in
-- floating-point seconds, in Csid/Fleet/Clock.
--
-- Not modelled: system calls on sockets, threads, files and child processes; floating-point
-- arithmetic (the affine fit and the skew's errors, the signal processing of csiscope); text for
-- people; JSON and TOML; the Python bindings. Of the collector, the sidecar and main's loop. Of the
-- census the log and its sorted rows, of ble.rs the pseudonyms, the statistics, the log and the
-- parquet export, of airtime.rs the durations, which are floating-point, of class.rs the reading of
-- a class from its text and the ranked list, of fleet/clock.rs the texts and the parsers of what the
-- time daemons print. The locks of csiscope's state.rs are not modelled either: its operations are
-- steps in the order in which they take the lock.

pub mod Prelude
pub mod Csiq
pub mod Csid
pub mod Collector
pub mod Csiscope
