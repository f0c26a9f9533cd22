-- ===== src/Collector/Session.antt =====
-- crates/collector/src/session.rs: the counters of a session. Floating-point numbers are a
-- parameter. A write to the buffered file may fail; whether it does is an argument. The release
-- build wraps on overflow.
pub mod Counters
pub mod Loss
use csid.Prelude.{
  ℕ, zero, suc, ◌+◌, ◌-◌, ◌*◌, ◌/◌, ◌%◌, ◌^◌, ◌≤◌, ◌<◌, min, max, ◌≡◌, refl, sym, ap, ◌∙◌, ◌≢◌, ◌↔◌,
  ◌⊎◌, inl, inr, Bool, true, false, not, ◌&&◌, ◌||◌, Option, none, some, List, [], ◌∷◌, ◌++◌, map,
  append-nil, append_assoc, arith,
}
use csid.Prelude.{
  ltb, leb, ◌==◌, if◌then◌else◌, ltb→lt, lt→ltb, le→ltb, le→leb, lt→leb, leb→le, ==_iff, ==_refl,
  Bool-cases, Option-cases, length, get_elem?, get_or, range_map, length-range_map,
  get_elem?-range_map, get_elem?-append_right, get_elem?-append_left, take, drop, replicate, All,
  length-append, length-take, length-drop, length-replicate, take-append-drop, take-append,
  drop-append, All-append, eq_bytes, eq_bytes_refl, eq_bytes→eq,
}
use csid.Prelude.Bytes.{
  IsByte, le_bytes, of_le_bytes, be_bytes, of_be_bytes, length-le_bytes, length-be_bytes,
  le_bytes-IsByte, of_le_bytes-le_bytes, of_be_bytes-be_bytes, of_le_bytes-lt, le_bytes-of_le_bytes,
  get_or-IsByte,
}
use csid.Prelude.Int.{
  ℤ, pos, negsuc, pos_part, neg_part, sub_ℕ, IsSigned, to_pattern, of_pattern, to_pattern-lt,
  of_pattern-to_pattern, of_pattern-IsSigned,
}

-- f64, as far as the counters use it.
pub record Float64 : Type 1 where
  pub Value : Type 0
  pub of_u64 : ℕ → Value
  pub to_u64 : Value → ℕ
  pub add : Value → Value → Value
  pub mul : Value → Value → Value
  pub to_u64-of_u64 : (n : ℕ) → n ≤ 2 ^ 53 → to_u64 (of_u64 n) ≡ n

-- A row of arrivals.tsv, and of exchanges.tsv.
pub record Arrival : Type 0 where
  pub arrival_unix_ns : ℕ
  pub arrival_sequence : ℕ
  pub phone_mono_ns : ℕ
  pub phone_wall_ms : ℕ
  pub arrival_bytes : ℕ
  pub kernel_stamped : Bool

pub record Exchange : Type 0 where
  pub t1_phone_mono_ns : ℕ
  pub t2_unix_ns : ℕ
  pub t3_unix_ns : ℕ
  pub exchange_sequence : ℕ

abbrev pub wrapping_sub : ℕ → ℕ → ℕ
wrapping_sub a b = (a + (2 ^ 64 - b)) % 2 ^ 64

-- What `record_data` does to `highest_seq`, and whether it counts a duplicate.
unfoldable pub highest : Option ℕ → ℕ → Option ℕ
highest none sequence = some sequence
highest (some h) sequence = if ltb h sequence then some sequence else some h

unfoldable pub is_duplicate : Option ℕ → ℕ → Bool
is_duplicate none sequence = false
is_duplicate (some h) sequence = not (ltb h sequence)

-- `highest_seq.map(|h| h as u64 + 1).unwrap_or(0)`.
unfoldable pub expected : Option ℕ → ℕ
expected none = 0
expected (some h) = h + 1

module _ (f64 : Float64) where
  open f64 use {Value, of_u64, to_u64, add, mul}

  -- The fields that packets and exchanges change.
  pub record Session : Type 0 where
    pub arrivals : List Arrival
    pub exchanges : List Exchange
    pub first_ns : ℕ
    pub last_ns : ℕ
    pub packets : ℕ
    pub bytes : ℕ
    pub exchange_count : ℕ
    pub highest_seq : Option ℕ
    pub seen_seq : ℕ
    pub duplicates : ℕ
    pub last_arrival_ns : ℕ
    pub interval_count : ℕ
    pub interval_sum : Value
    pub interval_sum_sq : Value
    pub max_gap_ns : ℕ

  abbrev pub create : Session
  create = record {
    arrivals = [];
    exchanges = [];
    first_ns = 0;
    last_ns = 0;
    packets = 0;
    bytes = 0;
    exchange_count = 0;
    highest_seq = none;
    seen_seq = 0;
    duplicates = 0;
    last_arrival_ns = 0;
    interval_count = 0;
    interval_sum = of_u64 0;
    interval_sum_sq = of_u64 0;
    max_gap_ns = 0;
  }

  -- The counters of a packet.
  unfoldable pub count_packet : ℕ → ℕ → ℕ → Session → Session
  unfolding highest is_duplicate
  count_packet arrival_ns sequence size s = record s {
    first_ns = if s.first_ns == 0 then arrival_ns else s.first_ns;
    last_ns = arrival_ns;
    packets = (s.packets + 1) % 2 ^ 64;
    bytes = (s.bytes + size) % 2 ^ 64;
    highest_seq = highest s.highest_seq sequence;
    duplicates =
        if is_duplicate s.highest_seq sequence then (s.duplicates + 1) % 2 ^ 64 else s.duplicates;
    seen_seq = (s.seen_seq + 1) % 2 ^ 64;
  }

  -- The statistics of the gap since the last arrival.
  unfoldable pub count_gap : ℕ → Session → Session
  count_gap arrival_ns s =
      if s.last_arrival_ns == 0
      then s
      else let gap = of_u64 (wrapping_sub arrival_ns s.last_arrival_ns) in
        record s {
          interval_count = (s.interval_count + 1) % 2 ^ 64;
          interval_sum = add s.interval_sum gap;
          interval_sum_sq = add s.interval_sum_sq (mul gap gap);
          max_gap_ns = if ltb s.max_gap_ns (to_u64 gap) then to_u64 gap else s.max_gap_ns;
        }

  -- `written` says whether the row went to the buffer; without it nothing is counted.
  unfoldable pub record_data : (written : Bool) → Arrival → Session → Option Session
  unfolding count_packet count_gap
  record_data written row s =
      if written
      then (let logged : Session = record s { arrivals = s.arrivals ++ (row ∷ []) } in
          let counted =
            count_gap row.arrival_unix_ns
              (count_packet row.arrival_unix_ns row.arrival_sequence row.arrival_bytes logged) in
          some (record counted { last_arrival_ns = row.arrival_unix_ns }))
      else none

  unfoldable pub record_exchange : (written : Bool) → Exchange → Session → Option Session
  record_exchange written row s =
      if written
      then some (record s {
        exchanges = s.exchanges ++ (row ∷ []);
        exchange_count = (s.exchange_count + 1) % 2 ^ 64;
      })
      else none

  unfoldable pub idle_for : ℕ → Session → ℕ
  idle_for now_ns s = now_ns - max s.last_ns s.first_ns

  -- `summary().lost`; the inner difference wraps, the outer one saturates.
  unfoldable pub lost : Session → ℕ
  lost s = expected s.highest_seq - wrapping_sub s.seen_seq s.duplicates

  abbrev pub and_then : Option Session → (Session → Option Session) → Option Session
  and_then none next = none
  and_then (some s) next = next s

  -- Datagrams that were all written, one after the other.
  unfoldable pub record_all : List Arrival → Session → Option Session
  record_all [] s = some s
  record_all (row ∷ rows) s = and_then (record_data true row s) (record_all rows)
