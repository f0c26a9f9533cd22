-- ===== src/Csid/Timesync/Pairing.antt =====
-- crates/csid/src/timesync/mod.rs: the rows of a time-transfer log, and the ticks that a session's
-- close attributes to them. A HashMap is the list of its entries; a stamp of nanoseconds is below
-- 2^63 until 2262.
pub mod Order
pub mod Index
pub mod Nearest
pub mod Agreement
use csid.Prelude.Dict.{find, upsert}
use csid.Csid.Census.Keys.{mac_key}
use csid.Csid.Timesync.Address
use csid.Csid.Timesync.Payload.{TxKind, TxClock, Stamp}
use csid.Prelude.{
  ℕ, zero, suc, ◌+◌, ◌-◌, ◌*◌, ◌/◌, ◌%◌, ◌^◌, ◌≤◌, ◌<◌, min, max, ◌≡◌, refl, sym, ap, ◌∙◌, ◌≢◌, ◌↔◌,
  ◌⊎◌, inl, inr, Bool, true, false, not, ◌&&◌, ◌||◌, Option, none, some, List, [], ◌∷◌, ◌++◌, map,
  append-nil, append_assoc, arith,
}
use csid.Prelude.{
  ltb, leb, ◌==◌, if◌then◌else◌, ltb→lt, lt→ltb, le→ltb, le→leb, lt→leb, leb→le, ==_iff, ==_refl,
  Bool-cases, Option-cases, length, get_elem?, get_or, range_map, length-range_map,
  get_elem?-range_map, get_elem?-append_right, get_elem?-append_left, take, drop, replicate, All,
  length-append, length-take, length-drop, length-replicate, take-append-drop, take-append,
  drop-append, All-append, eq_bytes, eq_bytes_refl, eq_bytes→eq,
}
use csid.Prelude.Bytes.{
  IsByte, le_bytes, of_le_bytes, be_bytes, of_be_bytes, length-le_bytes, length-be_bytes,
  le_bytes-IsByte, of_le_bytes-le_bytes, of_be_bytes-be_bytes, of_le_bytes-lt, le_bytes-of_le_bytes,
  get_or-IsByte,
}
use csid.Prelude.Int.{
  ℤ, pos, negsuc, pos_part, neg_part, sub_ℕ, IsSigned, to_pattern, of_pattern, to_pattern-lt,
  of_pattern-to_pattern, of_pattern-IsSigned,
}

pub data StampSource : Type 0 where
  kernel : StampSource
  userspace : StampSource

pub record Row : Type 0 where
  pub unix_ts_ns : ℕ
  pub rx_stamp_src : StampSource
  pub tx_kind : TxKind
  pub tx_id : List ℕ
  pub tx_mac : List ℕ
  pub seq : ℕ
  pub tx_stamp_ns : ℕ
  pub tx_clock : TxClock
  pub tx_wall_ns : Option ℕ
  pub ftm : Option ℕ
  pub ftm_lag_ns : Option ℤ

unfoldable pub from_stamp : Stamp → ℕ → StampSource → Row
from_stamp s unix_ts_ns rx_stamp_src = record {
  unix_ts_ns = unix_ts_ns;
  rx_stamp_src = rx_stamp_src;
  tx_kind = s.kind;
  tx_id = s.tx_id;
  tx_mac = Address.mac_string s.tx_mac;
  seq = s.seq;
  tx_stamp_ns = s.tx_stamp_ns;
  tx_clock = s.tx_clock;
  tx_wall_ns = s.tx_wall_ns;
  ftm = none;
  ftm_lag_ns = none;
}

pub record CsiTick : Type 0 where
  pub unix_ts_ns : ℕ
  pub ftm : ℕ
  pub src_mac : List ℕ

-- The parallel vectors of a transmitter: times and ticks.
abbrev pub Ticks : Type 0
Ticks = List ℕ × List ℕ

pub record TickIndex : Type 0 where
  pub by_mac : List (List ℕ × Ticks)
  pub len : ℕ
  pub cap : ℕ
  pub overflowed : Bool

abbrev pub new_index : ℕ → TickIndex
new_index cap = record { by_mac = []; len = 0; cap = cap; overflowed = false }

abbrev pub append_tick : ℕ → ℕ → Ticks → Ticks
append_tick unix_ts_ns ftm (ts, ftms) = (ts ++ (unix_ts_ns ∷ []), ftms ++ (ftm ∷ []))

unfoldable pub push_tick : CsiTick → TickIndex → TickIndex
push_tick t index =
    if leb index.cap index.len then record index { overflowed = true } else record index {
      by_mac = upsert mac_key t.src_mac ([], []) (append_tick t.unix_ts_ns t.ftm) index.by_mac;
      len = index.len + 1;
    }

-- `ts.windows(2).all(|w| w[0] <= w[1])`.
abbrev pub ascends_from : ℕ → List ℕ → Bool
ascends_from t [] = true
ascends_from t (u ∷ us) = leb t u && ascends_from u us

abbrev pub ascends : List ℕ → Bool
ascends [] = true
ascends (t ∷ ts) = ascends_from t ts

-- `sort_unstable_by_key` on the positions; the theorems hold of any order of equal keys.
unfoldable pub insert_by_key : (ℕ → ℕ) → ℕ → List ℕ → List ℕ
insert_by_key key i [] = i ∷ []
insert_by_key key i (j ∷ js) =
    let later = insert_by_key key i js in if leb (key i) (key j) then i ∷ j ∷ js else j ∷ later

unfoldable pub sort_by_key : (ℕ → ℕ) → List ℕ → List ℕ
unfolding insert_by_key
sort_by_key key [] = []
sort_by_key key (i ∷ is) = insert_by_key key i (sort_by_key key is)

unfoldable pub seal_ticks : Ticks → Ticks
unfolding sort_by_key
seal_ticks (ts, ftms) =
    if ascends ts
    then (ts, ftms)
    else let order = sort_by_key (λ i. get_or ts i 0) (range_map (λ i. i) 0 (length ts % 2 ^ 32)) in
      (map (λ i. get_or ts i 0) order, map (λ i. get_or ftms i 0) order)

abbrev pub seal_all : List (List ℕ × Ticks) → List (List ℕ × Ticks)
seal_all [] = []
seal_all ((mac, e) ∷ m) = (mac, seal_ticks e) ∷ seal_all m

unfoldable pub seal : TickIndex → TickIndex
seal index = record index { by_mac = seal_all index.by_mac }

-- `ts.partition_point(|t| *t < row)`, on times in order.
unfoldable pub partition_point : ℕ → List ℕ → ℕ
partition_point row [] = 0
partition_point row (t ∷ ts) =
    let rest = partition_point row ts in if ltb t row then suc rest else 0

-- `t as i64 - row as i64`, and the magnitude of a lag.
abbrev pub lag_ns : ℕ → ℕ → ℤ
lag_ns t row = of_pattern (2 ^ 63) ((t + 2 ^ 64 - row) % 2 ^ 64)

abbrev pub unsigned_abs : ℤ → ℕ
unsigned_abs lag = pos_part lag + neg_part lag

abbrev pub nearer : ℤ → Option (ℕ × ℤ) → Bool
nearer lag none = true
nearer lag (some (ftm, b)) = ltb (unsigned_abs lag) (unsigned_abs b)

-- The body of the loop over the candidates.
unfoldable pub consider : ℕ → ℕ → Option ℕ → Option ℕ → Option (ℕ × ℤ) → Option (ℕ × ℤ)
consider tolerance_ns row (some t) (some ftm) best =
    let lag = lag_ns t row in
    if leb (unsigned_abs lag) tolerance_ns && nearer lag best then some (ftm, lag) else best
consider tolerance_ns row _ _ best = best

-- `[i.checked_sub(1), Some(i)].into_iter().flatten()`, each candidate considered in turn.
unfoldable pub straddling : ℕ → ℕ → Ticks → ℕ → Option (ℕ × ℤ)
unfolding consider
straddling tolerance_ns row (ts, ftms) zero =
    consider tolerance_ns row (get_elem? ts 0) (get_elem? ftms 0) none
straddling tolerance_ns row (ts, ftms) (suc i) =
    consider tolerance_ns row (get_elem? ts (suc i)) (get_elem? ftms (suc i))
      (consider tolerance_ns row (get_elem? ts i) (get_elem? ftms i) none)

unfoldable pub best_tick : ℕ → ℕ → Ticks → Option (ℕ × ℤ)
unfolding straddling partition_point
best_tick tolerance_ns row (ts, ftms) =
    straddling tolerance_ns row (ts, ftms) (partition_point row ts)

-- What the loop finds for a row: an address that does not parse, or that no tick carries, finds
-- nothing.
abbrev pub of_entry : ℕ → ℕ → Option Ticks → Option (ℕ × ℤ)
of_entry tolerance_ns row none = none
of_entry tolerance_ns row (some e) = best_tick tolerance_ns row e

abbrev pub of_address : ℕ → TickIndex → ℕ → Option (List ℕ) → Option (ℕ × ℤ)
of_address tolerance_ns index row none = none
of_address tolerance_ns index row (some mac) =
    of_entry tolerance_ns row (find mac_key mac index.by_mac)

unfoldable pub found_tick : ℕ → TickIndex → Row → Option (ℕ × ℤ)
unfolding best_tick
found_tick tolerance_ns index row =
    of_address tolerance_ns index row.unix_ts_ns (Address.parse_mac row.tx_mac)

abbrev pub attribute : Option (ℕ × ℤ) → Row → Row
attribute none row = row
attribute (some (ftm, lag)) row = record row { ftm = some ftm; ftm_lag_ns = some lag }

abbrev pub count_found : Option (ℕ × ℤ) → ℕ → ℕ
count_found none n = n
count_found (some found) n = n + 1

abbrev pub pair_each : ℕ → TickIndex → List Row → List Row × ℕ
pair_each tolerance_ns index [] = ([], 0)
pair_each tolerance_ns index (row ∷ rows) =
    let found = found_tick tolerance_ns index row in
    let rest = pair_each tolerance_ns index rows in
    (attribute found row ∷ rest.0, count_found found (rest.1))

-- The rows as they are left, and how many were paired.
unfoldable pub pair : ℕ → TickIndex → List Row → List Row × ℕ
unfolding found_tick
pair tolerance_ns index rows =
    if (index.len == 0) || index.overflowed then (rows, 0) else pair_each tolerance_ns index rows

abbrev pub push_ticks : List CsiTick → TickIndex → TickIndex
push_ticks [] index = index
push_ticks (t ∷ ts) index = push_ticks ts (push_tick t index)

unfoldable pub pair_ftm : List Row → List CsiTick → ℕ → List Row × ℕ
unfolding push_tick seal pair
pair_ftm rows ticks tolerance_ns =
    pair tolerance_ns (seal (push_ticks ticks (new_index (2 ^ 64 - 1)))) rows
