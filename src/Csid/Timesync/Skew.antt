-- ===== src/Csid/Timesync/Skew.antt =====
-- crates/csid/src/timesync/skew.rs: the differences of two nodes' arrivals of the same packets. A
-- BTreeMap is the list of its entries in the order of their keys. The estimates made of the
-- differences are floating-point.
pub mod Earliest
pub mod Common
use csid.Csid.Fleet.Clock.{as_i64, magnitude}
use csid.Prelude.{
  ℕ, zero, suc, ◌+◌, ◌-◌, ◌*◌, ◌/◌, ◌%◌, ◌^◌, ◌≤◌, ◌<◌, min, max, ◌≡◌, refl, sym, ap, ◌∙◌, ◌≢◌, ◌↔◌,
  ◌⊎◌, inl, inr, Bool, true, false, not, ◌&&◌, ◌||◌, Option, none, some, List, [], ◌∷◌, ◌++◌, map,
  append-nil, append_assoc, arith,
}
use csid.Prelude.{
  ltb, leb, ◌==◌, if◌then◌else◌, ltb→lt, lt→ltb, le→ltb, le→leb, lt→leb, leb→le, ==_iff, ==_refl,
  Bool-cases, Option-cases, length, get_elem?, get_or, range_map, length-range_map,
  get_elem?-range_map, get_elem?-append_right, get_elem?-append_left, take, drop, replicate, All,
  length-append, length-take, length-drop, length-replicate, take-append-drop, take-append,
  drop-append, All-append, eq_bytes, eq_bytes_refl, eq_bytes→eq,
}
use csid.Prelude.Bytes.{
  IsByte, le_bytes, of_le_bytes, be_bytes, of_be_bytes, length-le_bytes, length-be_bytes,
  le_bytes-IsByte, of_le_bytes-le_bytes, of_be_bytes-be_bytes, of_le_bytes-lt, le_bytes-of_le_bytes,
  get_or-IsByte,
}
use csid.Prelude.Int.{
  ℤ, pos, negsuc, pos_part, neg_part, sub_ℕ, IsSigned, to_pattern, of_pattern, to_pattern-lt,
  of_pattern-to_pattern, of_pattern-IsSigned,
}

pub record Arrival : Type 0 where
  pub seq : ℕ
  pub unix_ts_ns : ℕ

pub record SeqWindow : Type 0 where
  pub lo : ℕ
  pub hi : ℕ

abbrev pub contains : SeqWindow → ℕ → Bool
contains w seq = leb w.lo seq && leb seq w.hi

abbrev pub SeqIndex : Type 0
SeqIndex = List (ℕ × ℕ)

-- `entry(..).and_modify(|t| *t = (*t).min(..)).or_insert(..)`.
unfoldable pub note_arrival : ℕ → ℕ → SeqIndex → SeqIndex
note_arrival seq t [] = (seq, t) ∷ []
note_arrival seq t ((s, u) ∷ m) =
    let later = note_arrival seq t m in
    if seq == s
    then (s, min u t) ∷ m
    else if ltb seq s
    then (seq, t) ∷ (s, u) ∷ m
    else (s, u) ∷ later

abbrev pub index_from : List Arrival → SeqIndex → SeqIndex
index_from [] m = m
index_from (x ∷ xs) m = index_from xs (note_arrival x.seq x.unix_ts_ns m)

unfoldable pub seq_index : List Arrival → SeqIndex
unfolding note_arrival
seq_index v = index_from v []

-- `get`.
abbrev pub arrival_at : ℕ → SeqIndex → Option ℕ
arrival_at seq [] = none
arrival_at seq ((s, u) ∷ m) = let later = arrival_at seq m in if s == seq then some u else later

abbrev pub max_plausible_diff_ns : ℕ
max_plausible_diff_ns = 5000000000

-- The differences, and how many were discarded or outside the window.
pub record Differences : Type 0 where
  pub diffs : List ℤ
  pub discarded : ℕ
  pub outside_window : ℕ

-- The body of the loop, in front of the rounds that follow it.
abbrev pub note_pair : SeqWindow → ℕ → ℕ → Option ℕ → Differences → Differences
note_pair w seq ta none rest = rest
note_pair w seq ta (some tb) rest =
    if not (contains w seq)
    then record rest { outside_window = rest.outside_window + 1 }
    else let d = sub_ℕ ta tb in
      if ltb max_plausible_diff_ns (magnitude d)
      then record rest { discarded = rest.discarded + 1 }
      else record rest { diffs = as_i64 d ∷ rest.diffs }

abbrev pub differences_from : SeqWindow → SeqIndex → SeqIndex → Differences
differences_from w [] ib = record { diffs = []; discarded = 0; outside_window = 0 }
differences_from w ((seq, ta) ∷ ia) ib =
    note_pair w seq ta (arrival_at seq ib) (differences_from w ia ib)

unfoldable pub common_differences : List Arrival → List Arrival → SeqWindow → Differences
unfolding seq_index
common_differences a b w = differences_from w (seq_index a) (seq_index b)
