-- ===== src/Csid/Inject/Pacing.antt =====
-- The paced loop of crates/csid/src/inject.rs. Instants are nanoseconds on one clock; the times of
-- a round and the outcome of its send are inputs, and log lines are left out.
pub mod Slots
mod Examples
use mathlib.Core.Path.{subst}
use native.Mathlib.Nat.{mul-add, mul-div-le, lt-mul-div-succ}
use csid.Prelude.{
  ℕ, zero, suc, ◌+◌, ◌-◌, ◌*◌, ◌/◌, ◌%◌, ◌^◌, ◌≤◌, ◌<◌, min, max, ◌≡◌, refl, sym, ap, ◌∙◌, ◌≢◌, ◌↔◌,
  ◌⊎◌, inl, inr, Bool, true, false, not, ◌&&◌, ◌||◌, Option, none, some, List, [], ◌∷◌, ◌++◌, map,
  append-nil, append_assoc, arith,
}
use csid.Prelude.{
  ltb, leb, ◌==◌, if◌then◌else◌, ltb→lt, lt→ltb, le→ltb, le→leb, lt→leb, leb→le, ==_iff, ==_refl,
  Bool-cases, Option-cases, length, get_elem?, get_or, range_map, length-range_map,
  get_elem?-range_map, get_elem?-append_right, get_elem?-append_left, take, drop, replicate, All,
  length-append, length-take, length-drop, length-replicate, take-append-drop, take-append,
  drop-append, All-append, eq_bytes, eq_bytes_refl, eq_bytes→eq,
}
use csid.Prelude.Bytes.{
  IsByte, le_bytes, of_le_bytes, be_bytes, of_be_bytes, length-le_bytes, length-be_bytes,
  le_bytes-IsByte, of_le_bytes-le_bytes, of_be_bytes-be_bytes, of_le_bytes-lt, le_bytes-of_le_bytes,
  get_or-IsByte,
}
use csid.Prelude.Int.{
  ℤ, pos, negsuc, pos_part, neg_part, sub_ℕ, IsSigned, to_pattern, of_pattern, to_pattern-lt,
  of_pattern-to_pattern, of_pattern-IsSigned,
}

pub record Pacer : Type 0 where
  pub next : ℕ
  pub seq : ℕ
  pub sent : ℕ
  pub errors : ℕ
  pub skipped : ℕ

abbrev pub start : ℕ → Pacer
start t0 = record { next = t0; seq = 0; sent = 0; errors = 0; skipped = 0 }

-- What a round of the loop sees: the clock before and after the send, and whether it worked.
pub record Round : Type 0 where
  pub now : ℕ
  pub later : ℕ
  pub accepted : Bool

-- The send, its counter, and the slot after it.
unfoldable pub transmit : ℕ → Bool → Pacer → Pacer
transmit period accepted s = record s {
  next = s.next + period;
  seq = (s.seq + 1) % 2 ^ 64;
  sent = if accepted then (s.sent + 1) % 2 ^ 64 else s.sent;
  errors = if accepted then s.errors else (s.errors + 1) % 2 ^ 64;
}

-- The slots whose deadline has passed meanwhile are skipped.
unfoldable pub skip_missed : ℕ → ℕ → Pacer → Pacer
skip_missed period later s =
    let missed = (later - s.next) / max period 1 in
    if ltb s.next later
    then (if ltb 0 missed
        then record s {
          skipped = (s.skipped + missed % 2 ^ 64) % 2 ^ 64;
          next = s.next + period * (missed % 2 ^ 32);
        }
        else s)
    else s

-- One round; before the deadline it only sleeps.
unfoldable pub pace : ℕ → Round → Pacer → Pacer
pace period r s =
    if ltb r.now s.next then s else skip_missed period r.later (transmit period r.accepted s)

unfoldable pub run_loop : ℕ → List Round → Pacer → Pacer
run_loop period [] s = s
run_loop period (r ∷ rs) s = run_loop period rs (pace period r s)
