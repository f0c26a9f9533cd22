-- ===== src/Csid/Fleet/Clock.antt =====
-- crates/csid/src/fleet/clock.rs: the offset of a node's clock, and the skew of a fleet. A host's
-- name is its bytes; of the node's own time daemon only the bound is seen that `estimate` makes of
-- its floating-point dispersion.
pub mod Offset
pub mod Spread
mod Examples
use csid.Prelude.{
  ℕ, zero, suc, ◌+◌, ◌-◌, ◌*◌, ◌/◌, ◌%◌, ◌^◌, ◌≤◌, ◌<◌, min, max, ◌≡◌, refl, sym, ap, ◌∙◌, ◌≢◌, ◌↔◌,
  ◌⊎◌, inl, inr, Bool, true, false, not, ◌&&◌, ◌||◌, Option, none, some, List, [], ◌∷◌, ◌++◌, map,
  append-nil, append_assoc, arith,
}
use csid.Prelude.{
  ltb, leb, ◌==◌, if◌then◌else◌, ltb→lt, lt→ltb, le→ltb, le→leb, lt→leb, leb→le, ==_iff, ==_refl,
  Bool-cases, Option-cases, length, get_elem?, get_or, range_map, length-range_map,
  get_elem?-range_map, get_elem?-append_right, get_elem?-append_left, take, drop, replicate, All,
  length-append, length-take, length-drop, length-replicate, take-append-drop, take-append,
  drop-append, All-append, eq_bytes, eq_bytes_refl, eq_bytes→eq,
}
use csid.Prelude.Bytes.{
  IsByte, le_bytes, of_le_bytes, be_bytes, of_be_bytes, length-le_bytes, length-be_bytes,
  le_bytes-IsByte, of_le_bytes-le_bytes, of_be_bytes-be_bytes, of_le_bytes-lt, le_bytes-of_le_bytes,
  get_or-IsByte,
}
use csid.Prelude.Int.{
  ℤ, pos, negsuc, pos_part, neg_part, sub_ℕ, IsSigned, to_pattern, of_pattern, to_pattern-lt,
  of_pattern-to_pattern, of_pattern-IsSigned,
}

pub record Exchange : Type 0 where
  pub t1_ns : ℕ
  pub t2_ns : ℕ
  pub t3_ns : ℕ
  pub t4_ns : ℕ

-- `a - b` and `a + b` of integers, and `a < b`.
abbrev pub sub_ℤ : ℤ → ℤ → ℤ
sub_ℤ a b = sub_ℕ (pos_part a + neg_part b) (pos_part b + neg_part a)

abbrev pub add_ℤ : ℤ → ℤ → ℤ
add_ℤ a b = sub_ℕ (pos_part a + pos_part b) (neg_part a + neg_part b)

abbrev pub ltb_ℤ : ℤ → ℤ → Bool
ltb_ℤ a b = ltb (pos_part a + neg_part b) (pos_part b + neg_part a)

-- `/ 2`, which rounds towards zero, and `as i64`.
abbrev pub half : ℤ → ℤ
half z = sub_ℕ (pos_part z / 2) (neg_part z / 2)

abbrev pub as_i64 : ℤ → ℤ
as_i64 (pos n) = of_pattern (2 ^ 63) (n % 2 ^ 64)
as_i64 (negsuc n) = of_pattern (2 ^ 63) (2 ^ 64 - 1 - n % 2 ^ 64)

abbrev pub magnitude : ℤ → ℕ
magnitude z = pos_part z + neg_part z

unfoldable pub offset_ns : Exchange → ℤ
offset_ns e =
    let a = sub_ℕ e.t2_ns e.t1_ns in let b = sub_ℕ e.t3_ns e.t4_ns in as_i64 (half (add_ℤ a b))

unfoldable pub delay_ns : Exchange → ℤ
delay_ns e =
    let rt = sub_ℕ e.t4_ns e.t1_ns in
    let proc = sub_ℕ e.t3_ns e.t2_ns in as_i64 (pos (pos_part (sub_ℤ rt proc)))

unfoldable pub is_plausible : Exchange → Bool
is_plausible e = leb e.t1_ns e.t4_ns && leb e.t2_ns e.t3_ns && ltb 0 e.t1_ns && ltb 0 e.t2_ns

-- `filter(..).min_by_key(..)`, which keeps the first of equal keys.
abbrev pub least_delay : Exchange → List Exchange → Exchange
least_delay best [] = best
least_delay best (e ∷ es) =
    if is_plausible e && ltb_ℤ (delay_ns e) (delay_ns best)
    then least_delay e es
    else least_delay best es

unfoldable pub best_sample : List Exchange → Option Exchange
best_sample [] = none
best_sample (e ∷ es) =
    let later = best_sample es in if is_plausible e then some (least_delay e es) else later

abbrev pub count_plausible : List Exchange → ℕ
count_plausible [] = 0
count_plausible (e ∷ es) =
    let later = count_plausible es in if is_plausible e then suc later else later

pub record ClockHealth : Type 0 where
  pub offset : ℤ
  pub uncertainty_ns : ℕ
  pub samples : ℕ

abbrev pub health_of : List Exchange → ℕ → Option Exchange → Option ClockHealth
health_of samples ntp_bound none = none
health_of samples ntp_bound (some best) = some (record {
  offset = offset_ns best;
  uncertainty_ns = max (magnitude (half (delay_ns best))) ntp_bound;
  samples = count_plausible samples;
})

unfoldable pub estimate : List Exchange → ℕ → Option ClockHealth
unfolding best_sample offset_ns delay_ns
estimate samples ntp_bound = health_of samples ntp_bound (best_sample samples)

-- A host at an extreme, its offset and its uncertainty.
abbrev pub Entry : Type 0
Entry = List ℕ × ℤ × ℕ

pub record SkewReport : Type 0 where
  pub measured : ℕ
  pub unmeasured : List (List ℕ)
  pub skew_ns : ℤ
  pub skew_upper_ns : ℕ
  pub extremes : Option (List ℕ × List ℕ)
  pub budget_ns : ℕ

abbrev pub no_names : List (List ℕ) → Bool
no_names [] = true
no_names (h ∷ hs) = false

unfoldable pub within_budget : SkewReport → Bool
within_budget r = no_names r.unmeasured && leb 1 r.measured && leb r.skew_upper_ns r.budget_ns

abbrev pub lowered : Entry → Option Entry → Option Entry
lowered e none = some e
lowered e (some lo) = if ltb_ℤ (e.1) (lo.1) then some e else some lo

abbrev pub raised : Entry → Option Entry → Option Entry
raised e none = some e
raised e (some hi) = if ltb_ℤ (hi.1) (e.1) then some e else some hi

-- The loop over the estimates.
pub record Survey : Type 0 where
  pub missing : List (List ℕ)
  pub lo : Option Entry
  pub hi : Option Entry

abbrev pub note_host : List ℕ × Option ClockHealth → Survey → Survey
note_host (host, none) s = record s { missing = s.missing ++ (host ∷ []) }
note_host (host, some c) s =
    let entry : Entry = (host, c.offset, c.uncertainty_ns) in
    record s { lo = lowered entry s.lo; hi = raised entry s.hi }

abbrev pub survey : List (List ℕ × Option ClockHealth) → Survey → Survey
survey [] s = s
survey (e ∷ es) s = survey es (note_host e s)

-- The skew, its worst case and the hosts at the extremes.
abbrev pub spread : Option Entry → Option Entry → ℤ × ℕ × Option (List ℕ × List ℕ)
spread (some (ln, lo, lu)) (some (hn, hi, hu)) =
    let skew = as_i64 (sub_ℤ hi lo) in (skew, (magnitude skew + lu + hu) % 2 ^ 64, some (ln, hn))
spread _ _ = (pos 0, 0, none)

unfoldable pub fleet_skew : List (List ℕ × Option ClockHealth) → ℕ → SkewReport
fleet_skew estimates budget_ns =
    let s = survey estimates (record { missing = []; lo = none; hi = none }) in
    let found = spread s.lo s.hi in
    record {
      measured = length estimates - length s.missing;
      unmeasured = s.missing;
      skew_ns = found.0;
      skew_upper_ns = found.1;
      extremes = found.2;
      budget_ns = budget_ns;
    }
