-- ===== src/Csid/Airtime.antt =====
-- crates/csid/src/airtime.rs: what a radiotap header says of a frame's PHY. The times of an HE
-- frame, which are constants of the source, are in tenths of a microsecond.
pub mod Fields
pub mod Parse
pub mod Injected
mod Examples
use csid.Prelude.{
  ℕ, zero, suc, ◌+◌, ◌-◌, ◌*◌, ◌/◌, ◌%◌, ◌^◌, ◌≤◌, ◌<◌, min, max, ◌≡◌, refl, sym, ap, ◌∙◌, ◌≢◌, ◌↔◌,
  ◌⊎◌, inl, inr, Bool, true, false, not, ◌&&◌, ◌||◌, Option, none, some, List, [], ◌∷◌, ◌++◌, map,
  append-nil, append_assoc, arith,
}
use csid.Prelude.{
  ltb, leb, ◌==◌, if◌then◌else◌, ltb→lt, lt→ltb, le→ltb, le→leb, lt→leb, leb→le, ==_iff, ==_refl,
  Bool-cases, Option-cases, length, get_elem?, get_or, range_map, length-range_map,
  get_elem?-range_map, get_elem?-append_right, get_elem?-append_left, take, drop, replicate, All,
  length-append, length-take, length-drop, length-replicate, take-append-drop, take-append,
  drop-append, All-append, eq_bytes, eq_bytes_refl, eq_bytes→eq,
}
use csid.Prelude.Bytes.{
  IsByte, le_bytes, of_le_bytes, be_bytes, of_be_bytes, length-le_bytes, length-be_bytes,
  le_bytes-IsByte, of_le_bytes-le_bytes, of_be_bytes-be_bytes, of_le_bytes-lt, le_bytes-of_le_bytes,
  get_or-IsByte,
}
use csid.Prelude.Int.{
  ℤ, pos, negsuc, pos_part, neg_part, sub_ℕ, IsSigned, to_pattern, of_pattern, to_pattern-lt,
  of_pattern-to_pattern, of_pattern-IsSigned,
}

pub record Ht : Type 0 where
  pub mcs : ℕ
  pub bw_mhz : ℕ
  pub short_gi : Bool

pub record Vht : Type 0 where
  pub mcs : ℕ
  pub nss : ℕ
  pub bw_mhz : ℕ
  pub short_gi : Bool

pub record He : Type 0 where
  pub format : ℕ
  pub mcs : ℕ
  pub nss : ℕ
  pub bw_mhz : Option ℕ
  pub gi_tenths : ℕ
  pub ltf_tenths : ℕ

pub record Phy : Type 0 where
  pub rate_500k : Option ℕ
  pub short_preamble : Bool
  pub ht : Option Ht
  pub vht : Option Vht
  pub he : Option He
  pub ampdu_ref : Option ℕ
  pub psdu_len : ℕ
  pub signal_dbm : Option ℤ
  pub antenna_dbm : Option ℤ × Option ℤ

abbrev pub default_phy : Phy
default_phy = record {
  rate_500k = none;
  short_preamble = false;
  ht = none;
  vht = none;
  he = none;
  ampdu_ref = none;
  psdu_len = 0;
  signal_dbm = none;
  antenna_dbm = (none, none);
}

-- `b & (1 << bit) != 0`.
abbrev pub has_bit : ℕ → ℕ → Bool
has_bit bit b = b / 2 ^ bit % 2 == 1

-- The alignment and the size of the fields 0 to 27.
abbrev pub field_table : List (ℕ × ℕ)
field_table =
    (8, 8)
    ∷ (1, 1)
    ∷ (1, 1)
    ∷ (2, 4)
    ∷ (1, 2)
    ∷ (1, 1)
    ∷ (1, 1)
    ∷ (2, 2)
    ∷ (2, 2)
    ∷ (2, 2)
    ∷ (1, 1)
    ∷ (1, 1)
    ∷ (1, 1)
    ∷ (1, 1)
    ∷ (2, 2)
    ∷ (2, 2)
    ∷ (1, 1)
    ∷ (1, 1)
    ∷ (4, 8)
    ∷ (1, 3)
    ∷ (4, 8)
    ∷ (2, 12)
    ∷ (8, 12)
    ∷ (2, 12)
    ∷ (2, 12)
    ∷ (2, 6)
    ∷ (1, 1)
    ∷ (2, 4)
    ∷ []

-- `slice.get(from..from + size)`.
abbrev pub slice : List ℕ → ℕ → ℕ → Option (List ℕ)
slice b from size = if leb (from + size) (length b) then some (take size (drop from b)) else none

abbrev pub u16_at : List ℕ → ℕ → Option ℕ
u16_at b o = elim (slice b o 2) [ none ↦ none | some s ↦ some (of_le_bytes s) ]

abbrev pub u32_at : List ℕ → ℕ → Option ℕ
u32_at b o = elim (slice b o 4) [ none ↦ none | some s ↦ some (of_le_bytes s) ]

-- `(off + align - 1) & !(align - 1)`, for an alignment that is a power of two.
abbrev pub align_up : ℕ → ℕ → ℕ
align_up align off = (off + align - 1) / align * align
