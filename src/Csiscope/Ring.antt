-- ===== src/Csiscope/Ring.antt =====
-- crates/csiscope/src/state.rs: the buffer of live samples. The lock around it is taken by one
-- writer and copied under by readers, so that each operation is one step.
pub mod Eviction
pub mod History
use csid.Csiq.Record.{CsiRecord}
use csid.Csiq.Record.Matrix.{coeff_count}
use csid.Prelude.{
  ℕ, zero, suc, ◌+◌, ◌-◌, ◌*◌, ◌/◌, ◌%◌, ◌^◌, ◌≤◌, ◌<◌, min, max, ◌≡◌, refl, sym, ap, ◌∙◌, ◌≢◌, ◌↔◌,
  ◌⊎◌, inl, inr, Bool, true, false, not, ◌&&◌, ◌||◌, Option, none, some, List, [], ◌∷◌, ◌++◌, map,
  append-nil, append_assoc, arith,
}
use csid.Prelude.{
  ltb, leb, ◌==◌, if◌then◌else◌, ltb→lt, lt→ltb, le→ltb, le→leb, lt→leb, leb→le, ==_iff, ==_refl,
  Bool-cases, Option-cases, length, get_elem?, get_or, range_map, length-range_map,
  get_elem?-range_map, get_elem?-append_right, get_elem?-append_left, take, drop, replicate, All,
  length-append, length-take, length-drop, length-replicate, take-append-drop, take-append,
  drop-append, All-append, eq_bytes, eq_bytes_refl, eq_bytes→eq,
}
use csid.Prelude.Bytes.{
  IsByte, le_bytes, of_le_bytes, be_bytes, of_be_bytes, length-le_bytes, length-be_bytes,
  le_bytes-IsByte, of_le_bytes-le_bytes, of_be_bytes-be_bytes, of_le_bytes-lt, le_bytes-of_le_bytes,
  get_or-IsByte,
}
use csid.Prelude.Int.{
  ℤ, pos, negsuc, pos_part, neg_part, sub_ℕ, IsSigned, to_pattern, of_pattern, to_pattern-lt,
  of_pattern-to_pattern, of_pattern-IsSigned,
}

pub record Sample : Type 0 where
  pub session_uid : ℕ
  pub seq : ℕ
  pub ftm_ticks : ℕ
  pub recv_ns : ℕ
  pub body : CsiRecord

abbrev pub sample_coeffs : Sample → ℕ
sample_coeffs s = coeff_count s.body

pub record Ring : Type 0 where
  pub buf : List Sample
  pub first_index : ℕ
  pub max_records : ℕ
  pub max_coeffs : ℕ
  pub coeffs : ℕ

abbrev pub new_ring : ℕ → ℕ → Ring
new_ring max_records max_coeffs = record {
  buf = [];
  first_index = 0;
  max_records = max_records;
  max_coeffs = max_coeffs;
  coeffs = 0;
}

-- The condition of the loop.
abbrev pub is_over : ℕ → ℕ → ℕ → ℕ → Bool
is_over max_records max_coeffs coeffs n = ltb max_records n || (ltb max_coeffs coeffs && ltb 2 n)

-- The loop, on the index of the first sample, the sum and the samples.
unfoldable pub evict : ℕ → ℕ → ℕ → ℕ → List Sample → ℕ × ℕ × List Sample
evict max_records max_coeffs first coeffs [] = (first, coeffs, [])
evict max_records max_coeffs first coeffs (old ∷ rest) =
    let later = evict max_records max_coeffs (suc first) (coeffs - sample_coeffs old) rest in
    if is_over max_records max_coeffs coeffs (length (old ∷ rest))
    then later
    else (first, coeffs, old ∷ rest)

unfoldable pub push_sample : Ring → Sample → Ring
unfolding evict
push_sample r s =
    let kept =
      evict r.max_records r.max_coeffs r.first_index (r.coeffs + sample_coeffs s)
        (r.buf ++ (s ∷ [])) in
    record r { first_index = kept.0; coeffs = kept.1; buf = kept.2 }

abbrev pub total : Ring → ℕ
total r = r.first_index + length r.buf

-- The newest samples, oldest first.
unfoldable pub tail : Ring → ℕ → List Sample
tail r n = drop (length r.buf - n) r.buf

-- The new cursor, the samples from the old one on, and how many of them are missing.
unfoldable pub since : Ring → ℕ → ℕ → ℕ × List Sample × ℕ
since r from_index cap =
    if leb (total r) from_index
    then (total r, [], 0)
    else let start = max from_index r.first_index in
      let lost = start - from_index in
      let avail = total r - start in
      let taken = min avail cap in
      let dropped = avail - taken in
      (total r, drop ((start - r.first_index) + (avail - taken)) r.buf, lost + dropped)
