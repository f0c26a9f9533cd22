-- ===== src/Csiscope/Ring/Eviction.antt =====
-- The eviction of crates/csiscope/src/state.rs against the history of all samples pushed.
use csid.Csiscope.Ring.{Sample, sample_coeffs, Ring, is_over, evict, push_sample, total}
use mathlib.Core.Path.{subst}
use csid.Prelude.{drop-append_left}
use csid.Prelude.{
  ℕ, zero, suc, ◌+◌, ◌-◌, ◌≤◌, ◌<◌, ◌≡◌, sym, ap, ◌∙◌, ◌⊎◌, inl, inr, Bool, true, false, List, [],
  ◌∷◌, ◌++◌, arith,
}
use csid.Prelude.{if◌then◌else◌, Bool-cases, length, drop, length-append}

abbrev pub sum_coeffs : List Sample → ℕ
sum_coeffs [] = 0
sum_coeffs (s ∷ ss) = sample_coeffs s + sum_coeffs ss

-- The ring holds the end of the history, within its bounds, and its sum is that of what it holds. The
-- bound on the coefficients may be passed by up to two samples.
abbrev pub IsHeld : List Sample → Ring → Type 0
IsHeld history r =
    (r.buf ≡ drop r.first_index history)
    × (total r ≡ length history)
    × (r.coeffs ≡ sum_coeffs r.buf)
    × (length r.buf ≤ r.max_records)
    × ((r.coeffs ≤ r.max_coeffs) ⊎ (length r.buf ≤ 2))

-- Samples that the bounds do not allow.
abbrev pub IsTooMuch : ℕ → ℕ → List Sample → Type 0
IsTooMuch max_records max_coeffs ss =
    (max_records < length ss) ⊎ ((max_coeffs < sum_coeffs ss) × (2 < length ss))

-- Nothing was let go that could be held: with one sample more of the history it is too much.
abbrev pub IsFull : List Sample → Ring → Type 0
IsFull history r =
    (r.first_index ≡ 0) ⊎ IsTooMuch r.max_records r.max_coeffs (drop (r.first_index - 1) history)

drop-tail :
    (history : List Sample) (n : ℕ) (s : Sample) (rest : List Sample)
    → s ∷ rest ≡ drop n history
    → rest ≡ drop (suc n) history
drop-tail [] zero s rest h = absurd cc
drop-tail [] (suc n) s rest h = absurd cc
drop-tail (x ∷ history) zero s rest h = cc
drop-tail (x ∷ history) (suc n) s rest h = drop-tail history n s rest h

sum_coeffs-append : (xs ys : List Sample) → sum_coeffs (xs ++ ys) ≡ sum_coeffs xs + sum_coeffs ys
sum_coeffs-append [] ys = omega arith
sum_coeffs-append (x ∷ xs) ys = omega (arith, sum_coeffs-append xs ys)

within : (mr mc c n : ℕ) → is_over mr mc c n ≡ false → (n ≤ mr) × ((c ≤ mc) ⊎ (n ≤ 2))
within mr mc c n h = ground arith

abbrev ring_of : ℕ → ℕ → ℕ × ℕ × List Sample → Ring
ring_of mr mc kept = record {
  buf = kept.2;
  first_index = kept.0;
  max_records = mr;
  max_coeffs = mc;
  coeffs = kept.1;
}

evict-IsHeld :
    (mr mc first c : ℕ) (buf history : List Sample)
    → buf ≡ drop first history
    → first + length buf ≡ length history
    → c ≡ sum_coeffs buf
    → IsHeld history (ring_of mr mc (evict mr mc first c buf))
unfolding evict
evict-IsHeld mr mc first c [] history h n e = (h, n, e, omega arith, inr (omega arith))
evict-IsHeld mr mc first c (old ∷ rest) history h n e =
    let later = evict mr mc (suc first) (c - sample_coeffs old) rest in
    let all : ℕ × ℕ × List Sample = (first, c, old ∷ rest) in
    let held : Bool → Type 0 = λ b. IsHeld history (ring_of mr mc (if b then later else all)) in
    elim (Bool-cases (is_over mr mc c (length (old ∷ rest)))) [
      | inl o ↦ subst held (sym o) (
          evict-IsHeld mr mc (suc first) (c - sample_coeffs old) rest history
            (drop-tail history first old rest h) (omega arith) (omega arith))
      | inr o ↦
          let fits = within mr mc c (length (old ∷ rest)) o in
          subst held (sym o) (h, n, e, fits.0, fits.1)
    ]

over-IsTooMuch :
    (mr mc c : ℕ) (ss : List Sample)
    → is_over mr mc c (length ss) ≡ true
    → c ≡ sum_coeffs ss
    → IsTooMuch mr mc ss
over-IsTooMuch mr mc c ss o e = ground arith

evict-IsFull :
    (mr mc first c : ℕ) (buf history : List Sample)
    → buf ≡ drop first history
    → c ≡ sum_coeffs buf
    → IsFull history (ring_of mr mc (first, c, buf))
    → IsFull history (ring_of mr mc (evict mr mc first c buf))
unfolding evict
evict-IsFull mr mc first c [] history h e full = full
evict-IsFull mr mc first c (old ∷ rest) history h e full =
    let later = evict mr mc (suc first) (c - sample_coeffs old) rest in
    let all : ℕ × ℕ × List Sample = (first, c, old ∷ rest) in
    let held : Bool → Type 0 = λ b. IsFull history (ring_of mr mc (if b then later else all)) in
    elim (Bool-cases (is_over mr mc c (length (old ∷ rest)))) [
      | inl o ↦
          let much : IsTooMuch mr mc (drop first history) =
            subst (IsTooMuch mr mc) h (over-IsTooMuch mr mc c (old ∷ rest) o e) in
          let same : first ≡ suc first - 1 = omega arith in
          subst held (sym o) (
            evict-IsFull mr mc (suc first) (c - sample_coeffs old) rest history
              (drop-tail history first old rest h) (omega arith)
              (inr (subst (λ k. IsTooMuch mr mc (drop k history)) same much)))
      | inr o ↦ subst held (sym o) full
    ]

IsTooMuch-append :
    (mr mc : ℕ) (xs ys : List Sample) → IsTooMuch mr mc xs → IsTooMuch mr mc (xs ++ ys)
IsTooMuch-append mr mc xs ys (inl many) = inl (omega (arith, length-append xs ys))
IsTooMuch-append mr mc xs ys (inr (large, many)) =
    inr (omega (arith, sum_coeffs-append xs ys), omega (arith, length-append xs ys))

pub push_sample-IsFull :
    (history : List Sample) (r : Ring) (s : Sample)
    → IsHeld history r
    → IsFull history r
    → IsFull (history ++ (s ∷ [])) (push_sample r s)
unfolding push_sample
push_sample-IsFull history r s (h, n, e, _, _) full =
    evict-IsFull r.max_records r.max_coeffs r.first_index (r.coeffs + sample_coeffs s)
      (r.buf ++ (s ∷ [])) (history ++ (s ∷ []))
      (ap (λ (b : List Sample). b ++ (s ∷ [])) h
        ∙ sym (drop-append_left history (s ∷ []) r.first_index (omega arith)))
      (omega (arith, sum_coeffs-append r.buf (s ∷ []))) (later full)
  where
    later :
        IsFull history r
        → (r.first_index ≡ 0)
          ⊎ IsTooMuch r.max_records r.max_coeffs (drop (r.first_index - 1) (history ++ (s ∷ [])))
    later (inl z) = inl z
    later (inr much) = inr (
        subst (IsTooMuch r.max_records r.max_coeffs)
          (sym (drop-append_left history (s ∷ []) (r.first_index - 1) (omega arith)))
          (IsTooMuch-append r.max_records r.max_coeffs (drop (r.first_index - 1) history) (s ∷ [])
            much))

pub push_sample-IsHeld :
    (history : List Sample) (r : Ring) (s : Sample)
    → IsHeld history r
    → IsHeld (history ++ (s ∷ [])) (push_sample r s)
unfolding push_sample
push_sample-IsHeld history r s (h, n, e, _, _) =
    evict-IsHeld r.max_records r.max_coeffs r.first_index (r.coeffs + sample_coeffs s)
      (r.buf ++ (s ∷ [])) (history ++ (s ∷ []))
      (ap (λ (b : List Sample). b ++ (s ∷ [])) h
        ∙ sym (drop-append_left history (s ∷ []) r.first_index (omega arith)))
      (omega (arith, length-append r.buf (s ∷ []), length-append history (s ∷ [])))
      (omega (arith, sum_coeffs-append r.buf (s ∷ [])))
