-- ===== src/Csiscope/Ring/History.antt =====
-- The ring of crates/csiscope/src/state.rs after any samples, and what its readers get.
use csid.Csiscope.Ring.Eviction.{IsHeld, IsFull, push_sample-IsHeld, push_sample-IsFull}
use csid.Csiscope.Ring.{Sample, Ring, new_ring, push_sample, total, since}
use mathlib.Core.Path.{subst}
use csid.Prelude.{
  ℕ, zero, suc, ◌+◌, ◌-◌, ◌≤◌, ◌<◌, min, max, ◌≡◌, refl, sym, ap, ◌∙◌, ◌⊎◌, inl, inr, Bool, List,
  [], ◌∷◌, ◌++◌, append-nil, append_assoc, arith,
}
use csid.Prelude.{leb, if◌then◌else◌, leb→le, Bool-cases, length, drop, length-drop}

abbrev pub push_samples : Ring → List Sample → Ring
push_samples r [] = r
push_samples r (s ∷ ss) = push_samples (push_sample r s) ss

drop-drop : {A : Type 0} (m n : ℕ) (xs : List A) → drop m (drop n xs) ≡ drop (n + m) xs
drop-drop m zero xs = ap (λ (k : ℕ). drop k xs) (omega arith)
drop-drop m (suc n) [] = drop_nil m ∙ sym (drop_nil (suc n + m))
  where
    drop_nil : {B : Type 0} (k : ℕ) → drop {A = B} k [] ≡ []
    drop_nil zero = refl
    drop_nil (suc k) = refl
drop-drop m (suc n) (x ∷ xs) = drop-drop m n xs ∙ ap (λ (k : ℕ). drop k (x ∷ xs)) (suc_add n m)
  where
    suc_add : (a b : ℕ) → suc (a + b) ≡ suc a + b
    suc_add a b = omega arith

push_samples-append :
    (before ss : List Sample) (r : Ring)
    → IsHeld before r
    → IsFull before r
    → IsHeld (before ++ ss) (push_samples r ss) × IsFull (before ++ ss) (push_samples r ss)
push_samples-append before [] r h full =
    subst (λ l. IsHeld l r × IsFull l r) (sym (append-nil before)) (h, full)
push_samples-append before (s ∷ ss) r h full =
    let after : Ring = push_samples (push_sample r s) ss in
    subst (λ l. IsHeld l after × IsFull l after) (append_assoc before (s ∷ []) ss)
      (push_samples-append (before ++ (s ∷ [])) ss (push_sample r s)
        (push_sample-IsHeld before r s h) (push_sample-IsFull before r s h full))

-- After any samples, the ring holds the last ones of them, at most `max_records`, with at most
-- `max_coeffs` coefficients unless it holds no more than two samples; it counts those that it let go,
-- its sum is the number of coefficients that it holds, and it let none go that the bounds allow: with
-- one sample more, either would be passed.
pub push_samples-IsHeld :
    (max_records max_coeffs : ℕ) (ss : List Sample)
    → IsHeld ss (push_samples (new_ring max_records max_coeffs) ss)
      × IsFull ss (push_samples (new_ring max_records max_coeffs) ss)
push_samples-IsHeld mr mc ss =
    push_samples-append [] ss (new_ring mr mc) (refl, refl, refl, omega arith, inl (omega arith))
      (inl refl)

-- What a reader at a cursor gets.
abbrev pub IsAnswer : List Sample → Ring → ℕ → ℕ → ℕ × List Sample × ℕ → Type 0
IsAnswer history r from_index cap found =
    (found.0 ≡ length history)
    × (found.1 ≡ drop (from_index + found.2) history)
    × (from_index + found.2 + length found.1 ≡ length history)
    × (length found.1 ≤ cap)
    × ((found.2 ≡ 0) ⊎ ((length found.1 ≡ cap) ⊎ (found.1 ≡ r.buf)))

drop-all : (n : ℕ) (xs : List Sample) → length xs ≤ n → drop n xs ≡ []
drop-all zero [] h = refl
drop-all (suc n) [] h = refl
drop-all zero (x ∷ xs) h = absurd (omega arith)
drop-all (suc n) (x ∷ xs) h = drop-all n xs (omega arith)

only_then :
    (buf : List Sample) (first i cap : ℕ)
    → i < first + length buf
    → let start = max i first in
      let avail = first + length buf - start in
      let taken = min avail cap in
      let found = drop ((start - first) + (avail - taken)) buf in
      ((start - i) + (avail - taken) ≡ 0) ⊎ ((length found ≡ cap) ⊎ (found ≡ buf))
only_then buf first i cap h = elim (thirds first (length buf) i cap h) [
  | inl e ↦ inl e
  | inr (inl e) ↦ inr (inl (length-drop _ buf ∙ e))
  | inr (inr e) ↦ inr (inr (ap (λ (k : ℕ). drop k buf) e))
]
  where
    thirds :
        (f n j c : ℕ)
        → j < f + n
        → let start = max j f in
          let avail = f + n - start in
          let taken = min avail c in
          ((start - j) + (avail - taken) ≡ 0)
          ⊎ ((n - ((start - f) + (avail - taken)) ≡ c) ⊎ ((start - f) + (avail - taken) ≡ 0))
    thirds f n j c k = ground arith

since-behind :
    (history : List Sample) (r : Ring) (from_index cap : ℕ)
    → r.buf ≡ drop r.first_index history
    → total r ≡ length history
    → from_index < total r
    → let start = max from_index r.first_index in
      let avail = total r - start in
      let taken = min avail cap in
      IsAnswer history r from_index cap (
        total r,
        drop ((start - r.first_index) + (avail - taken)) r.buf,
        (start - from_index) + (avail - taken),
      )
since-behind history r i cap h n lt =
    let start : ℕ = max i r.first_index in
    let avail : ℕ = total r - start in
    let taken : ℕ = min avail cap in
    let from : ℕ = (start - r.first_index) + (avail - taken) in
    let size : length (drop from r.buf) ≡ length r.buf - from = length-drop from r.buf in
    (
      n,
      ap (drop from) h
          ∙ drop-drop from r.first_index history
          ∙ ap (λ (k : ℕ). drop k history) (omega arith),
      omega arith,
      omega arith,
      only_then r.buf r.first_index i cap lt,
    )

-- A reader's cursor within the history gives the samples from some number on to the newest, at most
-- `cap`; those between the cursor and that number are the ones counted as missing, and there are some
-- only where the cap is reached or the ring is given whole.
pub since-IsHeld :
    (history : List Sample) (r : Ring) (from_index cap : ℕ)
    → IsHeld history r
    → from_index ≤ length history
    → IsAnswer history r from_index cap (since r from_index cap)
unfolding since
since-IsHeld history r i cap (h, n, e, _, _) le =
    let start : ℕ = max i r.first_index in
    let avail : ℕ = total r - start in
    let taken : ℕ = min avail cap in
    let behind : ℕ × List Sample × ℕ = (
      total r,
      drop ((start - r.first_index) + (avail - taken)) r.buf,
      (start - i) + (avail - taken),
    ) in
    let answer : Bool → Type 0 =
      λ b. IsAnswer history r i cap (if b then (total r, [], 0) else behind) in
    elim (Bool-cases (leb (total r) i)) [
      | inl o ↦
          let up : total r ≤ i = leb→le (total r) i o in
          subst answer (sym o)
            (n, sym (drop-all (i + 0) history (omega arith)), omega arith, omega arith, inl refl)
      | inr o ↦ subst answer (sym o) (since-behind history r i cap h n (ground (arith, o)))
    ]
