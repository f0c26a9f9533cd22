-- ===== src/Prelude/Dict.antt =====
-- A hash map as the list of its entries, over a Boolean equality of keys, with the two uses that
-- the program makes of `entry`: counting up, and looking up.
use Prim.Native.Nat.{◌+◌, ◌≤◌}
use mathlib.Core.Path.{◌≡◌, refl, ap, sym, ◌∙◌}
use mathlib.Core.Logic.{◌↔◌, inl, inr}
use mathlib.Core.Bool.{Bool, true, false}
use mathlib.Core.Option.{Option, none, some}
use mathlib.Core.List.{List, [], ◌∷◌}
use native.Mathlib.Omega.{arith}
use csid.Prelude.Tests.{if◌then◌else◌, Bool-cases}
use csid.Prelude.Lists.{length}

-- A Boolean test that decides equality.
pub record Key {ℓ} (K : Type ℓ) : Type ℓ where
  pub same : K → K → Bool
  pub same_iff : (a b : K) → (same a b ≡ true) ↔ (a ≡ b)

module _ {ℓ} {K : Type ℓ} (key : Key K) where
  -- Two keys are equal to a third only if they are equal.
  pub same_apart : (j k i : K) → key.same j k ≡ false → key.same j i ≡ true → key.same k i ≡ false
  same_apart j k i ne e = elim (Bool-cases (key.same k i)) [
    | inr other ↦ other
    | inl also ↦
        let equal : key.same j k ≡ true =
          (key.same_iff j k).1 ((key.same_iff j i).0 e ∙ sym ((key.same_iff k i).0 also)) in
        ground arith
  ]

  pub same_swap : (j k i : K) → key.same j k ≡ true → key.same j i ≡ key.same k i
  same_swap j k i e = ap (λ (x : K). key.same x i) ((key.same_iff j k).0 e)

module _ {ℓ κ} {K : Type ℓ} {V : Type κ} (key : Key K) where
  -- `map.get(&k)`.
  unfoldable pub find : K → List (K × V) → Option V
  find k [] = none
  find k ((j, v) ∷ m) = let later = find k m in if key.same j k then some v else later

  -- `*map.entry(k).or_insert(d)` set to `f` of what it was.
  unfoldable pub upsert : K → V → (V → V) → List (K × V) → List (K × V)
  upsert k d f [] = (k, f d) ∷ []
  upsert k d f ((j, v) ∷ m) =
      let later = upsert k d f m in if key.same j k then (j, f v) ∷ m else (j, v) ∷ later

  -- The value at a key that may be missing.
  abbrev pub or_default : V → Option V → V
  or_default d none = d
  or_default d (some v) = v

  pub find-upsert :
      (k i : K) (d : V) (f : V → V) (m : List (K × V))
      → find i (upsert k d f m)
        ≡ (if key.same k i then some (f (or_default d (find k m))) else find i m)
  unfolding find upsert
  find-upsert k i d f [] = refl
  find-upsert k i d f ((j, v) ∷ m) = elim (Bool-cases (key.same j k)) [
    | inl e ↦ let swap = same_swap key j k i e in ground arith
    | inr e ↦
        let later = find-upsert k i d f m in let apart = same_apart key j k i e in ground arith
  ]

  pub length-upsert :
      (k : K) (d : V) (f : V → V) (m : List (K × V)) → length (upsert k d f m) ≤ length m + 1
  unfolding upsert
  length-upsert k d f [] = omega arith
  length-upsert k d f ((j, v) ∷ m) = ground (arith, length-upsert k d f m)

  -- A key that is there is changed in place.
  pub length-upsert_found :
      (k : K) (d v : V) (f : V → V) (m : List (K × V))
      → find k m ≡ some v
      → length (upsert k d f m) ≡ length m
  unfolding find upsert
  length-upsert_found k d v f [] h = cc
  length-upsert_found k d v f ((j, w) ∷ m) h = elim (Bool-cases (key.same j k)) [
    | inl e ↦ ground arith
    | inr e ↦
        let there : find k m ≡ some v = ground arith in
        let later = length-upsert_found k d v f m there in ground arith
  ]
