-- ===== src/Csid/Timesync/Pairing/Order.antt =====
-- Sealing an index: each transmitter's ticks in time order, and the same ticks.
use mathlib.Core.List.{Memᴰ}
use csid.Prelude.Members.{All-weaken, All-map, All-of_map, All-mem, length-map}
use mathlib.Core.Path.{subst, ap₂}
use csid.Prelude.{get_or-append_at}
use csid.Csid.Timesync.Pairing.{
  CsiTick, Ticks, ascends_from, ascends, insert_by_key, sort_by_key, seal_ticks,
}
use csid.Prelude.{
  ℕ, ◌<◌, ◌^◌, ◌%◌, zero, suc, ◌≤◌, ◌≡◌, refl, sym, ◌∙◌, inl, inr, Bool, true, ◌&&◌, List, [], ◌∷◌,
  ◌++◌, map, append_assoc, arith,
}
use csid.Prelude.{leb, leb→le, Bool-cases, length, get_or, range_map, All, length-append}

abbrev pub IsAscending : List ℕ → Type 0
IsAscending [] = Unit {0}
IsAscending (t ∷ ts) = All (λ u. t ≤ u) ts × IsAscending ts

and-parts : (a b : Bool) → (a && b) ≡ true → (a ≡ true) × (b ≡ true)
and-parts a b h = ground arith

ascends_from-All :
    (t : ℕ) (us : List ℕ) → ascends_from t us ≡ true → All (λ u. t ≤ u) us × IsAscending us
ascends_from-All t [] h = (tt, tt)
ascends_from-All t (u ∷ us) h =
    let (first, later) = and-parts (leb t u) (ascends_from u us) h in
    let (above, rest) = ascends_from-All u us later in
    let le = leb→le t u first in ((le, All-weaken (λ v k. omega arith) us above), (above, rest))

ascends-IsAscending : (ts : List ℕ) → ascends ts ≡ true → IsAscending ts
ascends-IsAscending [] h = tt
ascends-IsAscending (t ∷ ts) h = ascends_from-All t ts h

module _ (key : ℕ → ℕ) where
  insert-All {κ} :
      (P : ℕ → Type κ) (i : ℕ) (js : List ℕ) → P i → All P js → All P (insert_by_key key i js)
  unfolding insert_by_key
  insert-All P i [] h hs = (h, tt)
  insert-All P i (j ∷ js) h (hj, hs) = elim (Bool-cases (leb (key i) (key j))) [
    | inl e ↦ rw e (h, (hj, hs))
    | inr e ↦ rw e (hj, insert-All P i js h hs)
  ]

  insert-of_All {κ} :
      (P : ℕ → Type κ) (i : ℕ) (js : List ℕ) → All P (insert_by_key key i js) → P i × All P js
  unfolding insert_by_key
  insert-of_All P i [] h = h
  insert-of_All P i (j ∷ js) h = elim (Bool-cases (leb (key i) (key j))) [
    | inl e ↦ rw e at h
    | inr e ↦
        let (hj, hs) = rw e at h in let (hi, rest) = insert-of_All P i js hs in (hi, (hj, rest))
  ]

  sort-All {κ} : (P : ℕ → Type κ) (is : List ℕ) → All P is → All P (sort_by_key key is)
  unfolding sort_by_key
  sort-All P [] h = tt
  sort-All P (i ∷ is) (h, hs) = insert-All P i (sort_by_key key is) h (sort-All P is hs)

  sort-of_All {κ} : (P : ℕ → Type κ) (is : List ℕ) → All P (sort_by_key key is) → All P is
  unfolding sort_by_key
  sort-of_All P [] h = tt
  sort-of_All P (i ∷ is) h =
      let (hi, hs) = insert-of_All P i (sort_by_key key is) h in (hi, sort-of_All P is hs)

  insert-IsAscending :
      (i : ℕ) (js : List ℕ)
      → IsAscending (map key js)
      → IsAscending (map key (insert_by_key key i js))
  unfolding insert_by_key
  insert-IsAscending i [] h = (tt, tt)
  insert-IsAscending i (j ∷ js) (above, h) = elim (Bool-cases (leb (key i) (key j))) [
    | inl e ↦
        let le = leb→le (key i) (key j) e in
        rw e ((le, All-weaken (λ v k. omega arith) (map key js) above), (above, h))
    | inr e ↦
        let le : key j ≤ key i = ground arith in
        rw e (
          All-map (λ u. key j ≤ u) key (insert_by_key key i js)
              (insert-All (λ v. key j ≤ key v) i js le (All-of_map (λ u. key j ≤ u) key js above)),
          insert-IsAscending i js h,
        )
  ]

  sort-IsAscending : (is : List ℕ) → IsAscending (map key (sort_by_key key is))
  unfolding sort_by_key
  sort-IsAscending [] = tt
  sort-IsAscending (i ∷ is) = insert-IsAscending i (sort_by_key key is) (sort-IsAscending is)

abbrev pub tick_times : List CsiTick → List ℕ
tick_times xs = map (λ (t : CsiTick). t.unix_ts_ns) xs

abbrev pub vectors : List CsiTick → Ticks
vectors xs = (tick_times xs, map (λ (t : CsiTick). t.ftm) xs)

-- Two lists with the same elements.
abbrev pub IsRearranged {ℓ} : {A : Type ℓ} → List A → List A → Type ℓ
IsRearranged xs ys = All (λ a. Memᴰ a ys) xs × All (λ a. Memᴰ a xs) ys

get_or-map {ℓ κ} :
    {A : Type ℓ} {B : Type κ} (f : A → B) (xs : List A) (i : ℕ) (d : A)
    → get_or (map f xs) i (f d) ≡ f (get_or xs i d)
get_or-map f [] i d = refl
get_or-map f (x ∷ xs) zero d = refl
get_or-map f (x ∷ xs) (suc i) d = get_or-map f xs i d

map-get_or {ℓ κ} :
    {A : Type ℓ} {B : Type κ} (f : A → B) (xs : List A) (d : A) (is : List ℕ)
    → map (λ i. get_or (map f xs) i (f d)) is ≡ map f (map (λ i. get_or xs i d) is)
map-get_or f xs d [] = refl
map-get_or f xs d (i ∷ is) = ap₂ (λ b bs. b ∷ bs) (get_or-map f xs i d) (map-get_or f xs d is)

get_or-range {ℓ} :
    {A : Type ℓ} (pre xs : List A) (d : A)
    → map (λ i. get_or (pre ++ xs) i d) (range_map (λ i. i) (length pre) (length xs)) ≡ xs
get_or-range pre [] d = refl
get_or-range {A = A} pre (x ∷ xs) d =
    ap₂ (λ b bs. b ∷ bs) (get_or-append_at pre (x ∷ xs) (length pre) 0 d (omega arith))
      (ap₂ (λ (ys : List A) (n : ℕ). map (λ i. get_or ys i d) (range_map (λ i. i) n (length xs)))
          (sym (append_assoc pre (x ∷ []) xs)) (sym (length-append pre (x ∷ [])))
        ∙ get_or-range (pre ++ (x ∷ [])) xs d)

module _ {ℓ} {A : Type ℓ} (key : ℕ → ℕ) (xs : List A) (d : A) where
  picked : List A
  picked = map (λ i. get_or xs i d) (sort_by_key key (range_map (λ i. i) 0 (length xs)))

  picked-IsRearranged : IsRearranged xs picked
  unfolding picked
  picked-IsRearranged =
      let positions : List ℕ = range_map (λ i. i) 0 (length xs) in
      let at : ℕ → A = λ i. get_or xs i d in
      let all : map at positions ≡ xs = get_or-range [] xs d in
      (
        subst (All (λ a. Memᴰ a picked)) all (
            All-map (λ a. Memᴰ a picked) at positions
              (sort-of_All key _ positions
                (All-of_map _ at (sort_by_key key positions) (All-mem picked)))),
        All-map (λ a. Memᴰ a xs) at (sort_by_key key positions)
            (sort-All key _ positions
              (All-of_map _ at positions (subst (All (λ a. Memᴰ a xs)) (sym all) (All-mem xs)))),
      )

-- A sealed entry of fewer than 2^32 ticks holds them in the order of their times.
pub seal_ticks-vectors :
    (xs : List CsiTick)
    → length xs < 2 ^ 32
    → (ys : List CsiTick) × (seal_ticks (vectors xs) ≡ vectors ys)
      × IsAscending (tick_times ys)
      × IsRearranged xs ys
unfolding seal_ticks picked
seal_ticks-vectors xs room = elim (Bool-cases (ascends (tick_times xs))) [
  | inl e ↦ (xs, rw e refl, ascends-IsAscending (tick_times xs) e, (All-mem xs, All-mem xs))
  | inr e ↦
      let d : CsiTick = record { unix_ts_ns = 0; ftm = 0; src_mac = [] } in
      let key : ℕ → ℕ = λ i. get_or (tick_times xs) i 0 in
      let order : List ℕ = sort_by_key key (range_map (λ i. i) 0 (length xs)) in
      let whole : length xs % 2 ^ 32 ≡ length xs = omega arith in
      let times : map key order ≡ tick_times (picked key xs d) =
        map-get_or (λ (t : CsiTick). t.unix_ts_ns) xs d order in
      (
        picked key xs d,
        rw (e, length-map (λ (t : CsiTick). t.unix_ts_ns) xs, whole)
            (ap₂ (λ (a b : List ℕ). (a, b)) times (map-get_or (λ (t : CsiTick). t.ftm) xs d order)),
        subst IsAscending times (sort-IsAscending key (range_map (λ i. i) 0 (length xs))),
        picked-IsRearranged key xs d,
      )
]
