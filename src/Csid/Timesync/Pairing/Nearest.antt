-- ===== src/Csid/Timesync/Pairing/Nearest.antt =====
-- The two ticks that straddle a row, and the nearer of them.
use mathlib.Core.List.{Memᴰ}
use mathlib.Core.Path.{subst, ap₂}
use csid.Csid.Timesync.Pairing.{
  CsiTick, partition_point, lag_ns, unsigned_abs, nearer, consider, straddling, best_tick,
}
use csid.Csid.Timesync.Pairing.Order.{vectors, tick_times, IsAscending}
use csid.Prelude.Members.{All-weaken, All-with, All-at}
use csid.Prelude.{
  ℕ, zero, suc, ◌+◌, ◌-◌, ◌^◌, ◌≤◌, ◌<◌, ◌≡◌, refl, sym, ap, ◌∙◌, ◌⊎◌, inl, inr, true, false, ◌&&◌,
  Option, none, some, List, [], ◌∷◌, map, arith,
}
use csid.Prelude.{ltb, leb, if◌then◌else◌, ltb→lt, leb→le, Bool-cases, get_elem?, All}
use csid.Prelude.Int.{ℤ, sub_ℕ}

-- How far apart two stamps are.
abbrev pub distance : ℕ → ℕ → ℕ
distance t row = (t - row) + (row - t)

lag_ns-sub : (t row : ℕ) → t < 2 ^ 63 → row < 2 ^ 63 → lag_ns t row ≡ sub_ℕ t row
lag_ns-sub t row ht hr = ground arith

unsigned_abs-sub_ℕ : (t row : ℕ) → unsigned_abs (sub_ℕ t row) ≡ distance t row
unsigned_abs-sub_ℕ t row = ground arith

get_elem?-map {ℓ κ} :
    {A : Type ℓ} {B : Type κ} (f : A → B) (xs : List A) (i : ℕ) (a : A)
    → get_elem? xs i ≡ some a
    → get_elem? (map f xs) i ≡ some (f a)
get_elem?-map f [] i a h = cc
get_elem?-map f (x ∷ xs) zero a h = cc
get_elem?-map f (x ∷ xs) (suc i) a h = get_elem?-map f xs i a h

get_elem?-map-none {ℓ κ} :
    {A : Type ℓ} {B : Type κ} (f : A → B) (xs : List A) (i : ℕ)
    → get_elem? xs i ≡ none
    → get_elem? (map f xs) i ≡ none
get_elem?-map-none f [] i h = refl
get_elem?-map-none f (x ∷ xs) zero h = cc
get_elem?-map-none f (x ∷ xs) (suc i) h = get_elem?-map-none f xs i h

mem-get_elem? {ℓ} : {A : Type ℓ} (xs : List A) (i : ℕ) (a : A) → get_elem? xs i ≡ some a → Memᴰ a xs
mem-get_elem? [] i a h = cc
mem-get_elem? (x ∷ xs) zero a h = Memᴰ.head (cc)
mem-get_elem? (x ∷ xs) (suc i) a h = Memᴰ.tail (mem-get_elem? xs i a h)

-- The last tick before a row, which stands in front of the partition point.
abbrev IsBelow : ℕ → List CsiTick → ℕ → Type 0
IsBelow row ys i =
    ((i ≡ 0) × All (λ (c : CsiTick). row ≤ c.unix_ts_ns) ys)
    ⊎ ((j : ℕ) × (t : CsiTick) × (i ≡ suc j)
        × (get_elem? ys j ≡ some t)
        × (t.unix_ts_ns < row)
        × All (λ (c : CsiTick). c.unix_ts_ns < row → c.unix_ts_ns ≤ t.unix_ts_ns) ys)

-- The first tick not before a row, which stands at the partition point.
abbrev IsAbove : ℕ → List CsiTick → ℕ → Type 0
IsAbove row ys i =
    ((get_elem? ys i ≡ none) × All (λ (c : CsiTick). c.unix_ts_ns < row) ys)
    ⊎ ((t : CsiTick) × (get_elem? ys i ≡ some t)
        × (row ≤ t.unix_ts_ns)
        × All (λ (c : CsiTick). row ≤ c.unix_ts_ns → t.unix_ts_ns ≤ c.unix_ts_ns) ys)

All-of_times :
    (P : ℕ → Type 0) (ys : List CsiTick)
    → All P (tick_times ys)
    → All (λ (c : CsiTick). P c.unix_ts_ns) ys
All-of_times P [] h = tt
All-of_times P (y ∷ ys) (h, hs) = (h, All-of_times P ys hs)

module _ (row : ℕ) where
  straddle :
      (ys : List CsiTick)
      → IsAscending (tick_times ys)
      → let i = partition_point row (tick_times ys) in IsBelow row ys i × IsAbove row ys i
  unfolding partition_point
  straddle [] h = (inl (refl, tt), inl (refl, tt))
  straddle (y ∷ ys) (above, h) = elim (Bool-cases (ltb y.unix_ts_ns row)) [
    | inl e ↦
        let lt = ltb→lt y.unix_ts_ns row e in
        let (below, at) = straddle ys h in rw e (in_front lt below, behind lt at)
    | inr e ↦
        let le : row ≤ y.unix_ts_ns = ground arith in
        let later = All-of_times (λ u. y.unix_ts_ns ≤ u) ys above in
        rw e (
          inl (refl, (le, All-weaken (λ c k. omega arith) ys later)),
          inr (y, refl, le, ((λ k. omega arith), All-weaken (λ c k l. k) ys later)),
        )
  ]
    where
      in_front :
          y.unix_ts_ns < row
          → IsBelow row ys (partition_point row (tick_times ys))
          → IsBelow row (y ∷ ys) (suc (partition_point row (tick_times ys)))
      in_front lt (inl (e, all)) = inr (
        0,
        y,
        ap suc e,
        refl,
        lt,
        ((λ k. omega arith), All-weaken (λ c k l. absurd (omega arith)) ys all),
      )
      in_front lt (inr (j, t, e, at, k, all)) =
          let inside : y.unix_ts_ns ≤ t.unix_ts_ns =
            All-at (λ (c : CsiTick). y.unix_ts_ns ≤ c.unix_ts_ns) t ys (mem-get_elem? ys j t at)
              (All-of_times (λ u. y.unix_ts_ns ≤ u) ys above) in
          inr (suc j, t, ap suc e, at, k, ((λ l. inside), all))

      behind :
          y.unix_ts_ns < row
          → IsAbove row ys (partition_point row (tick_times ys))
          → IsAbove row (y ∷ ys) (suc (partition_point row (tick_times ys)))
      behind lt (inl (e, all)) = inl (e, (lt, all))
      behind lt (inr (t, at, k, all)) = inr (t, at, k, ((λ l. absurd (omega arith)), all))

-- The tick that a row is given: one of its transmitter's within the tolerance, and no other of them
-- is nearer; with its tick counter and its signed lag.
abbrev pub IsNearest : ℕ → ℕ → List CsiTick → ℕ × ℤ → Type 0
IsNearest tolerance_ns row ys (ftm, lag) =
    (t : CsiTick) × Memᴰ t ys
    × (ftm ≡ t.ftm)
    × (lag ≡ sub_ℕ t.unix_ts_ns row)
    × (distance t.unix_ts_ns row ≤ tolerance_ns)
    × All (λ (c : CsiTick). distance t.unix_ts_ns row ≤ distance c.unix_ts_ns row) ys

abbrev pub IsBest : ℕ → ℕ → List CsiTick → Option (ℕ × ℤ) → Type 0
IsBest tolerance_ns row ys none = All (λ (c : CsiTick). tolerance_ns < distance c.unix_ts_ns row) ys
IsBest tolerance_ns row ys (some best) = IsNearest tolerance_ns row ys best

abbrev pub IsStamped : List CsiTick → Type 0
IsStamped ys = All (λ (c : CsiTick). c.unix_ts_ns < 2 ^ 63) ys

module _ (tolerance_ns row : ℕ) (ys : List CsiTick) (hr : row < 2 ^ 63) (hs : IsStamped ys) where
  looked_at : ℕ → Option (ℕ × ℤ) → Option (ℕ × ℤ)
  looked_at i best =
      consider tolerance_ns row (get_elem? (vectors ys).0 i) (get_elem? (vectors ys).1 i) best

  looked_at-none : (i : ℕ) (best : Option (ℕ × ℤ)) → get_elem? ys i ≡ none → looked_at i best ≡ best
  unfolding looked_at consider
  looked_at-none i best e = rw (get_elem?-map-none (λ (t : CsiTick). t.unix_ts_ns) ys i e) refl

  looked_at-some :
      (i : ℕ) (t : CsiTick) (best : Option (ℕ × ℤ))
      → get_elem? ys i ≡ some t
      → looked_at i best ≡ (
          if leb (distance t.unix_ts_ns row) tolerance_ns && nearer (sub_ℕ t.unix_ts_ns row) best
          then some (t.ftm, sub_ℕ t.unix_ts_ns row)
          else best)
  unfolding looked_at consider
  looked_at-some i t best e =
      let small : t.unix_ts_ns < 2 ^ 63 =
        All-at (λ (c : CsiTick). c.unix_ts_ns < 2 ^ 63) t ys (mem-get_elem? ys i t e) hs in
      rw
        (
          get_elem?-map (λ (t : CsiTick). t.unix_ts_ns) ys i t e,
          get_elem?-map (λ (t : CsiTick). t.ftm) ys i t e,
          lag_ns-sub t.unix_ts_ns row small hr,
          unsigned_abs-sub_ℕ t.unix_ts_ns row,
        )
        refl

  -- A first candidate is taken when it is within the tolerance.
  looked_at-first :
      (i : ℕ) (t : CsiTick)
      → get_elem? ys i ≡ some t
      → ((distance t.unix_ts_ns row ≤ tolerance_ns)
          × (looked_at i none ≡ some (t.ftm, sub_ℕ t.unix_ts_ns row)))
        ⊎ ((tolerance_ns < distance t.unix_ts_ns row) × (looked_at i none ≡ none))
  looked_at-first i t e = elim (Bool-cases (leb (distance t.unix_ts_ns row) tolerance_ns)) [
    | inl k ↦
        inl
          (leb→le (distance t.unix_ts_ns row) tolerance_ns k, looked_at-some i t none e ∙ rw k refl)
    | inr k ↦ inr (ground arith, looked_at-some i t none e ∙ rw k refl)
  ]

  -- A second one is taken when it is also nearer than the first.
  looked_at-second :
      (j : ℕ) (b t : CsiTick)
      → get_elem? ys j ≡ some t
      → distance b.unix_ts_ns row ≤ tolerance_ns
      → let best : Option (ℕ × ℤ) = some (b.ftm, sub_ℕ b.unix_ts_ns row) in
        ((distance t.unix_ts_ns row < distance b.unix_ts_ns row)
          × (looked_at j best ≡ some (t.ftm, sub_ℕ t.unix_ts_ns row)))
        ⊎ ((distance b.unix_ts_ns row ≤ distance t.unix_ts_ns row) × (looked_at j best ≡ best))
  looked_at-second j b t et k =
      let best : Option (ℕ × ℤ) = some (b.ftm, sub_ℕ b.unix_ts_ns row) in
      let dt = distance t.unix_ts_ns row in
      let db = distance b.unix_ts_ns row in
      let test : nearer (sub_ℕ t.unix_ts_ns row) best ≡ ltb dt db =
        ap₂ ltb (unsigned_abs-sub_ℕ t.unix_ts_ns row) (unsigned_abs-sub_ℕ b.unix_ts_ns row) in
      let seen = looked_at-some j t best et in
      elim (Bool-cases (leb dt tolerance_ns && ltb dt db)) [
        | inl e ↦ inl (second_closer dt db e, seen ∙ rw test (rw e refl))
        | inr e ↦ inr (first_closer dt db k e, seen ∙ rw test (rw e refl))
      ]
    where
      second_closer : (dt db : ℕ) → (leb dt tolerance_ns && ltb dt db) ≡ true → dt < db
      second_closer dt db e = ground arith

      first_closer :
          (dt db : ℕ) → db ≤ tolerance_ns → (leb dt tolerance_ns && ltb dt db) ≡ false → db ≤ dt
      first_closer dt db k e = ground arith

  -- A tick within the tolerance that no other is nearer than is the answer.
  answer :
      (i : ℕ) (t : CsiTick)
      → get_elem? ys i ≡ some t
      → distance t.unix_ts_ns row ≤ tolerance_ns
      → All (λ (c : CsiTick). distance t.unix_ts_ns row ≤ distance c.unix_ts_ns row) ys
      → {best : Option (ℕ × ℤ)} → best ≡ some (t.ftm, sub_ℕ t.unix_ts_ns row)
      → IsBest tolerance_ns row ys best
  answer i t e k all found =
      subst (IsBest tolerance_ns row ys) (sym found) (t, mem-get_elem? ys i t e, refl, refl, k, all)

  no_answer :
      {best : Option (ℕ × ℤ)}
      → best ≡ none
      → All (λ (c : CsiTick). tolerance_ns < distance c.unix_ts_ns row) ys
      → IsBest tolerance_ns row ys best
  no_answer found all = subst (IsBest tolerance_ns row ys) (sym found) all

  -- A candidate that stands alone, as no other tick is nearer.
  alone :
      (i : ℕ) (t : CsiTick)
      → get_elem? ys i ≡ some t
      → All (λ (c : CsiTick). distance t.unix_ts_ns row ≤ distance c.unix_ts_ns row) ys
      → IsBest tolerance_ns row ys (looked_at i none)
  alone i t e all = elim (looked_at-first i t e) [
    | inl (k, found) ↦ answer i t e k all found
    | inr (k, found) ↦ no_answer found (All-weaken (λ c l. omega arith) ys all)
  ]

  -- Of two candidates the second is taken when it is nearer.
  two_candidates :
      (i j : ℕ) (b t : CsiTick)
      → get_elem? ys i ≡ some b
      → get_elem? ys j ≡ some t
      → All
          (λ (c : CsiTick).
            (distance b.unix_ts_ns row ≤ distance c.unix_ts_ns row)
            ⊎ (distance t.unix_ts_ns row ≤ distance c.unix_ts_ns row))
          ys
      → IsBest tolerance_ns row ys (looked_at j (looked_at i none))
  two_candidates i j b t eb et all = elim (looked_at-first i b eb) [
    | inr (k, found) ↦ rw found (elim (looked_at-first j t et) [
      | inl (l, second) ↦ answer j t et l (All-weaken (λ c m. ground arith) ys all) second
      | inr (l, second) ↦ no_answer second (All-weaken (λ c m. ground arith) ys all)
    ])
    | inl (k, found) ↦ rw found (elim (looked_at-second j b t et k) [
      | inl (l, second) ↦
          answer j t et (omega arith) (All-weaken (λ c m. ground arith) ys all) second
      | inr (l, second) ↦ answer i b eb k (All-weaken (λ c m. ground arith) ys all) second
    ])
  ]

  IsBest-straddle :
      (i : ℕ)
      → IsBelow row ys i
      → IsAbove row ys i
      → IsBest tolerance_ns row ys (straddling tolerance_ns row (vectors ys) i)
  unfolding straddling looked_at
  IsBest-straddle zero (inl (zeroth, all)) (inl (e, none_above)) =
      no_answer (looked_at-none 0 none e)
        (All-with (λ c k l. absurd (omega arith)) ys all none_above)
  IsBest-straddle zero (inl (zeroth, all)) (inr (t, e, above, near)) =
      alone 0 t e (All-with (λ c k l. omega (arith, l k)) ys all near)
  IsBest-straddle zero (inr (j, b, ej, eb, below, near_b)) above = absurd (omega arith)
  IsBest-straddle (suc i) (inl (zeroth, all)) above = absurd (omega arith)
  IsBest-straddle (suc i) (inr (j, b, ej, eb, below, near_b)) above =
      best_above i b (subst (λ k. get_elem? ys k ≡ some b) (omega arith) eb) below near_b above
    where
      sides :
          (c t b : ℕ)
          → b < row
          → row ≤ t
          → (c < row → c ≤ b)
          → (row ≤ c → t ≤ c)
          → (distance b row ≤ distance c row) ⊎ (distance t row ≤ distance c row)
      sides c t b below above k l = elim (Bool-cases (ltb c row)) [
        | inl e ↦ let near = k (ltb→lt c row e) in inl (omega arith)
        | inr e ↦ let le : row ≤ c = ground arith in let near = l le in inr (omega arith)
      ]

      best_above :
          (i : ℕ) (b : CsiTick)
          → get_elem? ys i ≡ some b
          → b.unix_ts_ns < row
          → All (λ (c : CsiTick). c.unix_ts_ns < row → c.unix_ts_ns ≤ b.unix_ts_ns) ys
          → IsAbove row ys (suc i)
          → IsBest tolerance_ns row ys (looked_at (suc i) (looked_at i none))
      best_above i b eb below near_b (inl (e, none_above)) =
          subst (IsBest tolerance_ns row ys) (sym (looked_at-none (suc i) (looked_at i none) e))
            (alone i b eb (All-with (λ c k l. omega (arith, k l)) ys near_b none_above))
      best_above i b eb below near_b (inr (t, e, above, near)) = two_candidates i (suc i) b t eb e (
          All-with (λ c k l. sides (c.unix_ts_ns) (t.unix_ts_ns) (b.unix_ts_ns) below above k l) ys
            near_b near)

  pub best_tick-IsBest :
      IsAscending (tick_times ys)
      → IsBest tolerance_ns row ys (best_tick tolerance_ns row (vectors ys))
  unfolding best_tick
  best_tick-IsBest h =
      let (below, above) = straddle row ys h in
      IsBest-straddle (partition_point row (tick_times ys)) below above
