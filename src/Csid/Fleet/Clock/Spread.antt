-- ===== src/Csid/Fleet/Clock/Spread.antt =====
-- The fleet's skew of crates/csid/src/fleet/clock.rs against the offsets of all its nodes.
use csid.Csid.Fleet.Clock.{
  sub_ℤ, ltb_ℤ, as_i64, magnitude, ClockHealth, Entry, SkewReport, no_names, within_budget, lowered,
  raised, Survey, note_host, survey, spread, fleet_skew,
}
use csid.Csid.Fleet.Clock.Offset.{IsWithin, pos_part-sub_ℕ, neg_part-sub_ℕ, as_i64-small}
use csid.Prelude.Members.{All-weaken, All-with, All-at}
use mathlib.Core.List.{Memᴰ}
use mathlib.Core.Path.{subst}
use csid.Prelude.{
  ℕ, ◌+◌, ◌-◌, ◌^◌, ◌≤◌, ◌<◌, ◌≡◌, refl, sym, ap, ◌∙◌, inl, inr, Bool, true, false, ◌&&◌, Option,
  none, some, List, [], ◌∷◌, ◌++◌, append-nil, append_assoc, arith,
}
use csid.Prelude.{leb, leb→le, Bool-cases, length, All, All-append}
use csid.Prelude.Int.{ℤ, pos, pos_part, neg_part}

abbrev pub Estimates : Type 0
Estimates = List (List ℕ × Option ClockHealth)

-- The hosts with an estimate, and those without, in order.
abbrev pub measured_of : Estimates → List Entry
measured_of [] = []
measured_of ((host, none) ∷ es) = measured_of es
measured_of ((host, some c) ∷ es) = (host, c.offset, c.uncertainty_ns) ∷ measured_of es

abbrev pub missing_of : Estimates → List (List ℕ)
missing_of [] = []
missing_of ((host, none) ∷ es) = host ∷ missing_of es
missing_of ((host, some c) ∷ es) = missing_of es

-- `a` is not above `b`.
abbrev pub IsAtMost : ℤ → ℤ → Type 0
IsAtMost a b = pos_part a + neg_part b ≤ pos_part b + neg_part a

abbrev IsLowest : List Entry → Option Entry → Type 0
IsLowest xs none = xs ≡ []
IsLowest xs (some e) = Memᴰ e xs × All (λ (x : Entry). IsAtMost (e.1) (x.1)) xs

abbrev IsHighest : List Entry → Option Entry → Type 0
IsHighest xs none = xs ≡ []
IsHighest xs (some e) = Memᴰ e xs × All (λ (x : Entry). IsAtMost (x.1) (e.1)) xs

mem_end : (e : Entry) (xs : List Entry) → Memᴰ e (xs ++ (e ∷ []))
mem_end e [] = Memᴰ.head refl
mem_end e (x ∷ xs) = Memᴰ.tail (mem_end e xs)

mem_before : {d : Entry} (e : Entry) (xs : List Entry) → Memᴰ d xs → Memᴰ d (xs ++ (e ∷ []))
mem_before e (x ∷ xs) (Memᴰ.head q) = Memᴰ.head q
mem_before e (x ∷ xs) (Memᴰ.tail m) = Memᴰ.tail (mem_before e xs m)
mem_before e [] m = elim m [ ]

not_below : (a b : ℤ) → ltb_ℤ a b ≡ false → IsAtMost b a
not_below a b h = ground arith

below : (a b : ℤ) → ltb_ℤ a b ≡ true → IsAtMost a b
below a b h = ground arith

lowered-IsLowest :
    (e : Entry) (xs : List Entry) (lo : Option Entry)
    → IsLowest xs lo
    → IsLowest (xs ++ (e ∷ [])) (lowered e lo)
lowered-IsLowest e xs none h =
    subst (λ (l : List Entry). IsLowest (l ++ (e ∷ [])) (some e)) (sym h)
      (Memᴰ.head refl, (omega arith, tt))
lowered-IsLowest e xs (some lo) (m, all) = elim (Bool-cases (ltb_ℤ (e.1) (lo.1))) [
  | inl lt ↦
      let le = below (e.1) (lo.1) lt in
      rw lt (
        mem_end e xs,
        All-append _ xs (e ∷ []) (All-weaken (λ (x : Entry) k. omega arith) xs all)
            (omega arith, tt),
      )
  | inr ge ↦ rw ge (mem_before e xs m, All-append _ xs (e ∷ []) all (not_below (e.1) (lo.1) ge, tt))
]

raised-IsHighest :
    (e : Entry) (xs : List Entry) (hi : Option Entry)
    → IsHighest xs hi
    → IsHighest (xs ++ (e ∷ [])) (raised e hi)
raised-IsHighest e xs none h =
    subst (λ (l : List Entry). IsHighest (l ++ (e ∷ [])) (some e)) (sym h)
      (Memᴰ.head refl, (omega arith, tt))
raised-IsHighest e xs (some hi) (m, all) = elim (Bool-cases (ltb_ℤ (hi.1) (e.1))) [
  | inl lt ↦
      let le = below (hi.1) (e.1) lt in
      rw lt (
        mem_end e xs,
        All-append _ xs (e ∷ []) (All-weaken (λ (x : Entry) k. omega arith) xs all)
            (omega arith, tt),
      )
  | inr ge ↦ rw ge (mem_before e xs m, All-append _ xs (e ∷ []) all (not_below (hi.1) (e.1) ge, tt))
]

-- What the survey holds after the hosts with the entries `xs` and those missing.
abbrev IsSurvey : List Entry → List (List ℕ) → Survey → Type 0
IsSurvey xs missing s = (s.missing ≡ missing) × IsLowest xs s.lo × IsHighest xs s.hi

survey-IsSurvey :
    (es : Estimates) (xs : List Entry) (missing : List (List ℕ)) (s : Survey)
    → IsSurvey xs missing s
    → IsSurvey (xs ++ measured_of es) (missing ++ missing_of es) (survey es s)
survey-IsSurvey [] xs missing s (gone, lo, hi) = (
  gone ∙ sym (append-nil missing),
  subst (λ l. IsLowest l s.lo) (sym (append-nil xs)) lo,
  subst (λ l. IsHighest l s.hi) (sym (append-nil xs)) hi,
)
survey-IsSurvey ((host, none) ∷ es) xs missing s (gone, lo, hi) =
    subst (λ m. IsSurvey (xs ++ measured_of es) m (survey es (note_host (host, none) s)))
      (append_assoc missing (host ∷ []) (missing_of es))
      (survey-IsSurvey es xs (missing ++ (host ∷ [])) (note_host (host, none) s)
        (ap (λ l. l ++ (host ∷ [])) gone, lo, hi))
survey-IsSurvey ((host, some c) ∷ es) xs missing s (gone, lo, hi) =
    let e : Entry = (host, c.offset, c.uncertainty_ns) in
    subst (λ l. IsSurvey l (missing ++ missing_of es) (survey es (note_host (host, some c) s)))
      (append_assoc xs (e ∷ []) (measured_of es))
      (survey-IsSurvey es (xs ++ (e ∷ [])) missing (note_host (host, some c) s)
        (gone, lowered-IsLowest e xs s.lo lo, raised-IsHighest e xs s.hi hi))

length-measured_of : (es : Estimates) → length es ≡ length (measured_of es) + length (missing_of es)
length-measured_of [] = omega arith
length-measured_of ((host, none) ∷ es) = omega (arith, length-measured_of es)
length-measured_of ((host, some c) ∷ es) = omega (arith, length-measured_of es)

-- Offsets and uncertainties of less than about seventy years.
abbrev pub IsSmall : Entry → Type 0
IsSmall x = (magnitude (x.1) < 2 ^ 61) × (x.2 < 2 ^ 61)

-- The report of the measured hosts `xs`: without one, a skew of nothing; else the lowest and the
-- highest offset, their difference, and with it their two uncertainties.
abbrev pub IsSpread : List Entry → ℤ × ℕ × Option (List ℕ × List ℕ) → Type 0
IsSpread xs (skew, upper, none) = (xs ≡ []) × (skew ≡ pos 0) × (upper ≡ 0)
IsSpread xs (skew, upper, some (ln, hn)) =
    (lo : Entry) × (hi : Entry) × Memᴰ lo xs
    × Memᴰ hi xs
    × (ln ≡ lo.0)
    × (hn ≡ hi.0)
    × (skew ≡ sub_ℤ (hi.1) (lo.1))
    × (upper ≡ magnitude skew + lo.2 + hi.2)
    × All (λ (x : Entry). All (λ (y : Entry). IsWithin (magnitude skew) (x.1) (y.1)) xs) xs

difference :
    (a b : ℤ)
    → (pos_part (sub_ℤ a b) ≡ pos_part a + neg_part b - (pos_part b + neg_part a))
      × (neg_part (sub_ℤ a b) ≡ pos_part b + neg_part a - (pos_part a + neg_part b))
difference a b = (
  pos_part-sub_ℕ (pos_part a + neg_part b) (pos_part b + neg_part a),
  neg_part-sub_ℕ (pos_part a + neg_part b) (pos_part b + neg_part a),
)

-- Between the lowest and the highest no two are further apart than these.
IsWithin-ends :
    (lo hi x y : ℤ)
    → IsAtMost lo x
    → IsAtMost x hi
    → IsAtMost lo y
    → IsAtMost y hi
    → IsWithin (magnitude (sub_ℤ hi lo)) x y
IsWithin-ends lo hi x y lx hx ly hy =
    let d = difference hi lo in (omega (arith, d), omega (arith, d))

module _ (xs : List Entry) (small : All IsSmall xs) where
  between :
      (lo hi : Entry)
      → IsLowest xs (some lo)
      → IsHighest xs (some hi)
      → All
          (λ (x : Entry).
            All (λ (y : Entry). IsWithin (magnitude (sub_ℤ (hi.1) (lo.1))) (x.1) (y.1)) xs)
          xs
  between lo hi (ml, low) (mh, high) =
      All-with
        (λ (x : Entry) lx hx.
          All-with (λ (y : Entry) ly hy. IsWithin-ends (lo.1) (hi.1) (x.1) (y.1) lx hx ly hy) xs low
            high)
        xs low high

  spread-IsSpread :
      (lo hi : Option Entry) → IsLowest xs lo → IsHighest xs hi → IsSpread xs (spread lo hi)
  spread-IsSpread none hi hl hh = (hl, refl, refl)
  spread-IsSpread (some lo) none hl hh = (hh, refl, refl)
  spread-IsSpread (some lo) (some hi) (ml, low) (mh, high) =
      let (ls, lu) = All-at IsSmall lo xs ml small in
      let (hs, hu) = All-at IsSmall hi xs mh small in
      let d = difference (hi.1) (lo.1) in
      let exact : as_i64 (sub_ℤ (hi.1) (lo.1)) ≡ sub_ℤ (hi.1) (lo.1) =
        as_i64-small (sub_ℤ (hi.1) (lo.1)) (omega (arith, d)) (omega (arith, d)) in
      (
        lo,
        hi,
        ml,
        mh,
        refl,
        refl,
        exact,
        rw exact (omega (arith, d)),
        rw exact (between lo hi (ml, low) (mh, high)),
      )

-- The report of a fleet: which hosts were measured and which not; of the measured ones the spread.
abbrev pub IsReport : Estimates → ℕ → SkewReport → Type 0
IsReport es budget_ns r =
    (r.measured ≡ length (measured_of es))
    × (r.unmeasured ≡ missing_of es)
    × (r.budget_ns ≡ budget_ns)
    × IsSpread (measured_of es) (r.skew_ns, r.skew_upper_ns, r.extremes)

-- A report counts every host once, as measured or by its name as not; its skew is the difference of
-- two measured hosts' offsets, which it names, and no two measured hosts' offsets are further apart;
-- its upper value adds the uncertainties of these two. Offsets and uncertainties are below 2^61.
pub fleet_skew-IsReport :
    (es : Estimates) (budget_ns : ℕ)
    → All IsSmall (measured_of es)
    → IsReport es budget_ns (fleet_skew es budget_ns)
unfolding fleet_skew
fleet_skew-IsReport es budget_ns small =
    let (gone, lo, hi) =
      survey-IsSurvey es [] [] (record { missing = []; lo = none; hi = none }) (refl, refl, refl) in
    let s = survey es (record { missing = []; lo = none; hi = none }) in
    (
      omega (arith, length-measured_of es, ap length gone),
      gone,
      refl,
      spread-IsSpread (measured_of es) small s.lo s.hi lo hi,
    )

in_budget :
    (xs : List Entry) (skew : ℤ) (upper : ℕ) (extremes : Option (List ℕ × List ℕ)) (budget_ns : ℕ)
    → IsSpread xs (skew, upper, extremes)
    → upper ≤ budget_ns
    → All (λ (x : Entry). All (λ (y : Entry). IsWithin budget_ns (x.1) (y.1)) xs) xs
in_budget xs skew upper none budget_ns (e, _, _) le =
    subst
      (λ (l : List Entry).
        All (λ (x : Entry). All (λ (y : Entry). IsWithin budget_ns (x.1) (y.1)) l) l)
      (sym e) tt
in_budget xs skew upper (some ends) budget_ns (lo, hi, ml, mh, ln, hn, es, eu, all) le =
    All-weaken (λ (x : Entry) near. All-weaken (λ (y : Entry). wider_pair (x.1) (y.1)) xs near) xs
      all
  where
    wider_pair : (a b : ℤ) → IsWithin (magnitude skew) a b → IsWithin budget_ns a b
    wider_pair a b (k, l) = (omega (arith, eu), omega (arith, eu))

no_names-nil : (hs : List (List ℕ)) → no_names hs ≡ true → hs ≡ []
no_names-nil [] h = refl
no_names-nil (n ∷ hs) h = cc

verdict :
    (r : SkewReport)
    → within_budget r ≡ true
    → (r.unmeasured ≡ []) × (1 ≤ r.measured) × (r.skew_upper_ns ≤ r.budget_ns)
unfolding within_budget
verdict r h =
    let (left, third) = and_parts (no_names r.unmeasured && leb 1 r.measured) _ h in
    let (first, second) = and_parts (no_names r.unmeasured) (leb 1 r.measured) left in
    (
      no_names-nil r.unmeasured first,
      leb→le 1 r.measured second,
      leb→le r.skew_upper_ns r.budget_ns third,
    )
  where
    and_parts : (a b : Bool) → (a && b) ≡ true → (a ≡ true) × (b ≡ true)
    and_parts a b q = ground arith

-- A report that is within the budget has an estimate of every host, at least one, and no two of
-- their offsets are further apart than the budget. Offsets and uncertainties are below 2^61.
pub within_budget-fleet_skew :
    (es : Estimates) (budget_ns : ℕ)
    → All IsSmall (measured_of es)
    → within_budget (fleet_skew es budget_ns) ≡ true
    → (missing_of es ≡ [])
      × (1 ≤ length es)
      × All
          (λ (x : Entry). All (λ (y : Entry). IsWithin budget_ns (x.1) (y.1)) (measured_of es))
          (measured_of es)
within_budget-fleet_skew es budget_ns small h =
    let r = fleet_skew es budget_ns in
    let (measured, gone, budget, found) = fleet_skew-IsReport es budget_ns small in
    let (names, one, upper) = verdict r h in
    let none_missing = sym gone ∙ names in
    (
      none_missing,
      omega (arith, measured, length-measured_of es),
      in_budget (measured_of es) r.skew_ns r.skew_upper_ns r.extremes budget_ns found
          (omega (arith, budget)),
    )
