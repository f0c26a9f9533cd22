-- ===== src/Csid/Fleet/Clock/Offset.antt =====
-- The estimate of crates/csid/src/fleet/clock.rs against the true offset of a node's clock.
use csid.Csid.Fleet.Clock.{
  Exchange, sub_ℤ, ltb_ℤ, as_i64, delay_ns, is_plausible, least_delay, best_sample, count_plausible,
  ClockHealth,
}
use mathlib.Core.List.{Memᴰ}
use mathlib.Core.Path.{subst}
use csid.Prelude.{
  ℕ, ◌+◌, ◌-◌, ◌/◌, ◌^◌, ◌≤◌, ◌<◌, max, ◌≡◌, refl, sym, ap, ◌∙◌, ◌⊎◌, inl, inr, Bool, true, false,
  ◌&&◌, Option, none, some, List, [], ◌∷◌, arith,
}
use csid.Prelude.{ltb, ltb→lt, Bool-cases, All}
use csid.Prelude.Int.{ℤ, pos, negsuc, pos_part, neg_part, sub_ℕ}

-- An exchange with a node whose clock is `theta` ahead: neither the probe nor the reply arrives
-- before it was sent.
abbrev pub IsExchange : ℤ → Exchange → Type 0
IsExchange theta e =
    (e.t1_ns + pos_part theta ≤ e.t2_ns + neg_part theta)
    × (e.t3_ns + neg_part theta ≤ e.t4_ns + pos_part theta)

abbrev pub IsStamped : Exchange → Type 0
IsStamped e = (e.t1_ns < 2 ^ 63) × (e.t2_ns < 2 ^ 63) × (e.t3_ns < 2 ^ 63) × (e.t4_ns < 2 ^ 63)

-- Two integers at most `r` apart.
abbrev pub IsWithin : ℕ → ℤ → ℤ → Type 0
IsWithin r a b =
    (pos_part a + neg_part b ≤ pos_part b + neg_part a + r)
    × (pos_part b + neg_part a ≤ pos_part a + neg_part b + r)

pub pos_part-sub_ℕ : (a b : ℕ) → pos_part (sub_ℕ a b) ≡ a - b
pos_part-sub_ℕ a b = ground arith

pub neg_part-sub_ℕ : (a b : ℕ) → neg_part (sub_ℕ a b) ≡ b - a
neg_part-sub_ℕ a b = ground arith

pub as_i64-small : (z : ℤ) → pos_part z < 2 ^ 63 → neg_part z ≤ 2 ^ 63 → as_i64 z ≡ z
as_i64-small (pos n) hp hn = ground arith
as_i64-small (negsuc n) hp hn = ground arith

difference_parts : (a b c d : ℕ) → pos_part (sub_ℤ (sub_ℕ a b) (sub_ℕ c d)) ≡ a + d - (b + c)
difference_parts a b c d =
    let x = sub_ℕ a b in
    let y = sub_ℕ c d in
    pos_part-sub_ℕ (pos_part x + neg_part y) (pos_part y + neg_part x)
    ∙ omega (arith, pos_part-sub_ℕ a b, neg_part-sub_ℕ a b, pos_part-sub_ℕ c d, neg_part-sub_ℕ c d)

module _ (e : Exchange) (h : IsStamped e) (k : is_plausible e ≡ true) where
  forward : (e.t1_ns ≤ e.t4_ns) × (e.t2_ns ≤ e.t3_ns)
  unfolding is_plausible
  forward = ground arith

  delay_lem : delay_ns e ≡ pos (e.t4_ns + e.t2_ns - (e.t1_ns + e.t3_ns))
  unfolding delay_ns
  delay_lem =
      let d = difference_parts e.t4_ns e.t1_ns e.t3_ns e.t2_ns in
      ap (λ (n : ℕ). as_i64 (pos n)) d
      ∙ as_i64-small (pos (e.t4_ns + e.t2_ns - (e.t1_ns + e.t3_ns))) (omega (arith, forward))
          (omega arith)

-- Of plausible samples with the delays a and b, the test of the least one reads the delays.
ltb_ℤ-delay_ns :
    (a b : Exchange)
    → IsStamped a
    → IsStamped b
    → is_plausible a ≡ true
    → is_plausible b ≡ true
    → ltb_ℤ (delay_ns a) (delay_ns b) ≡ ltb (pos_part (delay_ns a)) (pos_part (delay_ns b))
ltb_ℤ-delay_ns a b ha hb ka kb = rw (delay_lem a ha ka, delay_lem b hb kb) (zeroes _ _)
  where
    zeroes : (x y : ℕ) → ltb (x + 0) (y + 0) ≡ ltb x y
    zeroes x y = ground arith

-- The sample taken is one of the plausible ones, and none of them has a shorter delay.
abbrev IsLeast : Exchange → List Exchange → Type 0
IsLeast best es =
    All (λ e. is_plausible e ≡ true → pos_part (delay_ns best) ≤ pos_part (delay_ns e)) es

abbrev IsSampleOf : List Exchange → Option Exchange → Type 0
IsSampleOf es none = All (λ e. is_plausible e ≡ false) es
IsSampleOf es (some best) = (is_plausible best ≡ true) × IsLeast best es × Memᴰ best es

true_or_false : (b : Bool) {P : Type 0} → b ≡ true → b ≡ false → P
true_or_false b h k = cc

least_delay-IsSampleOf :
    (best : Exchange) (es : List Exchange)
    → IsStamped best
    → is_plausible best ≡ true
    → All IsStamped es
    → IsSampleOf (best ∷ es) (some (least_delay best es))
least_delay-IsSampleOf best [] h k hs = (k, ((λ _. omega arith), tt), Memᴰ.head refl)
least_delay-IsSampleOf best (e ∷ es) h k (he, hs) = elim (Bool-cases (is_plausible e)) [
  | inr unfit ↦
      kept (least_delay-IsSampleOf best es h k hs) (rw unfit refl)
        (λ fit. true_or_false (is_plausible e) fit unfit)
  | inl fit ↦
      let test = ltb_ℤ-delay_ns e best he h fit k in
      elim (Bool-cases (ltb (pos_part (delay_ns e)) (pos_part (delay_ns best)))) [
        | inl shorter ↦
            let (plausible, (first, rest), m) = least_delay-IsSampleOf e es he fit hs in
            let lt = ltb→lt (pos_part (delay_ns e)) (pos_part (delay_ns best)) shorter in
            let le = first fit in
            subst (λ r. IsSampleOf (best ∷ e ∷ es) (some r))
              (sym (taken (rw fit (rw test (rw shorter refl)))))
              (plausible, ((λ _. omega arith), (first, rest)), Memᴰ.tail m)
        | inr longer ↦
            kept (least_delay-IsSampleOf best es h k hs) (rw fit (rw test (rw longer refl)))
              (λ _. not_shorter (pos_part (delay_ns e)) (pos_part (delay_ns best)) longer)
      ]
]
  where
    not_shorter : (a b : ℕ) → ltb a b ≡ false → b ≤ a
    not_shorter a b q = ground arith

    taken :
        (is_plausible e && ltb_ℤ (delay_ns e) (delay_ns best)) ≡ true
        → least_delay best (e ∷ es) ≡ least_delay e es
    taken q = rw q refl

    mem_cases : {x : Exchange} → Memᴰ x (best ∷ es) → (x ≡ best) ⊎ Memᴰ x es
    mem_cases (Memᴰ.head q) = inl q
    mem_cases (Memᴰ.tail m) = inr m

    behind : {x : Exchange} → (x ≡ best) ⊎ Memᴰ x es → Memᴰ x (best ∷ e ∷ es)
    behind (inl q) = Memᴰ.head q
    behind (inr m) = Memᴰ.tail (Memᴰ.tail m)

    -- The best one so far stays.
    kept :
        IsSampleOf (best ∷ es) (some (least_delay best es))
        → (is_plausible e && ltb_ℤ (delay_ns e) (delay_ns best)) ≡ false
        → (is_plausible e ≡ true → pos_part (delay_ns best) ≤ pos_part (delay_ns e))
        → IsSampleOf (best ∷ e ∷ es) (some (least_delay best (e ∷ es)))
    kept (plausible, (first, rest), m) q longer =
        let le = first k in
        subst (λ r. IsSampleOf (best ∷ e ∷ es) (some r)) (sym (rw q refl))
          (
            plausible,
            (first, ((λ fit. let far = longer fit in omega arith), rest)),
            behind (mem_cases m),
          )

pub best_sample-IsSampleOf :
    (es : List Exchange) → All IsStamped es → IsSampleOf es (best_sample es)
unfolding best_sample
best_sample-IsSampleOf [] h = tt
best_sample-IsSampleOf (e ∷ es) (h, hs) = elim (Bool-cases (is_plausible e)) [
  | inl fit ↦ rw fit (least_delay-IsSampleOf e es h fit hs)
  | inr unfit ↦ rw unfit (later (best_sample es) (best_sample-IsSampleOf es hs) unfit)
]
  where
    later :
        (best : Option Exchange)
        → IsSampleOf es best
        → is_plausible e ≡ false
        → IsSampleOf (e ∷ es) best
    later none all unfit = (unfit, all)
    later (some best) (plausible, rest, m) unfit =
        (plausible, ((λ fit. true_or_false (is_plausible e) fit unfit), rest), Memᴰ.tail m)

-- What an estimate of a node `theta` ahead is worth: none where no exchange is plausible; else its
-- offset is within its uncertainty, and a nanosecond, of the true one, the uncertainty is no more than
-- any plausible exchange or the daemon gives, and no less than the daemon's.
abbrev pub IsEstimate : ℤ → List Exchange → ℕ → Option ClockHealth → Type 0
IsEstimate theta es ntp_bound none = All (λ e. is_plausible e ≡ false) es
IsEstimate theta es ntp_bound (some c) =
    IsWithin (c.uncertainty_ns + 1) c.offset theta
    × (ntp_bound ≤ c.uncertainty_ns)
    × All
        (λ e. is_plausible e ≡ true → c.uncertainty_ns ≤ max (pos_part (delay_ns e) / 2) ntp_bound)
        es
    × (c.samples ≡ count_plausible es)
