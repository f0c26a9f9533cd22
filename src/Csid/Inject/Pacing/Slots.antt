-- ===== src/Csid/Inject/Pacing/Slots.antt =====
-- The slots of the paced loop of crates/csid/src/inject.rs, and their deadlines.
use mathlib.Core.Path.{subst}
use native.Mathlib.Nat.{mul-add, mul-div-le, lt-mul-div-succ}
use csid.Prelude.{
  ℕ, ◌+◌, ◌-◌, ◌*◌, ◌/◌, ◌%◌, ◌^◌, ◌≤◌, ◌<◌, max, ◌≡◌, refl, ap, ◌∙◌, ◌⊎◌, inl, inr, Bool, List, [],
  ◌∷◌, arith,
}
use csid.Prelude.{ltb, ltb→lt, Bool-cases, All}
use csid.Csid.Inject.Pacing.{Pacer, start, Round, transmit, skip_missed, pace, run_loop}

-- The slots that the loop has dealt with.
abbrev pub slots : Pacer → ℕ
slots s = s.sent + s.errors + s.skipped

-- Every slot up to the next was sent, failed or skipped, and the counter numbers the frames.
pub record IsPaced (t0 period : ℕ) (s : Pacer) : Type 0 where
  pub on_grid : s.next ≡ t0 + period * slots s
  pub numbered : s.seq ≡ s.sent + s.errors
  pub bounded : slots s ≤ 2 ^ 32

-- A round on a clock that does not run back, within 2^32 periods of the start.
abbrev pub IsTimely : ℕ → ℕ → Round → Type 0
IsTimely t0 period r = (r.now ≤ r.later) × (r.later < t0 + period * 2 ^ 32)

-- A round before the deadline changes nothing. Otherwise the due slot is tried, and the next deadline
-- is that of the slot behind it where that has not passed, and else the last one that has: the slots
-- between are skipped, and less than a period has passed since the next deadline.
abbrev pub IsRound : ℕ → Round → Pacer → Pacer → Type 0
IsRound period r s t =
    ((r.now < s.next) × (t ≡ s))
    ⊎ ((s.next ≤ r.now)
        × (t.seq ≡ s.seq + 1)
        × (r.later < t.next + period)
        × ((t.next ≡ s.next + period) ⊎ (t.next ≤ r.later)))

-- The rounds of a run, each with the states around it.
abbrev pub IsRun : ℕ → List Round → Pacer → Type 0
IsRun period [] s = Unit
IsRun period (r ∷ rs) s = IsRound period r s (pace period r s) × IsRun period rs (pace period r s)

module _ (t0 period : ℕ) (pos_period : 0 < period) where
  mul_suc : (p n : ℕ) → p * (n + 1) ≡ p * n + p
  mul_suc p n = grind arith

  slots_within : (n x : ℕ) → period * n ≤ x → x < period * 2 ^ 32 → n < 2 ^ 32
  slots_within n x h k = grind arith

  -- A due slot is dealt with: one slot more, and its deadline a period on.
  transmit-IsPaced :
      (now : ℕ) (a : Bool) (s : Pacer)
      → s.next ≤ now
      → now < t0 + period * 2 ^ 32
      → IsPaced t0 period s
      → IsPaced t0 period (transmit period a s)
  unfolding transmit
  transmit-IsPaced now a s due end p =
      let grid = p.on_grid in
      let count = p.numbered in
      let room = slots_within (slots s) (now - t0) (omega arith) (omega arith) in
      let step = mul_suc period (slots s) in
      let one : slots (transmit period a s) ≡ slots s + 1 = ground arith in
      let grown = ap (λ (n : ℕ). period * n) one in
      record { on_grid = omega arith; numbered = ground arith; bounded = omega arith }

  -- Skipping `m` slots, where the time has passed so many deadlines.
  abbrev jump : ℕ → Pacer → Pacer
  jump m s = record s {
    skipped = (s.skipped + m % 2 ^ 64) % 2 ^ 64;
    next = s.next + period * (m % 2 ^ 32);
  }

  jump-IsPaced :
      (later m : ℕ) (s : Pacer)
      → s.next < later
      → later < t0 + period * 2 ^ 32
      → period * m ≤ later - s.next
      → later - s.next < period * (m + 1)
      → IsPaced t0 period s
      → IsPaced t0 period (jump m s) × (later < (jump m s).next + period)
  jump-IsPaced later m s stalled end behind ahead p =
      let grid = p.on_grid in
      let count = p.numbered in
      let step = mul_suc period m in
      let sum = mul-add period (slots s) m in
      let room = slots_within (slots s + m) (later - t0) (omega arith) (omega arith) in
      let whole : m % 2 ^ 32 ≡ m = omega arith in
      let product = ap (λ (n : ℕ). period * n) whole in
      let total : slots (jump m s) ≡ slots s + m = omega arith in
      let grown = ap (λ (n : ℕ). period * n) total in
      (record { on_grid = omega arith; numbered = omega arith; bounded = omega arith }, omega arith)

  skip_missed-IsPaced :
      (later : ℕ) (s : Pacer)
      → later < t0 + period * 2 ^ 32
      → IsPaced t0 period s
      → IsPaced t0 period (skip_missed period later s)
        × (later < (skip_missed period later s).next + period)
  unfolding skip_missed
  skip_missed-IsPaced later s end p =
      let one_period : max period 1 ≡ period = omega arith in
      let ahead : later - s.next < period * ((later - s.next) / period + 1) =
        lt-mul-div-succ (later - s.next) pos_period in
      let behind : period * ((later - s.next) / period) ≤ later - s.next =
        mul-div-le (later - s.next) period in
      let jumped = λ (stalled : s.next < later).
        jump-IsPaced later ((later - s.next) / period) s stalled end behind ahead p in
      elim (Bool-cases (ltb s.next later)) [
        | inr on_time ↦ rw on_time (p, ground arith)
        | inl stalled ↦
            rw (stalled, one_period)
              (elim (Bool-cases (ltb 0 ((later - s.next) / period))) [
                | inl some_missed ↦ rw some_missed (jumped (ltb→lt s.next later stalled))
                | inr no_missed ↦
                    let zero_missed : (later - s.next) / period ≡ 0 = ground arith in
                    let short : later - s.next < period * (0 + 1) =
                      subst (λ (n : ℕ). later - s.next < period * (n + 1)) zero_missed ahead in
                    let step = mul_suc period 0 in rw no_missed (p, omega arith)
              ])
      ]

  -- Skipping leaves the number of the frame as it is.
  skip_missed-seq :
      (r : Round) (s : Pacer)
      → IsPaced t0 period s
      → (skip_missed period r.later (transmit period r.accepted s)).seq ≡ s.seq + 1
  unfolding skip_missed transmit
  skip_missed-seq r s p = let count = p.numbered in let few = p.bounded in ground arith

  -- Only slots whose deadline has passed are skipped.
  skip_missed-next :
      (later : ℕ) (s : Pacer)
      → later - s.next < period * 2 ^ 32
      → ((skip_missed period later s).next ≡ s.next) ⊎ ((skip_missed period later s).next ≤ later)
  unfolding skip_missed
  skip_missed-next later s near =
      let m : ℕ = (later - s.next) / max period 1 in
      let one_period : max period 1 ≡ period = omega arith in
      let behind : period * ((later - s.next) / period) ≤ later - s.next =
        mul-div-le (later - s.next) period in
      elim (Bool-cases (ltb s.next later)) [
        | inr on_time ↦ rw on_time (inl refl)
        | inl stalled ↦
            rw (stalled, one_period)
              (elim (Bool-cases (ltb 0 ((later - s.next) / period))) [
                | inl some_missed ↦
                    let few : (later - s.next) / period < 2 ^ 32 =
                      slots_within ((later - s.next) / period) (later - s.next) behind near in
                    let whole : (later - s.next) / period % 2 ^ 32 ≡ (later - s.next) / period =
                      omega (arith, few) in
                    let product = ap (λ (n : ℕ). period * n) whole in
                    let passed = ltb→lt s.next later stalled in rw some_missed (inr (omega arith))
                | inr no_missed ↦ rw no_missed (inl refl)
              ])
      ]

  transmit-next : (a : Bool) (s : Pacer) → (transmit period a s).next ≡ s.next + period
  unfolding transmit
  transmit-next a s = refl

  pace-IsPaced :
      (r : Round) (s : Pacer)
      → IsTimely t0 period r
      → IsPaced t0 period s
      → IsPaced t0 period (pace period r s) × IsRound period r s (pace period r s)
  unfolding pace
  pace-IsPaced r s timely p = elim (Bool-cases (ltb r.now s.next)) [
    | inl early ↦ rw early (p, inl (ltb→lt r.now s.next early, refl))
    | inr due ↦
        let reached : s.next ≤ r.now = ground arith in
        let within : r.now < t0 + period * 2 ^ 32 = omega arith in
        let (skipped_over, no_backlog) =
          skip_missed-IsPaced r.later (transmit period r.accepted s) timely.1
            (transmit-IsPaced r.now r.accepted s reached within p) in
        let next = transmit-next r.accepted s in
        let past = skip_missed-next r.later (transmit period r.accepted s) (omega arith) in
        let t : Pacer = skip_missed period r.later (transmit period r.accepted s) in
        let only_passed : (t.next ≡ s.next + period) ⊎ (t.next ≤ r.later) = elim past [
          | inl e ↦ inl (e ∙ next)
          | inr le ↦ inr le
        ] in
        rw due (skipped_over, inr (reached, skip_missed-seq r s p, no_backlog, only_passed))
  ]

  run_loop-IsPaced :
      (rs : List Round) (s : Pacer)
      → All (IsTimely t0 period) rs
      → IsPaced t0 period s
      → IsPaced t0 period (run_loop period rs s) × IsRun period rs s
  unfolding run_loop
  run_loop-IsPaced [] s all p = (p, tt)
  run_loop-IsPaced (r ∷ rs) s (timely, all) p =
      let (p1, round) = pace-IsPaced r s timely p in
      let (p2, run) = run_loop-IsPaced rs (pace period r s) all p1 in (p2, (round, run))

  start-IsPaced : IsPaced t0 period (start t0)
  start-IsPaced = record { on_grid = grid; numbered = refl; bounded = omega arith }
    where
      grid : t0 ≡ t0 + period * 0
      grid = omega arith

-- The injector's pacing, for a run of at most 2^32 periods on a clock that does not run back: the
-- next deadline is the start and one period for each slot sent, failed or skipped, and the counter
-- numbers the tries. A round before the deadline changes nothing; one at or after it tries that slot,
-- and skips just the slots behind it that are missed by a period and more: the next deadline is a
-- period on, or has passed by then, but by less than a period, however long the try took.
pub run_loop-slots :
    (t0 period : ℕ) (rs : List Round)
    → 0 < period
    → All (IsTimely t0 period) rs
    → ((run_loop period rs (start t0)).next ≡ t0 + period * slots (run_loop period rs (start t0)))
      × ((run_loop period rs (start t0)).seq
          ≡ (run_loop period rs (start t0)).sent + (run_loop period rs (start t0)).errors)
      × IsRun period rs (start t0)
run_loop-slots t0 period rs pos_period all =
    let (p, run) =
      run_loop-IsPaced t0 period pos_period rs (start t0) all
        (start-IsPaced t0 period pos_period) in
    (p.on_grid, p.numbered, run)
