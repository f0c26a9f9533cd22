-- ===== src/Csiq/Unwrap.antt =====
-- crates/csiq/src/lib.rs, `FtmUnwrapper`: the 32-bit tick counter made monotonic. `wraps` and the
-- ticks are u64, and wrap as in a release build.
use csid.Prelude.{
  ℕ, ◌+◌, ◌-◌, ◌*◌, ◌/◌, ◌%◌, ◌^◌, ◌≤◌, ◌<◌, ◌≡◌, refl, ap, ◌∙◌, Bool, false, Option, none, some,
  List, [], ◌∷◌, map, arith,
}
use csid.Prelude.{ltb, if◌then◌else◌, All}
use mathlib.Core.Path.{ap₂}
use csid.Csiq.Record.{IsU32, IsU64}

pub record FtmUnwrapper : Type 0 where
  pub last : Option ℕ
  pub wraps : ℕ

abbrev pub new : FtmUnwrapper
new = record { last = none; wraps = 0 }

-- Whether the clock has wrapped since the last value.
abbrev has_wrapped : Option ℕ → ℕ → Bool
has_wrapped none raw = false
has_wrapped (some prev) raw = ltb raw prev

unfoldable pub push : FtmUnwrapper → ℕ → FtmUnwrapper × ℕ
push u raw =
    let wraps = if has_wrapped u.last raw then (u.wraps + 1) % 2 ^ 64 else u.wraps in
    (record { last = some raw; wraps = wraps }, (wraps * 2 ^ 32 + raw) % 2 ^ 64)

-- The ticks for a sequence of raw values.
unfoldable pub push_all : FtmUnwrapper → List ℕ → List ℕ
push_all u [] = []
push_all u (raw ∷ raws) = let (u', ticks) = push u raw in ticks ∷ push_all u' raws

-- The true tick counts of successive records: they never fall, and rise by less than one turn of
-- the 32-bit clock from record to record.
abbrev pub Advances : ℕ → List ℕ → Type 0
Advances now [] = Unit {0}
Advances now (t ∷ ts) = (now ≤ t) × (t < now + 4294967296) × Advances t ts

abbrev low_word : ℕ → ℕ
low_word t = t % 4294967296

-- The unwrapper that has just returned `now`.
abbrev standing_at : ℕ → FtmUnwrapper
standing_at now = record { last = some (now % 4294967296); wraps = now / 4294967296 }

push_follows :
    (now t : ℕ)
    → now ≤ t
    → t < now + 4294967296
    → IsU64 t
    → push (standing_at now) (low_word t) ≡ (standing_at t, t)
unfolding push
push_follows now t lo hi small = ground arith

push_all-follows :
    (now : ℕ) (ts : List ℕ)
    → Advances now ts
    → All IsU64 ts
    → push_all (standing_at now) (map low_word ts) ≡ ts
unfolding push_all
push_all-follows now [] h small = refl
push_all-follows now (t ∷ ts) (lo, hi, h) (small, all) =
    rw (push_follows now t lo hi small) (ap (λ x. t ∷ x) (push_all-follows t ts h all))

-- Where the first true tick count lies in the clock's first turn, the counts advance by less than a
-- turn from record to record, and all are below 2^64, the unwrapper recovers every count from its low
-- 32 bits.
pub push_all-map-low_word :
    (t : ℕ) (ts : List ℕ)
    → IsU32 t
    → Advances t ts
    → All IsU64 ts
    → push_all new (map low_word (t ∷ ts)) ≡ t ∷ ts
unfolding push_all push
push_all-map-low_word t ts h hs small =
    let low : (0 + t % 4294967296) % 2 ^ 64 ≡ t = omega arith in
    let high : 0 ≡ t / 4294967296 = omega arith in
    ap₂ ◌∷◌ low (
      ap (λ (w : ℕ). push_all (record { last = some (low_word t); wraps = w }) (map low_word ts))
        high
      ∙ push_all-follows t ts hs small)

-- From one record to the next the ticks rise by the difference of the raw values modulo 2^32, so
-- they never fall, while the wraps leave room in 64 bits.
pub push-push :
    (u : FtmUnwrapper) (a b : ℕ)
    → IsU32 a
    → IsU32 b
    → u.wraps + 2 < 2 ^ 32
    → (push (push u a).0 b).1 ≡ (push u a).1 + (b + 4294967296 - a) % 4294967296
unfolding push
push-push u a b ha hb room = ground arith
