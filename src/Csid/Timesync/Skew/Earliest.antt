-- ===== src/Csid/Timesync/Skew/Earliest.antt =====
-- The index of crates/csid/src/timesync/skew.rs: by sequence number, in order, the earliest arrival.
use csid.Csid.Timesync.Skew.{Arrival, SeqIndex, note_arrival, index_from, seq_index, arrival_at}
use csid.Prelude.Members.{All-weaken}
use csid.Prelude.{
  ℕ, ◌<◌, min, ◌≡◌, refl, sym, ap, ◌∙◌, ◌⊎◌, inl, inr, Bool, true, false, Option, none, some, List,
  [], ◌∷◌, arith,
}
use csid.Prelude.{ltb, ◌==◌, if◌then◌else◌, ltb→lt, ==_iff, Bool-cases, All}

abbrev pub IsOrdered : SeqIndex → Type 0
IsOrdered [] = Unit {0}
IsOrdered ((s, u) ∷ m) = All (λ (e : ℕ × ℕ). s < e.0) m × IsOrdered m

-- The earlier of a time and one that may be missing.
abbrev pub earlier : ℕ → Option ℕ → ℕ
earlier t none = t
earlier t (some u) = min u t

abbrev pub earlier_of : Option ℕ → Option ℕ → Option ℕ
earlier_of none o = o
earlier_of (some u) o = some (earlier u o)

-- The earliest arrival of a sequence number.
abbrev pub earliest : ℕ → List Arrival → Option ℕ
earliest i [] = none
earliest i (x ∷ xs) =
    let later = earliest i xs in if x.seq == i then some (earlier x.unix_ts_ns later) else later

note_arrival-All :
    (b seq t : ℕ) (m : SeqIndex)
    → b < seq
    → All (λ (e : ℕ × ℕ). b < e.0) m
    → All (λ (e : ℕ × ℕ). b < e.0) (note_arrival seq t m)
unfolding note_arrival
note_arrival-All b seq t [] h hs = (h, tt)
note_arrival-All b seq t ((s, u) ∷ m) h (k, hs) = elim (Bool-cases (seq == s)) [
  | inl same ↦ rw same (k, hs)
  | inr other ↦ elim (Bool-cases (ltb seq s)) [
    | inl before ↦ rw other (rw before (h, (k, hs)))
    | inr behind ↦ rw other (rw behind (k, note_arrival-All b seq t m h hs))
  ]
]

note_arrival-IsOrdered : (seq t : ℕ) (m : SeqIndex) → IsOrdered m → IsOrdered (note_arrival seq t m)
unfolding note_arrival
note_arrival-IsOrdered seq t [] h = (tt, tt)
note_arrival-IsOrdered seq t ((s, u) ∷ m) (k, h) = elim (Bool-cases (seq == s)) [
  | inl same ↦ rw same (k, h)
  | inr other ↦ elim (Bool-cases (ltb seq s)) [
    | inl before ↦
        let lt = ltb→lt seq s before in
        rw other (rw before ((lt, All-weaken (λ (e : ℕ × ℕ) l. omega arith) m k), (k, h)))
    | inr behind ↦
        let lt : s < seq = ground arith in
        rw other (rw behind (note_arrival-All s seq t m lt k, note_arrival-IsOrdered seq t m h))
  ]
]

arrival_at-absent : (i : ℕ) (m : SeqIndex) → All (λ (e : ℕ × ℕ). i < e.0) m → arrival_at i m ≡ none
arrival_at-absent i [] h = refl
arrival_at-absent i ((s, u) ∷ m) (k, h) =
    let other : (s == i) ≡ false = ground arith in rw other (arrival_at-absent i m h)

picked :
    (b : Bool) (x y z : Option ℕ) → (if b then x else y) ≡ (if b then x else (if b then z else y))
picked true x y z = refl
picked false x y z = refl

both_same : (i s seq : ℕ) → (seq == s) ≡ false → (s == i) ≡ true → (seq == i) ≡ false
both_same i s seq h k = ground arith

ordered_tests :
    (a b : Bool) (x y z : Option ℕ)
    → (a ≡ true → b ≡ false)
    → (if a then x else (if b then y else z)) ≡ (if b then y else (if a then x else z))
ordered_tests true true x y z h = absurd (let bad = h refl in cc)
ordered_tests true false x y z h = refl
ordered_tests false b x y z h = refl

arrival_at-note_arrival :
    (i seq t : ℕ) (m : SeqIndex)
    → IsOrdered m
    → arrival_at i (note_arrival seq t m)
      ≡ (if seq == i then some (earlier t (arrival_at seq m)) else arrival_at i m)
unfolding note_arrival
arrival_at-note_arrival i seq t [] h = refl
arrival_at-note_arrival i seq t ((s, u) ∷ m) (k, h) = elim (Bool-cases (seq == s)) [
  | inl same ↦
      let e : seq ≡ s = (==_iff seq s).0 same in
      let back : (s == seq) ≡ true = ground arith in
      let alike : (s == i) ≡ (seq == i) = ap (λ (n : ℕ). n == i) (sym e) in
      rw same (rw (back, alike) (picked (seq == i) (some (min u t)) (arrival_at i m) (some u)))
  | inr other ↦ elim (Bool-cases (ltb seq s)) [
    | inl before ↦
        let lt = ltb→lt seq s before in
        let gone = arrival_at-absent seq m (All-weaken (λ (e : ℕ × ℕ) l. omega arith) m k) in
        let apart : (s == seq) ≡ false = ground arith in
        rw other (rw before (rw (apart, gone) refl))
    | inr behind ↦
        let rest = arrival_at-note_arrival i seq t m h in
        let apart : (s == seq) ≡ false = ground arith in
        rw other (
          rw behind
            (rw (apart, rest) (ordered_tests (s == i) (seq == i) _ _ _ (both_same i s seq other))))
  ]
]

earlier_of-none : (o : Option ℕ) → o ≡ earlier_of o none
earlier_of-none none = refl
earlier_of-none (some u) = refl

earlier_of-earlier :
    (t : ℕ) (o r : Option ℕ) → earlier_of (some (earlier t o)) r ≡ earlier_of o (some (earlier t r))
earlier_of-earlier t none r = refl
earlier_of-earlier t (some u) none = ap (λ (n : ℕ). some n) (omega arith)
earlier_of-earlier t (some u) (some v) = ap (λ (n : ℕ). some n) (omega arith)

index_from-lem :
    (i : ℕ) (v : List Arrival) (m : SeqIndex)
    → IsOrdered m
    → IsOrdered (index_from v m)
      × (arrival_at i (index_from v m) ≡ earlier_of (arrival_at i m) (earliest i v))
index_from-lem i [] m h = (h, earlier_of-none (arrival_at i m))
index_from-lem i (x ∷ xs) m h =
    let (ordered, at) =
      index_from-lem i xs (note_arrival x.seq x.unix_ts_ns m)
        (note_arrival-IsOrdered x.seq x.unix_ts_ns m h) in
    (
      ordered,
      at
          ∙ ap (λ o. earlier_of o (earliest i xs))
              (arrival_at-note_arrival i x.seq x.unix_ts_ns m h)
          ∙ merged (Bool-cases (x.seq == i)),
    )
  where
    merged :
        ((x.seq == i) ≡ true) ⊎ ((x.seq == i) ≡ false)
        → earlier_of
            (if x.seq == i
              then some (earlier x.unix_ts_ns (arrival_at x.seq m))
              else arrival_at i m)
            (earliest i xs)
          ≡ earlier_of (arrival_at i m) (earliest i (x ∷ xs))
    merged (inl e) = rw e (
        ap (λ n. earlier_of (some (earlier x.unix_ts_ns (arrival_at n m))) (earliest i xs))
          ((==_iff x.seq i).0 e)
        ∙ earlier_of-earlier x.unix_ts_ns (arrival_at i m) (earliest i xs))
    merged (inr e) = rw e refl

-- The index holds the sequence numbers in order, and of each the earliest arrival.
pub seq_index-earliest :
    (i : ℕ) (v : List Arrival)
    → IsOrdered (seq_index v) × (arrival_at i (seq_index v) ≡ earliest i v)
unfolding seq_index
seq_index-earliest i v = index_from-lem i v [] tt
