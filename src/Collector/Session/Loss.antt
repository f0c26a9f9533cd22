-- ===== src/Collector/Session/Loss.antt =====
-- The loss estimate of crates/collector/src/session.rs, against the datagrams received.
use csid.Collector.Session.{
  Float64, Arrival, expected, Session, create, record_data, lost, and_then, record_all,
}
use mathlib.Core.Path.{subst}
use csid.Prelude.{
  ℕ, ◌+◌, ◌^◌, ◌≤◌, ◌<◌, ◌≡◌, refl, sym, ap, ◌∙◌, inl, inr, true, some, List, [], ◌∷◌, arith,
}
use csid.Prelude.{length, All}
use csid.Collector.Session.Counters.{
  IsCounted, create-IsCounted, some-injective, record_data-step, record_data-IsCounted,
}

-- Rows whose numbers increase, from `low` on.
abbrev pub IsOrdered : ℕ → List Arrival → Type 0
IsOrdered low [] = Unit
IsOrdered low (row ∷ rows) =
    (low ≤ row.arrival_sequence) × IsOrdered (row.arrival_sequence + 1) rows

module _ (f64 : Float64) where
  -- The account: what was received and what counts as lost are the numbers up to the highest,
  -- and the packets that count as duplicates.
  pub lost-IsCounted :
      (s : Session f64)
      → IsCounted f64 s
      → lost f64 s + s.packets ≡ expected s.highest_seq + s.duplicates
  unfolding lost
  lost-IsCounted s c =
      let c1 = c.seen in let c2 = c.small in let c3 = c.repeated in let c4 = c.fresh in omega arith

  -- A packet that comes late fills a gap, but the gap still counts as lost: the estimate stays,
  -- and the packet counts as a duplicate.
  pub lost-late :
      (row : Arrival) (s s2 : Session f64)
      → IsCounted f64 s
      → s.packets + 1 < 2 ^ 64
      → row.arrival_sequence < expected s.highest_seq
      → record_data f64 true row s ≡ some s2
      → (lost f64 s2 ≡ lost f64 s) × (s2.duplicates ≡ s.duplicates + 1)
  lost-late row s s2 c room old h =
      let (count, step) = record_data-step f64 row s s2 c room h in
      let before = lost-IsCounted s c in
      let after = lost-IsCounted s2 (record_data-IsCounted f64 row s s2 c room h) in
      elim step [ inl (_, same, dup) ↦ (omega arith, dup) | inr (new, _, _) ↦ absurd (omega arith) ]

  -- What a run of datagrams leaves, from a state that is counted.
  abbrev IsAccount : List Arrival → Session f64 → Session f64 → Type 0
  IsAccount rows s t =
      IsCounted f64 t
      × (t.packets ≡ s.packets + length rows)
      × (expected s.highest_seq ≤ expected t.highest_seq)
      × All (λ (row : Arrival). row.arrival_sequence < expected t.highest_seq) rows

  record_data_total :
      (row : Arrival) (s : Session f64) → (t : Session f64) × (record_data f64 true row s ≡ some t)
  unfolding record_data
  record_data_total row s = (_, refl)

  record_all-IsAccount :
      (rows : List Arrival) (s : Session f64)
      → IsCounted f64 s
      → s.packets + length rows < 2 ^ 64
      → (t : Session f64) × (record_all f64 rows s ≡ some t) × IsAccount rows s t
  unfolding record_all
  record_all-IsAccount [] s c room = (s, refl, (c, omega arith, omega arith, tt))
  record_all-IsAccount (row ∷ rows) s c room =
      let (s2, h) = record_data_total row s in
      let c2 = record_data-IsCounted f64 row s s2 c (omega arith) h in
      let (count, step) = record_data-step f64 row s s2 c (omega arith) h in
      let (t, ran, (c3, sum, up, below)) = record_all-IsAccount rows s2 c2 (omega arith) in
      (
        t,
        ap (λ o. and_then f64 o (record_all f64 rows)) h ∙ ran,
        (c3, omega arith, ground arith, (ground arith, below)),
      )

  pub lost-record_all :
      (rows : List Arrival)
      → length rows < 2 ^ 64
      → (t : Session f64) × (record_all f64 rows (create f64) ≡ some t)
        × (t.packets ≡ length rows)
        × (length t.arrivals ≡ length rows)
        × (lost f64 t + length rows ≡ expected t.highest_seq + t.duplicates)
        × All (λ (row : Arrival). row.arrival_sequence < expected t.highest_seq) rows
  lost-record_all rows room =
      let (t, ran, (c, sum, _, below)) =
        record_all-IsAccount rows (create f64) (create-IsCounted f64) (omega arith) in
      let as_logged = c.logged in
      let account = lost-IsCounted t c in (t, ran, omega arith, omega arith, omega arith, below)

  record_all-IsOrdered :
      (rows : List Arrival) (s t : Session f64)
      → IsCounted f64 s
      → s.packets + length rows < 2 ^ 64
      → IsOrdered (expected s.highest_seq) rows
      → record_all f64 rows s ≡ some t
      → t.duplicates ≡ s.duplicates
  unfolding record_all
  record_all-IsOrdered [] s t c room _ h =
      ap (λ (u : Session f64). u.duplicates) (sym (some-injective f64 h))
  record_all-IsOrdered (row ∷ rows) s t c room (low, up) h =
      let (s2, one) = record_data_total row s in
      let c2 = record_data-IsCounted f64 row s s2 c (omega arith) one in
      let (count, step) = record_data-step f64 row s s2 c (omega arith) one in
      let rest : record_all f64 rows s2 ≡ some t =
        sym (ap (λ o. and_then f64 o (record_all f64 rows)) one) ∙ h in
      elim step [
        | inl (old, _, _) ↦ absurd (omega arith)
        | inr (_, moved, same) ↦
            record_all-IsOrdered rows s2 t c2 (omega arith)
              (subst (λ (n : ℕ). IsOrdered n rows) (sym moved) up) rest
            ∙ same
      ]

  -- When the datagrams come in the order of their numbers, none counts as a duplicate, and the
  -- estimate is exact: rows and lost packets are the numbers up to the highest.
  pub lost-IsOrdered :
      (rows : List Arrival) (t : Session f64)
      → length rows < 2 ^ 64
      → IsOrdered 0 rows
      → record_all f64 rows (create f64) ≡ some t
      → (t.duplicates ≡ 0) × (lost f64 t + length rows ≡ expected t.highest_seq)
  unfolding expected
  lost-IsOrdered rows t room ordered ran =
      let (u, ran2, packets, _, account, _) = lost-record_all rows room in
      let same : u ≡ t = some-injective f64 (sym ran2 ∙ ran) in
      let none_twice : t.duplicates ≡ 0 =
        record_all-IsOrdered rows (create f64) t (create-IsCounted f64) (omega arith) ordered ran in
      let twice : u.duplicates ≡ t.duplicates = ap (λ (v : Session f64). v.duplicates) same in
      let lost_same : lost f64 u ≡ lost f64 t = ap (lost f64) same in
      let top : expected u.highest_seq ≡ expected t.highest_seq =
        ap (λ (v : Session f64). expected v.highest_seq) same in
      (none_twice, omega arith)
