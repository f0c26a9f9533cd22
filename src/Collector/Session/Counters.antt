-- ===== src/Collector/Session/Counters.antt =====
-- The counters of crates/collector/src/session.rs, and what one datagram does to them.
use csid.Collector.Session.{
  Float64, Arrival, highest, is_duplicate, expected, Session, create, count_packet, count_gap,
  record_data,
}
use mathlib.Core.Path.{subst}
use csid.Prelude.{
  ℕ, ◌+◌, ◌%◌, ◌^◌, ◌≤◌, ◌<◌, ◌≡◌, refl, ap, ◌∙◌, ◌⊎◌, inl, inr, true, false, Option, none, some,
  [], ◌∷◌, ◌++◌, arith,
}
use csid.Prelude.{if◌then◌else◌, length, length-append}

module _ (f64 : Float64) where
  -- The counters agree with each other and with the rows, and packets that are no duplicates
  -- are not more than the sequence numbers up to the highest.
  pub record IsCounted (s : Session f64) : Type 0 where
    pub logged : length s.arrivals ≡ s.packets
    pub seen : s.seen_seq ≡ s.packets
    pub small : s.packets < 2 ^ 64
    pub repeated : s.duplicates ≤ s.packets
    pub fresh : s.packets ≤ expected s.highest_seq + s.duplicates

  pub create-IsCounted : IsCounted (create f64)
  create-IsCounted = record {
    logged = refl;
    seen = refl;
    small = omega arith;
    repeated = omega arith;
    fresh = omega arith;
  }

  -- How far a packet moves the highest number, and whether it counts as a duplicate.
  highest-step :
      (o : Option ℕ) (sequence : ℕ)
      → ((is_duplicate o sequence ≡ true)
          × (sequence < expected o)
          × (expected (highest o sequence) ≡ expected o))
        ⊎ ((is_duplicate o sequence ≡ false)
            × (expected o ≤ sequence)
            × (expected (highest o sequence) ≡ sequence + 1))
  unfolding highest is_duplicate expected
  highest-step none sequence = inr (refl, omega arith, refl)
  highest-step (some h) sequence = ground arith

  -- The statistics of the gaps are apart from the counters.
  count_gap-counters :
      (arrival_ns : ℕ) (t : Session f64)
      → ((count_gap f64 arrival_ns t).arrivals ≡ t.arrivals)
        × ((count_gap f64 arrival_ns t).packets ≡ t.packets)
        × ((count_gap f64 arrival_ns t).seen_seq ≡ t.seen_seq)
        × ((count_gap f64 arrival_ns t).highest_seq ≡ t.highest_seq)
        × ((count_gap f64 arrival_ns t).duplicates ≡ t.duplicates)
  unfolding count_gap
  count_gap-counters a t = ground arith

  pub some-injective : {t u : Session f64} → some t ≡ some u → t ≡ u
  some-injective e = cc

  -- What `record_data` leaves in the counters that the loss is computed from.
  record_data-counters :
      (row : Arrival) (s s2 : Session f64)
      → record_data f64 true row s ≡ some s2
      → (s2.arrivals ≡ s.arrivals ++ (row ∷ []))
        × (s2.packets ≡ (s.packets + 1) % 2 ^ 64)
        × (s2.seen_seq ≡ (s.seen_seq + 1) % 2 ^ 64)
        × (s2.highest_seq ≡ highest s.highest_seq row.arrival_sequence)
        × (s2.duplicates ≡ (
            if is_duplicate s.highest_seq row.arrival_sequence
            then (s.duplicates + 1) % 2 ^ 64
            else s.duplicates))
  unfolding record_data count_packet count_gap
  record_data-counters row s s2 h =
      subst
        (λ (t : Session f64).
          (t.arrivals ≡ s.arrivals ++ (row ∷ []))
          × (t.packets ≡ (s.packets + 1) % 2 ^ 64)
          × (t.seen_seq ≡ (s.seen_seq + 1) % 2 ^ 64)
          × (t.highest_seq ≡ highest s.highest_seq row.arrival_sequence)
          × (t.duplicates ≡ (
              if is_duplicate s.highest_seq row.arrival_sequence
              then (s.duplicates + 1) % 2 ^ 64
              else s.duplicates)))
        (some-injective h) (count_gap-counters _ _)

  -- A packet counts as a duplicate, or it moves the highest number.
  pub record_data-step :
      (row : Arrival) (s s2 : Session f64)
      → IsCounted s
      → s.packets + 1 < 2 ^ 64
      → record_data f64 true row s ≡ some s2
      → (s2.packets ≡ s.packets + 1)
        × (((row.arrival_sequence < expected s.highest_seq)
              × (expected s2.highest_seq ≡ expected s.highest_seq)
              × (s2.duplicates ≡ s.duplicates + 1))
            ⊎ ((expected s.highest_seq ≤ row.arrival_sequence)
                × (expected s2.highest_seq ≡ row.arrival_sequence + 1)
                × (s2.duplicates ≡ s.duplicates)))
  record_data-step row s s2 c room h =
      let (_, packets, _, top, dups) = record_data-counters row s s2 h in
      let few = c.repeated in
      let count : s2.packets ≡ s.packets + 1 = omega arith in
      elim (highest-step s.highest_seq row.arrival_sequence) [
        | inl (dup, old, same) ↦ (count, inl (old, ap expected top ∙ same, ground arith))
        | inr (dup, new, moved) ↦ (count, inr (new, ap expected top ∙ moved, ground arith))
      ]

  -- Every datagram that is written is counted.
  pub record_data-IsCounted :
      (row : Arrival) (s s2 : Session f64)
      → IsCounted s
      → s.packets + 1 < 2 ^ 64
      → record_data f64 true row s ≡ some s2
      → IsCounted s2
  record_data-IsCounted row s s2 c room h =
      let (rows, packets, all_seen, _, _) = record_data-counters row s s2 h in
      let (count, step) = record_data-step row s s2 c room h in
      let as_logged = c.logged in
      let as_seen = c.seen in
      let few = c.repeated in
      let enough = c.fresh in
      let len : length s2.arrivals ≡ length s.arrivals + 1 =
        ap length rows ∙ length-append s.arrivals (row ∷ []) in
      record {
        logged = omega arith;
        seen = omega arith;
        small = omega arith;
        repeated = ground arith;
        fresh = ground arith;
      }
