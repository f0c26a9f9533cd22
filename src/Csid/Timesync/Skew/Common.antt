-- ===== src/Csid/Timesync/Skew/Common.antt =====
-- The differences that crates/csid/src/timesync/skew.rs takes of two nodes' arrivals, against the
-- earliest arrivals of all sequence numbers.
use csid.Csid.Fleet.Clock.{magnitude}
use csid.Csid.Fleet.Clock.Offset.{as_i64-small}
use csid.Csid.Timesync.Skew.{
  Arrival, SeqWindow, contains, SeqIndex, seq_index, arrival_at, max_plausible_diff_ns, Differences,
  note_pair, differences_from, common_differences,
}
use csid.Csid.Timesync.Skew.Earliest.{IsOrdered, earliest, seq_index-earliest}
use csid.Prelude.Members.{All-weaken, All-at}
use mathlib.Core.List.{Memᴰ}
use mathlib.Core.Path.{subst, ap₂}
use csid.Prelude.{
  ℕ, ◌+◌, ◌^◌, ◌≤◌, ◌<◌, ◌≡◌, refl, sym, ap, ◌∙◌, inl, inr, true, false, ◌||◌, Option, none, some,
  List, [], ◌∷◌, arith,
}
use csid.Prelude.{ltb, if◌then◌else◌, ◌==◌, ltb→lt, ==_iff, Bool-cases, length, All}
use csid.Prelude.Int.{ℤ, sub_ℕ}

-- The four ways of a round.
note_pair-cases {ℓ} :
    (P : Differences → Type ℓ) (w : SeqWindow) (seq ta : ℕ) (o : Option ℕ) (rest : Differences)
    → (o ≡ none → P rest)
    → ((tb : ℕ)
        → o ≡ some tb
        → contains w seq ≡ false
        → P (record rest { outside_window = rest.outside_window + 1 }))
    → ((tb : ℕ)
        → o ≡ some tb
        → contains w seq ≡ true
        → max_plausible_diff_ns < magnitude (sub_ℕ ta tb)
        → P (record rest { discarded = rest.discarded + 1 }))
    → ((tb : ℕ)
        → o ≡ some tb
        → contains w seq ≡ true
        → magnitude (sub_ℕ ta tb) ≤ max_plausible_diff_ns
        → P (record rest { diffs = sub_ℕ ta tb ∷ rest.diffs }))
    → P (note_pair w seq ta o rest)
note_pair-cases P w seq ta none rest gone outside far near = gone refl
note_pair-cases P w seq ta (some tb) rest gone outside far near =
    elim (Bool-cases (contains w seq)) [
      | inr e ↦ rw e (outside tb refl e)
      | inl e ↦ elim (Bool-cases (ltb max_plausible_diff_ns (magnitude (sub_ℕ ta tb)))) [
        | inl k ↦
            rw e (rw k (far tb refl e (ltb→lt max_plausible_diff_ns (magnitude (sub_ℕ ta tb)) k)))
        | inr k ↦
            let le : magnitude (sub_ℕ ta tb) ≤ max_plausible_diff_ns = not_lt _ _ k in
            let exact = as_i64-small (sub_ℕ ta tb) (part_le _ _ le) (part_le' _ _ le) in
            rw e (rw k (rw exact (near tb refl e le)))
      ]
    ]
  where
    not_lt : (a b : ℕ) → ltb a b ≡ false → b ≤ a
    not_lt a b h = ground arith

    part_le : (p n : ℕ) → p + n ≤ max_plausible_diff_ns → p < 2 ^ 63
    part_le p n h = omega arith

    part_le' : (p n : ℕ) → p + n ≤ max_plausible_diff_ns → n ≤ 2 ^ 63
    part_le' p n h = omega arith

abbrev pub one_if : Option ℕ → ℕ → ℕ
one_if none n = n
one_if (some tb) n = n + 1

-- The sequence numbers of the first index that the second one has too.
abbrev pub count_shared : SeqIndex → SeqIndex → ℕ
count_shared [] ib = 0
count_shared ((seq, ta) ∷ ia) ib = one_if (arrival_at seq ib) (count_shared ia ib)

abbrev pub outside_if : SeqWindow → ℕ → Option ℕ → ℕ → ℕ
outside_if w seq none n = n
outside_if w seq (some tb) n = if ltb seq w.lo || ltb w.hi seq then n + 1 else n

-- Those of them that are below the window or above it.
abbrev pub count_outside : SeqWindow → SeqIndex → SeqIndex → ℕ
count_outside w [] ib = 0
count_outside w ((seq, ta) ∷ ia) ib = outside_if w seq (arrival_at seq ib) (count_outside w ia ib)

abbrev pub total_pairs : Differences → ℕ
total_pairs r = length r.diffs + r.discarded + r.outside_window

-- A difference taken of two indices: of a shared sequence number in the window, and plausible.
abbrev IsTaken : SeqWindow → SeqIndex → SeqIndex → ℕ → ℕ → ℕ → Type 0
IsTaken w ia ib seq ta tb =
    Memᴰ (seq, ta) ia
    × (arrival_at seq ib ≡ some tb)
    × (contains w seq ≡ true)
    × (magnitude (sub_ℕ ta tb) ≤ max_plausible_diff_ns)

abbrev IsSound : SeqWindow → SeqIndex → SeqIndex → ℤ → Type 0
IsSound w ia ib d = (seq : ℕ) × (ta : ℕ) × (tb : ℕ) × IsTaken w ia ib seq ta tb × (d ≡ sub_ℕ ta tb)

module _ (w : SeqWindow) (ib : SeqIndex) where
  total_pairs-differences_from :
      (ia : SeqIndex) → total_pairs (differences_from w ia ib) ≡ count_shared ia ib
  total_pairs-differences_from [] = refl
  total_pairs-differences_from ((seq, ta) ∷ ia) =
      let rest = total_pairs-differences_from ia in
      note_pair-cases (λ r. total_pairs r ≡ count_shared ((seq, ta) ∷ ia) ib) w seq ta
        (arrival_at seq ib) (differences_from w ia ib) (λ e. rw e rest)
        (λ tb e _. rw e (omega (arith, rest))) (λ tb e _ _. rw e (omega (arith, rest)))
        (λ tb e _ _. rw e (omega (arith, rest)))

  outside_window-differences_from :
      (ia : SeqIndex) → (differences_from w ia ib).outside_window ≡ count_outside w ia ib
  outside_window-differences_from [] = refl
  outside_window-differences_from ((seq, ta) ∷ ia) =
      let rest = outside_window-differences_from ia in
      note_pair-cases (λ r. r.outside_window ≡ count_outside w ((seq, ta) ∷ ia) ib) w seq ta
        (arrival_at seq ib) (differences_from w ia ib) (λ e. rw e rest)
        (λ tb e out. rw e (rw (beyond out) (omega (arith, rest))))
        (λ tb e inside _. rw e (rw (between inside) rest))
        (λ tb e inside _. rw e (rw (between inside) rest))
    where
      beyond : contains w seq ≡ false → (ltb seq w.lo || ltb w.hi seq) ≡ true
      beyond h = ground arith

      between : contains w seq ≡ true → (ltb seq w.lo || ltb w.hi seq) ≡ false
      between h = ground arith

  later_IsSound : (e : ℕ × ℕ) (ia : SeqIndex) (d : ℤ) → IsSound w ia ib d → IsSound w (e ∷ ia) ib d
  later_IsSound e ia d (seq, ta, tb, (m, at, inside, near), q) =
      (seq, ta, tb, (Memᴰ.tail m, at, inside, near), q)

  diffs-IsSound : (ia : SeqIndex) → All (IsSound w ia ib) (differences_from w ia ib).diffs
  diffs-IsSound [] = tt
  diffs-IsSound ((seq, ta) ∷ ia) =
      let rest = All-weaken (later_IsSound (seq, ta) ia) _ (diffs-IsSound ia) in
      note_pair-cases (λ r. All (IsSound w ((seq, ta) ∷ ia) ib) r.diffs) w seq ta
        (arrival_at seq ib) (differences_from w ia ib) (λ _. rest) (λ tb _ _. rest)
        (λ tb _ _ _. rest)
        (λ tb e inside near. ((seq, ta, tb, (Memᴰ.head refl, e, inside, near), refl), rest))

  head_taken :
      (rest : Differences) (seq ta tb : ℕ)
      → arrival_at seq ib ≡ some tb
      → contains w seq ≡ true
      → magnitude (sub_ℕ ta tb) ≤ max_plausible_diff_ns
      → Memᴰ (sub_ℕ ta tb) (note_pair w seq ta (arrival_at seq ib) rest).diffs
  head_taken rest seq ta tb at inside near =
      note_pair-cases (λ r. Memᴰ (sub_ℕ ta tb) r.diffs) w seq ta (arrival_at seq ib) rest (λ e. cc)
        (λ tc e out. cc)
        (λ tc e _ far.
          let same : tc ≡ tb = cc in
          let far_b = subst (λ (n : ℕ). max_plausible_diff_ns < magnitude (sub_ℕ ta n)) same far in
          absurd (apart _ near far_b))
        (λ tc e _ _. let same : tb ≡ tc = cc in Memᴰ.head (ap (sub_ℕ ta) same))
    where
      apart : (m : ℕ) → m ≤ max_plausible_diff_ns → max_plausible_diff_ns < m → ⊥
      apart m h k = omega arith

  diffs-complete :
      (ia : SeqIndex) (seq ta tb : ℕ)
      → IsTaken w ia ib seq ta tb
      → Memᴰ (sub_ℕ ta tb) (differences_from w ia ib).diffs
  diffs-complete [] seq ta tb (m, _, _, _) = elim m [ ]
  diffs-complete ((s, t) ∷ ia) seq ta tb (Memᴰ.head q, at, inside, near) =
      subst
        (λ (p : ℕ × ℕ).
          Memᴰ (sub_ℕ ta tb)
            (note_pair w (p.0) (p.1) (arrival_at (p.0) ib) (differences_from w ia ib)).diffs)
        q (head_taken (differences_from w ia ib) seq ta tb at inside near)
  diffs-complete ((s, t) ∷ ia) seq ta tb (Memᴰ.tail m, at, inside, near) =
      let rest = diffs-complete ia seq ta tb (m, at, inside, near) in
      note_pair-cases (λ r. Memᴰ (sub_ℕ ta tb) r.diffs) w s t (arrival_at s ib)
        (differences_from w ia ib) (λ _. rest) (λ tb _ _. rest) (λ tb _ _ _. rest)
        (λ tb e inside near. Memᴰ.tail rest)

entry_at : (m : SeqIndex) (s t : ℕ) → IsOrdered m → Memᴰ (s, t) m → arrival_at s m ≡ some t
entry_at ((r, u) ∷ m) s t (k, h) (Memᴰ.head q) =
    let e : (r == s) ≡ true = (==_iff r s).1 (sym (ap (λ (p : ℕ × ℕ). p.0) q)) in
    rw e (ap (λ (n : ℕ). some n) (sym (ap (λ (p : ℕ × ℕ). p.1) q)))
entry_at ((r, u) ∷ m) s t (k, h) (Memᴰ.tail d) =
    let lt = All-at (λ (e : ℕ × ℕ). r < e.0) (s, t) m d k in
    let apart : (r == s) ≡ false = ground arith in rw apart (entry_at m s t h d)
entry_at [] s t h d = elim d [ ]

at_entry : (m : SeqIndex) (s t : ℕ) → arrival_at s m ≡ some t → Memᴰ (s, t) m
at_entry [] s t h = cc
at_entry ((r, u) ∷ m) s t h = elim (Bool-cases (r == s)) [
  | inl e ↦
      let known : some u ≡ some t = rw e at h in
      let time : t ≡ u = cc in Memᴰ.head (ap₂ (λ (a b : ℕ). (a, b)) (sym ((==_iff r s).0 e)) time)
  | inr e ↦ Memᴰ.tail (at_entry m s t (rw e at h))
]

-- What `common_differences` makes of two nodes' arrivals: each difference is that of the earliest
-- arrivals of a sequence number in the window that both nodes saw, at most the bound; each such
-- sequence number has its difference there; the shared numbers outside the window are counted; and
-- with the discarded ones they are all that were shared.
abbrev pub IsCommon : List Arrival → List Arrival → SeqWindow → Differences → Type 0
IsCommon a b w r =
    All
      (λ d.
        (seq : ℕ) × (ta : ℕ) × (tb : ℕ) × (earliest seq a ≡ some ta)
        × (earliest seq b ≡ some tb)
        × (contains w seq ≡ true)
        × (magnitude (sub_ℕ ta tb) ≤ max_plausible_diff_ns)
        × (d ≡ sub_ℕ ta tb))
      r.diffs
    × ((seq ta tb : ℕ)
        → earliest seq a ≡ some ta
        → earliest seq b ≡ some tb
        → contains w seq ≡ true
        → magnitude (sub_ℕ ta tb) ≤ max_plausible_diff_ns
        → Memᴰ (sub_ℕ ta tb) r.diffs)
    × (r.outside_window ≡ count_outside w (seq_index a) (seq_index b))
    × (total_pairs r ≡ count_shared (seq_index a) (seq_index b))

-- The differences of two nodes' arrivals are those of the earliest arrivals of the sequence numbers
-- both saw, inside the window and at most the plausible bound apart, all of them and no others; and
-- each shared sequence number is a difference, discarded, or counted as outside the window, which are
-- the shared numbers below it or above it.
pub common_differences-IsCommon :
    (a b : List Arrival) (w : SeqWindow) → IsCommon a b w (common_differences a b w)
unfolding common_differences
common_differences-IsCommon a b w = (
  All-weaken of_earliest _ (diffs-IsSound w (seq_index b) (seq_index a)),
  (λ seq ta tb ea eb inside near. diffs-complete w (seq_index b) (seq_index a) seq ta tb (
    at_entry (seq_index a) seq ta ((seq_index-earliest seq a).1 ∙ ea),
    (seq_index-earliest seq b).1 ∙ eb,
    inside,
    near,
  )),
  outside_window-differences_from w (seq_index b) (seq_index a),
  total_pairs-differences_from w (seq_index b) (seq_index a),
)
  where
    of_earliest :
        (d : ℤ)
        → IsSound w (seq_index a) (seq_index b) d
        → (seq : ℕ) × (ta : ℕ) × (tb : ℕ) × (earliest seq a ≡ some ta)
          × (earliest seq b ≡ some tb)
          × (contains w seq ≡ true)
          × (magnitude (sub_ℕ ta tb) ≤ max_plausible_diff_ns)
          × (d ≡ sub_ℕ ta tb)
    of_earliest d (seq, ta, tb, (m, at, inside, near), q) =
        let (ordered, ia) = seq_index-earliest seq a in
        (
          seq,
          ta,
          tb,
          sym ia ∙ entry_at (seq_index a) seq ta ordered m,
          sym ((seq_index-earliest seq b).1) ∙ at,
          inside,
          near,
          q,
        )
