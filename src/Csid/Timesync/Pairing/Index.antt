-- ===== src/Csid/Timesync/Pairing/Index.antt =====
-- What an index of crates/csid/src/timesync/mod.rs holds: every tick pushed, in the order of the
-- pushes, under its transmitter, until its cap is passed.
use csid.Prelude.Dict.{find, or_default, find-upsert}
use csid.Csid.Census.Keys.{mac_key}
use mathlib.Core.Path.{subst}
use csid.Csid.Timesync.Pairing.{
  CsiTick, Ticks, TickIndex, Row, new_index, append_tick, push_tick, push_ticks, seal_ticks,
  seal_all, seal, pair,
}
use csid.Csid.Timesync.Pairing.Order.{
  vectors, tick_times, IsAscending, IsRearranged, seal_ticks-vectors,
}
use csid.Prelude.{
  ℕ, ◌^◌, ◌+◌, ◌≤◌, ◌<◌, ◌≡◌, refl, sym, ap, ◌∙◌, ◌⊎◌, inl, inr, Bool, true, false, ◌||◌, some,
  List, [], ◌∷◌, ◌++◌, append-nil, append_assoc, arith,
}
use csid.Prelude.{
  leb, ◌==◌, if◌then◌else◌, lt→leb, Bool-cases, length, length-append, eq_bytes, eq_bytes→eq,
}

abbrev pub of_transmitter : List ℕ → List CsiTick → List CsiTick
of_transmitter mac [] = []
of_transmitter mac (t ∷ ts) =
    let rest = of_transmitter mac ts in if eq_bytes t.src_mac mac then t ∷ rest else rest

of_transmitter-append :
    (mac : List ℕ) (xs ys : List CsiTick)
    → of_transmitter mac (xs ++ ys) ≡ of_transmitter mac xs ++ of_transmitter mac ys
of_transmitter-append mac [] ys = refl
of_transmitter-append mac (x ∷ xs) ys = elim (Bool-cases (eq_bytes x.src_mac mac)) [
  | inl e ↦ rw e (ap (λ t. x ∷ t) (of_transmitter-append mac xs ys))
  | inr e ↦ rw e (of_transmitter-append mac xs ys)
]

abbrev pub held : List ℕ → List (List ℕ × Ticks) → Ticks
held mac m = or_default mac_key ([], []) (find mac_key mac m)

abbrev pub IsFilled : List CsiTick → TickIndex → Type 0
IsFilled ticks index =
    (index.len ≡ length ticks)
    × (index.overflowed ≡ false)
    × ((mac : List ℕ) → held mac index.by_mac ≡ vectors (of_transmitter mac ticks))

vectors-append :
    (xs : List CsiTick) (t : CsiTick)
    → append_tick t.unix_ts_ns t.ftm (vectors xs) ≡ vectors (xs ++ (t ∷ []))
vectors-append [] t = refl
vectors-append (x ∷ xs) t =
    ap (λ (v : Ticks). (x.unix_ts_ns ∷ v.0, x.ftm ∷ v.1)) (vectors-append xs t)

push_tick-IsFilled :
    (t : CsiTick) (ticks : List CsiTick) (index : TickIndex)
    → IsFilled ticks index
    → length ticks < index.cap
    → IsFilled (ticks ++ (t ∷ [])) (push_tick t index)
unfolding push_tick
push_tick-IsFilled t ticks index (len, flag, all) room =
    let free : leb index.cap index.len ≡ false = lt→leb index.cap index.len (omega (arith, len)) in
    rw free (
      omega (arith, len, length-append ticks (t ∷ [])),
      flag,
      λ mac.
          rw
            (
              find-upsert mac_key t.src_mac mac ([], []) (append_tick t.unix_ts_ns t.ftm)
                  index.by_mac,
              of_transmitter-append mac ticks (t ∷ []),
            )
            (entry mac (Bool-cases (eq_bytes t.src_mac mac))),
    )
  where
    entry :
        (mac : List ℕ)
        → (eq_bytes t.src_mac mac ≡ true) ⊎ (eq_bytes t.src_mac mac ≡ false)
        → or_default mac_key
            ([], [])
            (if eq_bytes t.src_mac mac
              then some (append_tick t.unix_ts_ns t.ftm (held t.src_mac index.by_mac))
              else find mac_key mac index.by_mac)
          ≡ vectors (of_transmitter mac ticks ++ of_transmitter mac (t ∷ []))
    entry mac (inl e) = rw e (
        ap (append_tick t.unix_ts_ns t.ftm) (all t.src_mac)
        ∙ vectors-append (of_transmitter t.src_mac ticks) t
        ∙ ap (λ m. vectors (of_transmitter m ticks ++ (t ∷ []))) (eq_bytes→eq t.src_mac mac e))
    entry mac (inr e) = rw e (all mac ∙ ap vectors (sym (append-nil (of_transmitter mac ticks))))

cap-push_ticks : (ts : List CsiTick) (index : TickIndex) → (push_ticks ts index).cap ≡ index.cap
unfolding push_tick
cap-push_ticks [] index = refl
cap-push_ticks (t ∷ ts) index =
    cap-push_ticks ts (push_tick t index) ∙ cap-push_tick (Bool-cases (leb index.cap index.len))
  where
    cap-push_tick :
        (leb index.cap index.len ≡ true) ⊎ (leb index.cap index.len ≡ false)
        → (push_tick t index).cap ≡ index.cap
    cap-push_tick (inl e) = rw e refl
    cap-push_tick (inr e) = rw e refl

cap-push_tick : (t : CsiTick) (index : TickIndex) → (push_tick t index).cap ≡ index.cap
cap-push_tick t index = cap-push_ticks (t ∷ []) index

push_ticks-IsFilled :
    (ts done : List CsiTick) (index : TickIndex)
    → IsFilled done index
    → length done + length ts ≤ index.cap
    → IsFilled (done ++ ts) (push_ticks ts index)
push_ticks-IsFilled [] done index h room = subst (λ d. IsFilled d index) (sym (append-nil done)) h
push_ticks-IsFilled (t ∷ ts) done index h room =
    let next = push_tick-IsFilled t done index h (omega arith) in
    subst (λ d. IsFilled d (push_ticks ts (push_tick t index))) (append_assoc done (t ∷ []) ts)
      (push_ticks-IsFilled ts (done ++ (t ∷ [])) (push_tick t index) next
        (omega (arith, cap-push_tick t index, length-append done (t ∷ []))))

new_index-IsFilled : (cap : ℕ) → IsFilled [] (new_index cap)
unfolding find
new_index-IsFilled cap = (refl, refl, λ mac. refl)

pub IsFilled-from_new :
    (ts : List CsiTick) (cap : ℕ) → length ts ≤ cap → IsFilled ts (push_ticks ts (new_index cap))
IsFilled-from_new ts cap room =
    push_ticks-IsFilled ts [] (new_index cap) (new_index-IsFilled cap) (omega arith)

-- Past the cap an index is marked, for good.
push_ticks-overflowed :
    (ts : List CsiTick) (index : TickIndex)
    → (index.overflowed ≡ true) ⊎ (index.cap < index.len + length ts)
    → index.len ≤ index.cap
    → (push_ticks ts index).overflowed ≡ true
unfolding push_tick
push_ticks-overflowed [] index (inl e) le = e
push_ticks-overflowed [] index (inr lt) le = absurd (omega arith)
push_ticks-overflowed (t ∷ ts) index h le = elim (Bool-cases (leb index.cap index.len)) [
  | inl full ↦ push_ticks-overflowed ts (push_tick t index) (inl (rw full refl)) (rw full le)
  | inr free ↦
      push_ticks-overflowed ts (push_tick t index)
        (rw free (elim h [ inl e ↦ inl e | inr lt ↦ inr (omega arith) ])) (rw free (ground arith))
]

or_true : (b : Bool) → (b || true) ≡ true
or_true true = refl
or_true false = refl

-- Where more ticks are pushed than the index has room for, no row is changed and none is counted,
-- even those whose ticks are held.
pub pair-overflowed :
    (ts : List CsiTick) (cap tolerance_ns : ℕ) (rows : List Row)
    → cap < length ts
    → pair tolerance_ns (seal (push_ticks ts (new_index cap))) rows ≡ (rows, 0)
unfolding pair seal
pair-overflowed ts cap tolerance_ns rows h =
    rw (push_ticks-overflowed ts (new_index cap) (inr (omega arith)) (omega arith))
      (rw (or_true ((push_ticks ts (new_index cap)).len == 0)) refl)

find-seal_all :
    (mac : List ℕ) (m : List (List ℕ × Ticks)) → held mac (seal_all m) ≡ seal_ticks (held mac m)
unfolding find seal_ticks
find-seal_all mac [] = refl
find-seal_all mac ((j, e) ∷ m) = elim (Bool-cases (eq_bytes j mac)) [
  | inl same ↦ rw same refl
  | inr other ↦ rw other (find-seal_all mac m)
]

of_transmitter-length :
    (mac : List ℕ) (ticks : List CsiTick) → length (of_transmitter mac ticks) ≤ length ticks
of_transmitter-length mac [] = omega arith
of_transmitter-length mac (t ∷ ticks) =
    let fewer = of_transmitter-length mac ticks in
    elim (Bool-cases (eq_bytes t.src_mac mac)) [
      | inl e ↦ rw e (omega arith)
      | inr e ↦ rw e (omega arith)
    ]

-- A sealed index of fewer than 2^32 ticks holds of each transmitter its ticks, in the order of their
-- times.
pub held-seal :
    (ticks : List CsiTick) (index : TickIndex) (mac : List ℕ)
    → length ticks < 2 ^ 32
    → IsFilled ticks index
    → (ys : List CsiTick) × (held mac (seal index).by_mac ≡ vectors ys)
      × IsAscending (tick_times ys)
      × IsRearranged (of_transmitter mac ticks) ys
unfolding seal
held-seal ticks index mac room h =
    let fewer = of_transmitter-length mac ticks in
    let (ys, sealed, ascending, same) =
      seal_ticks-vectors (of_transmitter mac ticks) (omega arith) in
    (ys, find-seal_all mac index.by_mac ∙ ap seal_ticks (h.2 mac) ∙ sealed, ascending, same)
