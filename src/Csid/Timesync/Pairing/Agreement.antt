-- ===== src/Csid/Timesync/Pairing/Agreement.antt =====
-- `pair_ftm` of crates/csid/src/timesync/mod.rs against a description that looks at every tick of a
-- row's transmitter.
use csid.Prelude.Dict.{or_default}
use csid.Csid.Census.Keys.{mac_key}
use csid.Csid.Timesync.Address
use mathlib.Core.List.{Memᴰ}
use mathlib.Core.Path.{subst}
use csid.Csid.Timesync.Pairing.{
  CsiTick, Ticks, TickIndex, Row, of_entry, of_address, new_index, push_ticks, seal, best_tick,
  found_tick, attribute, count_found, pair_each, pair, pair_ftm,
}
use csid.Csid.Timesync.Pairing.Order.{vectors, IsRearranged}
use csid.Prelude.Members.{All-weaken, All-at}
use csid.Csid.Timesync.Pairing.Index.{of_transmitter, IsFilled, IsFilled-from_new, held-seal}
use csid.Csid.Timesync.Pairing.Nearest.{IsBest, IsStamped, best_tick-IsBest}
use csid.Prelude.{
  ℕ, suc, ◌+◌, ◌-◌, ◌^◌, ◌<◌, ◌≡◌, refl, sym, ap, ◌∙◌, inl, inr, false, Option, none, some, List,
  [], ◌∷◌, arith,
}
use csid.Prelude.{◌==◌, Bool-cases, length, All, eq_bytes}
use csid.Prelude.Int.{ℤ}

-- What is right for a row whose address parses, or does not: the nearest tick of its transmitter,
-- or nothing where none is within the tolerance.
abbrev IsRight : ℕ → List CsiTick → ℕ → Option (List ℕ) → Option (ℕ × ℤ) → Type 0
IsRight tolerance_ns ticks row none found = found ≡ none
IsRight tolerance_ns ticks row (some mac) found =
    IsBest tolerance_ns row (of_transmitter mac ticks) found

abbrev pub IsFound : ℕ → List CsiTick → Row → Option (ℕ × ℤ) → Type 0
IsFound tolerance_ns ticks row found =
    IsRight tolerance_ns ticks row.unix_ts_ns (Address.parse_mac row.tx_mac) found

-- The rows before and after, and how many were paired.
pub data Paired (tolerance_ns : ℕ) (ticks : List CsiTick) : List Row → List Row → ℕ → Type 0 where
  done : Paired tolerance_ns ticks [] [] 0
  unpaired :
      {row : Row} {rows after : List Row} {n : ℕ}
      → IsFound tolerance_ns ticks row none
      → Paired tolerance_ns ticks rows after n
      → Paired tolerance_ns ticks (row ∷ rows) (row ∷ after) n
  paired :
      {row : Row} {rows after : List Row} {n ftm : ℕ} {lag : ℤ}
      → IsFound tolerance_ns ticks row (some (ftm, lag))
      → Paired tolerance_ns ticks rows after n
      → Paired tolerance_ns ticks
          (row ∷ rows)
          (record row { ftm = some ftm; ftm_lag_ns = some lag } ∷ after)
          (n + 1)

All-rearranged {ℓ κ} :
    {A : Type ℓ} (P : A → Type κ) (xs ys : List A) → All (λ a. Memᴰ a ys) xs → All P ys → All P xs
All-rearranged P xs ys m h = All-weaken (λ a k. All-at P a ys k h) xs m

IsBest-rearranged :
    (tolerance_ns row : ℕ) (xs ys : List CsiTick) (best : Option (ℕ × ℤ))
    → IsRearranged xs ys
    → IsBest tolerance_ns row ys best
    → IsBest tolerance_ns row xs best
IsBest-rearranged tolerance_ns row xs ys none (there, back) h = All-rearranged _ xs ys there h
IsBest-rearranged tolerance_ns row xs ys (some (ftm, lag)) (there, back)
      (t, m, ftm_eq, lag_eq, near, all) =
    (t, All-at (λ a. Memᴰ a xs) t ys m back, ftm_eq, lag_eq, near, All-rearranged _ xs ys there all)

of_transmitter-All {κ} :
    (P : CsiTick → Type κ) (mac : List ℕ) (ticks : List CsiTick)
    → All P ticks
    → All P (of_transmitter mac ticks)
of_transmitter-All P mac [] h = tt
of_transmitter-All P mac (t ∷ ticks) (h, hs) = elim (Bool-cases (eq_bytes t.src_mac mac)) [
  | inl e ↦ rw e (h, of_transmitter-All P mac ticks hs)
  | inr e ↦ rw e (of_transmitter-All P mac ticks hs)
]

best_tick-nothing : (tolerance_ns row : ℕ) → best_tick tolerance_ns row ([], []) ≡ none
unfolding best_tick
best_tick-nothing tolerance_ns row = refl

of_entry-held :
    (tolerance_ns row : ℕ) (e : Option Ticks)
    → of_entry tolerance_ns row e ≡ best_tick tolerance_ns row (or_default mac_key ([], []) e)
of_entry-held tolerance_ns row none = sym (best_tick-nothing tolerance_ns row)
of_entry-held tolerance_ns row (some e) = refl

of_address-IsRight :
    (tolerance_ns : ℕ) (ticks : List CsiTick) (index : TickIndex) (row : ℕ) (mac : Option (List ℕ))
    → IsStamped ticks
    → row < 2 ^ 63
    → length ticks < 2 ^ 32
    → IsFilled ticks index
    → IsRight tolerance_ns ticks row mac (of_address tolerance_ns (seal index) row mac)
of_address-IsRight tolerance_ns ticks index row none hs hr room filled = refl
of_address-IsRight tolerance_ns ticks index row (some mac) hs hr room filled =
    let (ys, at, ascending, same) = held-seal ticks index mac room filled in
    let xs = of_transmitter mac ticks in
    let stamped : IsStamped ys =
      All-rearranged _ ys xs (same.1) (of_transmitter-All _ mac ticks hs) in
    subst (IsBest tolerance_ns row xs)
      (sym (of_entry-held tolerance_ns row _ ∙ ap (best_tick tolerance_ns row) at))
      (IsBest-rearranged tolerance_ns row xs ys (best_tick tolerance_ns row (vectors ys)) same
        (best_tick-IsBest tolerance_ns row ys hr stamped ascending))

found_tick-IsFound :
    (tolerance_ns : ℕ) (ticks : List CsiTick) (index : TickIndex) (row : Row)
    → IsStamped ticks
    → row.unix_ts_ns < 2 ^ 63
    → length ticks < 2 ^ 32
    → IsFilled ticks index
    → IsFound tolerance_ns ticks row (found_tick tolerance_ns (seal index) row)
unfolding found_tick
found_tick-IsFound tolerance_ns ticks index row hs hr room filled =
    of_address-IsRight tolerance_ns ticks index row.unix_ts_ns (Address.parse_mac row.tx_mac) hs hr
      room filled

abbrev pub IsStampedRow : Row → Type 0
IsStampedRow row = row.unix_ts_ns < 2 ^ 63

module _ (tolerance_ns : ℕ) (ticks : List CsiTick) where
  attribute-Paired :
      (found : Option (ℕ × ℤ)) (row : Row) (rows after : List Row) (n : ℕ)
      → IsFound tolerance_ns ticks row found
      → Paired tolerance_ns ticks rows after n
      → Paired tolerance_ns ticks (row ∷ rows) (attribute found row ∷ after) (count_found found n)
  attribute-Paired none row rows after n h k = Paired.unpaired h k
  attribute-Paired (some (ftm, lag)) row rows after n h k = Paired.paired h k

  pair_each-Paired :
      (index : TickIndex) (rows : List Row)
      → IsStamped ticks
      → All IsStampedRow rows
      → length ticks < 2 ^ 32
      → IsFilled ticks index
      → let result = pair_each tolerance_ns (seal index) rows in
        Paired tolerance_ns ticks rows (result.0) (result.1)
  pair_each-Paired index [] hs hr room filled = Paired.done
  pair_each-Paired index (row ∷ rows) hs (h, hr) room filled =
      let rest = pair_each tolerance_ns (seal index) rows in
      attribute-Paired (found_tick tolerance_ns (seal index) row) row rows (rest.0) (rest.1)
        (found_tick-IsFound tolerance_ns ticks index row hs h room filled)
        (pair_each-Paired index rows hs hr room filled)

IsRight-nothing :
    (tolerance_ns row : ℕ) (mac : Option (List ℕ)) → IsRight tolerance_ns [] row mac none
IsRight-nothing tolerance_ns row none = refl
IsRight-nothing tolerance_ns row (some mac) = tt

-- Without ticks no row is paired.
untouched-Paired : (tolerance_ns : ℕ) (rows : List Row) → Paired tolerance_ns [] rows rows 0
untouched-Paired tolerance_ns [] = Paired.done
untouched-Paired tolerance_ns (row ∷ rows) =
    Paired.unpaired (IsRight-nothing tolerance_ns row.unix_ts_ns (Address.parse_mac row.tx_mac))
      (untouched-Paired tolerance_ns rows)

suc_not_zero : (n k : ℕ) → n ≡ suc k → (n == 0) ≡ false
suc_not_zero n k h = ground arith

pair-Paired :
    (rows : List Row) (t : CsiTick) (ticks : List CsiTick) (index : TickIndex) (tolerance_ns : ℕ)
    → IsStamped (t ∷ ticks)
    → All IsStampedRow rows
    → length (t ∷ ticks) < 2 ^ 32
    → IsFilled (t ∷ ticks) index
    → let result = pair tolerance_ns (seal index) rows in
      Paired tolerance_ns (t ∷ ticks) rows (result.0) (result.1)
unfolding pair seal
pair-Paired rows t ticks index tolerance_ns hs hr room filled =
    rw (suc_not_zero index.len (length ticks) (filled.0), filled.1)
      (pair_each-Paired tolerance_ns (t ∷ ticks) index rows hs hr room filled)

-- `pair_ftm` leaves each row with the counter and the lag of the nearest tick of the row's
-- transmitter among all the ticks given, in whatever order they stand, if that is within the
-- tolerance, and as it was if no tick of the transmitter is or the address does not parse; and it
-- counts the rows it paired. The stamps are below 2^63, and there are fewer than 2^32 ticks: the sort
-- of an entry has its positions in 32 bits.
pub pair_ftm-Paired :
    (rows : List Row) (ticks : List CsiTick) (tolerance_ns : ℕ)
    → IsStamped ticks
    → All IsStampedRow rows
    → length ticks < 2 ^ 32
    → let result = pair_ftm rows ticks tolerance_ns in
      Paired tolerance_ns ticks rows (result.0) (result.1)
unfolding pair_ftm pair seal
pair_ftm-Paired rows [] tolerance_ns hs hr room = untouched-Paired tolerance_ns rows
pair_ftm-Paired rows (t ∷ ticks) tolerance_ns hs hr room =
    pair-Paired rows t ticks (push_ticks (t ∷ ticks) (new_index (2 ^ 64 - 1))) tolerance_ns hs hr
      room (IsFilled-from_new (t ∷ ticks) (2 ^ 64 - 1) (omega arith))
