-- ===== src/Csiscope/Class.antt =====
-- crates/csiscope/src/class.rs: the class of a record, and the census of the classes in a window.
-- Two classes are equal as `PartialEq` derives it; the text of one is its bytes.
pub mod Counted
mod Examples
use csid.Prelude.Dict.{Key, find, upsert, or_default}
use csid.Csiq.Modulation.{Modulation}
use csid.Csiq.Modulation
use csid.Csiq.Record.{CsiRecord, PhyLabel}
use mathlib.Core.Path.{ap₂}
use csid.Prelude.{
  ℕ, zero, suc, ◌+◌, ◌-◌, ◌*◌, ◌/◌, ◌%◌, ◌^◌, ◌≤◌, ◌<◌, min, max, ◌≡◌, refl, sym, ap, ◌∙◌, ◌≢◌, ◌↔◌,
  ◌⊎◌, inl, inr, Bool, true, false, not, ◌&&◌, ◌||◌, Option, none, some, List, [], ◌∷◌, ◌++◌, map,
  append-nil, append_assoc, arith,
}
use csid.Prelude.{
  ltb, leb, ◌==◌, if◌then◌else◌, ltb→lt, lt→ltb, le→ltb, le→leb, lt→leb, leb→le, ==_iff, ==_refl,
  Bool-cases, Option-cases, length, get_elem?, get_or, range_map, length-range_map,
  get_elem?-range_map, get_elem?-append_right, get_elem?-append_left, take, drop, replicate, All,
  length-append, length-take, length-drop, length-replicate, take-append-drop, take-append,
  drop-append, All-append, eq_bytes, eq_bytes_refl, eq_bytes→eq,
}
use csid.Prelude.Bytes.{
  IsByte, le_bytes, of_le_bytes, be_bytes, of_be_bytes, length-le_bytes, length-be_bytes,
  le_bytes-IsByte, of_le_bytes-le_bytes, of_be_bytes-be_bytes, of_le_bytes-lt, le_bytes-of_le_bytes,
  get_or-IsByte,
}
use csid.Prelude.Int.{
  ℤ, pos, negsuc, pos_part, neg_part, sub_ℕ, IsSigned, to_pattern, of_pattern, to_pattern-lt,
  of_pattern-to_pattern, of_pattern-IsSigned,
}

pub data Phy : Type 0 where
  unlabelled cck legacy_ofdm ht vht he eht : Phy
  unknown : ℕ → Phy

abbrev pub phy_of : Option Modulation → Phy
phy_of none = unlabelled
phy_of (some Modulation.cck) = cck
phy_of (some Modulation.legacy_ofdm) = legacy_ofdm
phy_of (some Modulation.ht) = ht
phy_of (some Modulation.vht) = vht
phy_of (some Modulation.he) = he
phy_of (some Modulation.eht) = eht
phy_of (some (Modulation.unknown v)) = unknown v

-- A number per modulation family.
abbrev pub phy_number : Phy → ℕ
phy_number unlabelled = 0
phy_number cck = 1
phy_number legacy_ofdm = 2
phy_number ht = 3
phy_number vht = 4
phy_number he = 5
phy_number eht = 6
phy_number (unknown v) = suc (suc (suc (suc (suc (suc (suc v))))))

abbrev of_number : ℕ → Phy
of_number zero = unlabelled
of_number (suc zero) = cck
of_number (suc (suc zero)) = legacy_ofdm
of_number (suc (suc (suc zero))) = ht
of_number (suc (suc (suc (suc zero)))) = vht
of_number (suc (suc (suc (suc (suc zero))))) = he
of_number (suc (suc (suc (suc (suc (suc zero)))))) = eht
of_number (suc (suc (suc (suc (suc (suc (suc v))))))) = unknown v

of_number-phy_number : (p : Phy) → of_number (phy_number p) ≡ p
of_number-phy_number unlabelled = refl
of_number-phy_number cck = refl
of_number-phy_number legacy_ofdm = refl
of_number-phy_number ht = refl
of_number-phy_number vht = refl
of_number-phy_number he = refl
of_number-phy_number eht = refl
of_number-phy_number (unknown v) = refl

pub record ClassKey : Type 0 where
  pub ntone : ℕ
  pub phy : Phy

abbrev modulation_of : Option PhyLabel → Option Modulation
modulation_of none = none
modulation_of (some p) = some p.modulation

unfoldable pub class_of : CsiRecord → ClassKey
class_of rec = record { ntone = rec.ntone; phy = phy_of (modulation_of rec.phy) }

abbrev pub same_class : ClassKey → ClassKey → Bool
same_class a b = (a.ntone == b.ntone) && (phy_number a.phy == phy_number b.phy)

pub same_class_iff : (a b : ClassKey) → (same_class a b ≡ true) ↔ (a ≡ b)
same_class_iff a b = (to, back)
  where
    parts : (m n p q : ℕ) → ((m == n) && (p == q)) ≡ true → (m ≡ n) × (p ≡ q)
    parts m n p q h = ground arith

    to : same_class a b ≡ true → a ≡ b
    to h =
        let (tones, numbers) = parts a.ntone b.ntone (phy_number a.phy) (phy_number b.phy) h in
        let phys : a.phy ≡ b.phy =
          sym (of_number-phy_number a.phy) ∙ ap of_number numbers ∙ of_number-phy_number b.phy in
        ap₂ (λ (n : ℕ) (p : Phy). record { ntone = n; phy = p }) tones phys

    back : a ≡ b → same_class a b ≡ true
    back e = ap (same_class a) (sym e) ∙ rw (==_refl a.ntone, ==_refl (phy_number a.phy)) refl

abbrev pub class_key : Key ClassKey
class_key = record { same = same_class; same_iff = same_class_iff }

-- A decimal number of at most five digits.
abbrev decimal_from : ℕ → ℕ → List ℕ
decimal_from zero n = []
decimal_from (suc fuel) n =
    let front = decimal_from fuel (n / 10) in
    if ltb n 10 then (48 + n) ∷ [] else front ++ ((48 + n % 10) ∷ [])

abbrev pub decimal : ℕ → List ℕ
decimal n = decimal_from 5 n

abbrev pub phy_text : Phy → List ℕ
phy_text unlabelled = b'u' ∷ b'n' ∷ b'l' ∷ b'a' ∷ b'b' ∷ b'e' ∷ b'l' ∷ b'l' ∷ b'e' ∷ b'd' ∷ []
phy_text cck = b'c' ∷ b'c' ∷ b'k' ∷ []
phy_text legacy_ofdm = b'l' ∷ b'e' ∷ b'g' ∷ b'a' ∷ b'c' ∷ b'y' ∷ b'o' ∷ b'f' ∷ b'd' ∷ b'm' ∷ []
phy_text ht = b'h' ∷ b't' ∷ []
phy_text vht = b'v' ∷ b'h' ∷ b't' ∷ []
phy_text he = b'h' ∷ b'e' ∷ []
phy_text eht = b'e' ∷ b'h' ∷ b't' ∷ []
phy_text (unknown v) =
    b'u' ∷ b'n' ∷ b'k' ∷ b'n' ∷ b'o' ∷ b'w' ∷ b'n' ∷ b'(' ∷ (decimal v ++ (b')' ∷ []))

unfoldable pub class_text : ClassKey → List ℕ
class_text k = decimal k.ntone ++ (b':' ∷ phy_text k.phy)

pub record ClassCensus : Type 0 where
  pub counts : List (ClassKey × ℕ)
  pub total_records : ℕ

abbrev pub new_class_census : ClassCensus
new_class_census = record { counts = []; total_records = 0 }

abbrev pub next_count : ℕ → ℕ
next_count n = (n + 1) % 2 ^ 64

unfoldable pub add_class : ClassKey → ClassCensus → ClassCensus
add_class key c = record {
  counts = upsert class_key key 0 next_count c.counts;
  total_records = next_count c.total_records;
}

unfoldable pub count_class : ClassKey → ClassCensus → ℕ
count_class key c = or_default class_key 0 (find class_key key c.counts)

-- `a < b` on texts.
abbrev pub text_before : List ℕ → List ℕ → Bool
text_before [] [] = false
text_before [] (y ∷ ys) = true
text_before (x ∷ xs) [] = false
text_before (x ∷ xs) (y ∷ ys) =
    let rest = text_before xs ys in if ltb x y then true else if ltb y x then false else rest

-- Whether `a` compares above `b` in `max_by`: more records, or as many and an earlier text.
unfoldable pub above : ClassKey × ℕ → ClassKey × ℕ → Bool
unfolding class_text
above (k, m) (j, n) =
    if ltb n m then true else if ltb m n then false else text_before (class_text k) (class_text j)

-- `max_by`, which keeps the later of equal ones.
abbrev pub highest_of : ClassKey × ℕ → List (ClassKey × ℕ) → ClassKey × ℕ
highest_of best [] = best
highest_of best (e ∷ es) = if above best e then highest_of best es else highest_of e es

abbrev pub dominant_entry : List (ClassKey × ℕ) → Option (ClassKey × ℕ)
dominant_entry [] = none
dominant_entry (e ∷ es) = some (highest_of e es)

abbrev key_of : Option (ClassKey × ℕ) → Option ClassKey
key_of none = none
key_of (some e) = some (e.0)

unfoldable pub dominant : ClassCensus → Option ClassKey
unfolding above
dominant c = key_of (dominant_entry c.counts)
