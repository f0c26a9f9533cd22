-- ===== src/Csid/Airtime/Fields.antt =====
-- The radiotap fields that crates/csid/src/airtime.rs reads, one function for each arm of its match.
use csid.Csid.Airtime.{Ht, Vht, He, Phy, has_bit}
use csid.Prelude.{ℕ, ◌*◌, ◌/◌, ◌%◌, ◌^◌, max, Bool, not, ◌&&◌, ◌||◌, Option, none, some, List}
use csid.Prelude.{leb, ◌==◌, if◌then◌else◌, get_or, take, drop}
use csid.Prelude.Bytes.{of_le_bytes}
use csid.Prelude.Int.{of_pattern}

unfoldable pub ht_field : List ℕ → Ht
ht_field f =
    let known = get_or f 0 0 in
    let flags = get_or f 1 0 in
    record {
      mcs = get_or f 2 0;
      bw_mhz = if has_bit 0 known && flags % 4 == 1 then 40 else 20;
      short_gi = has_bit 2 known && has_bit 2 flags;
    }

abbrev vht_bw : ℕ → ℕ
vht_bw code =
    if code == 0
    then 20
    else if leb code 3
    then 40
    else if leb code 10
    then 80
    else if leb code 25
    then 160
    else 20

unfoldable pub vht_field : List ℕ → Vht
vht_field f =
    let known = of_le_bytes (take 2 f) in
    let flags = get_or f 2 0 in
    let mcs_nss = get_or f 4 0 in
    record {
      mcs = mcs_nss / 2 ^ 4;
      nss = max (mcs_nss % 2 ^ 4) 1;
      bw_mhz = if has_bit 6 known then vht_bw (get_or f 3 0) else 20;
      short_gi = has_bit 2 known && has_bit 2 flags;
    }

abbrev he_bw : Bool → ℕ → Option ℕ
he_bw bw_known ru =
    if not bw_known || ru == 0
    then some 20
    else if ru == 1
    then some 40
    else if ru == 2
    then some 80
    else if ru == 3
    then some 160
    else none

abbrev he_gi : ℕ → ℕ → ℕ
he_gi d1 d4 =
    let code = d4 / 2 ^ 4 % 4 in
    if not (has_bit 1 d1) then 8 else if code == 1 then 16 else if code == 2 then 32 else 8

abbrev he_ltf : ℕ → ℕ → ℕ
he_ltf d1 d4 =
    let code = d4 / 2 ^ 6 % 4 in
    if not (has_bit 2 d1) then 64 else if code == 1 then 32 else if code == 3 then 128 else 64

-- The words of the field.
abbrev he_word : List ℕ → ℕ → ℕ
he_word f i = of_le_bytes (take 2 (drop (2 * i) f))

unfoldable pub he_field : List ℕ → He
he_field f =
    let d0 = he_word f 0 in
    let d1 = he_word f 1 in
    let d4 = he_word f 4 in
    record {
      format = d0 % 4;
      mcs = he_word f 2 / 2 ^ 8 % 2 ^ 4;
      nss = max (he_word f 5 % 2 ^ 4) 1;
      bw_mhz = he_bw (has_bit 14 d0) (d4 % 2 ^ 4);
      gi_tenths = he_gi d1 d4;
      ltf_tenths = he_ltf d1 d4;
    }

-- The frame's PHY and whether it carries a checksum, after a field of the first presence word.
unfoldable pub read_field : ℕ → List ℕ → Phy × Bool → Phy × Bool
unfolding ht_field vht_field he_field
read_field bit f (phy, fcs) =
    if bit == 5
    then (record phy { signal_dbm = some (of_pattern 128 (get_or f 0 0)) }, fcs)
    else if bit == 1
    then (record phy { short_preamble = has_bit 1 (get_or f 0 0) }, has_bit 4 (get_or f 0 0))
    else if bit == 2
    then (record phy { rate_500k = some (get_or f 0 0) }, fcs)
    else if bit == 19
    then (record phy { ht = some (ht_field f) }, fcs)
    else if bit == 20
    then (record phy { ampdu_ref = some (of_le_bytes (take 4 f)) }, fcs)
    else if bit == 21
    then (record phy { vht = some (vht_field f) }, fcs)
    else if bit == 23
    then (record phy { he = some (he_field f) }, fcs)
    else (phy, fcs)
