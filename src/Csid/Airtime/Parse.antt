-- ===== src/Csid/Airtime/Parse.antt =====
-- The walk of crates/csid/src/airtime.rs over the presence words of a radiotap header.
use csid.Csid.Airtime.{Phy, default_phy, has_bit, field_table, u16_at, u32_at, align_up}
use csid.Csid.Airtime.Fields.{read_field}
use csid.Prelude.{
  ℕ, zero, suc, ◌+◌, ◌-◌, ◌*◌, Bool, false, not, ◌||◌, Option, none, some, List, [], ◌∷◌,
}
use csid.Prelude.{ltb, leb, ◌==◌, if◌then◌else◌, length, get_or, take, drop}
use csid.Prelude.Bytes.{of_le_bytes}
use csid.Prelude.Int.{ℤ, of_pattern}

-- The number of presence words, on the bytes from the last one counted.
unfoldable pub count_words : ℕ → ℕ → List ℕ → Option ℕ
count_words rt_len words (b0 ∷ b1 ∷ b2 ∷ b3 ∷ rest) =
    let more = count_words rt_len (words + 1) rest in
    if has_bit 31 (of_le_bytes (b0 ∷ b1 ∷ b2 ∷ b3 ∷ []))
    then (if ltb rt_len (4 + 4 * (words + 1)) then none else more)
    else some words
count_words rt_len words _ = none

-- The loop over the fields of the first word, from this bit on.
unfoldable pub walk_fields :
    List ℕ → ℕ → ℕ → List (ℕ × ℕ) → ℕ → Phy × Bool → Option (ℕ × Phy × Bool)
unfolding read_field
walk_fields hdr present bit [] off (phy, fcs) = some (off, phy, fcs)
walk_fields hdr present bit ((align, size) ∷ rest) off s =
    let at = align_up align off in
    let f = take size (drop at hdr) in
    let later = walk_fields hdr present (suc bit) rest (at + size) (read_field bit f s) in
    let skipped = walk_fields hdr present (suc bit) rest off s in
    if not (has_bit bit present)
    then skipped
    else if leb (at + size) (length hdr)
    then later
    else none

abbrev set_antenna : ℕ → ℤ → Option ℤ × Option ℤ → Option ℤ × Option ℤ
set_antenna a s (first, second) =
    if a == 0 then (some s, second) else if a == 1 then (first, some s) else (first, second)

abbrev antenna_field :
    ℕ → List ℕ → Option ℤ × (Option ℤ × Option ℤ) → Option ℤ × (Option ℤ × Option ℤ)
antenna_field bit f (signal, antennas) =
    if bit == 5
    then (some (of_pattern 128 (get_or f 0 0)), antennas)
    else if bit == 11
    then elim signal [
      | none ↦ (none, antennas)
      | some s ↦ (some s, set_antenna (get_or f 0 0) s antennas)
    ]
    else (signal, antennas)

-- The same for a further word: a field past the header ends the word, not the parse.
unfoldable pub walk_antenna :
    List ℕ → ℕ → ℕ → List (ℕ × ℕ) → ℕ → Option ℤ × (Option ℤ × Option ℤ) → ℕ × (Option ℤ × Option ℤ)
walk_antenna hdr w bit [] off (signal, antennas) = (off, antennas)
walk_antenna hdr w bit ((align, size) ∷ rest) off (signal, antennas) =
    let at = align_up align off in
    let f = take size (drop at hdr) in
    let later =
      walk_antenna hdr w (suc bit) rest (at + size) (antenna_field bit f (signal, antennas)) in
    let skipped = walk_antenna hdr w (suc bit) rest off (signal, antennas) in
    if not (has_bit bit w)
    then skipped
    else if leb (at + size) (length hdr)
    then later
    else (at, antennas)

-- The further words, from this one on.
unfoldable pub walk_words :
    List ℕ → List ℕ → ℕ → ℕ → ℕ → ℕ → Option ℤ × Option ℤ → Option (Option ℤ × Option ℤ)
unfolding walk_antenna
walk_words frame hdr zero k prev off antennas = some antennas
walk_words frame hdr (suc left) k prev off antennas =
    if (has_bit 28 prev || has_bit 30 prev) || not (has_bit 29 prev)
    then some antennas
    else elim (u32_at frame (4 + 4 * k)) [
      | none ↦ none
      | some w ↦
          let word = walk_antenna hdr w 0 field_table off (none, antennas) in
          walk_words frame hdr left (k + 1) w (word.0) (word.1)
    ]

-- Both walks, with the length of the frame behind the header.
unfoldable pub parse_words : List ℕ → ℕ → ℕ → ℕ → Option Phy
unfolding walk_fields walk_words
parse_words frame rt_len present words =
    let hdr = take rt_len frame in
    let len = length frame - rt_len in
    elim (walk_fields hdr present 0 field_table (4 + 4 * words) (default_phy, false)) [
      | none ↦ none
      | some (off, phy, fcs) ↦ elim (walk_words frame hdr (words - 1) 1 present off (none, none)) [
        | none ↦ none
        | some antennas ↦
            some (record phy { psdu_len = if fcs then len - 4 else len; antenna_dbm = antennas })
      ]
    ]

unfoldable pub parse : List ℕ → Option Phy
unfolding count_words parse_words
parse frame =
    if ltb (length frame) 8 || not (get_or frame 0 0 == 0) then none else elim (u16_at frame 2) [
      | none ↦ none
      | some rt_len ↦
          if (ltb rt_len 8 || ltb 1024 rt_len) || ltb (length frame) rt_len
          then none
          else elim (u32_at frame 4) [
            | none ↦ none
            | some present ↦ elim (count_words rt_len 1 (drop 4 frame)) [
              | none ↦ none
              | some words ↦ parse_words frame rt_len present words
            ]
          ]
    ]
