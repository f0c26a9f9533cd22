-- ===== src/Csid/Timesync/Address.antt =====
-- The MAC address texts of crates/csid/src/timesync/payload.rs.
use csid.Prelude.Text.{
  hex_byte, u8_from_hex, split_on, u8_from_hex-hex_byte, split_on-hex_byte, split_on-hex_byte_last,
}
use csid.Prelude.{ℕ, zero, suc, ◌≡◌, refl, ap, ◌∙◌, Option, none, some, List, [], ◌∷◌, ◌++◌, arith}
use csid.Prelude.{◌==◌, if◌then◌else◌, length, get_or, All}
use csid.Prelude.Bytes.{IsByte}

-- `aa:bb:cc:dd:ee:ff`.
unfoldable pub mac_string : List ℕ → List ℕ
mac_string m =
    hex_byte (get_or m 0 0)
    ++ (b':'
        ∷ (hex_byte (get_or m 1 0)
            ++ (b':'
                ∷ (hex_byte (get_or m 2 0)
                    ++ (b':'
                        ∷ (hex_byte (get_or m 3 0)
                            ++ (b':'
                                ∷ (hex_byte (get_or m 4 0)
                                    ++ (b':' ∷ hex_byte (get_or m 5 0))))))))))

-- The loop over the parts, with the room left in `out`.
unfoldable pub parse_parts : ℕ → List (List ℕ) → Option (List ℕ)
parse_parts room [] = some []
parse_parts zero (p ∷ ps) = none
parse_parts (suc room) (p ∷ ps) = in_front (u8_from_hex p) (parse_parts room ps)
  where
    in_front : Option ℕ → Option (List ℕ) → Option (List ℕ)
    in_front none bs = none
    in_front (some b) none = none
    in_front (some b) (some bs) = some (b ∷ bs)

-- `(n == 6).then_some(out)`, behind the loop.
abbrev pub six_parts : Option (List ℕ) → Option (List ℕ)
six_parts none = none
six_parts (some out) = if length out == 6 then some out else none

unfoldable pub parse_mac : List ℕ → Option (List ℕ)
unfolding parse_parts
parse_mac s = six_parts (parse_parts 6 (split_on b':' s))

-- The parts of an address text are the digits of its bytes.
pub split_on-mac_string :
    (a b c d e f : ℕ)
    → All IsByte (a ∷ b ∷ c ∷ d ∷ e ∷ f ∷ [])
    → split_on b':' (mac_string (a ∷ b ∷ c ∷ d ∷ e ∷ f ∷ []))
      ≡ hex_byte a ∷ hex_byte b ∷ hex_byte c ∷ hex_byte d ∷ hex_byte e ∷ hex_byte f ∷ []
unfolding mac_string
split_on-mac_string a b c d e f (ha, (hb, (hc, (hd, (he, (hf, _)))))) =
    rw
      (
        split_on-hex_byte a _ ha,
        split_on-hex_byte b _ hb,
        split_on-hex_byte c _ hc,
        split_on-hex_byte d _ hd,
        split_on-hex_byte e _ he,
        split_on-hex_byte_last f hf,
      )
      refl

-- The parts of an address text, read back.
parse_parts-hex_byte :
    (a b c d e f : ℕ)
    → All IsByte (a ∷ b ∷ c ∷ d ∷ e ∷ f ∷ [])
    → parse_parts 6
        (hex_byte a ∷ hex_byte b ∷ hex_byte c ∷ hex_byte d ∷ hex_byte e ∷ hex_byte f ∷ [])
      ≡ some (a ∷ b ∷ c ∷ d ∷ e ∷ f ∷ [])
unfolding parse_parts
parse_parts-hex_byte a b c d e f (ha, (hb, (hc, (hd, (he, (hf, _)))))) = rw (
  u8_from_hex-hex_byte a ha,
  u8_from_hex-hex_byte b hb,
  u8_from_hex-hex_byte c hc,
  u8_from_hex-hex_byte d hd,
  u8_from_hex-hex_byte e he,
  u8_from_hex-hex_byte f hf,
)

-- The text of six bytes reads back as these bytes.
pub parse_mac-mac_string :
    (m : List ℕ) → All IsByte m → length m ≡ 6 → parse_mac (mac_string m) ≡ some m
unfolding parse_mac
parse_mac-mac_string (a ∷ b ∷ c ∷ d ∷ e ∷ f ∷ []) h _ =
    ap (λ (ps : List (List ℕ)). six_parts (parse_parts 6 ps)) (split_on-mac_string a b c d e f h)
    ∙ ap six_parts (parse_parts-hex_byte a b c d e f h)
parse_mac-mac_string m h e = absurd (omega arith)
