-- ===== src/Csid/Ble/Adverts.antt =====
-- The AD structures of an advertisement, in crates/csid/src/ble.rs: the company identifier and the
-- lab's identity frame.
use mathlib.Core.List.{reverse}
use csid.Csid.Timesync.Payload.{hex_text}
use csid.Prelude.{ℕ, zero, suc, ◌-◌, ◌&&◌, ◌||◌, Option, none, some, List, [], ◌∷◌, ◌++◌}
use csid.Prelude.{ltb, leb, ◌==◌, if◌then◌else◌, length, get_or, take, drop, eq_bytes}
use csid.Prelude.Bytes.{of_le_bytes, of_be_bytes}

module _ {ℓ} {A : Type ℓ} where
  -- `if let Some(x) = o {return Some(x) }` before the rest.
  abbrev pub or_else : Option A → Option A → Option A
  or_else none later = later
  or_else (some a) later = some a

  -- The loop over the structures, which both functions have: the type and the payload of each go
  -- to `found`. The number is that of the bytes of the current structure still to pass.
  unfoldable pub walk : (ℕ → List ℕ → Option A) → ℕ → List ℕ → Option A
  walk found skip [] = none
  walk found (suc skip) (b ∷ rest) = walk found skip rest
  walk found zero (ad_len ∷ rest) =
      let later = walk found ad_len rest in
      if ad_len == 0 || ltb (length rest) ad_len
      then none
      else or_else (found (get_or rest 0 0) (take (ad_len - 1) (drop 1 rest))) later

-- The two bytes of a Manufacturer Specific Data structure that are read.
unfoldable pub company_of : ℕ → List ℕ → Option ℕ
company_of ad_type payload =
    if ad_type == 0xff && leb 2 (length payload)
    then some (of_le_bytes (get_or payload 0 0 ∷ get_or payload 1 0 ∷ []))
    else none

unfoldable pub company_id : List ℕ → Option ℕ
unfolding company_of walk
company_id bytes = walk company_of 0 bytes

pub record LabFrame : Type 0 where
  pub uuid : List ℕ
  pub participant_key : ℕ
  pub session_key : ℕ

unfoldable pub canonical_uuid : List ℕ → List ℕ
canonical_uuid bytes =
    let hex = hex_text bytes in
    take 8 hex
    ++ (b'-'
        ∷ (take 4 (drop 8 hex)
            ++ (b'-'
                ∷ (take 4 (drop 12 hex)
                    ++ (b'-' ∷ (take 4 (drop 16 hex) ++ (b'-' ∷ take 12 (drop 20 hex))))))))

unfoldable pub match_uuid_le : List ℕ → List ℕ → Option LabFrame
match_uuid_le prefix le =
    let be = reverse le in
    if eq_bytes (take 12 be) prefix
    then some (record {
      uuid = canonical_uuid be;
      participant_key = of_be_bytes (get_or be 12 0 ∷ get_or be 13 0 ∷ []);
      session_key = of_be_bytes (get_or be 14 0 ∷ get_or be 15 0 ∷ []);
    })
    else none

-- `chunks_exact(16)`, up to the first that matches.
unfoldable pub match_chunks : List ℕ → ℕ → List ℕ → Option LabFrame
match_chunks prefix skip [] = none
match_chunks prefix (suc skip) (b ∷ rest) = match_chunks prefix skip rest
match_chunks prefix zero (b ∷ rest) =
    let later = match_chunks prefix 15 rest in
    if ltb (length rest) 15 then none else or_else (match_uuid_le prefix (take 16 (b ∷ rest))) later

-- The `match ad_type`.
unfoldable pub lab_of : List ℕ → ℕ → List ℕ → Option LabFrame
unfolding match_chunks match_uuid_le
lab_of prefix ad_type payload =
    if ad_type == 6 || ad_type == 7
    then match_chunks prefix 0 payload
    else if ad_type == 0x21 && leb 16 (length payload)
    then match_uuid_le prefix (take 16 payload)
    else none

unfoldable pub extract : List ℕ → List ℕ → Option LabFrame
unfolding lab_of walk
extract prefix bytes = walk (lab_of prefix) 0 bytes
