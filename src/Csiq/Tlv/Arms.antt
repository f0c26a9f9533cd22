-- ===== src/Csiq/Tlv/Arms.antt =====
-- Each arm of `decode_payload`'s match on the value that `encode_payload` writes for it.
use csid.Prelude.{◌≤◌, ℕ, ◌*◌, ◌%◌, ◌≡◌, refl, ap, ◌∙◌, true, some, List, [], ◌∷◌, arith}
use csid.Prelude.{◌==◌, ==_iff, length, All}
use csid.Prelude.Bytes.{IsByte, le_bytes, of_le_bytes, of_le_bytes-le_bytes}
use csid.Prelude.Int.{of_pattern-IsSigned, ℤ, of_pattern, to_pattern-lt, of_pattern-to_pattern}
use mathlib.Core.Path.{ap₂}
use csid.Csiq.Error.{ok, ◌>>=◌}
use csid.Csiq.Width
use csid.Csiq.Record.{IsI16, IsI32, IsU16, IsU32, IsU64}
use csid.Csiq.Tlv.Types.{
  t_ftm, t_us, t_unix_ts_ns, t_rnf, t_ntone, t_src_mac, t_channel, t_width, t_rssi, t_csi_matrix,
  t_mono_us, t_node_temp_mc, t_node_throttle, t_node_spool_free, t_node_load_m, t_node_nic_temp_c,
}
use csid.Csiq.Tlv.Encode.{i16s_to_bytes, i32_bytes}
use csid.Csiq.Tlv.Decode.{Fields, decode_field, i16s_of_chunks, bytes_to_i16s}

pub length-i16s_to_bytes : (xs : List ℤ) → length (i16s_to_bytes xs) ≡ 2 * length xs
unfolding i16s_to_bytes
length-i16s_to_bytes [] = refl
length-i16s_to_bytes (x ∷ xs) = omega (arith, length-i16s_to_bytes xs)

i16s_of_chunks-i16s_to_bytes : (xs : List ℤ) → All IsI16 xs → i16s_of_chunks (i16s_to_bytes xs) ≡ xs
unfolding i16s_of_chunks i16s_to_bytes
i16s_of_chunks-i16s_to_bytes [] h = refl
i16s_of_chunks-i16s_to_bytes (x ∷ xs) (h, hs) =
    ap₂ ◌∷◌
      (ap (of_pattern 32768) (of_le_bytes-le_bytes 2 _ (to_pattern-lt 32768 x h))
        ∙ of_pattern-to_pattern 32768 x h)
      (i16s_of_chunks-i16s_to_bytes xs hs)

-- An i16 array is read back from its bytes.
pub bytes_to_i16s-i16s_to_bytes :
    (xs : List ℤ) → All IsI16 xs → bytes_to_i16s (i16s_to_bytes xs) ≡ ok xs
unfolding bytes_to_i16s
bytes_to_i16s-i16s_to_bytes xs h =
    let even : (length (i16s_to_bytes xs) % 2 == 0) ≡ true =
      (==_iff _ 0).1 (omega (arith, length-i16s_to_bytes xs)) in
    rw even (ap ok (i16s_of_chunks-i16s_to_bytes xs h))

pub i16s_of_chunks-IsI16 : (bs : List ℕ) → All IsByte bs → All IsI16 (i16s_of_chunks bs)
unfolding i16s_of_chunks
i16s_of_chunks-IsI16 [] h = tt
i16s_of_chunks-IsI16 (a ∷ []) h = tt
i16s_of_chunks-IsI16 (a ∷ b ∷ bs) (ha, (hb, h)) =
    (of_pattern-IsSigned 32768 (of_le_bytes (a ∷ b ∷ [])) (omega arith), i16s_of_chunks-IsI16 bs h)

pub length-i16s_of_chunks : (bs : List ℕ) → 2 * length (i16s_of_chunks bs) ≤ length bs
unfolding i16s_of_chunks
length-i16s_of_chunks [] = omega arith
length-i16s_of_chunks (a ∷ []) = omega arith
length-i16s_of_chunks (a ∷ b ∷ bs) = omega (arith, length-i16s_of_chunks bs)

i32_back : (x : ℤ) → IsI32 x → of_pattern 2147483648 (of_le_bytes (i32_bytes x)) ≡ x
i32_back x h =
    ap (of_pattern 2147483648) (of_le_bytes-le_bytes 4 _ (to_pattern-lt 2147483648 x h))
    ∙ of_pattern-to_pattern 2147483648 x h

module _ (s : Fields) where
  pub ftm_arm :
      (v : ℕ) → IsU32 v → decode_field s t_ftm (le_bytes 4 v) ≡ ok (record s { ftm = some v })
  unfolding decode_field
  ftm_arm v h = ap (λ (x : ℕ). ok (record s { ftm = some x })) (of_le_bytes-le_bytes 4 v h)

  pub us_arm : (v : ℕ) → IsU32 v → decode_field s t_us (le_bytes 4 v) ≡ ok (record s { us = v })
  unfolding decode_field
  us_arm v h = ap (λ (x : ℕ). ok (record s { us = x })) (of_le_bytes-le_bytes 4 v h)

  pub unix_arm :
      (v : ℕ)
      → IsU64 v
      → decode_field s t_unix_ts_ns (le_bytes 8 v) ≡ ok (record s { unix_ts_ns = v })
  unfolding decode_field
  unix_arm v h = ap (λ (x : ℕ). ok (record s { unix_ts_ns = x })) (of_le_bytes-le_bytes 8 v h)

  pub rnf_arm : (v : ℕ) → IsU32 v → decode_field s t_rnf (le_bytes 4 v) ≡ ok (record s { rnf = v })
  unfolding decode_field
  rnf_arm v h = ap (λ (x : ℕ). ok (record s { rnf = x })) (of_le_bytes-le_bytes 4 v h)

  pub mono_arm :
      (v : ℕ)
      → IsU64 v
      → decode_field s t_mono_us (le_bytes 8 v) ≡ ok (record s { mono_us = some v })
  unfolding decode_field
  mono_arm v h = ap (λ (x : ℕ). ok (record s { mono_us = some x })) (of_le_bytes-le_bytes 8 v h)

  pub ntone_arm :
      (v : ℕ) → IsU16 v → decode_field s t_ntone (le_bytes 2 v) ≡ ok (record s { ntone = some v })
  unfolding decode_field
  ntone_arm v h = ap (λ (x : ℕ). ok (record s { ntone = some x })) (of_le_bytes-le_bytes 2 v h)

  pub channel_arm :
      (v : ℕ) → IsU32 v → decode_field s t_channel (le_bytes 4 v) ≡ ok (record s { channel = v })
  unfolding decode_field
  channel_arm v h = ap (λ (x : ℕ). ok (record s { channel = x })) (of_le_bytes-le_bytes 4 v h)

  pub width_arm :
      (v : ℕ)
      → IsU16 v
      → decode_field s t_width (le_bytes 2 v) ≡ ok (record s { width = Width.from_code v })
  unfolding decode_field
  width_arm v h =
      ap (λ (x : ℕ). ok (record s { width = Width.from_code x })) (of_le_bytes-le_bytes 2 v h)

  pub mac_arm :
      (m : List ℕ) → length m ≡ 6 → decode_field s t_src_mac m ≡ ok (record s { src_mac = m })
  unfolding decode_field
  mac_arm m h = rw h

  pub rssi_arm :
      (xs : List ℤ)
      → All IsI16 xs
      → decode_field s t_rssi (i16s_to_bytes xs) ≡ ok (record s { rssi = xs })
  unfolding decode_field
  rssi_arm xs h = ap (λ m. m >>= λ v. ok (record s { rssi = v })) (bytes_to_i16s-i16s_to_bytes xs h)

  pub iq_arm :
      (xs : List ℤ)
      → All IsI16 xs
      → decode_field s t_csi_matrix (i16s_to_bytes xs) ≡ ok (record s { iq = xs })
  unfolding decode_field
  iq_arm xs h = ap (λ m. m >>= λ v. ok (record s { iq = v })) (bytes_to_i16s-i16s_to_bytes xs h)

  pub temp_arm :
      (x : ℤ)
      → IsI32 x
      → decode_field s t_node_temp_mc (i32_bytes x)
        ≡ ok (record s { node = record (s.node) { temp_mc = some x } })
  unfolding decode_field
  temp_arm x h =
      ap (λ (y : ℤ). ok (record s { node = record (s.node) { temp_mc = some y } })) (i32_back x h)

  pub nic_temp_arm :
      (x : ℤ)
      → IsI32 x
      → decode_field s t_node_nic_temp_c (i32_bytes x)
        ≡ ok (record s { node = record (s.node) { nic_temp_c = some x } })
  unfolding decode_field
  nic_temp_arm x h =
      ap (λ (y : ℤ). ok (record s { node = record (s.node) { nic_temp_c = some y } }))
        (i32_back x h)

  pub throttle_arm :
      (v : ℕ)
      → IsU32 v
      → decode_field s t_node_throttle (le_bytes 4 v)
        ≡ ok (record s { node = record (s.node) { throttle_flags = some v } })
  unfolding decode_field
  throttle_arm v h =
      ap (λ (x : ℕ). ok (record s { node = record (s.node) { throttle_flags = some x } }))
        (of_le_bytes-le_bytes 4 v h)

  pub spool_arm :
      (v : ℕ)
      → IsU64 v
      → decode_field s t_node_spool_free (le_bytes 8 v)
        ≡ ok (record s { node = record (s.node) { spool_free_bytes = some v } })
  unfolding decode_field
  spool_arm v h =
      ap (λ (x : ℕ). ok (record s { node = record (s.node) { spool_free_bytes = some x } }))
        (of_le_bytes-le_bytes 8 v h)

  pub load_arm :
      (v : ℕ)
      → IsU32 v
      → decode_field s t_node_load_m (le_bytes 4 v)
        ≡ ok (record s { node = record (s.node) { load_m = some v } })
  unfolding decode_field
  load_arm v h =
      ap (λ (x : ℕ). ok (record s { node = record (s.node) { load_m = some x } }))
        (of_le_bytes-le_bytes 4 v h)
