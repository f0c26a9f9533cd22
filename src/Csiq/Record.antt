-- ===== src/Csiq/Record.antt =====
-- crates/csiq/src/record.rs: the semantic record that the container, the live stream and the raw
-- parser share. A byte, a u16, a u32 and a u64 are numbers, an i16 and an i32 integers, a byte
-- array is a list; `IsTyped` says that each lies in the range of its Rust type.
pub mod Matrix
use csid.Prelude.{
  ℕ, zero, suc, ◌+◌, ◌-◌, ◌*◌, ◌/◌, ◌%◌, ◌^◌, ◌≤◌, ◌<◌, min, max, ◌≡◌, refl, sym, ap, ◌∙◌, ◌≢◌, ◌↔◌,
  ◌⊎◌, inl, inr, Bool, true, false, not, ◌&&◌, ◌||◌, Option, none, some, List, [], ◌∷◌, ◌++◌, map,
  append-nil, append_assoc, arith,
}
use csid.Prelude.{
  ltb, leb, ◌==◌, if◌then◌else◌, ltb→lt, lt→ltb, le→ltb, leb→le, ==_iff, ==_refl, Bool-cases,
  Option-cases, length, get_or, take, drop, replicate, All, length-append, length-take, length-drop,
  length-replicate, take-append-drop, take-append, drop-append, All-append, eq_bytes, eq_bytes_refl,
  eq_bytes→eq,
}
use csid.Prelude.Bytes.{
  IsByte, le_bytes, of_le_bytes, be_bytes, of_be_bytes, length-le_bytes, length-be_bytes,
  le_bytes-IsByte, of_le_bytes-le_bytes, of_be_bytes-be_bytes, of_le_bytes-lt,
}
use csid.Prelude.Int.{
  ℤ, pos, negsuc, pos_part, neg_part, sub_ℕ, IsSigned, to_pattern, of_pattern, to_pattern-lt,
  of_pattern-to_pattern, of_pattern-IsSigned,
}
use csid.Prelude.Bytes.{IsByte}
use csid.Csiq.Width.{Width}
use csid.Csiq.Width
use csid.Csiq.Bandwidth.{Bandwidth}
use csid.Csiq.Bandwidth
use csid.Csiq.Modulation.{Modulation}
use csid.Csiq.Modulation

pub record BwAntsel : Type 0 where
  pub bandwidth : Bandwidth
  pub antenna_sel : ℕ

pub record PhyLabel : Type 0 where
  pub modulation : Modulation
  pub mcs : ℕ
  pub nss : ℕ

pub record NodeState : Type 0 where
  pub temp_mc : Option ℤ
  pub throttle_flags : Option ℕ
  pub spool_free_bytes : Option ℕ
  pub load_m : Option ℕ
  pub nic_temp_c : Option ℤ

-- `NodeState::default()`.
abbrev pub default_node : NodeState
default_node = record {
  temp_mc = none;
  throttle_flags = none;
  spool_free_bytes = none;
  load_m = none;
  nic_temp_c = none;
}

pub record CsiRecord : Type 0 where
  pub ftm : ℕ
  pub us : ℕ
  pub unix_ts_ns : ℕ
  pub rnf : ℕ
  pub phy : Option PhyLabel
  pub bw_antsel : Option BwAntsel
  pub mono_us : Option ℕ
  pub vendor_hdr : Option (List ℕ)
  pub node : NodeState
  pub seq : ℕ
  pub nrx : ℕ
  pub ntx : ℕ
  pub ntone : ℕ
  pub rssi : List ℤ
  pub src_mac : List ℕ
  pub channel : ℕ
  pub width : Width
  pub iq : List ℤ

-- The ranges of the Rust types.
abbrev pub IsU16 : ℕ → Type 0
IsU16 v = v < 65536

abbrev pub IsU32 : ℕ → Type 0
IsU32 v = v < 4294967296

abbrev pub IsU64 : ℕ → Type 0
IsU64 v = v < 18446744073709551616

abbrev pub IsI16 : ℤ → Type 0
IsI16 = IsSigned 32768

abbrev pub IsI32 : ℤ → Type 0
IsI32 = IsSigned 2147483648

abbrev pub Each {ℓ κ} : {A : Type ℓ} → (A → Type κ) → Option A → Type κ
Each P none = Unit
Each P (some a) = P a

pub record IsTypedNode (n : NodeState) : Type 0 where
  pub temp_mc_typed : Each IsI32 n.temp_mc
  pub throttle_typed : Each IsU32 n.throttle_flags
  pub spool_typed : Each IsU64 n.spool_free_bytes
  pub load_typed : Each IsU32 n.load_m
  pub nic_temp_typed : Each IsI32 n.nic_temp_c

pub record IsTypedPhy (p : PhyLabel) : Type 0 where
  pub modulation_typed : IsByte (Modulation.to_code p.modulation)
  pub mcs_typed : IsByte p.mcs
  pub nss_typed : IsByte p.nss

pub record IsTypedBwAntsel (b : BwAntsel) : Type 0 where
  pub bandwidth_typed : IsByte (Bandwidth.to_code b.bandwidth)
  pub antenna_typed : IsByte b.antenna_sel

-- Each field lies in its Rust type, and no byte length passes the u32 that frames it.
pub record IsTyped (r : CsiRecord) : Type 0 where
  pub ftm_typed : IsU32 r.ftm
  pub us_typed : IsU32 r.us
  pub unix_typed : IsU64 r.unix_ts_ns
  pub rnf_typed : IsU32 r.rnf
  pub phy_typed : Each IsTypedPhy r.phy
  pub bw_antsel_typed : Each IsTypedBwAntsel r.bw_antsel
  pub mono_typed : Each IsU64 r.mono_us
  pub vendor_fits : Each (λ h. IsU32 (length h)) r.vendor_hdr
  pub vendor_bytes : Each (All IsByte) r.vendor_hdr
  pub node_typed : IsTypedNode r.node
  pub seq_typed : IsByte r.seq
  pub nrx_typed : IsByte r.nrx
  pub ntx_typed : IsByte r.ntx
  pub ntone_typed : IsU16 r.ntone
  pub rssi_typed : All IsI16 r.rssi
  pub rssi_fits : IsU32 (2 * length r.rssi)
  pub mac_typed : length r.src_mac ≡ 6
  pub mac_bytes : All IsByte r.src_mac
  pub channel_typed : IsU32 r.channel
  pub width_typed : IsU16 (Width.to_code r.width)
  pub iq_typed : All IsI16 r.iq
  pub iq_fits : IsU32 (2 * length r.iq)
