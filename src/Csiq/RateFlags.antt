-- ===== src/Csiq/RateFlags.antt =====
-- crates/csiq/src/raw.rs, `decode_rnf` and `decode_bw_antsel`: the fields of the version 2
-- `rate_n_flags` word. `(x >> p) & (2^k - 1)` is written `x / 2 ^ p % 2 ^ k`.
use csid.Prelude.{ℕ, ◌+◌, ◌/◌, ◌%◌, ◌^◌, Option, none, some}
use csid.Prelude.{◌==◌, if◌then◌else◌}
use csid.Csiq.Bandwidth
use csid.Csiq.Modulation
use csid.Csiq.Record.{BwAntsel, PhyLabel}

abbrev pub mod_type_pos : ℕ
mod_type_pos = 8

abbrev pub chan_width_pos : ℕ
chan_width_pos = 11

abbrev pub ant_pos : ℕ
ant_pos = 14

unfoldable pub decode_bw_antsel : ℕ → Option BwAntsel
decode_bw_antsel rnf =
    if rnf == 0
    then none
    else some (record {
      bandwidth = Bandwidth.from_code (rnf / 2 ^ chan_width_pos % 8);
      antenna_sel = rnf / 2 ^ ant_pos % 4;
    })

unfoldable pub decode_rnf : ℕ → Option PhyLabel
decode_rnf rnf =
    if rnf == 0
    then none
    else let mcs = rnf % 16 in
      let nss = rnf / 16 % 4 + 1 in
      let mod_type = rnf / 2 ^ mod_type_pos % 8 in
      some (record { modulation = Modulation.from_rnf_type mod_type; mcs = mcs; nss = nss })
