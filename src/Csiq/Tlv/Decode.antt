-- ===== src/Csiq/Tlv/Decode.antt =====
-- crates/csiq/src/tlv.rs, the reading half: the cursor `Buf`, `bytes_to_i16s`, `decode_payload`.
-- A cursor is the list of the bytes it has not read.
use csid.Prelude.{ℕ, zero, suc, ◌%◌, Option, none, some, List, [], ◌∷◌}
use csid.Prelude.{ltb, ◌==◌, if◌then◌else◌, length, get_or, take, drop, replicate}
use csid.Prelude.Bytes.{of_le_bytes}
use csid.Prelude.Int.{ℤ, of_pattern}
use Prim.Native.String.{String}
use csid.Csiq.Error.{malformed, Result, ok, err, stuck, ◌>>=◌, ok_or}
use csid.Csiq.Width.{Width}
use csid.Csiq.Width
use csid.Csiq.Bandwidth
use csid.Csiq.Modulation
use csid.Csiq.Record.{BwAntsel, PhyLabel, NodeState, default_node, CsiRecord}
use csid.Csiq.RateFlags.{decode_bw_antsel}
use csid.Csiq.Tlv.Types.{
  t_ftm, t_us, t_unix_ts_ns, t_rnf, t_phy, t_nrx, t_ntx, t_ntone, t_src_mac, t_channel, t_width,
  t_rssi, t_seq, t_csi_matrix, t_bw_antsel, t_mono_us, t_vendor_hdr, t_node_temp_mc,
  t_node_throttle, t_node_spool_free, t_node_load_m, t_node_nic_temp_c,
}

-- `Buf::take`, `Buf::u8` and `Buf::u32`, each with the cursor after it.
unfoldable pub take_bytes : ℕ → List ℕ → Result (List ℕ × List ℕ)
take_bytes n b =
    if ltb (length b) n
    then err (malformed "tlv value past end of payload")
    else ok (take n b, drop n b)

unfoldable pub read_u8 : List ℕ → Result (ℕ × List ℕ)
unfolding take_bytes
read_u8 b = do (s, b') ← take_bytes 1 b; ok (get_or s 0 0, b')

unfoldable pub read_u32 : List ℕ → Result (ℕ × List ℕ)
unfolding take_bytes
read_u32 b = do (s, b') ← take_bytes 4 b; ok (of_le_bytes s, b')

unfoldable pub i16s_of_chunks : List ℕ → List ℤ
i16s_of_chunks (lo ∷ hi ∷ bs) = of_pattern 32768 (of_le_bytes (lo ∷ hi ∷ [])) ∷ i16s_of_chunks bs
i16s_of_chunks _ = []

unfoldable pub bytes_to_i16s : List ℕ → Result (List ℤ)
bytes_to_i16s b =
    if length b % 2 == 0
    then ok (i16s_of_chunks b)
    else err (malformed "odd byte count for i16 array")

-- The locals of `decode_payload`.
pub record Fields : Type 0 where
  pub ftm : Option ℕ
  pub us : ℕ
  pub unix_ts_ns : ℕ
  pub rnf : ℕ
  pub phy : Option PhyLabel
  pub seq : ℕ
  pub nrx : Option ℕ
  pub ntx : Option ℕ
  pub ntone : Option ℕ
  pub rssi : List ℤ
  pub src_mac : List ℕ
  pub channel : ℕ
  pub width : Width
  pub bw_antsel : Option BwAntsel
  pub mono_us : Option ℕ
  pub vendor_hdr : Option (List ℕ)
  pub node : NodeState
  pub iq : List ℤ

abbrev pub initial : Fields
initial = record {
  ftm = none;
  us = 0;
  unix_ts_ns = 0;
  rnf = 0;
  phy = none;
  seq = 0;
  nrx = none;
  ntx = none;
  ntone = none;
  rssi = [];
  src_mac = replicate 6 0;
  channel = 0;
  width = Width.unknown 0;
  bw_antsel = none;
  mono_us = none;
  vendor_hdr = none;
  node = default_node;
  iq = [];
}

-- `uN::from_le_bytes(val.try_into().map_err(…)?)` for a type of `n` bytes, and i32's.
unfoldable pub le_uint : ℕ → String → List ℕ → Result ℕ
le_uint n what val = if length val == n then ok (of_le_bytes val) else err (malformed what)

unfoldable pub le_i32 : String → List ℕ → Result ℤ
unfolding le_uint
le_i32 what val = do v ← le_uint 4 what val; ok (of_pattern 2147483648 v)

-- `*val.first().ok_or(…)?`
unfoldable pub first_byte : String → List ℕ → Result ℕ
first_byte what [] = err (malformed what)
first_byte what (b ∷ bs) = ok b

unfoldable pub decode_phy : List ℕ → Result PhyLabel
decode_phy val =
    if length val == 3
    then ok (record {
      modulation = Modulation.from_rnf_type (get_or val 0 0);
      mcs = get_or val 1 0;
      nss = get_or val 2 0;
    })
    else err (malformed "phy len")

unfoldable pub decode_bw : List ℕ → Result BwAntsel
decode_bw val =
    if ltb (length val) 2
    then err (malformed "bw_antsel len")
    else ok
        (record { bandwidth = Bandwidth.from_code (get_or val 0 0); antenna_sel = get_or val 1 0 })

-- The arms for 0x40 and above, which write into `node`.
unfoldable pub decode_node : NodeState → ℕ → List ℕ → Result NodeState
unfolding le_uint le_i32
decode_node node ty val =
    if ty == t_node_temp_mc
    then (do v ← le_i32 "node temp len" val; ok (record node { temp_mc = some v }))
    else if ty == t_node_throttle
    then (do v ← le_uint 4 "node throttle len" val; ok (record node { throttle_flags = some v }))
    else if ty == t_node_spool_free
    then (do v ← le_uint 8 "node spool len" val; ok (record node { spool_free_bytes = some v }))
    else if ty == t_node_load_m
    then (do v ← le_uint 4 "node load len" val; ok (record node { load_m = some v }))
    else if ty == t_node_nic_temp_c
    then (do v ← le_i32 "node nic temp len" val; ok (record node { nic_temp_c = some v }))
    else ok node

-- The body of `match ty`; the last arm skips an unknown type.
unfoldable pub decode_field : Fields → ℕ → List ℕ → Result Fields
unfolding le_uint first_byte decode_phy decode_bw decode_node bytes_to_i16s
decode_field acc ty val =
    if ty == t_ftm
    then (do v ← le_uint 4 "ftm len" val; ok (record acc { ftm = some v }))
    else if ty == t_us
    then (do v ← le_uint 4 "us len" val; ok (record acc { us = v }))
    else if ty == t_unix_ts_ns
    then (do v ← le_uint 8 "unix_ts_ns len" val; ok (record acc { unix_ts_ns = v }))
    else if ty == t_rnf
    then (do v ← le_uint 4 "rnf len" val; ok (record acc { rnf = v }))
    else if ty == t_phy
    then (do p ← decode_phy val; ok (record acc { phy = some p }))
    else if ty == t_seq
    then (do v ← first_byte "seq len" val; ok (record acc { seq = v }))
    else if ty == t_nrx
    then (do v ← first_byte "nrx len" val; ok (record acc { nrx = some v }))
    else if ty == t_ntx
    then (do v ← first_byte "ntx len" val; ok (record acc { ntx = some v }))
    else if ty == t_ntone
    then (do v ← le_uint 2 "ntone len" val; ok (record acc { ntone = some v }))
    else if ty == t_src_mac
    then (if length val == 6
        then ok (record acc { src_mac = val })
        else err (malformed "src_mac len"))
    else if ty == t_channel
    then (do v ← le_uint 4 "channel len" val; ok (record acc { channel = v }))
    else if ty == t_width
    then (do v ← le_uint 2 "width len" val; ok (record acc { width = Width.from_code v }))
    else if ty == t_rssi
    then (do v ← bytes_to_i16s val; ok (record acc { rssi = v }))
    else if ty == t_bw_antsel
    then (do b ← decode_bw val; ok (record acc { bw_antsel = some b }))
    else if ty == t_mono_us
    then (do v ← le_uint 8 "mono_us len" val; ok (record acc { mono_us = some v }))
    else if ty == t_vendor_hdr
    then ok (record acc { vendor_hdr = some val })
    else if ty == t_csi_matrix
    then (do v ← bytes_to_i16s val; ok (record acc { iq = v }))
    else (do n ← decode_node acc.node ty val; ok (record acc { node = n }))

-- One round of the loop: a type, a length, a value.
unfoldable pub read_tlv : List ℕ → Result (ℕ × List ℕ × List ℕ)
unfolding read_u8 read_u32
read_tlv b = do
  (ty, b1) ← read_u8 b
  (len, b2) ← read_u32 b1
  (val, b3) ← take_bytes len b2
  ok (ty, val, b3)

-- `while buf.remaining() > 0`, on fuel.
unfoldable pub decode_loop : ℕ → List ℕ → Fields → Result Fields
decode_loop fuel [] acc = ok acc
decode_loop zero (b ∷ bs) acc = stuck
decode_loop (suc fuel) (b ∷ bs) acc = do
  (ty, val, rest) ← read_tlv (b ∷ bs)
  acc' ← decode_field acc ty val
  decode_loop fuel rest acc'

-- `bw_antsel.or_else(|| decode_bw_antsel(rnf))`.
abbrev pub or_decoded : Option BwAntsel → ℕ → Option BwAntsel
or_decoded none rnf = decode_bw_antsel rnf
or_decoded (some b) rnf = some b

-- The record built at the end, with the four fields that must be there.
unfoldable pub finish : Fields → Result CsiRecord
finish acc = do
  ftm ← ok_or acc.ftm (malformed "missing ftm")
  nrx ← ok_or acc.nrx (malformed "missing nrx")
  ntx ← ok_or acc.ntx (malformed "missing ntx")
  ntone ← ok_or acc.ntone (malformed "missing ntone")
  ok (record {
    ftm = ftm;
    us = acc.us;
    unix_ts_ns = acc.unix_ts_ns;
    rnf = acc.rnf;
    phy = acc.phy;
    bw_antsel = or_decoded acc.bw_antsel acc.rnf;
    mono_us = acc.mono_us;
    vendor_hdr = acc.vendor_hdr;
    node = acc.node;
    seq = acc.seq;
    nrx = nrx;
    ntx = ntx;
    ntone = ntone;
    rssi = acc.rssi;
    src_mac = acc.src_mac;
    channel = acc.channel;
    width = acc.width;
    iq = acc.iq;
  })

-- Every round takes five bytes at least, so `length payload` rounds are enough.
unfoldable pub decode_payload : List ℕ → Result CsiRecord
unfolding finish
decode_payload payload = do acc ← decode_loop (length payload) payload initial; finish acc
