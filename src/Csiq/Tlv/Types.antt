-- ===== src/Csiq/Tlv/Types.antt =====
-- crates/csiq/src/tlv.rs: the TLV type codes.
use csid.Prelude.{ℕ}

abbrev pub t_ftm : ℕ
t_ftm = 0x01

abbrev pub t_us : ℕ
t_us = 0x02

abbrev pub t_unix_ts_ns : ℕ
t_unix_ts_ns = 0x03

abbrev pub t_rnf : ℕ
t_rnf = 0x04

abbrev pub t_phy : ℕ
t_phy = 0x05

abbrev pub t_nrx : ℕ
t_nrx = 0x06

abbrev pub t_ntx : ℕ
t_ntx = 0x07

abbrev pub t_ntone : ℕ
t_ntone = 0x08

abbrev pub t_src_mac : ℕ
t_src_mac = 0x09

abbrev pub t_channel : ℕ
t_channel = 0x0a

abbrev pub t_width : ℕ
t_width = 0x0b

abbrev pub t_rssi : ℕ
t_rssi = 0x0c

abbrev pub t_seq : ℕ
t_seq = 0x0d

abbrev pub t_csi_matrix : ℕ
t_csi_matrix = 0x10

abbrev pub t_bw_antsel : ℕ
t_bw_antsel = 0x11

abbrev pub t_mono_us : ℕ
t_mono_us = 0x12

abbrev pub t_vendor_hdr : ℕ
t_vendor_hdr = 0x14

abbrev pub t_node_temp_mc : ℕ
t_node_temp_mc = 0x40

abbrev pub t_node_throttle : ℕ
t_node_throttle = 0x41

abbrev pub t_node_spool_free : ℕ
t_node_spool_free = 0x42

abbrev pub t_node_load_m : ℕ
t_node_load_m = 0x43

abbrev pub t_node_nic_temp_c : ℕ
t_node_nic_temp_c = 0x44
