-- ===== src/Config/Net.antt =====
-- src/config.rs: the constants of `config::net`, the addresses of the namespace.
use nsproxy_rs.Base.{ℕ, Bytes}
use nsproxy_rs.Base.Text.{codes}
use nsproxy_rs.FakeDns.{u32_from_be_bytes}

abbrev pub tun_name : Bytes
tun_name = codes "eth0"

abbrev pub tun_addr : ℕ
tun_addr = u32_from_be_bytes 172 23 255 255

abbrev pub tun_gw : ℕ
tun_gw = u32_from_be_bytes 172 23 255 254

abbrev pub tun_prefix : ℕ
tun_prefix = 31

abbrev pub dns_addr : ℕ
dns_addr = tun_gw

abbrev pub dns_port : ℕ
dns_port = 53

abbrev pub tun_mtu : ℕ
tun_mtu = 65000
