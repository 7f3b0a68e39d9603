-- ===== src/Tun.antt =====
-- src/tun.rs: the device on the TUN descriptor, as the queue of packets read from it, and the
-- recognition of TCP SYN packets. A packet is a list of bytes.
pub mod Syn
pub mod Fifo
use nsproxy_rs.Base.{
  ℕ, ◌+◌, ◌*◌, ◌/◌, ◌%◌, Bool, true, false, ◌&&◌, ◌||◌, not, List, [], ◌∷◌, ◌++◌, Option, none,
  some, Bytes, Exec, ret, length, take, ltb, ◌==◌, if◌then◌else◌,
}
use nsproxy_rs.Config.Net.{tun_mtu}
use nsproxy_rs.FakeDns.{u32_from_be_bytes}
use nsproxy_rs.DnsPacket.{be16, test_bit, Parse, ◌>>=◌, ◌>>◌, return, none_if, at}

-- The packets buffered for smoltcp. The descriptor is the operating system's.
abbrev pub TunDevice : Type 0
TunDevice = List Bytes

-- A result of `libc::read`: an error or the end, or a packet that fills part of the buffer.
pub data Read : Type 0 where
  nothing : Read
  packet : Bytes → Read

abbrev pub buffer_size : ℕ
buffer_size = tun_mtu + 100

-- `poll_read`, for what `libc::read` gives: a longer packet is cut to the buffer by the system, and
-- an empty one counts as nothing.
unfoldable pub poll_read : TunDevice → Read → TunDevice × Bool
poll_read rx_queue nothing = (rx_queue, false)
poll_read rx_queue (packet []) = (rx_queue, false)
poll_read rx_queue (packet (b ∷ bs)) = (rx_queue ++ take buffer_size (b ∷ bs) ∷ [], true)

-- `Device::receive`: the packet at the front.
unfoldable pub receive : TunDevice → Option Bytes × TunDevice
receive [] = (none, [])
receive (p ∷ ps) = (some p, ps)

-- `parse_tcp_syn`: the source and the destination, each an address and a port.
unfoldable pub parse_tcp_syn : Bytes → Parse (ℕ × ℕ × ℕ × ℕ)
parse_tcp_syn bytes = do
  none_if (ltb (length bytes) 40)
  first ← at bytes 0
  none_if (not (first / 16 == 4))
  let ihl = first % 16 * 4
  protocol ← at bytes 9
  none_if (not (protocol == 6))
  none_if (ltb (length bytes) (ihl + 20))
  flags ← at bytes (ihl + 13)
  none_if (not (test_bit flags 1 && not (test_bit flags 4)))
  let src_ip = u32_from_be_bytes (← at bytes 12) (← at bytes 13) (← at bytes 14) (← at bytes 15)
  let src_port = be16 (← at bytes ihl) (← at bytes (ihl + 1))
  let dst_ip = u32_from_be_bytes (← at bytes 16) (← at bytes 17) (← at bytes 18) (← at bytes 19)
  let dst_port = be16 (← at bytes (ihl + 2)) (← at bytes (ihl + 3))
  return (src_ip, src_port, dst_ip, dst_port)
