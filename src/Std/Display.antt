-- ===== src/Std/Display.antt =====
-- `Display` of IP addresses. An IPv6 address is its eight 16-bit segments.
use nsproxy_rs.Base.{
  ℕ, suc, ◌+◌, ◌-◌, ◌/◌, ◌%◌, ◌^◌, ◌*◌, ◌&&◌, List, [], ◌∷◌, ◌++◌, Bytes, ltb, ◌==◌, if◌then◌else◌,
  take, drop, map,
}
use nsproxy_rs.Base.Text.{join, codes}
use nsproxy_rs.Std.Number.{decimal}

pub data IpAddr : Type 0 where
  v4 : ℕ → IpAddr
  v6 : List ℕ → IpAddr

unfoldable pub display_ipv4 : ℕ → Bytes
unfolding decimal join
display_ipv4 ip = join b'.' (
    decimal (ip / 2 ^ 24 % 256)
    ∷ decimal (ip / 2 ^ 16 % 256)
    ∷ decimal (ip / 256 % 256)
    ∷ decimal (ip % 256)
    ∷ [])

hex_digit : ℕ → ℕ
hex_digit d = if ltb d 10 then b'0' + d else b'a' + (d - 10)

-- `{:x}` of a 16-bit number.
hex : ℕ → Bytes
unfolding hex_digit
hex n =
    if ltb n 16
    then hex_digit n ∷ []
    else if ltb n 256
    then hex_digit (n / 16) ∷ hex_digit (n % 16) ∷ []
    else if ltb n 4096
    then hex_digit (n / 256) ∷ hex_digit (n / 16 % 16) ∷ hex_digit (n % 16) ∷ []
    else hex_digit (n / 4096)
      ∷ hex_digit (n / 256 % 16)
      ∷ hex_digit (n / 16 % 16)
      ∷ hex_digit (n % 16)
      ∷ []

-- The first of the longest runs of zero segments, as start and length: `i` is the position,
-- `current` the run that reaches up to it, and `longest` the best so far.
longest_zeros : ℕ → ℕ × ℕ → ℕ × ℕ → List ℕ → ℕ × ℕ
longest_zeros i current longest [] = longest
longest_zeros i (start, len) longest (s ∷ ss) =
    let from = if len == 0 then i else start in
    let grown = if s == 0 then (from, suc len) else (0, 0) in
    longest_zeros (suc i) grown (if ltb longest.1 grown.1 then grown else longest) ss

display_segments : List ℕ → Bytes
unfolding longest_zeros hex join
display_segments ss =
    let (start, len) = longest_zeros 0 (0, 0) (0, 0) ss in
    if ltb 1 len
    then join b':' (map hex (take start ss))
      ++ b':' ∷ b':' ∷ join b':' (map hex (drop (start + len) ss))
    else join b':' (map hex ss)

-- An address that maps an IPv4 address shows it in dotted form.
unfoldable pub display_ipv6 : List ℕ → Bytes
unfolding display_segments display_ipv4
display_ipv6 (a ∷ b ∷ c ∷ d ∷ e ∷ f ∷ g ∷ h ∷ []) =
    if a + b + c + d + e == 0 && f == 65535
    then codes "::ffff:" ++ display_ipv4 (g * 2 ^ 16 + h)
    else display_segments (a ∷ b ∷ c ∷ d ∷ e ∷ f ∷ g ∷ h ∷ [])
display_ipv6 ss = display_segments ss

unfoldable pub display_ip : IpAddr → Bytes
unfolding display_ipv4 display_ipv6
display_ip (v4 ip) = display_ipv4 ip
display_ip (v6 ss) = display_ipv6 ss
