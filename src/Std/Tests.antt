-- ===== src/Std/Tests.antt =====
-- The readers at concrete texts.
use nsproxy_rs.Base.{◌≡◌, refl, true, false, some, none, [], ◌∷◌}
use nsproxy_rs.Base.Text.{codes}
use nsproxy_rs.Std.Number.{parse_uint, decimal, u16_max}
use nsproxy_rs.Std.Display.{display_ip, v4, v6}
use nsproxy_rs.Std.Address.{parse_ipv4, is_socket_addr}

numbers :
    (parse_uint u16_max (codes "65535") ≡ some 65535)
    × (parse_uint u16_max (codes "65536") ≡ none)
    × (parse_uint u16_max (codes "+80") ≡ some 80)
    × (parse_uint u16_max (codes "+") ≡ none)
    × (parse_uint u16_max (codes "") ≡ none)
    × (decimal 10203 ≡ codes "10203")
unfolding parse_uint decimal
numbers = (refl, refl, refl, refl, refl, refl)

addresses :
    (parse_ipv4 (codes "1.2.3.4") ≡ some 16909060)
    × (parse_ipv4 (codes "1.2.03.4") ≡ none)
    × (parse_ipv4 (codes "1.2.3.256") ≡ none)
    × (parse_ipv4 (codes "1.2.3") ≡ none)
    × (is_socket_addr (codes "127.0.0.1:1080") ≡ true)
    × (is_socket_addr (codes "127.0.0.1:65536") ≡ false)
    × (is_socket_addr (codes "[::1]:8080") ≡ true)
    × (is_socket_addr (codes "[fe80::1%3]:8080") ≡ true)
    × (is_socket_addr (codes "[1:2:3:4:5:6:1.2.3.4]:1") ≡ true)
    × (is_socket_addr (codes "[1:2:3:4:5:6:7:8]:1") ≡ true)
    × (is_socket_addr (codes "[1:2:3:4:5:6:7]:1") ≡ false)
    × (is_socket_addr (codes "::1:80") ≡ false)
unfolding parse_ipv4 is_socket_addr
addresses = (refl, refl, refl, refl, refl, refl, refl, refl, refl, refl, refl, refl)

shown :
    (display_ip (v4 16909060) ≡ codes "1.2.3.4")
    × (display_ip (v6 (0 ∷ 0 ∷ 0 ∷ 0 ∷ 0 ∷ 0 ∷ 0 ∷ 1 ∷ [])) ≡ codes "::1")
    × (display_ip (v6 (0 ∷ 0 ∷ 0 ∷ 0 ∷ 0 ∷ 0 ∷ 0 ∷ 0 ∷ [])) ≡ codes "::")
    × (display_ip (v6 (65152 ∷ 0 ∷ 0 ∷ 1 ∷ 0 ∷ 0 ∷ 0 ∷ 43981 ∷ [])) ≡ codes "fe80:0:0:1::abcd")
    × (display_ip (v6 (0 ∷ 0 ∷ 0 ∷ 0 ∷ 0 ∷ 65535 ∷ 258 ∷ 772 ∷ [])) ≡ codes "::ffff:1.2.3.4")
    × (display_ip (v6 (1 ∷ 2 ∷ 3 ∷ 4 ∷ 5 ∷ 6 ∷ 7 ∷ 8 ∷ [])) ≡ codes "1:2:3:4:5:6:7:8")
unfolding display_ip
shown = (refl, refl, refl, refl, refl, refl)
