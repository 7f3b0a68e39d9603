-- ===== src/Tests/Routes.antt =====
-- Rules, routes and proxy URLs at concrete texts, with a regex library that knows literal patterns.
use nsproxy_rs.Base.{
  ℕ, ◌≡◌, refl, Bool, true, List, [], ◌∷◌, ◌++◌, none, some, Bytes, ret, ok, bytes_beq, arith,
  bytes_eq, nat_eq,
}
use nsproxy_rs.Base.Text.{codes, contains, split, split_once, rsplit_once, strip_prefix}
use nsproxy_rs.Std.Number.{parse_uint, parse_digits}
use nsproxy_rs.Std.Address.{parse_octet, parse_ipv4, is_socket_addr}
use nsproxy_rs.FakeDns
use nsproxy_rs.FakeDns.{resolve}
use nsproxy_rs.FakeDns.Invariant.{new-IsValid, resolve-IsValid, lookup-resolve}
use nsproxy_rs.PrefixTrie.{PrefixTrie, default, insert, insert_from, insert_all}
use nsproxy_rs.PrefixTrie
use nsproxy_rs.PrefixTrie.LongestPrefix.{longest_match, get-longest_match}
use nsproxy_rs.Proxy
use nsproxy_rs.Proxy.{
  ProxyConfig, direct, http, domain, socks5_kind, of_kind, check_address, is_bad_host,
  has_whitespace, parse, display, scheme, split_auth,
}
use nsproxy_rs.Proxy.Config.{prefix, without_auth, parse-auth, parse-display}
use nsproxy_rs.Rule
use nsproxy_rs.Rule.{
  Regex, positions, RuleMatcher, from_specs, build, finish, compile, empty_builder, add_rule,
  parse_spec, parse_match, match_domain, match_ip,
}
use nsproxy_rs.Rule.Matching.{Rules, Reads, ip_table, match_ip-from_specs}
use nsproxy_rs.Rule.Domains.{domain_table, first_match, match_domain-from_specs}
use nsproxy_rs.Config.{Config, unwrap_or}
use nsproxy_rs.EventLoop.Socket.{established}
use nsproxy_rs.EventLoop.Outbound.{listening, connecting, Listener, update_listener}
use nsproxy_rs.EventLoop.Outbound.Routing.{update_listener-named}

abbrev literal_match : Bytes → Bytes → Bool
literal_match pattern host = bytes_beq pattern (codes "(?i)^" ++ host ++ codes "$")

same_set : (patterns set : List Bytes) → some patterns ≡ some set → patterns ≡ set
same_set patterns set e = cc

abbrev literals : Regex
literals = record {
  Set = List Bytes;
  is_valid = λ p. true;
  escape = λ d. d;
  is_match = literal_match;
  new_set = λ ps. some ps;
  matches = λ set host. positions (λ p. literal_match p host) 0 set;
  matches_lem = λ patterns set host e. rw (same_set patterns set e) refl;
}

abbrev host : Bytes
host = codes "a.com"

abbrev specs : List Bytes
specs = codes "domain:a.com=direct" ∷ codes "ip:1.2.3.4=direct" ∷ []

abbrev matcher : RuleMatcher literals
matcher = record {
  domains = some (codes "(?i)^a.com$" ∷ []);
  domain_actions = direct ∷ [];
  cidr_trie = insert 16909060 32 direct default;
}

specs_read : from_specs literals specs ≡ ok matcher
unfolding from_specs build finish compile empty_builder add_rule parse_spec parse_match Rule.of_kind
    split_once parse_ipv4 parse_octet split parse_digits Proxy.parse
specs_read = refl

match_ip-from_specs_example :
    (rs : Rules) × Reads literals specs rs
    × (match_ip literals matcher 16909060 ≡ longest_match (ip_table rs) 32 16909060)
match_ip-from_specs_example =
    match_ip-from_specs literals specs matcher 16909060 specs_read (omega arith)

match_domain-from_specs_example :
    (rs : Rules) × Reads literals specs rs
    × (match_domain literals matcher host
        ≡ ret (first_match literals (domain_table literals rs) host))
match_domain-from_specs_example = match_domain-from_specs literals specs matcher host specs_read

abbrev config : Config literals
config = record {
  default_proxy = direct;
  bind_mounts = [];
  publishes = [];
  command = [];
  rules = matcher;
}

abbrev listener : Listener
listener = record { state = established; local = some ((resolve FakeDns.new host).1, 443) }

update_listener-named_example :
    (rs : Rules) × Reads literals specs rs
    × (update_listener literals 0 (resolve FakeDns.new host).0 config listener (listening 0)
        ≡ ret (
            connecting
              (domain host 443)
              (unwrap_or (first_match literals (domain_table literals rs) host) direct)))
update_listener-named_example =
    update_listener-named literals specs config (resolve FakeDns.new host).0 listener 0 0
      (resolve FakeDns.new host).1 443 host specs_read
      (resolve-IsValid FakeDns.new host new-IsValid) (lookup-resolve FakeDns.new host new-IsValid).0
      refl refl

abbrev table : List (ℕ × ℕ × ℕ)
table = (16909056, 24, 2) ∷ (16909060, 32, 1) ∷ []

get-longest_match_example :
    PrefixTrie.get 16909060 (insert_all table default) ≡ longest_match table 32 16909060
get-longest_match_example =
    get-longest_match table 16909060 ((omega arith, omega arith), ((omega arith, omega arith), tt))
      (omega arith)

address_checked : check_address (codes "localhost:1080") ≡ ok tt
unfolding check_address is_socket_addr rsplit_once is_bad_host has_whitespace contains parse_uint
    parse_digits parse_octet
address_checked = refl

parse-auth_example :
    parse
      (prefix socks5_kind ++ (codes "me" ++ b':' ∷ (codes "p@:" ++ b'@' ∷ codes "localhost:1080")))
    ≡ ok (of_kind socks5_kind (codes "localhost:1080") (some (codes "me", codes "p@:")))
unfolding contains
parse-auth_example =
    parse-auth socks5_kind (codes "me") (codes "p@:") (codes "localhost:1080") (λ e. cc) refl refl
      address_checked

abbrev url : Bytes
url = codes "http://localhost:1080"

url_read : parse url ≡ ok (http (codes "localhost:1080") none)
unfolding parse scheme split_auth strip_prefix rsplit_once check_address is_socket_addr is_bad_host
    has_whitespace contains parse_uint parse_digits parse_octet
url_read = refl

parse-display_example :
    parse (display (http (codes "localhost:1080") none))
    ≡ ok (without_auth (http (codes "localhost:1080") none))
parse-display_example = parse-display url (http (codes "localhost:1080") none) url_read
