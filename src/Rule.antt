-- ===== src/Rule.antt =====
-- src/rule.rs: `RuleMatch::parse` and `RuleMatcher`. The regex crate is not part of the repository:
-- it is the parameter `Regex`, whose laws say what a pattern set reports.
pub mod Matching
pub mod Domains
use nsproxy_rs.Base.{
  ℕ, zero, suc, ◌≡◌, Bool, true, false, not, List, [], ◌∷◌, ◌++◌, Option, none, some, Bytes, Result,
  ok, err, ◌>>=◌, ◌>>◌, guard, or_fail, Exec, ret, then_exec, index, get_elem?, leb, if◌then◌else◌,
  bytes_beq,
}
use nsproxy_rs.Base.Text.{codes, split_once}
use nsproxy_rs.Std.Number.{parse_uint, u8_max}
use nsproxy_rs.Std.Address.{parse_ipv4}
use nsproxy_rs.Proxy
use nsproxy_rs.Proxy.{ProxyConfig, is_empty}
use nsproxy_rs.PrefixTrie.{PrefixTrie, default, insert, get}

-- The positions, counted from `i`, of the patterns that pass the test, in ascending order.
abbrev pub positions : (Bytes → Bool) → ℕ → List Bytes → List ℕ
positions test i [] = []
positions test i (p ∷ ps) =
    let rest = positions test (suc i) ps in if test p then i ∷ rest else rest

-- `Regex` and `RegexSet` of the regex crate.
pub record Regex : Type 1 where
  pub Set : Type 0
  pub is_valid : Bytes → Bool
  pub escape : Bytes → Bytes
  pub is_match : Bytes → Bytes → Bool
  pub new_set : List Bytes → Option Set
  pub matches : Set → Bytes → List ℕ
  pub matches_lem :
      (patterns : List Bytes) (set : Set) (host : Bytes)
      → new_set patterns ≡ some set
      → matches set host ≡ positions (λ p. is_match p host) 0 patterns

pub data RuleMatch : Type 0 where
  ip : ℕ → RuleMatch
  cidr : ℕ → ℕ → RuleMatch
  domain : Bytes → RuleMatch
  domain_regex : Bytes → RuleMatch

pub data RuleError : Type 0 where
  missing_kind invalid_address not_a_cidr invalid_network invalid_prefix : RuleError
  prefix_out_of_range empty_domain invalid_regex unknown_kind : RuleError
  missing_proxy empty_match empty_proxy invalid_proxy compile_set : RuleError

unfoldable pub parse_cidr : Bytes → Result RuleError RuleMatch
parse_cidr value = do
  (network, prefix) ← or_fail (split_once b'/' value) not_a_cidr
  network ← or_fail (parse_ipv4 network) invalid_network
  prefix ← or_fail (parse_uint u8_max prefix) invalid_prefix
  guard (leb prefix 32) prefix_out_of_range
  ok (cidr network prefix)

-- The proxy of a rule, with the context that replaces its own error.
abbrev pub parse_proxy : Bytes → Result RuleError ProxyConfig
parse_proxy spec = elim (Proxy.parse spec) [ ok p ↦ ok p | err e ↦ err invalid_proxy ]

module _ (rx : Regex) where
  open rx use {Set, is_valid, escape, new_set, matches}

  -- The `match kind` of `RuleMatch::parse`.
  unfoldable pub of_kind : Bytes → Bytes → Result RuleError RuleMatch
  of_kind kind value =
      if bytes_beq kind (codes "ip")
      then (do addr ← or_fail (parse_ipv4 value) invalid_address; ok (ip addr))
      else if bytes_beq kind (codes "cidr")
      then parse_cidr value
      else if bytes_beq kind (codes "domain")
      then (if is_empty value then err empty_domain else ok (domain value))
      else if bytes_beq kind (codes "domain-regex")
      then (if is_valid value then ok (domain_regex value) else err invalid_regex)
      else err unknown_kind

  unfoldable pub parse_match : Bytes → Result RuleError RuleMatch
  parse_match spec = do
    (kind, value) ← or_fail (split_once b':' spec) missing_kind
    of_kind kind value

  -- The checks at the head of the loop of `from_specs`.
  unfoldable pub parse_spec : Bytes → Result RuleError (RuleMatch × ProxyConfig)
  parse_spec full_spec = do
    (match_spec, proxy_spec) ← or_fail (split_once b'=' full_spec) missing_proxy
    guard (not (is_empty match_spec)) empty_match
    guard (not (is_empty proxy_spec)) empty_proxy
    proxy ← parse_proxy proxy_spec
    rule ← parse_match match_spec
    ok (rule, proxy)

  -- The local variables of `from_specs`.
  pub record Builder : Type 0 where
    pub domain_patterns : List Bytes
    pub domain_actions : List ProxyConfig
    pub cidr_trie : PrefixTrie ProxyConfig

  unfoldable pub empty_builder : Builder
  empty_builder = record { domain_patterns = []; domain_actions = []; cidr_trie = default }

  -- `format!("(?i)^{}$", regex::escape(&domain))`
  abbrev pub literal_pattern : Bytes → Bytes
  literal_pattern d = codes "(?i)^" ++ escape d ++ codes "$"

  push_pattern : Builder → Bytes → ProxyConfig → Builder
  push_pattern b pattern action = record b {
    domain_patterns = b.domain_patterns ++ pattern ∷ [];
    domain_actions = b.domain_actions ++ action ∷ [];
  }

  -- The `match` of the loop body.
  unfoldable pub add_rule : Builder → RuleMatch → ProxyConfig → Builder
  unfolding push_pattern
  add_rule b (ip addr) action = record b { cidr_trie = insert addr 32 action b.cidr_trie }
  add_rule b (cidr network prefix) action = record b {
    cidr_trie = insert network prefix action b.cidr_trie;
  }
  add_rule b (domain d) action = push_pattern b (literal_pattern d) action
  add_rule b (domain_regex pattern) action = push_pattern b pattern action

  unfoldable pub build : Builder → List Bytes → Result RuleError Builder
  build b [] = ok b
  build b (spec ∷ specs) = do (rule, action) ← parse_spec spec; build (add_rule b rule action) specs

  pub record RuleMatcher : Type 0 where
    pub domains : Option Set
    pub domain_actions : List ProxyConfig
    pub cidr_trie : PrefixTrie ProxyConfig

  -- `let domains = …` of `from_specs`: a set is built only if there are patterns.
  unfoldable pub compile : List Bytes → Result RuleError (Option Set)
  compile [] = ok none
  compile (p ∷ ps) = do set ← or_fail (new_set (p ∷ ps)) compile_set; ok (some set)

  -- The end of `from_specs`, behind the loop.
  unfoldable pub finish : Builder → Result RuleError RuleMatcher
  finish b = do
    domains ← compile b.domain_patterns
    ok (record { domains = domains; domain_actions = b.domain_actions; cidr_trie = b.cidr_trie })

  unfoldable pub from_specs : List Bytes → Result RuleError RuleMatcher
  from_specs specs = do b ← build empty_builder specs; finish b

  -- `self.domain_actions[index]` panics out of range.
  unfoldable pub match_domain : RuleMatcher → Bytes → Exec (Option ProxyConfig)
  match_domain m host = elim m.domains [
    | none ↦ ret none
    | some set ↦ elim (matches set host) [
      | [] ↦ ret none
      | i ∷ _ ↦ then_exec (index (get_elem? m.domain_actions i)) (λ p. ret (some p))
    ]
  ]

  unfoldable pub match_ip : RuleMatcher → ℕ → Option ProxyConfig
  match_ip m addr = get addr m.cidr_trie
