-- ===== src/Rule/Matching.antt =====
-- The matcher that `from_specs` builds, against the list of its rules.
use nsproxy_rs.Base.{
  ℕ, ◌^◌, ◌≤◌, ◌<◌, ◌≡◌, refl, ap, ◌∙◌, not, List, [], ◌∷◌, Bytes, ok, guard, or_fail, leb,
  bytes_beq, arith, >>=-eq-ok, Ensures, failed, holds, Ensures-bind, Ensures-if, Ensures-ok,
  or_fail-eq-ok, guard-eq-ok, leb→le,
}
use nsproxy_rs.Base.Text.{codes, split_once}
use nsproxy_rs.Std.Number.{parse_uint, u8_max}
use nsproxy_rs.Std.Address.{parse_ipv4, parse_ipv4_lt}
use nsproxy_rs.Proxy.{ProxyConfig, is_empty}
use nsproxy_rs.PrefixTrie.{default, get, insert_all}
use nsproxy_rs.PrefixTrie.LongestPrefix.{longest_match, get-longest_match, IsTable}
use nsproxy_rs.Rule.{
  Regex, RuleMatch, ip, cidr, domain, domain_regex, missing_kind, invalid_address, missing_proxy,
  empty_match, empty_proxy, parse_proxy, not_a_cidr, invalid_network, invalid_prefix,
  prefix_out_of_range, parse_cidr, of_kind, parse_match, parse_spec, Builder, empty_builder,
  add_rule, build, RuleMatcher, compile, finish, from_specs, match_ip,
}

abbrev pub Rules : Type 0
Rules = List (RuleMatch × ProxyConfig)

-- The rules on addresses, as networks with a prefix length.
abbrev pub ip_table : Rules → List (ℕ × ℕ × ProxyConfig)
ip_table [] = []
ip_table ((ip addr, a) ∷ rs) = (addr, 32, a) ∷ ip_table rs
ip_table ((cidr network prefix, a) ∷ rs) = (network, prefix, a) ∷ ip_table rs
ip_table ((domain d, a) ∷ rs) = ip_table rs
ip_table ((domain_regex p, a) ∷ rs) = ip_table rs

abbrev pub InRange : RuleMatch → Type 0
InRange (ip addr) = addr < 2 ^ 32
InRange (cidr network prefix) = (network < 2 ^ 32) × (prefix ≤ 32)
InRange (domain d) = Unit
InRange (domain_regex p) = Unit

parse_cidr-InRange : (value : Bytes) → Ensures InRange (parse_cidr value)
unfolding parse_cidr
parse_cidr-InRange value = Ensures-bind (or_fail (split_once b'/' value) not_a_cidr) _ λ parts _.
    Ensures-bind (or_fail (parse_ipv4 parts.0) invalid_network) _ λ network e.
      Ensures-bind (or_fail (parse_uint u8_max parts.1) invalid_prefix) _ λ prefix _.
        Ensures-bind (guard (leb prefix 32) prefix_out_of_range) _ λ _ short. holds (
          parse_ipv4_lt parts.0 network (or_fail-eq-ok (parse_ipv4 parts.0) invalid_network e),
          leb→le prefix 32 (guard-eq-ok (leb prefix 32) prefix_out_of_range short),
        )

module _ (rx : Regex) where
  -- The texts are read, in order, as these rules.
  abbrev pub Reads : List Bytes → Rules → Type 0
  Reads [] [] = Unit
  Reads (s ∷ ss) (r ∷ rs) = (parse_spec rx s ≡ ok r) × Reads ss rs
  Reads _ _ = ⊥

  of_kind-InRange : (kind value : Bytes) → Ensures InRange (of_kind rx kind value)
  unfolding of_kind
  of_kind-InRange kind value =
      Ensures-if (bytes_beq kind (codes "ip"))
        (λ _. Ensures-bind (or_fail (parse_ipv4 value) invalid_address) _ λ addr e.
          holds (parse_ipv4_lt value addr (or_fail-eq-ok (parse_ipv4 value) invalid_address e)))
        λ _.
          Ensures-if (bytes_beq kind (codes "cidr")) (λ _. parse_cidr-InRange value)
            λ _.
              Ensures-if (bytes_beq kind (codes "domain"))
                (λ _. Ensures-if (is_empty value) (λ _. failed _) (λ _. holds tt))
                λ _.
                  Ensures-if (bytes_beq kind (codes "domain-regex"))
                    (λ _. Ensures-if (rx.is_valid value) (λ _. holds tt) (λ _. failed _))
                    (λ _. failed _)

  parse_match-InRange : (spec : Bytes) → Ensures InRange (parse_match rx spec)
  unfolding parse_match
  parse_match-InRange spec =
      Ensures-bind (or_fail (split_once b':' spec) missing_kind) _
        λ parts _. of_kind-InRange parts.0 parts.1

  -- A rule that was read is in the range of IPv4.
  pub parse_spec-InRange : (spec : Bytes) → Ensures (λ r. InRange r.0) (parse_spec rx spec)
  unfolding parse_spec
  parse_spec-InRange spec = Ensures-bind (or_fail (split_once b'=' spec) missing_proxy) _ λ parts _.
      Ensures-bind (guard (not (is_empty parts.0)) empty_match) _ λ _ _.
        Ensures-bind (guard (not (is_empty parts.1)) empty_proxy) _ λ _ _.
          Ensures-bind (parse_proxy parts.1) _ λ proxy _.
            Ensures-bind (parse_match rx parts.0) _
              λ rule read. holds (Ensures-ok (parse_match-InRange parts.0) read)

  -- The loop body over rules that were read.
  abbrev pub add_all : Builder rx → Rules → Builder rx
  add_all b [] = b
  add_all b ((r, a) ∷ rs) = add_all (add_rule rx b r a) rs

  pub build-add_all :
      (specs : List Bytes) (b c : Builder rx)
      → build rx b specs ≡ ok c
      → (rs : Rules) × Reads specs rs × (c ≡ add_all b rs)
  unfolding build
  build-add_all [] b c h = ([], tt, cc)
  build-add_all (s ∷ ss) b c h =
      let ((r, a), read, h1) = >>=-eq-ok (parse_spec rx s) _ h in
      let (rs, reads, e) = build-add_all ss (add_rule rx b r a) c h1 in
      ((r, a) ∷ rs, (read, reads), e)

  add_all-cidr_trie :
      (rs : Rules) (b : Builder rx)
      → (add_all b rs).cidr_trie ≡ insert_all (ip_table rs) b.cidr_trie
  unfolding add_rule insert_all
  add_all-cidr_trie [] b = refl
  add_all-cidr_trie ((ip addr, a) ∷ rs) b = add_all-cidr_trie rs (add_rule rx b (ip addr) a)
  add_all-cidr_trie ((cidr n p, a) ∷ rs) b = add_all-cidr_trie rs (add_rule rx b (cidr n p) a)
  add_all-cidr_trie ((domain d, a) ∷ rs) b = add_all-cidr_trie rs (add_rule rx b (domain d) a)
  add_all-cidr_trie ((domain_regex d, a) ∷ rs) b =
      add_all-cidr_trie rs (add_rule rx b (domain_regex d) a)

  Reads-IsTable : (specs : List Bytes) (rs : Rules) → Reads specs rs → IsTable (ip_table rs)
  Reads-IsTable [] [] h = tt
  Reads-IsTable (s ∷ ss) ((r, a) ∷ rs) h =
      onto r (Ensures-ok (parse_spec-InRange s) h.0) (Reads-IsTable ss rs h.1)
    where
      onto : (r : RuleMatch) → InRange r → IsTable (ip_table rs) → IsTable (ip_table ((r, a) ∷ rs))
      onto (ip addr) k t = ((k, omega arith), t)
      onto (cidr n p) k t = (k, t)
      onto (domain d) k t = t
      onto (domain_regex d) k t = t
  Reads-IsTable [] (r ∷ rs) h = absurd h
  Reads-IsTable (s ∷ ss) [] h = absurd h

  pub finish-eq-ok :
      (b : Builder rx) (m : RuleMatcher rx)
      → finish rx b ≡ ok m
      → (compile rx b.domain_patterns ≡ ok m.domains)
        × (m.domain_actions ≡ b.domain_actions)
        × (m.cidr_trie ≡ b.cidr_trie)
  unfolding finish
  finish-eq-ok b m h =
      let (domains, compiled, e) = >>=-eq-ok (compile rx b.domain_patterns) _ h in (cc, cc, cc)

  -- If every rule is read, the matcher sends each address to the rule with the longest prefix that
  -- holds it, the first one on the command line among rules of one length.
  pub match_ip-from_specs :
      (specs : List Bytes) (m : RuleMatcher rx) (addr : ℕ)
      → from_specs rx specs ≡ ok m
      → addr < 2 ^ 32
      → (rs : Rules) × Reads specs rs × (match_ip rx m addr ≡ longest_match (ip_table rs) 32 addr)
  unfolding from_specs match_ip empty_builder
  match_ip-from_specs specs m addr h lt =
      let (b, built, f) = >>=-eq-ok (build rx (empty_builder rx) specs) (finish rx) h in
      let (rs, reads, e) = build-add_all specs (empty_builder rx) b built in
      let trie : m.cidr_trie ≡ insert_all (ip_table rs) default =
        (finish-eq-ok b m f).2
        ∙ ap (λ c. c.cidr_trie) e
        ∙ add_all-cidr_trie rs (empty_builder rx) in
      (
        rs,
        reads,
        ap (get addr) trie ∙ get-longest_match (ip_table rs) addr (Reads-IsTable specs rs reads) lt,
      )
