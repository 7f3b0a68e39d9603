-- ===== src/Config.antt =====
-- src/config.rs: the parsed options and the choice of a route.
pub mod Net
use nsproxy_rs.Base.{
  ℕ, ◌^◌, ◌<◌, ◌≡◌, refl, List, Option, none, some, Bytes, Exec, ret, then_exec, ok, >>=-eq-ok,
}
use nsproxy_rs.Namespace.Mounts.{BindMount}
use nsproxy_rs.Publish.{PublishSpec}
use nsproxy_rs.Proxy.{ProxyConfig, ProxyTarget, domain, ip}
use nsproxy_rs.Std.Display.{v4, v6}
use nsproxy_rs.PrefixTrie.LongestPrefix.{longest_match}
use nsproxy_rs.Rule.{
  Regex, RuleMatcher, from_specs, match_domain, match_ip, build, empty_builder, finish,
}
use nsproxy_rs.Rule.Matching.{Rules, Reads, build-add_all, ip_table, match_ip-from_specs}
use nsproxy_rs.Rule.Domains.{domain_table, first_match, match_domain-from_specs}

abbrev pub unwrap_or : {A : Type 0} → Option A → A → A
unwrap_or none a = a
unwrap_or (some b) a = b

pub record Config (rx : Regex) : Type 0 where
  pub default_proxy : ProxyConfig
  pub bind_mounts : List BindMount
  pub publishes : List PublishSpec
  pub command : List Bytes
  pub rules : RuleMatcher rx

module _ (rx : Regex) where
  unfoldable pub proxy_for : Config rx → ProxyTarget → Exec ProxyConfig
  proxy_for c (domain host port) =
      then_exec (match_domain rx c.rules host) (λ matched. ret (unwrap_or matched c.default_proxy))
  proxy_for c (ip (v4 addr) port) = ret (unwrap_or (match_ip rx c.rules addr) c.default_proxy)
  proxy_for c (ip (v6 addr) port) = ret c.default_proxy

  -- The route that the rules give to a target: the first domain rule for a name, the rule with the
  -- longest prefix for an IPv4 address, and no rule for an IPv6 address.
  abbrev pub route : Rules → ProxyTarget → Option ProxyConfig
  route rs (domain host port) = first_match rx (domain_table rx rs) host
  route rs (ip (v4 addr) port) = longest_match (ip_table rs) 32 addr
  route rs (ip (v6 addr) port) = none

  -- An IPv4 address has 32 bits.
  abbrev pub IsTarget : ProxyTarget → Type 0
  IsTarget (ip (v4 addr) port) = addr < 2 ^ 32
  IsTarget _ = Unit

  -- Under rules that are read from the command line, the route of a target never fails: it is what
  -- the rules give to it, and the default route where they give none.
  pub proxy_for-from_specs :
      (specs : List Bytes) (c : Config rx) (target : ProxyTarget)
      → from_specs rx specs ≡ ok c.rules
      → IsTarget target
      → (rs : Rules) × Reads rx specs rs
        × (proxy_for c target ≡ ret (unwrap_or (route rs target) c.default_proxy))
  unfolding proxy_for from_specs
  proxy_for-from_specs specs c (domain host port) h k =
      let (rs, reads, e) = match_domain-from_specs rx specs c.rules host h in (rs, reads, rw e refl)
  proxy_for-from_specs specs c (ip (v4 addr) port) h k =
      let (rs, reads, e) = match_ip-from_specs rx specs c.rules addr h k in (rs, reads, rw e refl)
  proxy_for-from_specs specs c (ip (v6 addr) port) h k =
      let (b, built, f) = >>=-eq-ok (build rx (empty_builder rx) specs) (finish rx) h in
      let (rs, reads, e) = build-add_all rx specs (empty_builder rx) b built in (rs, reads, refl)
