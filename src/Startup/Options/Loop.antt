-- ===== src/Startup/Options/Loop.antt =====
-- src/main.rs and src/event_loop.rs: the loop under a configuration that the command line gives.
use nsproxy_rs.Base.{ℕ, ◌≡◌, refl, subst, List, Bytes, Result, ok, err, >>=-eq-ok, ret}
use nsproxy_rs.Config.{Config, proxy_for, unwrap_or}
use nsproxy_rs.Namespace.Mounts.{BindMount}
use nsproxy_rs.Namespace.Binds.{FileSystem, parse_bind_mounts}
use nsproxy_rs.Proxy
use nsproxy_rs.Proxy.{ProxyConfig, domain, ip}
use nsproxy_rs.Publish.{PublishSpec, parse_publish_specs}
use nsproxy_rs.Std.Display.{v4, v6}
use nsproxy_rs.Rule.{Regex, RuleMatcher, from_specs, match_ip}
use nsproxy_rs.Rule.Domains.{domain_table, first_match, match_domain-from_specs}
use nsproxy_rs.EventLoop.Tick.{EventLoop}
use nsproxy_rs.EventLoop.Tick.Valid.{Routes}
use nsproxy_rs.EventLoop.Run.{Round, run, new}
use nsproxy_rs.EventLoop.Run.Valid.{RunFresh, PartsValid, run-PartsValid}
use nsproxy_rs.Startup.Options.{
  Cli, OptionsError, context, build_config, bad_proxy, bad_rule, no_current_directory, bad_bind,
  bad_publish,
}

context-eq-ok :
    {E A : Type 0} (wrap : E → OptionsError) (r : Result E A) {a : A}
    → context wrap r ≡ ok a
    → r ≡ ok a
context-eq-ok wrap (err e) h = cc
context-eq-ok wrap (ok a) h = cc

ok_injective : {E A : Type 0} (a b : A) → Path (Result E A) (ok a) (ok b) → a ≡ b
ok_injective a b h = cc

module _ (rx : Regex) where
  -- What an accepted command line has been read as.
  pub record ReadAs (fs : FileSystem) (current_dir : Result ℕ Bytes) (cli : Cli)
      (config : Config rx) : Type 0 where
    pub cwd : Bytes
    pub proxy_read : Proxy.parse cli.proxy ≡ ok config.default_proxy
    pub rules_read : from_specs rx cli.rules ≡ ok config.rules
    pub cwd_read : current_dir ≡ ok cwd
    pub binds_read : parse_bind_mounts fs cli.binds cwd ≡ ok config.bind_mounts
    pub publishes_read : parse_publish_specs cli.publishes ≡ ok config.publishes
    pub command_kept : cli.command ≡ config.command

  abbrev built :
      ProxyConfig → RuleMatcher rx → List BindMount → List PublishSpec → List Bytes → Config rx
  built p r b s c = record {
    default_proxy = p;
    bind_mounts = b;
    publishes = s;
    command = c;
    rules = r;
  }

  build_config-ReadAs :
      (fs : FileSystem) (current_dir : Result ℕ Bytes) (cli : Cli) (config : Config rx)
      → build_config rx fs current_dir cli ≡ ok config
      → ReadAs fs current_dir cli config
  unfolding build_config
  build_config-ReadAs fs current_dir cli config h =
      let (p, e1, h1) = >>=-eq-ok (context bad_proxy (Proxy.parse cli.proxy)) _ h in
      let (r, e2, h2) = >>=-eq-ok (context bad_rule (from_specs rx cli.rules)) _ h1 in
      let (d, e3, h3) = >>=-eq-ok (context no_current_directory current_dir) _ h2 in
      let (b, e4, h4) = >>=-eq-ok (context bad_bind (parse_bind_mounts fs cli.binds d)) _ h3 in
      let (s, e5, h5) = >>=-eq-ok (context bad_publish (parse_publish_specs cli.publishes)) _ h4 in
      let same : built p r b s cli.command ≡ config = ok_injective _ _ h5 in
      subst (ReadAs fs current_dir cli) same (record {
        cwd = d;
        proxy_read = context-eq-ok bad_proxy _ e1;
        rules_read = context-eq-ok bad_rule _ e2;
        cwd_read = context-eq-ok no_current_directory _ e3;
        binds_read = context-eq-ok bad_bind _ e4;
        publishes_read = context-eq-ok bad_publish _ e5;
        command_kept = refl;
      })

  -- Rules that are read from texts give every target a route.
  from_specs-Routes :
      (specs : List Bytes) (config : Config rx)
      → from_specs rx specs ≡ ok config.rules
      → Routes rx config
  unfolding proxy_for
  from_specs-Routes specs config h (domain host port) =
      let (rs, reads, e) = match_domain-from_specs rx specs config.rules host h in
      (unwrap_or (first_match rx (domain_table rx rs) host) config.default_proxy, rw e refl)
  from_specs-Routes specs config h (ip (v4 addr) port) =
      (unwrap_or (match_ip rx config.rules addr) config.default_proxy, refl)
  from_specs-Routes specs config h (ip (v6 addr) port) = (config.default_proxy, refl)

  -- If the command line is accepted, then however many rounds the loop runs and whatever arrives, a
  -- copy of an observed SYN included, the run completes: no index into a packet, into the rules or
  -- into the DNS table is out of range. The DNS table, the outbound connections and the published
  -- connections are well formed behind the last round. New sockets get unused handles.
  pub run-build_config :
      (fs : FileSystem) (current_dir : Result ℕ Bytes) (cli : Cli) (config : Config rx)
      (rs : List Round)
      → build_config rx fs current_dir cli ≡ ok config
      → RunFresh rx rs (new rx config)
      → (e : EventLoop rx) × (run rx rs (new rx config) ≡ ret e) × PartsValid rx e
  run-build_config fs current_dir cli config rs built fresh =
      let read = build_config-ReadAs fs current_dir cli config built in
      run-PartsValid rx config rs (from_specs-Routes cli.rules config read.rules_read) fresh
