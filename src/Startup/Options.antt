-- ===== src/Startup/Options.antt =====
-- src/main.rs: the configuration that `main` builds before it forks, from the options that clap has
-- read, the file system and the current directory.
pub mod Loop
use nsproxy_rs.Base.{ℕ, ◌≡◌, refl, List, Bytes, Result, ok, err, ◌>>=◌}
use nsproxy_rs.Config.{Config}
use nsproxy_rs.Namespace.{Failure}
use nsproxy_rs.Namespace.Binds.{FileSystem, parse_bind_mounts}
use nsproxy_rs.Proxy
use nsproxy_rs.Publish
use nsproxy_rs.Publish.{parse_publish_specs}
use nsproxy_rs.Rule.{Regex, RuleError, from_specs}

-- The fields of `Cli` that the configuration is made of.
pub record Cli : Type 0 where
  pub proxy : Bytes
  pub rules : List Bytes
  pub binds : List Bytes
  pub publishes : List Bytes
  pub command : List Bytes

-- An error with its context.
pub data OptionsError : Type 0 where
  bad_proxy : Proxy.Error → OptionsError
  bad_rule : RuleError → OptionsError
  no_current_directory : ℕ → OptionsError
  bad_bind : Failure → OptionsError
  bad_publish : Publish.Error → OptionsError

abbrev pub context : {E A : Type 0} → (E → OptionsError) → Result E A → Result OptionsError A
context wrap (err e) = err (wrap e)
context wrap (ok a) = ok a

unfoldable pub build_config :
    (rx : Regex) → FileSystem → Result ℕ Bytes → Cli → Result OptionsError (Config rx)
build_config rx fs current_dir cli = do
  default_proxy ← context bad_proxy (Proxy.parse cli.proxy)
  rules ← context bad_rule (from_specs rx cli.rules)
  cwd ← context no_current_directory current_dir
  bind_mounts ← context bad_bind (parse_bind_mounts fs cli.binds cwd)
  publishes ← context bad_publish (parse_publish_specs cli.publishes)
  ok (record {
    default_proxy = default_proxy;
    bind_mounts = bind_mounts;
    publishes = publishes;
    command = cli.command;
    rules = rules;
  })
