-- ===== src/Tests/Publications.antt =====
-- Publications of ports at concrete texts.
use nsproxy_rs.Base.{ℕ, ◌≡◌, ◌↔◌, refl, Bool, true, List, [], ◌∷◌, Option, some, Bytes, ok}
use nsproxy_rs.Base.Text.{codes, split, split_once}
use nsproxy_rs.Std.Number.{parse_uint, parse_digits}
use nsproxy_rs.Publish.{
  PublishSpec, Endpoint, BoundPublish, parse_port, parse_fields, parse_publish_spec,
  parse_publish_specs, bind_publish_specs,
}
use nsproxy_rs.Publish.Endpoints.{Parses, Fresh, parse_publish_specs_iff}

abbrev raw : Bytes
raw = codes "8080:80/tcp"

abbrev spec : PublishSpec
spec = record { host_ip = 0; host_port = 8080; namespace_port = 80 }

raw_read : parse_publish_spec raw ≡ ok spec
unfolding parse_publish_spec parse_fields parse_port split split_once parse_uint parse_digits
raw_read = refl

parse_publish_specs_iff_example :
    (parse_publish_specs (raw ∷ []) ≡ ok (spec ∷ []))
    ↔ (Parses (raw ∷ []) (spec ∷ []) × Fresh [] (spec ∷ []))
parse_publish_specs_iff_example = parse_publish_specs_iff (raw ∷ []) (spec ∷ [])

abbrev always_bind : Endpoint → Option ℕ
always_bind e = some 7

abbrev always_set : ℕ → Bool
always_set l = true

abbrev bound : List (BoundPublish ℕ)
bound = record { spec = spec; listener = 7 } ∷ []

all_bound : bind_publish_specs always_bind always_set (spec ∷ []) ≡ ok bound
unfolding bind_publish_specs
all_bound = refl
