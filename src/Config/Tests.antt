-- ===== src/Config/Tests.antt =====
-- The theorem on src/config/config.c at a concrete command line, with a toy `inet_pton` and `strtol`.
use l4_maglev_lb.Common.{ℕ, ◌<◌, ◌≡◌, refl, true, Option, some, List, [], ◌∷◌, length, get_or}
use l4_maglev_lb.Config.Parse.{Long, Strtol, Config, Opt, done, default_config, config_parse_args}
use l4_maglev_lb.Config.Ranges.{InRange, config_parse_args-InRange}

abbrev pub sample_pton : List ℕ → Option ℕ
sample_pton s = some (get_or s 0 0)

abbrev pub sample_strtol : List ℕ → Strtol
sample_strtol s = record { value = Long.pos (get_or s 0 0); converted = true; rest = [] }

abbrev sample_line : List Opt
sample_line =
    Opt.iface (101 ∷ [])
    ∷ Opt.vip (1 ∷ [])
    ∷ Opt.director_ip (2 ∷ [])
    ∷ Opt.ttl (9 ∷ [])
    ∷ Opt.backend (7 ∷ 58 ∷ 80 ∷ [])
    ∷ []

abbrev sample_config : Config
sample_config = record default_config {
  iface = 101 ∷ [];
  vip = 1;
  director_ip = 2;
  ttl = 9;
  backends = record { addr = 7; port = 80 } ∷ [];
}

accepted : config_parse_args sample_pton sample_strtol sample_line ≡ done sample_config
unfolding config_parse_args
accepted = refl

config_parse_args-InRange_example : InRange sample_config × (0 < length sample_config.backends)
config_parse_args-InRange_example =
    config_parse_args-InRange sample_pton sample_strtol sample_line sample_config accepted
