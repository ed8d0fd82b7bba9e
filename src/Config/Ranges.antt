-- ===== src/Config/Ranges.antt =====
-- The configurations that src/config/config.c accepts.
use l4_maglev_lb.Common.{
  ℕ, ◌<◌, ◌≤◌, ◌^◌, ◌≡◌, Option, some, List, [], ◌∷◌, arith, length, length-append, Option-cases,
  Bool-cases, inl, inr,
}
use l4_maglev_lb.Config.Parse.{
  Strtol, Config, Opt, Parsing, done, default_config, ct_timeout_max_ms, parse_backend_spec,
  config_option, is_help, config_loop, config_parse_args,
}

-- The ranges that the fields are in.
pub record InRange (c : Config) : Type 0 where
  pub ttl : (1 ≤ c.ttl) × (c.ttl ≤ 255)
  pub table_size : (3 ≤ c.table_size) × (c.table_size < 2 ^ 32)
  pub max_flows : (1 ≤ c.max_flows) × (c.max_flows < 2 ^ 63)
  pub metrics_port : c.metrics_port < 2 ^ 16
  pub ct_tcp : (1 ≤ c.ct_tcp_timeout_ms) × (c.ct_tcp_timeout_ms ≤ ct_timeout_max_ms)
  pub ct_udp : (1 ≤ c.ct_udp_timeout_ms) × (c.ct_udp_timeout_ms ≤ ct_timeout_max_ms)
  pub backends : length c.backends ≤ 64

module _ (inet_pton : List ℕ → Option ℕ) (strtol : List ℕ → Strtol) where
  option-InRange :
      (o : Opt) (p p' : Parsing)
      → config_option inet_pton strtol p o ≡ some p'
      → InRange p.config
      → InRange p'.config
  unfolding config_option
  option-InRange (Opt.iface arg) p p' h r = ground arith
  option-InRange (Opt.vip arg) p p' h r = ground arith
  option-InRange (Opt.director_ip arg) p p' h r = ground arith
  option-InRange (Opt.backend arg) p p' h r =
      elim (Option-cases (parse_backend_spec inet_pton strtol arg)) [
        | inl bad ↦ ground (arith, bad)
        | inr (b, good) ↦ ground (arith, good, length-append p.config.backends (b ∷ []))
      ]
  option-InRange (Opt.ttl arg) p p' h r = ground arith
  option-InRange (Opt.table_size arg) p p' h r = ground arith
  option-InRange (Opt.max_flows arg) p p' h r = ground arith
  option-InRange (Opt.hc_interval_ms arg) p p' h r = ground arith
  option-InRange (Opt.hc_timeout_ms arg) p p' h r = ground arith
  option-InRange (Opt.hc_rise arg) p p' h r = ground arith
  option-InRange (Opt.hc_fall arg) p p' h r = ground arith
  option-InRange (Opt.metrics_port arg) p p' h r = ground arith
  option-InRange (Opt.admin_fifo arg) p p' h r = ground arith
  option-InRange (Opt.ct_tcp_timeout_ms arg) p p' h r = ground arith
  option-InRange (Opt.ct_udp_timeout_ms arg) p p' h r = ground arith
  option-InRange Opt.tui p p' h r = ground arith
  option-InRange Opt.help p p' h r = ground arith
  option-InRange Opt.unknown p p' h r = ground arith

  loop-InRange :
      (os : List Opt) (p : Parsing) (c : Config)
      → InRange p.config
      → config_loop inet_pton strtol p os ≡ done c
      → InRange c × (0 < length c.backends)
  unfolding config_loop
  loop-InRange [] p c r h = ground arith
  loop-InRange (o ∷ os) p c r h = elim (Bool-cases (is_help inet_pton strtol o)) [
    | inl asked ↦ absurd (ground (arith, asked))
    | inr plain ↦ elim (Option-cases (config_option inet_pton strtol p o)) [
      | inl bad ↦ absurd (ground (arith, plain, bad))
      | inr (p', good) ↦
          loop-InRange os p' c (option-InRange o p p' good r) (ground (arith, plain, good))
    ]
  ]

  -- A configuration that is accepted has 1 to 64 backends, a time to live of 1 to 255, a table size
  -- from 3 to 2^32 - 1, at least one flow, a metrics port of 16 bits and timeouts of flows from 1 to
  -- 3600000 ms, whatever options are given in whatever order.
  pub config_parse_args-InRange :
      (os : List Opt) (c : Config)
      → config_parse_args inet_pton strtol os ≡ done c
      → InRange c × (0 < length c.backends)
  unfolding config_parse_args
  config_parse_args-InRange os c h = loop-InRange os _ c defaults h
    where
      defaults : InRange default_config
      defaults = record {
        ttl = omega arith;
        table_size = omega arith;
        max_flows = omega arith;
        metrics_port = omega arith;
        ct_tcp = omega arith;
        ct_udp = omega arith;
        backends = omega arith;
      }
