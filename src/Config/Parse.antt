-- ===== src/Config/Parse.antt =====
-- `parse_backend_spec` and `config_parse_args` of src/config/config.c. What `getopt_long` finds on
-- the command line is the list of options; `inet_pton` and `strtol` are arguments. The text of
-- usage and errors is not modelled.
use l4_maglev_lb.Common.{
  ℕ, Bool, true, false, not, ◌&&◌, ◌||◌, Option, none, some, List, [], ◌∷◌, ◌++◌, ltb, leb, ◌==◌,
  if◌then◌else◌, length, take, u8, u16, u32,
}

-- A `long`.
pub data Long : Type 0 where
  pos : ℕ → Long
  negsuc : ℕ → Long

-- `strtol`: the value, and the text from the end pointer on; no digits leave the pointer at the
-- start.
pub record Strtol : Type 0 where
  pub value : Long
  pub converted : Bool
  pub rest : List ℕ

pub record ConfigBackend : Type 0 where
  pub addr : ℕ
  pub port : ℕ

pub record Config : Type 0 where
  pub iface : List ℕ
  pub vip : ℕ
  pub director_ip : ℕ
  pub backends : List ConfigBackend
  pub ttl : ℕ
  pub table_size : ℕ
  pub max_flows : ℕ
  pub hc_interval_ms : ℕ
  pub hc_timeout_ms : ℕ
  pub hc_rise : ℕ
  pub hc_fall : ℕ
  pub tui_enabled : Bool
  pub metrics_port : ℕ
  pub admin_fifo : List ℕ
  pub ct_tcp_timeout_ms : ℕ
  pub ct_udp_timeout_ms : ℕ

abbrev pub default_config : Config
default_config = record {
  iface = [];
  vip = 0;
  director_ip = 0;
  backends = [];
  ttl = 64;
  table_size = 65537;
  max_flows = 1000000;
  hc_interval_ms = 1000;
  hc_timeout_ms = 500;
  hc_rise = 2;
  hc_fall = 3;
  tui_enabled = false;
  metrics_port = 9105;
  admin_fifo = [];
  ct_tcp_timeout_ms = 120000;
  ct_udp_timeout_ms = 45000;
}

-- An option that `getopt_long` returns, with its argument.
pub data Opt : Type 0 where
  iface vip director_ip backend ttl table_size max_flows : List ℕ → Opt
  hc_interval_ms hc_timeout_ms hc_rise hc_fall : List ℕ → Opt
  tui help unknown : Opt
  metrics_port admin_fifo ct_tcp_timeout_ms ct_udp_timeout_ms : List ℕ → Opt

-- The local variables of the loop.
pub record Parsing : Type 0 where
  pub config : Config
  pub have_iface : Bool
  pub have_vip : Bool
  pub have_director : Bool

-- 0 with the configuration, 1 for help, -1.
pub data Outcome : Type 0 where
  done : Config → Outcome
  helped failed : Outcome

-- The value of a `long` in a range.
abbrev pub within : ℕ → ℕ → Long → Option ℕ
within lo hi (negsuc n) = none
within lo hi (pos n) = if leb lo n && leb n hi then some n else none

-- A `long` of 64 bits that is positive.
abbrev pub positive : Long → Option ℕ
positive = within 1 0x7fffffffffffffff

abbrev pub with_config : Parsing → Config → Parsing
with_config p c = record p { config = c }

abbrev pub ct_timeout_max_ms : ℕ
ct_timeout_max_ms = 3600000

-- The text before the last colon, and what follows it.
unfoldable pub strrchr_colon : List ℕ → Option (List ℕ × List ℕ)
strrchr_colon [] = none
strrchr_colon (c ∷ cs) = elim (strrchr_colon cs) [
  | some (before, after) ↦ some (c ∷ before, after)
  | none ↦ if c == 58 then some ([], cs) else none
]

-- The conversion of a whole argument: nothing may follow the number.
abbrev pub whole : Strtol → Option Long
whole r = if not r.converted then none else elim r.rest [ [] ↦ some r.value | _ ↦ none ]

abbrev pub andthen {ℓ κ} : {A : Type ℓ} {B : Type κ} → Option A → (A → Option B) → Option B
andthen none f = none
andthen (some a) f = f a

module _ (inet_pton : List ℕ → Option ℕ) (strtol : List ℕ → Strtol) where
  unfoldable pub parse_backend_spec : List ℕ → Option ConfigBackend
  unfolding strrchr_colon
  parse_backend_spec spec = andthen (strrchr_colon spec) (λ parts.
      if length parts.0 == 0 || not (ltb (length parts.0) 64)
      then none
      else andthen (inet_pton parts.0) (λ ip.
        andthen (whole (strtol parts.1))
          (λ l. andthen (within 1 65535 l) (λ port. some (record { addr = ip; port = u16 port })))))

  -- The body of the loop; nothing is the `return -1` of a case.
  unfoldable pub config_option : Parsing → Opt → Option Parsing
  unfolding parse_backend_spec
  config_option p (iface arg) =
      some (record p { config = record p.config { iface = take 15 arg }; have_iface = true })
  config_option p (vip arg) =
      andthen (inet_pton arg)
        (λ a. some (record p { config = record p.config { vip = a }; have_vip = true }))
  config_option p (director_ip arg) =
      andthen (inet_pton arg) (λ a.
        some (record p { config = record p.config { director_ip = a }; have_director = true }))
  config_option p (backend arg) =
      if ltb (length p.config.backends) 64
      then andthen (parse_backend_spec arg)
          (λ b. some (with_config p (record p.config { backends = p.config.backends ++ b ∷ [] })))
      else none
  config_option p (ttl arg) =
      andthen (within 1 255 (strtol arg).value)
        (λ v. some (with_config p (record p.config { ttl = u8 v })))
  config_option p (table_size arg) =
      andthen (within 3 0xffffffff (strtol arg).value)
        (λ v. some (with_config p (record p.config { table_size = u32 v })))
  config_option p (max_flows arg) =
      andthen (positive (strtol arg).value)
        (λ v. some (with_config p (record p.config { max_flows = v })))
  config_option p (hc_interval_ms arg) =
      andthen (positive (strtol arg).value)
        (λ v. some (with_config p (record p.config { hc_interval_ms = u32 v })))
  config_option p (hc_timeout_ms arg) =
      andthen (positive (strtol arg).value)
        (λ v. some (with_config p (record p.config { hc_timeout_ms = u32 v })))
  config_option p (hc_rise arg) =
      andthen (positive (strtol arg).value)
        (λ v. some (with_config p (record p.config { hc_rise = u32 v })))
  config_option p (hc_fall arg) =
      andthen (positive (strtol arg).value)
        (λ v. some (with_config p (record p.config { hc_fall = u32 v })))
  config_option p tui = some (with_config p (record p.config { tui_enabled = true }))
  config_option p (metrics_port arg) =
      andthen (within 0 65535 (strtol arg).value)
        (λ v. some (with_config p (record p.config { metrics_port = u16 v })))
  config_option p (admin_fifo arg) =
      some (with_config p (record p.config { admin_fifo = take 255 arg }))
  config_option p (ct_tcp_timeout_ms arg) = andthen (whole (strtol arg)) (λ l.
      andthen (within 1 ct_timeout_max_ms l)
        (λ v. some (with_config p (record p.config { ct_tcp_timeout_ms = u32 v }))))
  config_option p (ct_udp_timeout_ms arg) = andthen (whole (strtol arg)) (λ l.
      andthen (within 1 ct_timeout_max_ms l)
        (λ v. some (with_config p (record p.config { ct_udp_timeout_ms = u32 v }))))
  config_option p help = none
  config_option p unknown = none

  -- The check after the loop.
  abbrev pub finish : Parsing → Outcome
  finish p =
      if not p.have_iface
        || (not p.have_vip || (not p.have_director || length p.config.backends == 0))
      then failed
      else done p.config

  abbrev pub is_help : Opt → Bool
  is_help help = true
  is_help _ = false

  unfoldable pub config_loop : Parsing → List Opt → Outcome
  unfolding config_option
  config_loop p [] = finish p
  config_loop p (o ∷ os) =
      if is_help o
      then helped
      else elim (config_option p o) [ none ↦ failed | some p' ↦ config_loop p' os ]

  unfoldable pub config_parse_args : List Opt → Outcome
  unfolding config_loop
  config_parse_args = config_loop (record {
    config = default_config;
    have_iface = false;
    have_vip = false;
    have_director = false;
  })
