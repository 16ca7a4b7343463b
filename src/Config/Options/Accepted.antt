-- ===== src/Config/Options/Accepted.antt =====
-- What the options that are accepted leave in the configuration.
use mptsd.Base.{
  ℕ, ◌≤◌, ◌≡◌, inl, inr, List, [], ◌∷◌, Option, none, some, CString, arith, ℤ, pos, negsuc, atoi,
  is_zero, is_below, ltb, ◌==◌, ◌||◌, if◌then◌else◌, Bool-cases,
}
use mptsd.Config.Options.{
  Config, SystemLib, Loading, running, exits, faults, ◌>>=◌, initial_config, valid_mode, valid_ttl,
  parse_plain, set_intf, set_host, set_port, set_bitrate, parse_option, parse_options,
}

abbrev pub PortRange : ℤ → Type 0
PortRange (pos p) = 1024 ≤ p
PortRange (negsuc n) = ⊥

abbrev pub ModeRange : ℤ → Type 0
ModeRange (pos m) = m ≤ 4
ModeRange (negsuc n) = ⊥

abbrev pub TtlRange : ℤ → Type 0
TtlRange (pos t) = (1 ≤ t) × (t ≤ 126)
TtlRange (negsuc n) = Unit

pub record Accepted (conf : Config) : Type 0 where
  pub port : PortRange conf.out_port
  pub mode : ModeRange conf.pcr_mode
  pub ttl : TtlRange conf.multicast_ttl
  pub rate : (2000000 ≤ conf.output_bitrate) × (conf.output_bitrate ≤ 75000000)

valid_mode-ModeRange : (z : ℤ) → ModeRange (valid_mode z)
valid_mode-ModeRange (pos n) = ground arith
valid_mode-ModeRange (negsuc n) = omega arith

valid_ttl-TtlRange : (z : ℤ) → TtlRange (valid_ttl z)
valid_ttl-TtlRange (pos n) = ground arith
valid_ttl-TtlRange (negsuc n) = tt

module _ (conf : Config) (j : ℕ) (optarg : CString) where
  plain_port : (parse_plain conf j optarg).out_port ≡ conf.out_port
  unfolding parse_plain
  plain_port = ground arith

  plain_rate : (parse_plain conf j optarg).output_bitrate ≡ conf.output_bitrate
  unfolding parse_plain
  plain_rate = ground arith

  plain_mode :
      (parse_plain conf j optarg).pcr_mode
      ≡ (if j == b'm' then valid_mode (atoi optarg) else conf.pcr_mode)
  unfolding parse_plain
  plain_mode = ground arith

  plain_ttl :
      (parse_plain conf j optarg).multicast_ttl
      ≡ (if j == b't' then valid_ttl (atoi optarg) else conf.multicast_ttl)
  unfolding parse_plain
  plain_ttl = ground arith

  mode_kept : ModeRange conf.pcr_mode → ModeRange (parse_plain conf j optarg).pcr_mode
  mode_kept h = elim (Bool-cases (j == b'm')) [
    | inl is_m ↦ rw (plain_mode, is_m) (valid_mode-ModeRange (atoi optarg))
    | inr other ↦ rw (plain_mode, other) h
  ]

  ttl_kept : TtlRange conf.multicast_ttl → TtlRange (parse_plain conf j optarg).multicast_ttl
  ttl_kept h = elim (Bool-cases (j == b't')) [
    | inl is_t ↦ rw (plain_ttl, is_t) (valid_ttl-TtlRange (atoi optarg))
    | inr other ↦ rw (plain_ttl, other) h
  ]

  parse_plain-Accepted : Accepted conf → Accepted (parse_plain conf j optarg)
  parse_plain-Accepted a = record {
    port = rw plain_port a.port;
    mode = mode_kept a.mode;
    ttl = ttl_kept a.ttl;
    rate = (omega (arith, plain_rate, a.rate), omega (arith, plain_rate, a.rate));
  }

-- What a configuration that goes on has; nothing is said of an end.
abbrev pub Ensures {ℓ κ} : {A : Type ℓ} → (A → Type κ) → Loading A → Type κ
Ensures P (running a) = P a
Ensures P (exits status) = Unit
Ensures P faults = Unit

set_host-Accepted :
    (conf : Config) (o : Option ℕ) → Accepted conf → Ensures Accepted (set_host conf o)
set_host-Accepted conf none a = tt
set_host-Accepted conf (some address) a = record {
  port = a.port;
  mode = a.mode;
  ttl = a.ttl;
  rate = a.rate;
}

set_intf-Accepted :
    (conf : Config) (o : Option ℕ) → Accepted conf → Ensures Accepted (set_intf conf o)
set_intf-Accepted conf none a = tt
set_intf-Accepted conf (some address) a = record {
  port = a.port;
  mode = a.mode;
  ttl = a.ttl;
  rate = a.rate;
}

set_port-Accepted : (conf : Config) (z : ℤ) → Accepted conf → Ensures Accepted (set_port conf z)
set_port-Accepted conf (negsuc n) a = tt
set_port-Accepted conf (pos p) a = elim (Bool-cases (is_zero (pos p) || is_below (pos p) 1024)) [
  | inl low ↦ rw low tt
  | inr high ↦ rw high (record { port = ground arith; mode = a.mode; ttl = a.ttl; rate = a.rate })
]

set_bitrate-Accepted :
    (conf : Config) (rate : ℕ) → Accepted conf → Ensures Accepted (set_bitrate conf rate)
set_bitrate-Accepted conf rate a = elim (Bool-cases (ltb rate 2000000 || ltb 75000000 rate)) [
  | inl outside ↦ rw outside tt
  | inr inside ↦
      rw inside
        (record { port = a.port; mode = a.mode; ttl = a.ttl; rate = (ground arith, ground arith) })
]

parse_option-Accepted :
    (S : SystemLib) (conf : Config) (option : ℕ × CString)
    → Accepted conf
    → Ensures Accepted (parse_option S conf option)
unfolding parse_option
parse_option-Accepted S conf (j, optarg) a = elim (Bool-cases (j == b'o')) [
  | inl o ↦ rw o (set_intf-Accepted conf (S.inet_aton optarg) a)
  | inr e1 ↦ elim (Bool-cases (j == b'O')) [
    | inl o ↦ rw (e1, o) (set_host-Accepted conf (S.inet_aton optarg) a)
    | inr e2 ↦ elim (Bool-cases (j == b'P')) [
      | inl o ↦ rw (e1, e2, o) (set_port-Accepted conf (atoi optarg) a)
      | inr e3 ↦ elim (Bool-cases (j == b'B')) [
        | inl o ↦ rw (e1, e2, e3, o) (set_bitrate-Accepted conf (S.atof_million optarg) a)
        | inr e4 ↦ elim (Bool-cases (j == b'H' || j == b'h')) [
          | inl o ↦ rw (e1, e2, e3, e4, o) tt
          | inr e5 ↦ rw (e1, e2, e3, e4, e5) (parse_plain-Accepted conf j optarg a)
        ]
      ]
    ]
  ]
]

pub >>=-Ensures {ℓ κ μ ν} :
    {A : Type ℓ} {B : Type κ} (P : A → Type μ) (Q : B → Type ν) (m : Loading A) (f : A → Loading B)
    → Ensures P m
    → ((a : A) → P a → Ensures Q (f a))
    → Ensures Q (m >>= f)
>>=-Ensures P Q (running a) f h k = k a h
>>=-Ensures P Q (exits status) f h k = tt
>>=-Ensures P Q faults f h k = tt

parse_options-Accepted :
    (S : SystemLib) (conf : Config) (options : List (ℕ × CString))
    → Accepted conf
    → Ensures Accepted (parse_options S conf options)
unfolding parse_options
parse_options-Accepted S conf [] a = a
parse_options-Accepted S conf (option ∷ options) a =
    >>=-Ensures Accepted Accepted (parse_option S conf option)
      (λ conf1. parse_options S conf1 options) (parse_option-Accepted S conf option a)
      (λ conf1 a1. parse_options-Accepted S conf1 options a1)

-- Whatever the options are, an accepted command line has a port from 1024 on, a mode up to 4 and a bit
-- rate from 2 to 75 Mbps.
pub options-Accepted :
    (S : SystemLib) (options : List (ℕ × CString))
    → Ensures Accepted (parse_options S initial_config options)
options-Accepted S options =
    parse_options-Accepted S initial_config options
      (record { port = omega arith; mode = omega arith; ttl = omega arith; rate = omega arith })
