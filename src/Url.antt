-- ===== src/Url.antt =====
-- data.c and config.c: source URLs. Both compile the same regular expression,
-- ^([a-z]+)://([^:/?]+):?([0-9]*)/?(.*), whose groups are determined one after the other.
pub mod RoundTrip
mod Tests
use Prim.Native.Nat.{ℕ, ◌+◌, ◌-◌, ◌*◌}
use mptsd.Base.{
  Bool, true, false, List, [], ◌∷◌, Option, none, some, CString, codes, str_eq, has_prefix, leb,
  ◌==◌, ◌&&◌, ◌||◌, not, if◌then◌else◌,
}

-- The longest run from the start whose characters pass the test, and what follows it.
unfoldable pub span : (ℕ → Bool) → CString → CString × CString
span p [] = ([], [])
span p (c ∷ s) = let (run, rest) = span p s in if p c then (c ∷ run, rest) else ([], c ∷ s)

abbrev pub is_lower : ℕ → Bool
is_lower c = leb b'a' c && leb c b'z'

abbrev pub is_host : ℕ → Bool
is_host c = not (c == b':' || c == b'/' || c == b'?')

abbrev pub is_digit : ℕ → Bool
is_digit c = leb b'0' c && leb c b'9'

-- The optional character of the expression, taken when it is there.
abbrev pub skip_char : ℕ → CString → CString
skip_char c [] = []
skip_char c (d ∷ s) = if d == c then s else d ∷ s

-- What follows "://".
abbrev pub after_colon_slashes : CString → Option CString
after_colon_slashes (a ∷ b ∷ c ∷ s) = if a == b':' && b == b'/' && c == b'/' then some s else none
after_colon_slashes s = none

-- The four groups.
pub record UrlMatch : Type 0 where
  pub proto : CString
  pub host : CString
  pub port : CString
  pub path : CString

-- The groups from the port on, after the optional ':'.
unfoldable pub port_groups : CString → CString → CString × CString → UrlMatch
port_groups proto host (port, rest) = record {
  proto = proto;
  host = host;
  port = port;
  path = skip_char b'/' rest;
}

-- The groups from the host on.
unfoldable pub host_groups : CString → CString × CString → Option UrlMatch
unfolding port_groups
host_groups proto ([], rest) = none
host_groups proto (c ∷ cs, rest) =
    some (port_groups proto (c ∷ cs) (span is_digit (skip_char b':' rest)))

unfoldable pub after_proto : CString → Option CString → Option UrlMatch
unfolding host_groups
after_proto proto none = none
after_proto proto (some s) = host_groups proto (span is_host s)

unfoldable pub proto_groups : CString × CString → Option UrlMatch
unfolding after_proto
proto_groups ([], rest) = none
proto_groups (c ∷ cs, rest) = after_proto (c ∷ cs) (after_colon_slashes rest)

-- regexec
unfoldable pub match_url : CString → Option UrlMatch
unfolding proto_groups
match_url url = proto_groups (span is_lower url)

unfoldable pub is_valid_url : CString → Bool
is_valid_url url = elim (match_url url) [ none ↦ false | some m ↦ true ]

pub data ChannelSource : Type 0 where
  udp_sock tcp_sock : ChannelSource

unfoldable pub get_sproto : CString → ChannelSource
get_sproto url = if has_prefix url (codes "http") then tcp_sock else udp_sock

unfoldable pub is_rtp : CString → Bool
is_rtp url = has_prefix url (codes "rtp")

-- atoi, for a run of digits whose value an int holds
unfoldable pub digits_value : ℕ → CString → ℕ
digits_value acc [] = acc
digits_value acc (d ∷ ds) = digits_value (acc * 10 + (d - b'0')) ds

pub record ChanSrc : Type 0 where
  pub sproto : ChannelSource
  pub proto : CString
  pub host : CString
  pub path : CString
  pub port : ℕ
  pub rtp : Bool

unfoldable pub chansrc_init : Option CString → Option ChanSrc
chansrc_init none = none
chansrc_init (some url) = elim (match_url url) [
  | none ↦ none
  | some m ↦
      let iport = digits_value 0 m.port in
      some (record {
        proto = m.proto;
        sproto = get_sproto url;
        host = m.host;
        port = if iport == 0 then 80 else iport;
        path = m.path;
        rtp = str_eq m.proto (codes "rtp");
      })
]
