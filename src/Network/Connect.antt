-- ===== src/Network/Connect.antt =====
-- network.c: `connect_source`. What the resolver and the system calls answer is an argument.
pub mod Outcome
use Prim.Native.Nat.{ℕ, ◌+◌}
use mptsd.Base.{
  Bool, true, false, List, [], ◌∷◌, Option, none, some, CString, codes, has_prefix, length, drop,
  ltb, leb, ◌==◌, ℤ, pos, negsuc, atoi, is_zero, is_number, is_below, ◌&&◌, ◌||◌, not,
  if◌then◌else◌,
}
use mptsd.Url.{
  span, is_digit, digits_value, chansrc_init, ChannelSource, tcp_sock, udp_sock, ChanSrc,
}
use mptsd.Input.{Input}

-- strstr(s, t) != NULL
unfoldable pub contains : CString → CString → Bool
contains [] t = has_prefix [] t
contains (c ∷ s) t = has_prefix (c ∷ s) t || contains s t

-- ^HTTP/1.[0-1] (([0-9]{3}) .*): the three digits, if the outer group fits in `xresponse`.
unfoldable pub status_code : CString → Option ℤ
status_code (h ∷ t ∷ t' ∷ p ∷ slash ∷ one ∷ dot ∷ minor ∷ space ∷ a ∷ b ∷ c ∷ space' ∷ rest) =
    if has_prefix (h ∷ t ∷ t' ∷ p ∷ slash ∷ one ∷ []) (codes "HTTP/1")
      && (minor == b'0' || minor == b'1')
      && space == 0x20
      && is_digit a
      && is_digit b
      && is_digit c
      && space' == 0x20
      && ltb (4 + length rest) 128
    then some (atoi (a ∷ b ∷ c ∷ []))
    else none
status_code line = none

-- The code after one line of the answer.
unfoldable pub code_after : CString → ℤ → ℤ
code_after line http_code = elim (status_code line) [
  | none ↦ http_code
  | some code ↦ if contains line (codes "HTTP/1.") then code else http_code
]

abbrev pub ends_headers : CString → Bool
ends_headers [] = false
ends_headers (c ∷ line) = c == 0x0a || c == 0x0d

-- The loop over the lines that `fdgetline` returns.
unfoldable pub read_response : List CString → ℤ → ℤ
read_response [] http_code = http_code
read_response (line ∷ lines) http_code =
    let code = code_after line http_code in
    let rest = read_response lines code in
    if ends_headers line
    then http_code
    else if is_number code 504 && contains line (codes "X-ErrorCode: ")
    then atoi (drop 13 line)
    else rest

pub record ConnectEnv : Type 0 where
  -- `async_resolve_host`: 0 when the host is resolved
  pub resolve : ℕ
  pub socket : Option ℕ
  -- `do_connect`, the membership of a multicast group, and `bind` succeed
  pub connects : Bool
  pub multicast : Bool
  pub joins : Bool
  pub binds : Bool
  pub response : List CString

-- 0, 1 and -1
pub data Connection : Type 0 where
  connected_ok retry exit_thread : Connection

-- DO_RECONNECT; the wait before the answer changes nothing.
abbrev pub do_reconnect : ℕ → Input → Connection
do_reconnect retries r = if retries == 0 || r.dienow then exit_thread else retry

-- From the socket on, for HTTP. The first result is the connection, the second `*http_code`.
unfoldable pub connect_http : ConnectEnv → ℕ → Input → Connection × ℤ × Input
connect_http env retries r =
    let r' = record r { sock = env.socket } in
    let code = read_response env.response (pos 0) in
    elim env.socket [
      | none ↦ (exit_thread, pos 0, r')
      | some fd ↦
          if not env.connects
          then (do_reconnect retries r', pos 0, r')
          else if is_zero code
          then (do_reconnect retries r', code, r')
          else if is_number code 504
          then (exit_thread, code, r')
          else if not (is_below code 301)
          then (exit_thread, code, r')
          else (connected_ok, code, record r' { connected = true })
    ]

-- From the socket on, for UDP and RTP.
unfoldable pub connect_datagram : ConnectEnv → Input → Connection × ℤ × Input
connect_datagram env r =
    let r' = record r { sock = env.socket } in
    elim env.socket [
      | none ↦ (exit_thread, pos 0, r')
      | some fd ↦
          if env.multicast && not env.joins
          then (exit_thread, pos 0, r')
          else if not env.binds
          then (exit_thread, pos 0, r')
          else (connected_ok, pos 0, record r' { connected = true })
    ]

unfoldable pub connect_source : ConnectEnv → ℕ → ℤ → Input → Connection × ℤ × Input
connect_source env retries http_code r = elim (chansrc_init r.channel.source) [
  | none ↦ (exit_thread, http_code, r)
  | some src ↦
      let r' = record r { connected = false; reconnect = false } in
      if not (env.resolve == 0) then (do_reconnect retries r', http_code, r') else elim src.sproto [
        | tcp_sock ↦ connect_http env retries r'
        | udp_sock ↦ connect_datagram env r'
      ]
]
