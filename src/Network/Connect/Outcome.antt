-- ===== src/Network/Connect/Outcome.antt =====
-- What `connect_source` has done when it returns.
use Prim.Native.Nat.{ℕ}
use mptsd.Base.{
  ◌≡◌, ◌≢◌, refl, true, false, none, arith, ◌==◌, ℤ, is_below, Option-cases, Bool-cases, inl, inr,
}
use mptsd.Url.{chansrc_init, ChannelSource, tcp_sock, udp_sock}
use mptsd.Input.{Input}
use mptsd.Network.Connect.{
  ConnectEnv, Connection, connected_ok, connect_http, connect_datagram, connect_source,
  do_reconnect,
}

-- The outcome for a source that can be parsed, from the input `r` to `res`.
pub record Outcome (r : Input) (res : Connection × ℤ × Input) : Type 0 where
  pub up : res.0 ≡ connected_ok → (res.2.connected ≡ true) × (res.2.sock ≢ none)
  pub down : res.0 ≢ connected_ok → res.2.connected ≡ false
  pub answered : res.2.reconnect ≡ false
  pub accepted : res.0 ≡ connected_ok → is_below res.1 301 ≡ true
  pub kept : (res.2.channel ≡ r.channel) × (res.2.stream ≡ r.stream) × (res.2.buf ≡ r.buf)

connect_http-Outcome :
    (env : ConnectEnv) (retries : ℕ) (r : Input)
    → r.connected ≡ false
    → r.reconnect ≡ false
    → Outcome r (connect_http env retries r)
unfolding connect_http
connect_http-Outcome env retries r c q = record {
  up = λ h. (ground arith, ground arith);
  down = λ h. ground arith;
  answered = ground arith;
  accepted = λ h. ground arith;
  kept = ground arith;
}

connect_datagram-Outcome :
    (env : ConnectEnv) (r : Input)
    → r.connected ≡ false
    → r.reconnect ≡ false
    → Outcome r (connect_datagram env r)
unfolding connect_datagram
connect_datagram-Outcome env r c q = record {
  up = λ h. (ground arith, ground arith);
  down = λ h. ground arith;
  answered = ground arith;
  accepted = λ h. ground arith;
  kept = ground arith;
}

abbrev cleared : Input → Input
cleared r = record r { connected = false; reconnect = false }

from_cleared : (r : Input) (res : Connection × ℤ × Input) → Outcome (cleared r) res → Outcome r res
from_cleared r res o = record {
  up = o.up;
  down = o.down;
  answered = o.answered;
  accepted = o.accepted;
  kept = o.kept;
}

unresolved-Outcome :
    (retries : ℕ) (http_code : ℤ) (r : Input)
    → Outcome r (do_reconnect retries (cleared r), http_code, cleared r)
unresolved-Outcome retries http_code r = record {
  up = λ h. absurd (ground arith);
  down = λ h. refl;
  answered = refl;
  accepted = λ h. absurd (ground arith);
  kept = (refl, refl, refl);
}

-- For a source that can be parsed, the input is marked connected exactly when the connection is made,
-- and has a socket then; a forced reconnection is answered, an HTTP code above 300 is refused, and
-- channel, stream state and buffer stay as they were.
pub connect_source-Outcome :
    (env : ConnectEnv) (retries : ℕ) (http_code : ℤ) (r : Input)
    → chansrc_init r.channel.source ≢ none
    → Outcome r (connect_source env retries http_code r)
unfolding connect_source
connect_source-Outcome env retries http_code r h =
    elim (Option-cases (chansrc_init r.channel.source)) [
      | inl e ↦ absurd (h e)
      | inr (src, e) ↦
          rw (e, connect_source)
            (elim (Bool-cases (env.resolve == 0)) [
              | inl found ↦ rw found (from_cleared r _ (by_protocol src.sproto))
              | inr lost ↦ rw lost (unresolved-Outcome retries http_code r)
            ])
    ]
  where
    by_protocol :
        (p : ChannelSource)
        → Outcome (cleared r) (elim p [
          | tcp_sock ↦ connect_http env retries (cleared r)
          | udp_sock ↦ connect_datagram env (cleared r)
        ])
    by_protocol tcp_sock = connect_http-Outcome env retries (cleared r) refl refl
    by_protocol udp_sock = connect_datagram-Outcome env (cleared r) refl refl
