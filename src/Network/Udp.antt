-- ===== src/Network/Udp.antt =====
-- network.c: `connect_udp` and `connect_output`, the socket of the output.
use mptsd.Base.{
  ℕ, ◌≡◌, ◌⊎◌, inl, inr, Bool, List, [], ◌∷◌, Option, none, some, ◌&&◌, not, if◌then◌else◌, arith,
  Option-cases,
}
use mptsd.Output.{Output}

-- What the system calls answer.
pub record UdpEnv : Type 0 where
  pub socket : Option ℕ
  pub is_multicast : Bool
  pub sets_ttl : Bool
  pub sets_interface : Bool
  pub connects : Bool

-- The socket, and the descriptors that are closed again.
unfoldable pub connect_udp : UdpEnv → Option ℕ × List ℕ
connect_udp env = elim env.socket [
  | none ↦ (none, [])
  | some sendsock ↦
      if env.is_multicast && not env.sets_ttl
      then (none, sendsock ∷ [])
      else if env.is_multicast && not env.sets_interface
      then (none, sendsock ∷ [])
      else if not env.connects
      then (none, sendsock ∷ [])
      else (some sendsock, [])
]

-- `none` for exit(1)
unfoldable pub connect_output : UdpEnv → Output → Option Output
unfolding connect_udp
connect_output env o = elim ((connect_udp env).0) [
  | none ↦ none
  | some fd ↦ some (record o { out_sock = some fd })
]

-- A socket that was opened is either the output's, or closed before the program ends.
pub connect_output_lem :
    (env : UdpEnv) (o : Output) (fd : ℕ)
    → env.socket ≡ some fd
    → ((connect_output env o ≡ some (record o { out_sock = some fd })) × ((connect_udp env).1 ≡ []))
      ⊎ ((connect_output env o ≡ none) × ((connect_udp env).1 ≡ fd ∷ []))
unfolding connect_output connect_udp
connect_output_lem env o fd open_fd = elim (Option-cases ((connect_udp env).0)) [
  | inl failed ↦ inr (ground arith, ground arith)
  | inr (sock, made) ↦ inl (ground arith, ground arith)
]
