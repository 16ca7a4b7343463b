-- ===== src/Input/Session/Reconnect.antt =====
-- How an input moves on from a source that fails.
use mptsd.Base.{
  ℕ, ◌+◌, ◌%◌, ◌≤◌, ◌≡◌, ◌≢◌, refl, ◌==◌, not, if◌then◌else◌, ◌∙◌, ap, sym, subst, Bool, true,
  false, List, [], ◌∷◌, arith, length, All, ℤ, pos,
}
use mptsd.Libs.{Libs}
use mptsd.Channel.{Channel, chansrc_next}
use mptsd.Channel.Sources.{IsValid}
use mptsd.Channel.Rotation.{rotate, curr_src-rotate}
use mptsd.Network.Connect.{ConnectEnv, Connection, connected_ok, connect_source}
use mptsd.Input.{Input, input_check_state, in_worktime}
use mptsd.Input.Session.{
  Look, Attempt, serve, input_round, input_rounds, next_source, wait_worktime,
}

-- The host of the source is not resolved, and the attempt falls into the hours of the channel.
abbrev pub Unresolved : Channel → Attempt → Type 0
Unresolved c a =
    (a.connect.resolve ≢ 0) × (in_worktime c.worktime_start c.worktime_end a.seconds ≡ true)

-- An input that is alive and works.
pub record Ready (r : Input) : Type 0 where
  pub alive : r.dienow ≡ false
  pub working : r.working ≡ true

-- The parts of the input that a failed connection leaves alone.
record Unconnected (r : Input) (res : Connection × ℤ × Input) : Type 0 where
  failed : res.0 ≢ connected_ok
  channel : res.2.channel ≡ r.channel
  alive : res.2.dienow ≡ r.dienow
  working : res.2.working ≡ r.working

connect_fails :
    (env : ConnectEnv) (r : Input)
    → env.resolve ≢ 0
    → Unconnected r (connect_source env 1 (pos 0) r)
unfolding connect_source
connect_fails env r u = record {
  failed = ground arith;
  channel = ground arith;
  alive = ground arith;
  working = ground arith;
}

-- Going on to the next source of the same channel, as ready as before.
record MovedOn (r : Input) (res : Bool × Input) : Type 0 where
  lives : res.0 ≡ true
  channel : res.1.channel ≡ chansrc_next r.channel
  alive : res.1.dienow ≡ r.dienow
  working : res.1.working ≡ r.working

serve_fails :
    (L : Libs) (t : ℕ) (a : Attempt) (r : Input) → a.connect.resolve ≢ 0 → MovedOn r (serve L t a r)
unfolding serve next_source
serve_fails L t a r u =
    let c = connect_fails a.connect r u in
    record {
      lives = ground (arith, c.failed);
      channel = ground (arith, c.failed, c.channel);
      alive = ground (arith, c.failed, c.alive);
      working = ground (arith, c.failed, c.working);
    }

unchecked : (r : Input) → Ready r → (input_check_state r == 2) ≡ false
unfolding input_check_state
unchecked r v = ground (arith, v.alive)

-- An input that works does not wait.
waited : (looks : List Look) (r : Input) → r.working ≡ true → wait_worktime looks r ≡ (r, true)
unfolding wait_worktime
waited [] r w = ap (λ b. (r, b)) w
waited (l ∷ ls) r w = ground arith

input_round_serves :
    (L : Libs) (t : ℕ) (a : Attempt) (r : Input)
    → Ready r
    → in_worktime r.channel.worktime_start r.channel.worktime_end a.seconds ≡ true
    → input_round L t a r ≡ serve L t a r
unfolding input_round
input_round_serves L t a r v hours =
    let awake : Input → Bool × Input = λ r'. serve L t a (record r' {
      working = in_worktime r'.channel.worktime_start r'.channel.worktime_end a.seconds;
    }) in
    let woken : Input × Bool → Bool × Input = λ w. if not w.1 then (false, w.0) else awake w.0 in
    ap (λ w. if input_check_state r == 2 then (false, r) else woken w) (waited a.waits r v.working)
    ∙ ap (λ b. if b then (false, r) else awake r) (unchecked r v)
    ∙ ap (λ w. serve L t a (record r { working = w })) (hours ∙ sym v.working)

input_round_fails :
    (L : Libs) (t : ℕ) (a : Attempt) (r : Input)
    → Ready r
    → Unresolved r.channel a
    → MovedOn r (input_round L t a r)
input_round_fails L t a r v (u, hours) =
    subst (MovedOn r) (sym (input_round_serves L t a r v hours)) (serve_fails L t a r u)

-- Channels of the same hours.
abbrev SameHours : Channel → Channel → Type 0
SameHours c d = (c.worktime_start ≡ d.worktime_start) × (c.worktime_end ≡ d.worktime_end)

worktime-chansrc_next : (c : Channel) → SameHours (chansrc_next c) c
unfolding chansrc_next
worktime-chansrc_next c = ground arith

Unresolved-moved :
    (c d : Channel) (as' : List Attempt)
    → SameHours d c
    → All (Unresolved c) as'
    → All (Unresolved d) as'
Unresolved-moved c d [] same u = tt
Unresolved-moved c d (a ∷ as') (start, end) ((u, hours), us) =
    ((u, rw (start, end) hours), Unresolved-moved c d as' (start, end) us)

MovedOn-Ready : (r : Input) (res : Bool × Input) → Ready r → MovedOn r res → Ready res.1
MovedOn-Ready r res v m = record { alive = m.alive ∙ v.alive; working = m.working ∙ v.working }

input_rounds_fail :
    (L : Libs) (t : ℕ) (as' : List Attempt) (r : Input)
    → Ready r
    → All (Unresolved r.channel) as'
    → ((input_rounds L t as' r).0 ≡ true)
      × ((input_rounds L t as' r).1.channel ≡ rotate (length as') r.channel)
unfolding input_rounds rotate
input_rounds_fail L t [] r v u = (refl, refl)
input_rounds_fail L t (a ∷ as') r v u =
    let r' = (input_round L t a r).1 in
    let m = input_round_fails L t a r v u.0 in
    let same : SameHours r'.channel r.channel = rw m.channel (worktime-chansrc_next r.channel) in
    let (l, c) =
      input_rounds_fail L t as' r' (MovedOn-Ready r _ v m)
        (Unresolved-moved r.channel r'.channel as' same u.1) in
    (ground (arith, m.lives, l), ground (arith, m.lives, c, ap (rotate (length as')) m.channel))

-- When the hosts of the sources cannot be resolved `k` times in a row, each time within the hours of the
-- channel, an input that is alive and works, and has a well-formed list of sources that is not empty,
-- stays alive and stands at the source `k` places further round its list: no source is skipped, and none
-- is tried again before the others. It does not matter whether a reconnection has been asked for.
pub input_rounds_rotate :
    (L : Libs) (t : ℕ) (as' : List Attempt) (r : Input)
    → IsValid r.channel
    → 1 ≤ r.channel.num_src
    → Ready r
    → All (Unresolved r.channel) as'
    → let (alive, r') = input_rounds L t as' r in
      (alive ≡ true) × (r'.channel.curr_src ≡ (r.channel.curr_src + length as') % r.channel.num_src)
input_rounds_rotate L t as' r c n v u =
    let (l, e) = input_rounds_fail L t as' r v u in
    (l, ap (λ k. k.curr_src) e ∙ curr_src-rotate (length as') r.channel c n)
