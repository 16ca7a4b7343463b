-- ===== src/Config/Reload/Safety.antt =====
-- After a reload no input refers to a channel of the old list.
use mptsd.Base.{
  ℕ, zero, suc, ◌+◌, ◌≤◌, ◌<◌, ◌≡◌, ◌≢◌, ◌⊎◌, inl, inr, refl, sym, ap, ◌∙◌, true, false, List, [],
  ◌∷◌, ◌++◌, append-nil, append_assoc, some, CString, str_eq, eq_of_str_eq, arith, length,
  length-append, get_elem?, All, ◌==◌, Bool-cases,
}
use mptsd.Channel.{Channel, channel_new, chansrc_add, blank_channel}
use mptsd.Channel.Sources.{IsValid}
use mptsd.Config.Reload.{
  new_list, itself, Restreamer, adopt, adopt_first, adopt_all, copy_channel, dismiss, dismiss_all,
  reload,
}
use mptsd.Config.Reload.Adopt.{adopt-Adopted}

-- A channel that `channel_new` can make again.
abbrev pub Copyable : Channel → Type 0
Copyable c = (1 ≤ c.index) × (c.index < 256) × ((s : CString) × (c.source ≡ some s))

-- The input holds the channel at a place of the new list, which has its name.
abbrev pub Serves : List Channel → Restreamer → Type 0
Serves channels r =
    (k : ℕ) × (r.owner ≡ new_list k)
    × (get_elem? channels k ≡ some r.input.channel)
    × (r.input.channel.name ≡ r.input.name)

-- The input owns its channel and is told to end.
abbrev pub Leaves : Restreamer → Type 0
Leaves r = (r.owner ≡ itself) × (r.input.freechannel ≡ true) × (r.input.dienow ≡ true)

-- Not marked, or marked by one of the channels that were handed out.
abbrev Placed : ℕ → List Channel → Restreamer → Type 0
Placed cookie given r =
    ((r.input.cookie ≢ cookie) × Copyable r.input.channel)
    ⊎ ((r.input.cookie ≡ cookie) × Serves given r)

-- The list of the file, with current sources that may differ.
abbrev pub SameChannels : List Channel → List Channel → Type 0
SameChannels [] [] = Unit
SameChannels [] (d ∷ ds) = ⊥
SameChannels (c ∷ cs) [] = ⊥
SameChannels (c ∷ cs) (d ∷ ds) =
    ((d.sources ≡ c.sources) × (d.name ≡ c.name) × (d.index ≡ c.index) × IsValid d)
    × SameChannels cs ds

get_elem?-append_left :
    (xs ys : List Channel) (k : ℕ) (c : Channel)
    → get_elem? xs k ≡ some c
    → get_elem? (xs ++ ys) k ≡ some c
get_elem?-append_left [] ys k c h = absurd (cc)
get_elem?-append_left (x ∷ xs) ys zero c h = h
get_elem?-append_left (x ∷ xs) ys (suc k) c h = get_elem?-append_left xs ys k c h

get_elem?-append_next :
    (xs : List Channel) (c : Channel) → get_elem? (xs ++ c ∷ []) (length xs) ≡ some c
get_elem?-append_next [] c = refl
get_elem?-append_next (x ∷ xs) c = get_elem?-append_next xs c

-- The new channels that a file can make.
abbrev pub Sourced : Channel → Type 0
Sourced c = IsValid c × (1 ≤ c.num_src)

abbrev pub Settled : List Channel → Restreamer → Type 0
Settled channels r = Serves channels r ⊎ Leaves r

module _ (cookie : ℕ) where
  Placed-append :
      (given more : List Channel) (r : Restreamer)
      → Placed cookie given r
      → Placed cookie (given ++ more) r
  Placed-append given more r (inl outside) = inl outside
  Placed-append given more r (inr (marked, (k, own, at, name))) =
      inr (marked, (k, own, get_elem?-append_left given more k r.input.channel at, name))

  All-Placed-append :
      (given more : List Channel) (rs : List Restreamer)
      → All (Placed cookie given) rs
      → All (Placed cookie (given ++ more)) rs
  All-Placed-append given more [] h = tt
  All-Placed-append given more (r ∷ rs) (p, h) =
      (Placed-append given more r p, All-Placed-append given more rs h)

  -- What one new channel does.
  abbrev Handed : List Channel → Channel → Channel → List Restreamer → Type 0
  Handed given chan chan' rs =
      ((chan'.sources ≡ chan.sources)
        × (chan'.name ≡ chan.name)
        × (chan'.index ≡ chan.index)
        × IsValid chan')
      × All (Placed cookie (given ++ chan' ∷ [])) rs

  adopt_first-Handed :
      (given : List Channel) (chan : Channel) (rs : List Restreamer)
      → IsValid chan
      → 1 ≤ chan.num_src
      → All (Placed cookie given) rs
      → Handed given chan
          (adopt_first cookie (length given) chan rs).0
          (adopt_first cookie (length given) chan rs).1
  unfolding adopt_first
  adopt_first-Handed given chan [] v one h = ((refl, refl, refl, v), tt)
  adopt_first-Handed given chan (r ∷ rs) v one (p, h) =
      elim (Bool-cases (str_eq chan.name r.input.name)) [
        | inl same ↦
            let a = adopt-Adopted cookie (length given) chan r v one in
            let chan1 = (adopt cookie (length given) chan r).0 in
            let name : (adopt cookie (length given) chan r).1.input.channel.name
                ≡ (adopt cookie (length given) chan r).1.input.name =
              ap (λ (c : Channel). c.name) a.shared.0
              ∙ a.kept.1
              ∙ eq_of_str_eq chan.name r.input.name same
              ∙ sym a.marked.1 in
            rw same (
              (a.kept.0, a.kept.1, a.kept.2, a.valid),
              (
                inr (
                  a.marked.0,
                  (
                    length given,
                    a.shared.1,
                    get_elem?-append_next given chan1 ∙ ap some (sym a.shared.0),
                    name,
                  ),
                ),
                All-Placed-append given (chan1 ∷ []) rs h,
              ),
            )
        | inr differ ↦
            let (same, rest) = adopt_first-Handed given chan rs v one h in
            rw differ (
              same,
              (Placed-append given ((adopt_first cookie (length given) chan rs).0 ∷ []) r p, rest),
            )
      ]

  adopt_all-Placed :
      (given chans : List Channel) (rs : List Restreamer)
      → All Sourced chans
      → All (Placed cookie given) rs
      → SameChannels chans (adopt_all cookie (length given) chans rs).0
        × All
            (Placed cookie (given ++ (adopt_all cookie (length given) chans rs).0))
            (adopt_all cookie (length given) chans rs).1
  unfolding adopt_all
  adopt_all-Placed given [] rs s h = (tt, rw append-nil h)
  adopt_all-Placed given (chan ∷ chans) rs ((v, one), s) h =
      let chan1 = (adopt_first cookie (length given) chan rs).0 in
      let rs1 = (adopt_first cookie (length given) chan rs).1 in
      let (same, h1) = adopt_first-Handed given chan rs v one h in
      let longer : length (given ++ chan1 ∷ []) ≡ length given + 1 =
        omega (arith, length-append given (chan1 ∷ [])) in
      let (rest, h2) = adopt_all-Placed (given ++ chan1 ∷ []) chans rs1 s h1 in
      let h3 = rw (longer, append_assoc) at h2 in ((same, rw longer at rest), h3)

  copy_channel-some : (c : Channel) → Copyable c → (d : Channel) × (copy_channel c ≡ some d)
  unfolding copy_channel channel_new
  copy_channel-some c (one, small, (s, e)) = (
    chansrc_add
        (blank_channel c.service_id c.radio c.id c.name c.eit_mode c.index c.lcn c.lcn_visible) s,
    rw e (ground arith),
  )

  dismiss-Settled :
      (channels : List Channel) (r : Restreamer)
      → Placed cookie channels r
      → (r' : Restreamer) × (dismiss cookie r ≡ some r') × Settled channels r'
  unfolding dismiss
  dismiss-Settled channels r (inr (marked, serves)) = (r, ground arith, inl serves)
  dismiss-Settled channels r (inl (other, copyable)) =
      let (d, copy) = copy_channel-some r.input.channel copyable in
      let e : (r.input.cookie == cookie) ≡ false = ground arith in
      (
        record {
          input = record r.input { channel = d; freechannel = true; dienow = true };
          owner = itself;
        },
        rw (e, copy) refl,
        inr (refl, refl, refl),
      )

  dismiss_all-Settled :
      (channels : List Channel) (rs : List Restreamer)
      → All (Placed cookie channels) rs
      → (rs' : List Restreamer) × (dismiss_all cookie rs ≡ some rs') × All (Settled channels) rs'
  unfolding dismiss_all
  dismiss_all-Settled channels [] h = ([], refl, tt)
  dismiss_all-Settled channels (r ∷ rs) (p, h) =
      let (r1, e1, t1) = dismiss-Settled channels r p in
      let (rs1, e2, t2) = dismiss_all-Settled channels rs h in
      (r1 ∷ rs1, rw (e1, e2, dismiss_all) refl, (t1, t2))

  pub reload-Settled :
      (channels : List Channel) (inputs : List Restreamer)
      → All Sourced channels
      → All (λ r. (r.input.cookie ≢ cookie) × Copyable r.input.channel) inputs
      → (channels' : List Channel) × (inputs' : List Restreamer) × (reload cookie channels inputs
          ≡ some (channels', inputs'))
        × SameChannels channels channels'
        × All (Settled channels') inputs'
  unfolding reload
  reload-Settled channels inputs s h =
      let (same, placed) = adopt_all-Placed [] channels inputs s (All-outside inputs h) in
      let (inputs', e, settled) =
        dismiss_all-Settled (adopt_all cookie 0 channels inputs).0
          (adopt_all cookie 0 channels inputs).1 placed in
      ((adopt_all cookie 0 channels inputs).0, inputs', rw (e, reload) refl, same, settled)
    where
      All-outside :
          (rs : List Restreamer)
          → All (λ r. (r.input.cookie ≢ cookie) × Copyable r.input.channel) rs
          → All (Placed cookie []) rs
      All-outside [] a = tt
      All-outside (r ∷ rs) (p, a) = (inl p, All-outside rs a)
