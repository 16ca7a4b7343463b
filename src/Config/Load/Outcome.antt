-- ===== src/Config/Load/Outcome.antt =====
-- What the program starts with when its configuration is accepted.
use mptsd.Base.{
  ℕ, ◌+◌, ◌*◌, ◌≤◌, ◌<◌, ◌≡◌, ◌≢◌, inl, inr, refl, sym, ap, subst, ◌∙◌, true, List, [], ◌∷◌, Option,
  none, some, CString, arith, length, ◌==◌, ◌&&◌, Bool-cases,
}
use mptsd.Channel.{Channel}
use mptsd.Output.{Obuf, obuf_alloc}
use mptsd.Config.{Ini}
use mptsd.Config.Options.{
  Config, SystemLib, Loading, running, exits, faults, initial_config, parse_options,
}
use mptsd.Config.Options.Accepted.{Accepted, Ensures, >>=-Ensures, options-Accepted}
use mptsd.Config.Files.{config_load_global, config_load_nit}
use mptsd.Config.Channels.{load_channels}
use mptsd.Config.Channels.File.{load_channels-Loaded}
use mptsd.Config.Channels.Rounds.{Loaded}
use mptsd.Config.Load.{
  Pace, align_bitrate, set_defaults, Environment, open_output, check_address, calibrate,
  calibrate_sleep, or_exit, or_fault, some_channel, file, Started, load_files, start, config_load,
}
use mptsd.Config.Load.Rate.{align_bitrate_lem, obuf_frames}

or_exit-Ensures {ℓ} : {A : Type ℓ} (o : Option A) → Ensures (λ a. o ≡ some a) (or_exit o)
or_exit-Ensures none = tt
or_exit-Ensures (some a) = refl

or_fault-Ensures {ℓ} : {A : Type ℓ} (o : Option A) → Ensures (λ a. o ≡ some a) (or_fault o)
or_fault-Ensures none = tt
or_fault-Ensures (some a) = refl

some_channel-Ensures : (cs : List Channel) → Ensures (λ _. 1 ≤ length cs) (some_channel cs)
some_channel-Ensures [] = tt
some_channel-Ensures (c ∷ cs) = omega arith

-- The configuration and the numbers that the files are read with, and what they add.
record FilesRead (E : Environment) (conf : Config) (pace : Pace) (s : Started) : Type 0 where
  same : (s.conf ≡ conf) × (s.pace ≡ pace)
  buffers :
      (s.obuf0 ≡ obuf_alloc pace.output_bitrate 100)
      × (s.obuf1 ≡ obuf_alloc pace.output_bitrate 100)
  channels : (ini : Ini) × (file E conf.channels_conf ≡ some ini) × Loaded ini 1 32 s.channels
  some_channels : 1 ≤ length s.channels

load_files-FilesRead :
    (E : Environment) (conf : Config) (pace : Pace)
    → Ensures (FilesRead E conf pace) (load_files E conf pace)
unfolding load_files
load_files-FilesRead E conf pace =
    >>=-Ensures _ _ (or_exit (file E conf.global_conf)) _
      (or_exit-Ensures (file E conf.global_conf))
      λ global_ini _.
        >>=-Ensures _ _ (or_exit (config_load_global (some global_ini))) _
          (or_exit-Ensures (config_load_global (some global_ini)))
          λ global _.
            >>=-Ensures _ _ (or_exit (file E conf.nit_conf)) _
              (or_exit-Ensures (file E conf.nit_conf))
              λ nit_ini _.
                >>=-Ensures _ _ (or_fault (config_load_nit nit_ini)) _
                  (or_fault-Ensures (config_load_nit nit_ini))
                  λ nit _.
                    >>=-Ensures _ _ (or_exit (file E conf.channels_conf)) _
                      (or_exit-Ensures (file E conf.channels_conf))
                      λ ini at.
                        >>=-Ensures _ _ (or_fault (load_channels ini)) _
                          (or_fault-Ensures (load_channels ini))
                          λ channels loaded.
                            >>=-Ensures _ _ (some_channel channels) _
                              (some_channel-Ensures channels)
                              λ _ one. record {
                                same = (refl, refl);
                                buffers = (refl, refl);
                                channels = (ini, at, load_channels-Loaded ini channels loaded);
                                some_channels = one;
                              }

check_address-Ensures :
    (conf : Config)
    → Ensures (λ _. conf.write_output_network ≡ true → conf.out_host ≢ 0) (check_address conf)
unfolding check_address
check_address-Ensures conf = elim (Bool-cases (conf.write_output_network && conf.out_host == 0)) [
  | inl missing ↦ rw missing tt
  | inr fine ↦ rw fine (λ network zero_host. absurd (ground arith))
]

calibrate_sleep-le : (tmout : ℕ) (measured : List ℕ) → calibrate_sleep tmout measured ≤ tmout
unfolding calibrate_sleep
calibrate_sleep-le tmout measured = omega arith

calibrate-Ensures :
    (E : Environment) (tmout : ℕ) → Ensures (λ t. (1 ≤ t) × (t ≤ tmout)) (calibrate E tmout)
unfolding calibrate
calibrate-Ensures E tmout = elim (Bool-cases E.created) [
  | inr failed ↦ rw failed tt
  | inl made ↦ elim (Bool-cases (calibrate_sleep tmout E.measured == 0)) [
    | inl late ↦ rw (made, late) tt
    | inr fine ↦ rw (made, fine) (ground arith, calibrate_sleep-le tmout E.measured)
  ]
]

-- What holds of everything that the program begins to work with.
pub record Sound (E : Environment) (s : Started) : Type 0 where
  pub accepted : Accepted s.conf
  pub addressed : s.conf.write_output_network ≡ true → s.conf.out_host ≢ 0
  pub whole_frames :
      (s.pace.output_bitrate ≡ s.pace.output_packets_per_sec * 10528)
      × (s.conf.output_bitrate ≤ s.pace.output_bitrate)
      × (s.pace.output_bitrate < s.conf.output_bitrate + 10528)
  pub pause :
      (1 ≤ s.pace.output_tmout) × (s.pace.output_tmout * s.pace.output_packets_per_sec ≤ 1000000)
  pub buffers :
      (frames : ℕ) × (length s.obuf0.buf ≡ frames * 7)
      × (length s.obuf1.buf ≡ frames * 7)
      × (s.pace.output_packets_per_sec ≤ 10 * frames)
  pub channels : (ini : Ini) × (file E s.conf.channels_conf ≡ some ini) × Loaded ini 1 32 s.channels
  pub some_channels : 1 ≤ length s.channels

defaults-Accepted : (conf : Config) → Accepted conf → Accepted (set_defaults conf)
unfolding set_defaults
defaults-Accepted conf a = record { port = a.port; mode = a.mode; ttl = a.ttl; rate = a.rate }

addressed_defaults :
    (conf : Config)
    → (conf.write_output_network ≡ true → conf.out_host ≢ 0)
    → (set_defaults conf).write_output_network ≡ true
    → (set_defaults conf).out_host ≢ 0
unfolding set_defaults
addressed_defaults conf h = h

abbrev paced : Config → ℕ → Pace
paced conf tmout = record (align_bitrate conf.output_bitrate) { output_tmout = tmout }

module _ (E : Environment) (conf : Config) (a : Accepted conf)
    (h : conf.write_output_network ≡ true → conf.out_host ≢ 0) where
  Sound_lem :
      (tmout : ℕ) (s : Started)
      → (1 ≤ tmout) × (tmout ≤ (align_bitrate conf.output_bitrate).output_tmout)
      → FilesRead E conf (paced conf tmout) s
      → Sound E s
  Sound_lem tmout s (one, less) f =
      let (whole, enough, close, _, _, slots, _, _) =
        align_bitrate_lem conf.output_bitrate a.rate.0 a.rate.1 in
      let (frames, size, fast, _) = obuf_frames conf.output_bitrate in
      let rate = ap (λ (c : Config). c.output_bitrate) f.same.0 in
      let bits = ap (λ (p : Pace). p.output_bitrate) f.same.1 in
      let pps = ap (λ (p : Pace). p.output_packets_per_sec) f.same.1 in
      let wait = ap (λ (p : Pace). p.output_tmout) f.same.1 in
      let size0 = ap (λ (o : Obuf). length o.buf) f.buffers.0 in
      let size1 = ap (λ (o : Obuf). length o.buf) f.buffers.1 in
      let (ini, at, loaded) = f.channels in
      record {
        accepted = subst Accepted (sym f.same.0) a;
        addressed =
            subst (λ (c : Config). c.write_output_network ≡ true → c.out_host ≢ 0) (sym f.same.0) h;
        whole_frames = (rw (bits, pps) whole, omega arith, omega arith);
        pause = (omega arith, rw (wait, pps) (fits tmout less slots));
        buffers = (frames, size0 ∙ size, size1 ∙ size, omega arith);
        channels = (ini, rw f.same.0 at, loaded);
        some_channels = f.some_channels;
      }
    where
      fits :
          (t : ℕ)
          → t ≤ (align_bitrate conf.output_bitrate).output_tmout
          → (align_bitrate conf.output_bitrate).output_tmout
              * (align_bitrate conf.output_bitrate).output_packets_per_sec
            ≤ 1000000
          → t * (align_bitrate conf.output_bitrate).output_packets_per_sec ≤ 1000000
      fits t le slots = grind arith

any-Ensures : (m : Loading (Unit {0})) → Ensures (λ _. Unit {0}) m
any-Ensures (running u) = tt
any-Ensures (exits status) = tt
any-Ensures faults = tt

map-Ensures :
    {P Q : Started → Type 0} (m : Loading Started)
    → Ensures P m
    → ((s : Started) → P s → Q s)
    → Ensures Q m
map-Ensures (running s) p f = f s p
map-Ensures (exits status) p f = tt
map-Ensures faults p f = tt

start-Sound :
    (E : Environment) (given : Config) → Accepted given → Ensures (Sound E) (start E given)
unfolding start
start-Sound E given a =
    let conf = set_defaults given in
    let tmout = (align_bitrate conf.output_bitrate).output_tmout in
    >>=-Ensures _ _ (check_address given) _ (check_address-Ensures given) λ _ h.
      >>=-Ensures (λ _. Unit {0}) _ (open_output E conf) _ (any-Ensures (open_output E conf))
        λ _ _. >>=-Ensures _ _ (calibrate E tmout) _ (calibrate-Ensures E tmout) λ t within.
          map-Ensures (load_files E conf (paced conf t))
            (load_files-FilesRead E conf (paced conf t))
            (λ s f.
              Sound_lem E conf (defaults-Accepted given a) (addressed_defaults given h) t s within
                f)

-- Whatever the options, the files and the system are: a program that starts has an address if it sends to
-- the network, a port from 1024 on, a mode up to 4 and a bit rate from 2 to 75 Mbps, raised to the next
-- whole number of frames of 1316 bytes in a second; a pause that is not 0 and fits that number into a
-- second; two buffers of whole frames that last a tenth of a second at least; and a channel at least,
-- the channels being those of the complete sections of its file.
pub config_load-Sound :
    (S : SystemLib) (E : Environment) (options : List (ℕ × CString))
    → Ensures (Sound E) (config_load S E options)
unfolding config_load
config_load-Sound S E options =
    >>=-Ensures _ _ (parse_options S initial_config options) _ (options-Accepted S options)
      (start-Sound E)
