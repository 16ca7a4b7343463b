-- ===== src/Channel/Tests.antt =====
-- Runs of the source list of a channel.
use mptsd.Base.{inl, refl, codes, arith}
use mptsd.Channel.{chansrc_add}
use mptsd.Channel.Sources.{IsValid, chansrc_add-IsValid}
use mptsd.Samples.{channel}

channel-IsValid : IsValid (channel 3)
channel-IsValid = record {
  places = refl;
  count = omega arith;
  filled = (refl, (refl, (refl, (refl, (refl, (refl, (refl, (refl, refl))))))));
  current = inl (omega arith);
  url = refl;
}

chansrc_add-IsValid_example : IsValid (chansrc_add (channel 3) (codes "udp://c/"))
chansrc_add-IsValid_example = chansrc_add-IsValid (channel 3) (codes "udp://c/") channel-IsValid
