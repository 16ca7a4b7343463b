-- ===== src/Output/Psi/Words/Unpacked.antt =====
-- What a receiver reads from the packed words.
use mptsd.Base.{ℕ, ◌/◌, ◌%◌, ◌^◌, ◌<◌, ◌≡◌, arith, if◌then◌else◌}
use mptsd.Channel.{Channel}
use mptsd.Output.Psi.Words.{service_word, lcn_word}

-- The fields of the two words of a channel.
pub record Unpacked (c : Channel) (service lcn : ℕ) : Type 0 where
  pub fits : (service < 2 ^ 24) × (lcn < 2 ^ 32)
  pub service_id : (service / 2 ^ 8 ≡ c.service_id) × (lcn / 2 ^ 16 ≡ c.service_id)
  pub kind : service % 2 ^ 8 ≡ (if c.radio then 2 else 1)
  pub visible : lcn / 2 ^ 15 % 2 ≡ (if c.lcn_visible then 1 else 0)
  pub reserved : lcn / 2 ^ 14 % 2 ≡ 0
  pub number : lcn % 2 ^ 14 ≡ c.lcn % 2 ^ 14

-- For 16-bit numbers, the words of a channel in the service list and in the list of channel numbers give
-- back its service identifier, its kind, whether it is visible, and its number in 14 bits; no field
-- runs into another one.
pub words-Unpacked :
    (c : Channel)
    → c.service_id < 2 ^ 16
    → c.lcn < 2 ^ 16
    → Unpacked c (service_word c) (lcn_word c)
unfolding service_word lcn_word
words-Unpacked c s l = record {
  fits = ground arith;
  service_id = ground arith;
  kind = ground arith;
  visible = ground arith;
  reserved = ground arith;
  number = ground arith;
}
