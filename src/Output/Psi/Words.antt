-- ===== src/Output/Psi/Words.antt =====
-- output_psi.c: the words that `output_psi_init_nit` packs for the descriptors of the NIT. Service
-- identifiers and channel numbers are 16-bit numbers, and the parts that are joined by `|` have no bit in
-- common, so that they are added.
pub mod Unpacked
use mptsd.Base.{ℕ, ◌+◌, ◌-◌, ◌*◌, ◌/◌, ◌%◌, ◌^◌, Bool, true, false, List, map, if◌then◌else◌}
use mptsd.Channel.{Channel}

-- n &~ 0x00ff, n &~ 0xff00 and n &~ 0xc0ff
abbrev pub high_byte : ℕ → ℕ
high_byte n = n - n % 256

abbrev pub low_byte : ℕ → ℕ
low_byte n = n % 256

abbrev pub high_six : ℕ → ℕ
high_six n = n / 256 % 64 * 256

-- For the service list: service_id << 8, and the kind of the service.
unfoldable pub service_word : Channel → ℕ
service_word c =
    high_byte c.service_id * 2 ^ 8
    + low_byte c.service_id * 2 ^ 8
    + (if c.radio then 0x02 else 0x01)

-- For the logical channel numbers: service_id << 16, the visible flag in bit 15, the number below.
unfoldable pub lcn_word : Channel → ℕ
lcn_word c =
    high_byte c.service_id * 2 ^ 16
    + low_byte c.service_id * 2 ^ 16
    + (if c.lcn_visible then 0x01 else 0x00) * 2 ^ 15
    + high_six c.lcn
    + low_byte c.lcn

-- The arrays svc_services and lcn_services.
unfoldable pub svc_services : List Channel → List ℕ
svc_services = map service_word

unfoldable pub lcn_services : List Channel → List ℕ
lcn_services = map lcn_word
