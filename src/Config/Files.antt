-- ===== src/Config/Files.antt =====
-- config.c: `config_load_global` and `config_load_nit`; data.c: `nit_new`.
pub mod Packed
pub mod Transponders
use mptsd.Base.{
  ℕ, zero, suc, ◌+◌, ◌*◌, ◌-◌, Bool, true, false, List, [], ◌∷◌, ◌++◌, Option, none, some, CString,
  codes, str_eq, length, u16, u32, ltb, ◌==◌, ◌&&◌, ◌||◌, not, if◌then◌else◌,
}
use mptsd.Url.{is_digit}
use mptsd.Config.{Ini, decimal}

-- The numbers of the global file; `timeouts` are milliseconds.
pub record Global : Type 0 where
  pub network_id : ℕ
  pub pat : ℕ
  pub pmt : ℕ
  pub sdt : ℕ
  pub nit : ℕ
  pub eit : ℕ
  pub tdt : ℕ
  pub tot : ℕ
  pub stats : ℕ

-- `none` when the file cannot be loaded
unfoldable pub config_load_global : Option Ini → Option Global
config_load_global none = none
config_load_global (some ini) = some (record {
  network_id = u16 (ini.get_int (codes "Global:network_id") 0);
  pat = u32 (ini.get_int (codes "Timeouts:pat") 100);
  pmt = u32 (ini.get_int (codes "Timeouts:pmt") 200);
  sdt = u32 (ini.get_int (codes "Timeouts:sdt") 500);
  nit = u32 (ini.get_int (codes "Timeouts:nit") 2000);
  eit = u32 (ini.get_int (codes "Timeouts:eit") 1000);
  tdt = u32 (ini.get_int (codes "Timeouts:tdt") 7500);
  tot = u32 (ini.get_int (codes "Timeouts:tot") 1500);
  stats = u32 (ini.get_int (codes "Timeouts:stats") 0);
})

-- NIT; the fields whose names begin with `_` are `freq_value` and so on here.
pub record Nit : Type 0 where
  pub freq : CString
  pub modulation : CString
  pub symbol_rate : CString
  pub ts_id : ℕ
  pub freq_value : ℕ
  pub modulation_value : ℕ
  pub symbol_rate_value : ℕ

unfoldable pub modulation_of : CString → ℕ
modulation_of text =
    if str_eq text (codes "16-QAM")
    then 0x01
    else if str_eq text (codes "32-QAM")
    then 0x02
    else if str_eq text (codes "64-QAM")
    then 0x03
    else if str_eq text (codes "128-QAM")
    then 0x04
    else if str_eq text (codes "256-QAM")
    then 0x05
    else 0x00

-- The loop that copies the digits into `tmp`.
unfoldable pub digits_of : CString → CString
digits_of [] = []
digits_of (c ∷ s) = if is_digit c then c ∷ digits_of s else digits_of s

-- strtol(tmp, NULL, 16), for digits from 0 to 9
unfoldable pub hex_value : ℕ → CString → ℕ
hex_value acc [] = acc
hex_value acc (d ∷ ds) = hex_value (acc * 16 + (d - b'0')) ds

-- Nine digits fill `tmp` and leave no place for the zero at its end: strtol reads on, and what it
-- answers is unknown.
unfoldable pub packed : CString → Option ℕ
unfolding digits_of hex_value
packed text =
    if ltb 8 (length (digits_of text)) then none else some (u32 (hex_value 0 (digits_of text)))

pub data NitResult : Type 0 where
  refused unterminated : NitResult
  made : Nit → NitResult

unfoldable pub nit_new : ℕ → CString → CString → CString → NitResult
unfolding modulation_of packed
nit_new ts_id freq modulation symbol_rate =
    if not (length freq == 9) || not (length symbol_rate == 8)
    then refused
    else elim (packed freq) [
      | none ↦ unterminated
      | some freq_value ↦ elim (packed symbol_rate) [
        | none ↦ unterminated
        | some symbol_rate_value ↦ made (record {
          freq = freq;
          modulation = modulation;
          symbol_rate = symbol_rate;
          ts_id = ts_id;
          freq_value = freq_value;
          modulation_value = modulation_of modulation;
          symbol_rate_value = symbol_rate_value;
        })
      ]
    ]

-- "Transponder%d:key"
abbrev pub transponder_key : ℕ → CString → CString
transponder_key i key = codes "Transponder" ++ (decimal i ++ (b':' ∷ key))

-- One transponder; `refused` also where one of its entries is missing.
unfoldable pub load_transponder : Ini → ℕ → NitResult
unfolding nit_new
load_transponder ini i =
    let ts_id = u16 (ini.get_int (transponder_key i (codes "transport_stream_id")) 0) in
    elim (ini.get_string (transponder_key i (codes "frequency"))) [
      | none ↦ refused
      | some freq ↦ elim (ini.get_string (transponder_key i (codes "modulation"))) [
        | none ↦ refused
        | some modulation ↦ elim (ini.get_string (transponder_key i (codes "symbol_rate"))) [
          | none ↦ refused
          | some sr ↦
              if ts_id == 0
              then refused
              else if length freq == 9 && length sr == 8
              then nit_new ts_id freq modulation sr
              else refused
        ]
      ]
    ]

-- for (i=1;i<32;i++), from `i` on with `left` rounds to go; `none` after the reading past `tmp`
unfoldable pub load_transponders : Ini → ℕ → ℕ → Option (List Nit)
unfolding load_transponder
load_transponders ini zero i = some []
load_transponders ini (suc left) i =
    let others = load_transponders ini left (i + 1) in
    elim (load_transponder ini i) [
      | unterminated ↦ none
      | refused ↦ others
      | made n ↦ elim others [ none ↦ none | some ns ↦ some (n ∷ ns) ]
    ]

unfoldable pub config_load_nit : Ini → Option (List Nit)
unfolding load_transponders
config_load_nit ini = load_transponders ini 31 1
