-- ===== src/Config.antt =====
-- config.c: the configuration files. `Ini` is the dictionary that the vendored INI parser makes of a
-- file, as what its functions answer for a key; numbers in the files are not negative.
pub mod Channels
pub mod Reload
pub mod Options
pub mod Files
pub mod Load
mod Tests
use mptsd.Base.{
  ℕ, ◌+◌, ◌/◌, ◌%◌, Bool, true, false, List, [], ◌∷◌, ◌++◌, Option, none, some, CString, codes, ltb,
  if◌then◌else◌,
}

pub record Ini : Type 0 where
  -- ini_get_string with the default NULL
  pub get_string : CString → Option CString
  -- ini_get_int with a default
  pub get_int : CString → ℕ → ℕ
  -- ini_get_bool with the default 0
  pub get_bool : CString → Bool

-- %d, for a number below 100
abbrev pub decimal : ℕ → CString
decimal n = if ltb n 10 then (n + b'0') ∷ [] else (n / 10 + b'0') ∷ (n % 10 + b'0') ∷ []

-- "Channel%d:key"
abbrev pub channel_key : ℕ → CString → CString
channel_key i key = codes "Channel" ++ (decimal i ++ (b':' ∷ key))
