-- ===== src/Config.antt =====
-- Reading the configuration: Src/client/include/client_config.h and
-- Src/server/include/server_config.h, with what they use of SimpleIni as an interface.
pub mod Entries
pub mod Client
pub mod Server
pub mod Kept
mod Tests
use rtcvpn.Common.{
  ℕ, ◌+◌, ◌-◌, ◌%◌, ◌^◌, ◌<◌, ◌≡◌, List, [], ◌∷◌, Bool, true, false, ◌&&◌, Option, none, some,
  if◌then◌else◌, ltb,
}
use rtcvpn.Http.{iequals}

-- CSimpleIniA: SetValue, GetValue, and how SetLongValue and SetBoolValue write a value and
-- GetLongValue and GetBoolValue read one. A long is its 64-bit word.
pub record Ini : Type 1 where
  pub Store : Type 0
  pub empty : Store
  pub set : List ℕ → List ℕ → List ℕ → Store → Store
  pub get : List ℕ → List ℕ → Store → Option (List ℕ)
  pub long_text : ℕ → List ℕ
  pub read_long : List ℕ → ℕ → ℕ
  pub bool_text : Bool → List ℕ
  pub read_bool : List ℕ → Bool → Bool

-- What the programs rely on: a value that was set is found under its section and key, whose case
-- does not matter, and others are as before; numbers and flags are read as they were written.
pub record IniLaws (i : Ini) : Type 0 where
  pub get-set :
      (s k v t l : List ℕ) (st : i.Store)
      → i.get t l (i.set s k v st) ≡ (if iequals s t && iequals k l then some v else i.get t l st)
  pub read_long-long_text : (n d : ℕ) → n < 2 ^ 64 → i.read_long (i.long_text n) d ≡ n
  pub read_bool-bool_text : (b d : Bool) → i.read_bool (i.bool_text b) d ≡ b

-- The word of a 16-bit or 32-bit signed integer as a long.
abbrev pub long_of_int16 : ℕ → ℕ
long_of_int16 n = if ltb n (2 ^ 15) then n else n + (2 ^ 64 - 2 ^ 16)

abbrev pub long_of_int32 : ℕ → ℕ
long_of_int32 n = if ltb n (2 ^ 31) then n else n + (2 ^ 64 - 2 ^ 32)

-- The conversions of a long that the assignments make.
abbrev pub to_16 : ℕ → ℕ
to_16 n = n % 2 ^ 16

abbrev pub to_32 : ℕ → ℕ
to_32 n = n % 2 ^ 32

module _ (i : Ini) where
  -- GetValue, GetLongValue and GetBoolValue with a default.
  abbrev pub get_value : i.Store → List ℕ → List ℕ → List ℕ → List ℕ
  get_value st s k d = elim (i.get s k st) [ none ↦ d | some v ↦ v ]

  abbrev pub get_long : i.Store → List ℕ → List ℕ → ℕ → ℕ
  get_long st s k d = elim (i.get s k st) [ none ↦ d | some v ↦ i.read_long v d ]

  abbrev pub get_bool : i.Store → List ℕ → List ℕ → Bool → Bool
  get_bool st s k d = elim (i.get s k st) [ none ↦ d | some v ↦ i.read_bool v d ]
