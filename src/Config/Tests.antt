-- ===== src/Config/Tests.antt =====
-- The default configurations, with an ini file that is a function.
use rtcvpn.Common.{ℕ, List, [], ◌∷◌, Bool, true, false, ◌&&◌, Option, none, some, if◌then◌else◌}
use rtcvpn.Http.{iequals}
use rtcvpn.Config.{Ini}
use rtcvpn.Config.Client.{ClientConfig, default_client_config}

-- A number is a text of one byte, a flag a text that is empty or not.
abbrev number_of : List ℕ → ℕ → ℕ
number_of [] d = d
number_of (n ∷ _) d = n

abbrev flag_of : List ℕ → Bool
flag_of [] = false
flag_of (_ ∷ _) = true

abbrev ini : Ini
ini = record {
  Store = List ℕ → List ℕ → Option (List ℕ);
  empty = λ s k. none;
  set = λ s k v st t l. if iequals s t && iequals k l then some v else st t l;
  get = λ s k st. st s k;
  long_text = λ n. n ∷ [];
  read_long = number_of;
  bool_text = λ b. if b then 1 ∷ [] else [];
  read_bool = λ t d. flag_of t;
}

abbrev other_client : ClientConfig
other_client = record default_client_config { stun_port = 1 }
