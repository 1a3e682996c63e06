-- ===== src/Server/Process/Removal.antt =====
-- Taking all tunnels out of a client's table, one after another.
use rtcvpn.Common.{
  ℕ, ◌≡◌, refl, sym, ap, List, [], ◌∷◌, true, none, ◌==◌, lookup, remove, elem, arith, All,
  Bool-cases, inl, inr,
}
use rtcvpn.Server.{TunnelSession}
use rtcvpn.Server.Process.Tunnels.{stop_all}

abbrev pub keys : List (ℕ × TunnelSession) → List ℕ
keys [] = []
keys ((sid, _) ∷ rest) = sid ∷ keys rest

abbrev pub remove_each : List ℕ → List (ℕ × TunnelSession) → List (ℕ × TunnelSession)
remove_each [] table = table
remove_each (k ∷ ks) table = remove_each ks (remove k table)

module _ (ks : List ℕ) where
  abbrev IsKey : ℕ × TunnelSession → Type 0
  IsKey e = elem e.0 ks ≡ true

  keys_left :
      (k : ℕ) (table : List (ℕ × TunnelSession))
      → All (λ e. elem e.0 (k ∷ ks) ≡ true) table
      → All (λ e. elem e.0 ks ≡ true) (remove k table)
  keys_left k [] h = h
  keys_left k ((j, t) ∷ table) h = elim (Bool-cases (j == k)) [
    | inl y ↦ rw y (keys_left k table h.1)
    | inr n ↦ rw n (ground (arith, n, h.0), keys_left k table h.1)
  ]

  keys_more :
      (k : ℕ) (table : List (ℕ × TunnelSession))
      → All (λ e. elem e.0 ks ≡ true) table
      → All (λ e. elem e.0 (k ∷ ks) ≡ true) table
  keys_more k [] h = h
  keys_more k ((j, t) ∷ table) h = (ground (arith, h.0), keys_more k table h.1)

keys-All : (table : List (ℕ × TunnelSession)) → All (λ e. elem e.0 (keys table) ≡ true) table
keys-All [] = tt
keys-All ((j, t) ∷ table) = (ground arith, keys_more (keys table) j table (keys-All table))

remove_each-keys :
    (ks : List ℕ) (table : List (ℕ × TunnelSession))
    → All (λ e. elem e.0 ks ≡ true) table
    → remove_each ks table ≡ []
remove_each-keys [] [] h = refl
remove_each-keys [] (_ ∷ _) h = cc (h.0)
remove_each-keys (k ∷ ks) table h = remove_each-keys ks (remove k table) (keys_left ks k table h)

pub remove_absent :
    (k : ℕ) (table : List (ℕ × TunnelSession)) → lookup k table ≡ none → remove k table ≡ table
remove_absent k [] h = refl
remove_absent k ((j, t) ∷ table) h = ground (arith, h, remove_absent k table)

keys-stop_all : (table : List (ℕ × TunnelSession)) → keys (stop_all table) ≡ keys table
keys-stop_all [] = refl
keys-stop_all ((j, t) ∷ table) = ap (◌∷◌ j) (keys-stop_all table)

pub emptied : (table : List (ℕ × TunnelSession)) → remove_each (keys table) (stop_all table) ≡ []
emptied table =
    remove_each-keys (keys table) (stop_all table)
      (rw (sym (keys-stop_all table)) (keys-All (stop_all table)))
