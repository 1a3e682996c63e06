-- ===== src/Config/Entries.antt =====
-- A sequence of calls of SetValue, as Src/client/include/client_config.h and
-- Src/server/include/server_config.h make it, and what is found afterwards.
use Prim.Native.String.{String}
use rtcvpn.Common.{
  ℕ, ◌≡◌, refl, List, [], ◌∷◌, ◌&&◌, Option, none, some, if◌then◌else◌, codes, arith,
}
use rtcvpn.Http.{iequals}
use rtcvpn.Config.{Ini, IniLaws}

pub record Entry : Type 0 where
  pub section : List ℕ
  pub key : List ℕ
  pub text : List ℕ

abbrev pub entry : String → String → List ℕ → Entry
entry s k t = record { section = codes s; key = codes k; text = t }

-- The last entry for a section and a key.
abbrev pub found : List ℕ → List ℕ → List Entry → Option (List ℕ)
found s k [] = none
found s k (e ∷ es) =
    let here = if iequals e.section s && iequals e.key k then some e.text else none in
    elim (found s k es) [ some t ↦ some t | none ↦ here ]

module _ (i : Ini) where
  abbrev pub write_all : List Entry → i.Store → i.Store
  write_all [] st = st
  write_all (e ∷ es) st = write_all es (i.set e.section e.key e.text st)

  -- What an entry says, and otherwise what was there before.
  pub get-write_all :
      IniLaws i
      → (s k : List ℕ) (es : List Entry) (st : i.Store)
      → i.get s k (write_all es st) ≡ elim (found s k es) [ some t ↦ some t | none ↦ i.get s k st ]
  get-write_all laws s k [] st = refl
  get-write_all laws s k (e ∷ es) st = ground (
    arith,
    get-write_all laws s k es (i.set e.section e.key e.text st),
    laws.get-set e.section e.key e.text s k st,
  )

  pub get-found :
      IniLaws i
      → (s k t : List ℕ) (es : List Entry) (st : i.Store) → found s k es ≡ some t
      → i.get s k (write_all es st) ≡ some t
  get-found laws s k t es st f = rw (get-write_all laws s k es st, f) refl
