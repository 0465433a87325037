-- ===== src/Dataplane/Certificates.antt =====
-- `certificateLoader` of internal/dataplane/tls.go. The two files are what a handshake finds: their
-- modification times, where `os.Stat` succeeds, and the certificate that `tls.LoadX509KeyPair` makes
-- of them, if any. `load` runs under the loader's mutex, so it is one step; nothing changes the files
-- between its own calls.
pub mod Current
use go_serve.Common.{
  ℕ, ◌≡◌, Bool, true, false, ◌&&◌, Option, none, some, List, [], ◌∷◌, ◌==◌, if◌then◌else◌, is_some,
}

pub record Loader (C : Type 0) : Type 0 where
  pub cert : Option C
  pub cert_mod : ℕ
  pub key_mod : ℕ

pub record Files (C : Type 0) : Type 0 where
  pub cert_time : Option ℕ
  pub key_time : Option ℕ
  pub pair : Option C

pub data LoadError : Type 0 where
  stat_failed load_failed : LoadError

pub data Loaded (C : Type 0) : Type 0 where
  certificate : C → Loaded C
  failed : LoadError → Loaded C

-- `&certificateLoader{...}`
unfoldable pub new_loader : {C : Type 0} → Loader C
new_loader = record { cert = none; cert_mod = 0; key_mod = 0 }

module _ {C : Type 0} where
  -- The part that reads the pair
  abbrev pub reload : Loader C → ℕ → ℕ → Option C → Loader C × Loaded C
  reload l cert_time key_time none = (l, failed load_failed)
  reload l cert_time key_time (some pair) =
      (record { cert = some pair; cert_mod = cert_time; key_mod = key_time }, certificate pair)

  -- After both calls of `os.Stat`
  abbrev pub load_at : Loader C → ℕ → ℕ → Option C → Option C → Loader C × Loaded C
  load_at l cert_time key_time none pair = reload l cert_time key_time pair
  load_at l cert_time key_time (some cached) pair =
      if cert_time == l.cert_mod && key_time == l.key_mod
      then (l, certificate cached)
      else reload l cert_time key_time pair

  abbrev pub load_from : Loader C → Option ℕ → Option ℕ → Option C → Loader C × Loaded C
  load_from l none key_time pair = (l, failed stat_failed)
  load_from l (some cert_time) none pair = (l, failed stat_failed)
  load_from l (some cert_time) (some key_time) pair = load_at l cert_time key_time l.cert pair

  unfoldable pub load : Loader C → Files C → Loader C × Loaded C
  load l files = load_from l files.cert_time files.key_time files.pair

  -- The handshakes of a listener in order, with what each got.
  unfoldable pub handshakes : Loader C → List (Files C) → Loader C × List (Loaded C)
  unfolding load
  handshakes l [] = (l, [])
  handshakes l (files ∷ rest) =
      let (l', got) = load l files in let (last, all) = handshakes l' rest in (last, got ∷ all)

  -- `TLSListener`: none where the first load fails.
  unfoldable pub tls_listener : Files C → Option (Loader C)
  unfolding load new_loader
  tls_listener files = elim (load new_loader files).1 [
    | certificate c ↦ some (load new_loader files).0
    | failed e ↦ none
  ]
