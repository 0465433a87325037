-- ===== src/Dataplane/Certificates/Current.antt =====
-- Which certificate a handshake gets.
use go_serve.Common.{
  ℕ, ◌≡◌, refl, sym, ap, ◌∙◌, inl, inr, arith, ◌&&◌, Option, none, some, List, [], ◌∷◌, ◌==◌,
  Bool-cases,
}
use go_serve.Dataplane.Certificates.{
  Loader, Files, stat_failed, load_failed, Loaded, certificate, failed, new_loader, reload, load_at,
  load_from, load, handshakes,
}

module _ {C : Type 0} (content : ℕ → ℕ → Option C) where
  -- The files hold what their times say: whoever writes a file moves its time.
  abbrev pub IsStamped : Files C → Type 0
  IsStamped files =
      (s t : ℕ) → files.cert_time ≡ some s → files.key_time ≡ some t → files.pair ≡ content s t

  -- What a handshake should get: the pair in the files, or the error of what could not be read.
  abbrev pub expected : Option C → Loaded C
  expected none = failed load_failed
  expected (some pair) = certificate pair

  abbrev pub answer_from : Option ℕ → Option ℕ → Option C → Loaded C
  answer_from none key_time pair = failed stat_failed
  answer_from (some s) none pair = failed stat_failed
  answer_from (some s) (some t) pair = expected pair

  abbrev pub answer : Files C → Loaded C
  answer files = answer_from files.cert_time files.key_time files.pair

  -- A cached pair is the content at the loader's times.
  abbrev pub IsCached : Loader C → Type 0
  IsCached l = (c : C) → l.cert ≡ some c → content l.cert_mod l.key_mod ≡ some c

  abbrev pub AllStamped : List (Files C) → Type 0
  AllStamped [] = Unit {0}
  AllStamped (files ∷ rest) = IsStamped files × AllStamped rest

  abbrev pub answers : List (Files C) → List (Loaded C)
  answers [] = []
  answers (files ∷ rest) = answer files ∷ answers rest

  abbrev Right : Loader C × Loaded C → Loaded C → Type 0
  Right r want = (r.1 ≡ want) × IsCached r.0

  reload-Right :
      (l : Loader C) (s t : ℕ) (pair : Option C)
      → pair ≡ content s t
      → IsCached l
      → Right (reload l s t pair) (expected pair)
  reload-Right l s t none stamped cached = (refl, cached)
  reload-Right l s t (some c) stamped cached = (refl, λ d e. sym stamped ∙ e)

  load_at-Right :
      (l : Loader C) (s t : ℕ) (cert pair : Option C)
      → l.cert ≡ cert
      → pair ≡ content s t
      → IsCached l
      → Right (load_at l s t cert pair) (expected pair)
  load_at-Right l s t none pair e stamped cached = reload-Right l s t pair stamped cached
  load_at-Right l s t (some c) pair e stamped cached =
      elim (Bool-cases (s == l.cert_mod && t == l.key_mod)) [
        | inr moved ↦ rw moved (reload-Right l s t pair stamped cached)
        | inl same ↦
            let first : s ≡ l.cert_mod = ground arith in
            let second : t ≡ l.key_mod = ground arith in
            let now : pair ≡ some c =
              stamped ∙ ap (λ x. content x t) first ∙ ap (content l.cert_mod) second ∙ cached c e in
            rw (same, now) (refl, cached)
      ]

  load-Right :
      (l : Loader C) (files : Files C) (s t : Option ℕ)
      → files.cert_time ≡ s
      → files.key_time ≡ t
      → IsStamped files
      → IsCached l
      → Right (load_from l s t files.pair) (answer_from s t files.pair)
  load-Right l files none t a b stamped cached = (refl, cached)
  load-Right l files (some s) none a b stamped cached = (refl, cached)
  load-Right l files (some s) (some t) a b stamped cached =
      load_at-Right l s t l.cert files.pair refl (stamped s t a b) cached

  handshakes_right :
      (l : Loader C) (history : List (Files C))
      → AllStamped history
      → IsCached l
      → (handshakes l history).1 ≡ answers history
  unfolding handshakes load
  handshakes_right l [] stamped cached = refl
  handshakes_right l (files ∷ rest) stamped cached =
      let (same, next) =
        load-Right l files files.cert_time files.key_time refl refl stamped.0 cached in
      let later = handshakes_right (load l files).0 rest stamped.1 next in cc (same, later)

  -- Reloading is invisible: with files that change only together with their times, each handshake gets
  -- the certificate that is in the files at that moment, or the error of what cannot be read then, as
  -- if it read them itself. A failure neither lasts nor spoils what comes after it.
  pub handshakes-eq-answers :
      (history : List (Files C))
      → AllStamped history
      → (handshakes new_loader history).1 ≡ answers history
  unfolding new_loader
  handshakes-eq-answers history stamped =
      handshakes_right new_loader history stamped (λ c e. absurd (cc))
