-- ===== src/Entry/Control/Authenticated.antt =====
-- Who changes a program, and what every request leaves of it.
use go_serve.Common.{
  ℕ, ◌<◌, ◌≡◌, ◌⊎◌, refl, inl, inr, false, Option, some, [], Str, is_empty, Option-cases,
}
use go_serve.Config.{Url}
use go_serve.Dataplane.Headers.{Header}
use go_serve.Auth.{Claims, authenticate, Authorized, failure, forbidden, permitted}
use go_serve.Auth.Granting.{authorize_sound}
use go_serve.Auth.Protect.{
  Guard, Presented, Protected, oauth, denied, passed, answer_of, oauth_page, authorize_request,
  protect,
}
use go_serve.Observability.{Metrics}
use go_serve.Entry.Control.{
  NodeView, ControlRequest, ControlAnswer, State, serve_inner, after_protect, serve_control,
}

abbrev pub Identified : Guard → ℕ → Presented → Type 0
Identified g now r =
    (c : Claims) × (authenticate g.open_cookie g.verifier g.mode r.cookie r.authorization now
      ≡ some c)
    × (is_empty c.subject ≡ false)
    × (now < c.expiry)

answered_passed :
    (g : Guard) (r : Presented) (a : Authorized) (h : Header)
    → answer_of g r a ≡ passed h
    → a ≡ permitted h
answered_passed g r failure h e = absurd (cc)
answered_passed g r forbidden h e = absurd (cc)
answered_passed g r (permitted out) h e = cc

passed-Identified :
    (g : Guard) (now : ℕ) (r : Presented) (h : Header)
    → protect g now r ≡ passed h
    → Identified g now r
unfolding protect authorize_request
passed-Identified g now r h e = elim (Option-cases (oauth_page r.path)) [
  | inr (page, p) ↦ absurd (cc (rw (p, protect) at e))
  | inl p ↦
      let passes = answered_passed g r _ h (rw (p, protect) at e) in
      let (c, known, subject, fresh, enough, set) =
        authorize_sound g.open_cookie g.verifier g.join g.mode r.cookie r.authorization now
          r.headers h [] passes in
      (c, known, subject, fresh)
]

module _ {R : Type 0} (url_parse : Str → Option Url) (node : Option (NodeView R)) where
  protected_change :
      (g : Guard) (now : ℕ) (r : Presented) (p : Protected) (a : State R)
      (inner : State R × ControlAnswer)
      → protect g now r ≡ p
      → ((after_protect url_parse node p a inner).0 ≡ a) ⊎ Identified g now r
  protected_change g now r (oauth page) a inner e = inl refl
  protected_change g now r (denied d) a inner e = inl refl
  protected_change g now r (passed h) a inner e = inr (passed-Identified g now r h e)

  -- Where the program asks for authentication, a request to the control plane's listener changes
  -- nothing, neither the configuration nor the cluster, unless it comes from a session or a token with a
  -- subject that has not expired, whatever its path, its method and its body.
  pub serve_control_authenticated :
      (g : Guard) (m : Metrics) (q : ControlRequest) (now later : ℕ) (a : State R)
      → ((serve_control url_parse node (some g) m q now later a).0 ≡ a)
        ⊎ Identified g now q.presented
  unfolding serve_control
  serve_control_authenticated g m q now later a =
      protected_change g now q.presented (protect g now q.presented) a
        (serve_inner url_parse node m q now later a) refl
