-- ===== src/Session/Signing.antt =====
-- web/components/auth-provider.tsx and web/app/admin/admin-shell.tsx: what the gate shows after a sign-in.
use vidsilo.Base.{
  ◌≡◌, refl, Bool, true, false, Option, none, some, List, [], ◌∷◌, arith, if◌then◌else◌, is_some,
  all, String, ◌==◌,
}
use vidsilo.Session.{
  Session, SessionEvent, me_answered, login_answered, logout_answered, on_me, on_login,
  handle_session, run_session, page, loader, login_for, admin_gate,
}

module _ {U : Type 0} where
  abbrev pub is_no_logout : SessionEvent U → Bool
  is_no_logout logout_answered = false
  is_no_logout _ = true

  -- A user, and no question about one.
  abbrev IsSigned : Session U → Type 0
  IsSigned s = (is_some s.user ≡ true) × (s.is_asking ≡ false) × (s.loading ≡ false)

  handle_session-IsSigned :
      (e : SessionEvent U) (s : Session U)
      → is_no_logout e ≡ true
      → IsSigned s
      → IsSigned (handle_session e s)
  unfolding handle_session on_me on_login
  handle_session-IsSigned (me_answered u) s k (h, a, l) = one s.is_asking a
    where
      one : (b : Bool) → b ≡ false → IsSigned (if b then on_me u s else s)
      one true e = cc
      one false e = (h, a, l)
  handle_session-IsSigned (login_answered none) s k h = h
  handle_session-IsSigned (login_answered (some u)) s k (h, a, l) = (refl, a, l)
  handle_session-IsSigned logout_answered s k h = cc

  run_session-IsSigned :
      (es : List (SessionEvent U)) (s : Session U)
      → all is_no_logout es ≡ true
      → IsSigned s
      → IsSigned (run_session es s)
  unfolding run_session
  run_session-IsSigned [] s k h = h
  run_session-IsSigned (e ∷ es) s k h =
      run_session-IsSigned es (handle_session e s) (ground (arith, k))
        (handle_session-IsSigned e s (ground (arith, k)) h)

  gate_open : (path : String) (s : Session U) → IsSigned s → admin_gate path s ≡ page
  unfolding admin_gate
  gate_open path s (h, a, l) = one (path == "/admin/login") s.loading (is_some s.user) l h
    where
      one :
          (a l u : Bool)
          → l ≡ false
          → u ≡ true
          → (if a then page else if l then loader else if u then page else login_for path) ≡ page
      one true l u h k = refl
      one false true u h k = cc
      one false false true h k = refl
      one false false false h k = cc

  -- After a sign-in that ends when the provider knows whether there is a session, the gate shows the pages
  -- until a logout, whatever else is answered. A sign-in that ends before the provider knows is undone
  -- where the answer then is that there is no session: the gate goes to the login again.
  pub admin_gate-run_session :
      (path : String) (u : U) (m : Option U) (es : List (SessionEvent U)) (s : Session U)
      → all is_no_logout es ≡ true
      → (path == "/admin/login") ≡ false
      → (admin_gate path (run_session (login_answered (some u) ∷ es) (on_me m s)) ≡ page)
        × (admin_gate path (
              run_session
                (login_answered (some u) ∷ me_answered none ∷ [])
                (record s { is_asking = true }))
            ≡ login_for path)
  unfolding run_session handle_session on_me on_login admin_gate
  admin_gate-run_session path u m es s k p = (
    gate_open path (run_session es (record (on_me m s) { user = some u }))
        (run_session-IsSigned es (record (on_me m s) { user = some u }) k (refl, refl, refl)),
    rw p refl,
  )
