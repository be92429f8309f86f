-- ===== src/Ssl/Connector/Resume.antt =====
-- Which sessions a connector takes up again (btls/src/ssl/connector.rs).
use btls.Prelude.{
  ℕ, ◌≡◌, refl, sym, ap, ◌∙◌, Bool, true, false, ◌&&◌, ◌||◌, not, Option, none, some, List,
  Bool-cases, if_both, inl, inr,
}
use btls.Io.{Fallible, fine, wrong, ◌>>=◌}
use btls.Ssl.Connector.{
  Native, Context, SessionPeer, ClientSession, Ssl, ConnectConfiguration, resumes, verifies_peer,
  eq_ignore_ascii_case, bool_eq, chain_expired, same_scope, is_empty, same_issuer,
}
use btls.Ssl.Connector.IntoSsl.{
  after_call, set_name, set_checked_name, setup_verify_hostname, check_name, record_peer,
  after_set_session, offer, use_sni, peer_of, into_ssl, reports_sessions,
}
use btls.Ssl.Connector.Agrees.{
  eq_ignore-lower, bool_eq→eq, or_not, not_and-Fresh, same_scope→eq, same_issuer→eq, nil-or,
  all_true, Agrees,
}

-- The calls that name the host leave the verification mode and the session context as they are.
pub record IsNative {N X A : Type 0} (v : Native N X A) : Type 0 where
  pub hostname_mode : (d : List ℕ) (n : N) → v.verify_mode (v.set_hostname d n).1 ≡ v.verify_mode n
  pub flags_mode : (n : N) → v.verify_mode (v.set_hostflags n) ≡ v.verify_mode n
  pub ip_mode : (a : A) (n : N) → v.verify_mode (v.set_ip a n).1 ≡ v.verify_mode n
  pub host_mode : (d : List ℕ) (n : N) → v.verify_mode (v.set_host d n).1 ≡ v.verify_mode n
  pub hostname_scope :
      (d : List ℕ) (n : N) → v.session_id_context (v.set_hostname d n).1 ≡ v.session_id_context n
  pub flags_scope : (n : N) → v.session_id_context (v.set_hostflags n) ≡ v.session_id_context n
  pub ip_scope : (a : A) (n : N) → v.session_id_context (v.set_ip a n).1 ≡ v.session_id_context n
  pub host_scope :
      (d : List ℕ) (n : N) → v.session_id_context (v.set_host d n).1 ≡ v.session_id_context n

module _ {N X A : Type 0} (v : Native N X A) where
  -- What a call of `into_ssl` has not changed when it comes to the session.
  pub record Prepared (c : ConnectConfiguration N X) (b : Ssl N X) : Type 0 where
    pub mode : v.verify_mode b.native ≡ v.verify_mode c.ssl.native
    pub kept_scope : v.session_id_context b.native ≡ v.session_id_context c.ssl.native
    pub context : b.ssl_context ≡ c.ssl.ssl_context
    pub fresh : b.resumed ≡ c.ssl.resumed
    pub ctx : b.session_ctx ≡ c.ssl.session_ctx

  verifies-Prepared :
      (c : ConnectConfiguration N X) (b : Ssl N X)
      → Prepared c b
      → verifies_peer v b.native ≡ verifies_peer v c.ssl.native
  unfolding verifies_peer
  verifies-Prepared c b p = rw (p.mode) refl

  resumes-Agrees :
      (c : ConnectConfiguration N X) (domain : List ℕ) (clock : Option ℕ) (s : ClientSession X)
      → (b : Ssl N X) → Prepared c b
      → resumes v s b domain (use_sni v c domain) c.verify_hostname clock ≡ true
      → Agrees v c domain clock s
  unfolding resumes
  resumes-Agrees c domain clock s b p h =
      let verify = verifies_peer v b.native in
      let e : verify ≡ verifies_peer v c.ssl.native = verifies-Prepared c b p in
      let t =
        all_true (same_scope (v.session_id_context b.native) (v.id_context s.session))
          (not (is_empty (v.id_context s.session))
            || same_issuer s.issuer b.ssl_context.client_session)
          (eq_ignore_ascii_case s.peer.domain domain) (bool_eq s.peer.sni (use_sni v c domain))
          (s.peer.verify_hostname || not c.verify_hostname) (s.verify_peer || not verify)
          (not (verify && chain_expired s clock)) h in
      record {
        same_name = eq_ignore-lower s.peer.domain domain t.2;
        same_sni = bool_eq→eq s.peer.sni (use_sni v c domain) t.3;
        name_checked = or_not s.peer.verify_hostname c.verify_hostname t.4;
        peer_verified = rw e at (or_not s.verify_peer verify t.5);
        unexpired = rw e at (not_and-Fresh s clock verify t.6);
        scope = sym p.kept_scope ∙ same_scope→eq _ _ t.0;
        same_issuer_unscoped = elim (nil-or _ _ t.1) [
          | inl k ↦ inl k
          | inr k ↦
              let r = same_issuer→eq s.issuer b.ssl_context.client_session k in
              inr (r.0, r.1, ap (λ (x : Context). x.client_session) (sym p.context) ∙ r.2)
        ];
      }

  module _ (l : IsNative v) where
    abbrev pub Keeps : ConnectConfiguration N X → Fallible (Ssl N X) → Type 0
    Keeps c (fine b) = Prepared c b
    Keeps c (wrong e) = Unit {0}

    after_call-Keeps :
        (c : ConnectConfiguration N X) (b : Ssl N X) (r : Fallible (Unit {0}) × N)
        → Prepared c b
        → v.verify_mode r.1 ≡ v.verify_mode b.native
        → v.session_id_context r.1 ≡ v.session_id_context b.native
        → Keeps c (after_call v b r)
    unfolding after_call
    after_call-Keeps c b (fine u, n) p m q = record {
      mode = m ∙ p.mode;
      kept_scope = q ∙ p.kept_scope;
      context = p.context;
      fresh = p.fresh;
      ctx = p.ctx;
    }
    after_call-Keeps c b (wrong e, n) p m q = tt

    set_checked_name-keeps :
        (o : Option A) (domain : List ℕ) (n : N)
        → (v.verify_mode (set_checked_name v o domain n).1 ≡ v.verify_mode n)
          × (v.session_id_context (set_checked_name v o domain n).1 ≡ v.session_id_context n)
    unfolding set_checked_name
    set_checked_name-keeps (some ip) domain n = (
      l.ip_mode ip (v.set_hostflags n) ∙ l.flags_mode n,
      l.ip_scope ip (v.set_hostflags n) ∙ l.flags_scope n,
    )
    set_checked_name-keeps none domain n = (
      l.host_mode domain (v.set_hostflags n) ∙ l.flags_mode n,
      l.host_scope domain (v.set_hostflags n) ∙ l.flags_scope n,
    )

    pub check_name-Keeps :
        (c : ConnectConfiguration N X) (verify : Bool) (domain : List ℕ) (b : Ssl N X)
        → Prepared c b
        → Keeps c (check_name v verify domain b)
    unfolding check_name setup_verify_hostname
    check_name-Keeps c true domain b p =
        let k = set_checked_name-keeps (v.parse_ip domain) domain b.native in
        after_call-Keeps c b (set_checked_name v (v.parse_ip domain) domain b.native) p k.0 k.1
    check_name-Keeps c false domain b p = p

    pub set_name-Keeps :
        (c : ConnectConfiguration N X) (sni : Bool) (domain : List ℕ)
        → Keeps c (set_name v sni domain c.ssl)
    unfolding set_name
    set_name-Keeps c true domain =
        after_call-Keeps c c.ssl (v.set_hostname domain c.ssl.native)
          (record { mode = refl; kept_scope = refl; context = refl; fresh = refl; ctx = refl })
          (l.hostname_mode domain c.ssl.native) (l.hostname_scope domain c.ssl.native)
    set_name-Keeps c false domain = record {
      mode = refl;
      kept_scope = refl;
      context = refl;
      fresh = refl;
      ctx = refl;
    }

    record_peer-Prepared :
        (c : ConnectConfiguration N X) (peer : SessionPeer) (b : Ssl N X)
        → Prepared c b
        → Prepared c (record_peer v peer b)
    unfolding record_peer
    record_peer-Prepared c peer b p =
        if_both (Prepared c) (reports_sessions v b.session_ctx)
          (record {
            mode = p.mode;
            kept_scope = p.kept_scope;
            context = p.context;
            fresh = p.fresh;
            ctx = p.ctx;
          })
          p

    offer-Agrees :
        (c : ConnectConfiguration N X) (domain : List ℕ) (clock : Option ℕ) (x : X)
        → (o : Option (ClientSession X)) (b ssl : Ssl N X) → Prepared c b
        → b.resumed ≡ none
        → offer v o domain (use_sni v c domain) c.verify_hostname clock b ≡ fine ssl
        → ssl.resumed ≡ some x
        → (s : ClientSession X) × (o ≡ some s) × (s.session ≡ x) × Agrees v c domain clock s
    unfolding offer
    offer-Agrees c domain clock x none b ssl p f h r = cc
    offer-Agrees c domain clock x (some s) b ssl p f h r =
        elim (Bool-cases (resumes v s b domain (use_sni v c domain) c.verify_hostname clock)) [
          | inl yes_ ↦ (
            s,
            refl,
            after_set-resumed s.session b (v.set_session s.session b.native) (rw yes_ at h),
            resumes-Agrees c domain clock s b p yes_,
          )
          | inr no_ ↦ absurd (let k : fine b ≡ fine ssl = rw no_ at h in cc)
        ]
      where
        after_set-resumed :
            (y : X) (b : Ssl N X) (q : Fallible (Unit {0}) × N)
            → after_set_session v y b q ≡ fine ssl
            → y ≡ x
        after_set-resumed y b (fine u, n) h = cc
        after_set-resumed y b (wrong e, n) h = cc

    -- For a BoringSSL whose calls that name the host leave the verification mode and the session
    -- context, and a connection that has no session yet: if into_ssl returns a connection that offers a
    -- session, it is that of the client session that was set; it came from a connection to the same
    -- name, letter case aside, with the same use of SNI, of the same scope, or of the same issuer
    -- where the scope is empty; it was as strict on the name and on the peer's certificates as this
    -- one is, and where this one verifies its peer the chain has not expired.
    pub into_ssl-Agrees :
        (c : ConnectConfiguration N X) (domain : List ℕ) (clock : Option ℕ) (ssl : Ssl N X) (x : X)
        → c.ssl.resumed ≡ none
        → into_ssl v c domain clock ≡ fine ssl
        → ssl.resumed ≡ some x
        → (s : ClientSession X) × (c.session ≡ some s) × (s.session ≡ x) × Agrees v c domain clock s
    unfolding into_ssl
    into_ssl-Agrees c domain clock ssl x f h r =
        named (set_name v (use_sni v c domain) domain c.ssl)
          (set_name-Keeps c (use_sni v c domain) domain) h
      where
        checked :
            (q : Fallible (Ssl N X))
            → Keeps c q
            → (q >>= λ b.
                offer v c.session domain
                  (use_sni v c domain)
                  c.verify_hostname
                  clock
                  (record_peer v (peer_of v c domain) b))
              ≡ fine ssl
            → (s : ClientSession X) × (c.session ≡ some s)
              × (s.session ≡ x)
              × Agrees v c domain clock s
        checked (fine b) p h =
            offer-Agrees c domain clock x c.session (record_peer v (peer_of v c domain) b) ssl
              (record_peer-Prepared c (peer_of v c domain) b p)
              ((record_peer-Prepared c (peer_of v c domain) b p).fresh ∙ f) h r
        checked (wrong e) p h = cc

        named :
            (q : Fallible (Ssl N X))
            → Keeps c q
            → (q >>= λ a. check_name v c.verify_hostname domain a >>= λ b.
                offer v c.session domain
                  (use_sni v c domain)
                  c.verify_hostname
                  clock
                  (record_peer v (peer_of v c domain) b))
              ≡ fine ssl
            → (s : ClientSession X) × (c.session ≡ some s)
              × (s.session ≡ x)
              × Agrees v c domain clock s
        named (fine a) p h =
            checked (check_name v c.verify_hostname domain a)
              (check_name-Keeps c c.verify_hostname domain a p) h
        named (wrong e) p h = cc
