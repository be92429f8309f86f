-- ===== src/Ssl/Connector/Chain.antt =====
-- From the connection that a session came from to the one that takes it up (btls/src/ssl/connector.rs,
-- and `raw_client_session` of callbacks.rs).
use btls.Prelude.{
  ℕ, ◌≡◌, refl, sym, ap, ◌∙◌, Bool, true, false, Option, none, some, List, map, ◌⊎◌, inl, inr,
  Bool-cases,
}
use btls.Io.{Fallible, fine, wrong, ◌>>=◌}
use btls.Ssl.Connector.{
  Native, Context, SessionPeer, ClientSession, Ssl, ConnectConfiguration, is_some, resumes, lower,
  verifies_peer, chain_not_after, new_session, reported, raw_client_session,
}
use btls.Ssl.Connector.IntoSsl.{
  set_name, check_name, record_peer, after_set_session, offer, use_sni, peer_of, into_ssl,
  reports_sessions,
}
use btls.Ssl.Connector.Agrees.{Fresh}
use btls.Ssl.Connector.Resume.{IsNative, Keeps, check_name-Keeps, set_name-Keeps, into_ssl-Agrees}

module _ {N X A : Type 0} (v : Native N X A) where
  after_set-peer :
      (x : X) (b ssl : Ssl N X) (q : Fallible (Unit {0}) × N)
      → after_set_session v x b q ≡ fine ssl
      → ssl.session_peer ≡ b.session_peer
  unfolding after_set_session
  after_set-peer x b ssl (fine u, n) h = cc
  after_set-peer x b ssl (wrong e, n) h = cc

  offer-peer :
      (o : Option (ClientSession X)) (domain : List ℕ) (sni verify : Bool) (clock : Option ℕ)
      → (b ssl : Ssl N X) → offer v o domain sni verify clock b ≡ fine ssl
      → ssl.session_peer ≡ b.session_peer
  unfolding offer
  offer-peer none domain sni verify clock b ssl h = cc
  offer-peer (some s) domain sni verify clock b ssl h =
      elim (Bool-cases (resumes v s b domain sni verify clock)) [
        | inl r ↦ after_set-peer s.session b ssl (v.set_session s.session b.native) (rw r at h)
        | inr r ↦ let k : fine b ≡ fine ssl = rw r at h in cc
      ]

  record_peer-peer :
      (peer : SessionPeer) (b : Ssl N X)
      → reports_sessions v b.session_ctx ≡ true
      → (record_peer v peer b).session_peer ≡ some peer
  unfolding record_peer
  record_peer-peer peer b h = rw h refl

  module _ (l : IsNative v) where
    into_ssl-peer :
        (c : ConnectConfiguration N X) (domain : List ℕ) (clock : Option ℕ) (ssl : Ssl N X)
        → into_ssl v c domain clock ≡ fine ssl
        → reports_sessions v c.ssl.session_ctx ≡ true
        → ssl.session_peer ≡ some (peer_of v c domain)
    unfolding into_ssl
    into_ssl-peer c domain clock ssl h r =
        named (set_name v (use_sni v c domain) domain c.ssl)
          (set_name-Keeps v l c (use_sni v c domain) domain) h
      where
        checked :
            (q : Fallible (Ssl N X))
            → Keeps v l c q
            → (q >>= λ b.
                offer v c.session domain
                  (use_sni v c domain)
                  c.verify_hostname
                  clock
                  (record_peer v (peer_of v c domain) b))
              ≡ fine ssl
            → ssl.session_peer ≡ some (peer_of v c domain)
        checked (fine b) p h =
            offer-peer c.session domain (use_sni v c domain) c.verify_hostname clock
              (record_peer v (peer_of v c domain) b) ssl h
            ∙ record_peer-peer (peer_of v c domain) b (ap (reports_sessions v) p.ctx ∙ r)
        checked (wrong e) p h = cc

        named :
            (q : Fallible (Ssl N X))
            → Keeps v l c q
            → (q >>= λ a. check_name v c.verify_hostname domain a >>= λ b.
                offer v c.session domain
                  (use_sni v c domain)
                  c.verify_hostname
                  clock
                  (record_peer v (peer_of v c domain) b))
              ≡ fine ssl
            → ssl.session_peer ≡ some (peer_of v c domain)
        named (fine a) p h =
            checked (check_name v c.verify_hostname domain a)
              (check_name-Keeps v l c c.verify_hostname domain a p) h
        named (wrong e) p h = cc

  reported-new :
      (x : X) (p : Option SessionPeer) (o : Option Context) (ssl : Ssl N X) (s : ClientSession X)
      → reported v x p o ssl ≡ some s
      → (reports_sessions v o ≡ true)
        × ((peer : SessionPeer) × (p ≡ some peer) × (s ≡ new_session v x peer ssl))
  unfolding reported
  reported-new x none o ssl s h = cc
  reported-new x (some peer) none ssl s h = cc
  reported-new x (some peer) (some c) ssl s h = elim (Bool-cases (is_some c.client_session)) [
    | inl e ↦ (e, (peer, refl, let k : some (new_session v x peer ssl) ≡ some s = rw e at h in cc))
    | inr e ↦ absurd (let k : ◌≡◌ {A = Option (ClientSession X)} none (some s) = rw e at h in cc)
  ]

  -- What the second connection shares with the first, which is `after` when the session is reported.
  pub record Succeeds (c c' : ConnectConfiguration N X) (domain domain' : List ℕ) (after : Ssl N X)
      (clock : Option ℕ) : Type 0 where
    pub same_host : map lower domain ≡ map lower domain'
    pub same_sni : use_sni v c domain ≡ use_sni v c' domain'
    pub name_checked : (c.verify_hostname ≡ true) ⊎ (c'.verify_hostname ≡ false)
    pub peer_verified :
        (verifies_peer v after.native ≡ true) ⊎ (verifies_peer v c'.ssl.native ≡ false)
    pub unexpired :
        Fresh (chain_not_after v after.native) clock ⊎ (verifies_peer v c'.ssl.native ≡ false)

  module _ (l : IsNative v) where
    -- For a BoringSSL whose calls that name the host leave the verification mode and the session
    -- context: a session that a connection made by into_ssl reports, with the ex data that into_ssl
    -- left it, and that is set on a configuration without a session, is offered by the connection of
    -- the second into_ssl only if both are to the same name, letter case aside, with the same use of
    -- SNI; if the first checked the name or the second does not; and if the first verified its peer
    -- and its chain has not expired, or the second does not verify. What is offered is that session.
    pub resumed-Succeeds :
        (c c' : ConnectConfiguration N X) (domain domain' : List ℕ) (clock clock' : Option ℕ)
        → (first after second : Ssl N X) (x y : X) (s : ClientSession X)
        → into_ssl v c domain clock ≡ fine first
        → after.session_peer ≡ first.session_peer
        → after.session_ctx ≡ c.ssl.session_ctx
        → raw_client_session v x after ≡ some s
        → c'.session ≡ some s
        → c'.ssl.resumed ≡ none
        → into_ssl v c' domain' clock' ≡ fine second
        → second.resumed ≡ some y
        → (y ≡ x) × Succeeds c c' domain domain' after clock'
    unfolding raw_client_session new_session
    resumed-Succeeds c c' domain domain' clock clock' first after second x y s h p o k t f h' r =
        let new = reported-new x after.session_peer after.session_ctx after s k in
        let made =
          into_ssl-peer l c domain clock first h (ap (reports_sessions v) (sym o) ∙ new.0) in
        let peer : new.1.0 ≡ peer_of v c domain =
          let e : some new.1.0 ≡ some (peer_of v c domain) = sym new.1.1 ∙ p ∙ made in cc in
        let whole : s ≡ new_session v x (peer_of v c domain) after =
          new.1.2 ∙ ap (λ q. new_session v x q after) peer in
        let taken = into_ssl-Agrees v l c' domain' clock' second y f h' r in
        let same : taken.0 ≡ new_session v x (peer_of v c domain) after =
          let e : some taken.0 ≡ some s = sym taken.1 ∙ t in
          let e' : taken.0 ≡ s = cc in e' ∙ whole in
        let agrees = rw same at taken.3 in
        (
          sym taken.2 ∙ ap (λ (q : ClientSession X). q.session) same,
          record {
            same_host = agrees.same_name;
            same_sni = agrees.same_sni;
            name_checked = agrees.name_checked;
            peer_verified = agrees.peer_verified;
            unexpired = agrees.unexpired;
          },
        )
