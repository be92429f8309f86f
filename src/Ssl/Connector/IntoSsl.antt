-- ===== src/Ssl/Connector/IntoSsl.antt =====
-- `ConnectConfiguration::into_ssl` and `setup_verify_hostname` of btls/src/ssl/connector.rs.
use btls.Prelude.{ℕ, Bool, ◌&&◌, not, Option, none, some, List, if◌then◌else◌}
use btls.Io.{Fallible, fine, wrong, ◌>>=◌}
use btls.Ssl.Connector.{
  Native, Context, SessionPeer, ClientSession, Ssl, ConnectConfiguration, is_some, resumes,
}

module _ {N X A : Type 0} (v : Native N X A) where
  -- A call of BoringSSL and its `?`; with an error the `Ssl` is dropped.
  unfoldable pub after_call : Ssl N X → Fallible (Unit {0}) × N → Fallible (Ssl N X)
  after_call ssl (fine u, n) = fine (record ssl { native = n })
  after_call ssl (wrong e, n) = wrong e

  unfoldable pub set_name : Bool → List ℕ → Ssl N X → Fallible (Ssl N X)
  unfolding after_call
  set_name sni domain ssl =
      if sni then after_call ssl (v.set_hostname domain ssl.native) else fine ssl

  unfoldable pub set_checked_name : Option A → List ℕ → N → Fallible (Unit {0}) × N
  set_checked_name (some ip) domain n = v.set_ip ip (v.set_hostflags n)
  set_checked_name none domain n = v.set_host domain (v.set_hostflags n)

  -- `setup_verify_hostname`
  unfoldable pub setup_verify_hostname : List ℕ → Ssl N X → Fallible (Ssl N X)
  unfolding after_call set_checked_name
  setup_verify_hostname domain ssl =
      after_call ssl (set_checked_name (v.parse_ip domain) domain ssl.native)

  unfoldable pub check_name : Bool → List ℕ → Ssl N X → Fallible (Ssl N X)
  unfolding setup_verify_hostname
  check_name verify domain ssl = if verify then setup_verify_hostname domain ssl else fine ssl

  abbrev pub reports_sessions : Option Context → Bool
  reports_sessions none = Bool.false
  reports_sessions (some c) = is_some c.client_session

  unfoldable pub record_peer : SessionPeer → Ssl N X → Ssl N X
  record_peer peer ssl =
      if reports_sessions ssl.session_ctx then record ssl { session_peer = some peer } else ssl

  unfoldable pub after_set_session : X → Ssl N X → Fallible (Unit {0}) × N → Fallible (Ssl N X)
  after_set_session x ssl (fine u, n) = fine (record ssl { native = n; resumed = some x })
  after_set_session x ssl (wrong e, n) = wrong e

  unfoldable pub offer :
      Option (ClientSession X) → List ℕ → Bool → Bool → Option ℕ → Ssl N X → Fallible (Ssl N X)
  unfolding after_set_session
  offer none domain sni verify clock ssl = fine ssl
  offer (some s) domain sni verify clock ssl =
      if resumes v s ssl domain sni verify clock
      then after_set_session s.session ssl (v.set_session s.session ssl.native)
      else fine ssl

  -- `let sni = self.sni && domain.parse::<IpAddr>().is_err()`
  abbrev pub use_sni : ConnectConfiguration N X → List ℕ → Bool
  use_sni c domain = c.sni && not (is_some (v.parse_ip domain))

  abbrev pub peer_of : ConnectConfiguration N X → List ℕ → SessionPeer
  peer_of c domain = record {
    domain = domain;
    sni = use_sni c domain;
    verify_hostname = c.verify_hostname;
  }

  -- `into_ssl`
  unfoldable pub into_ssl : ConnectConfiguration N X → List ℕ → Option ℕ → Fallible (Ssl N X)
  unfolding set_name check_name record_peer offer
  into_ssl c domain clock = do
    a ← set_name (use_sni c domain) domain c.ssl
    b ← check_name c.verify_hostname domain a
    offer c.session domain (use_sni c domain) c.verify_hostname clock
        (record_peer (peer_of c domain) b)
