-- ===== src/Ssl/Connector.antt =====
-- btls/src/ssl/connector.rs: `ConnectConfiguration`, and the sessions that a connector takes up again.
-- The names of hosts are their bytes.
pub mod IntoSsl
pub mod Agrees
pub mod Resume
pub mod Chain
use btls.Prelude.{
  ℕ, ℤ, pos, negsuc, ◌+◌, ◌%◌, ◌^◌, Bool, true, false, ◌&&◌, ◌||◌, not, Option, none, some, List,
  [], ◌∷◌, ltb, leb, ◌==◌, if◌then◌else◌,
}
use btls.Io.{Fallible, fine, wrong}

-- `str::eq_ignore_ascii_case`
abbrev pub lower : ℕ → ℕ
lower c = if leb 65 c && leb c 90 then c + 32 else c

abbrev pub eq_ignore_ascii_case : List ℕ → List ℕ → Bool
eq_ignore_ascii_case [] [] = true
eq_ignore_ascii_case (c ∷ cs) (d ∷ ds) = lower c == lower d && eq_ignore_ascii_case cs ds
eq_ignore_ascii_case _ _ = false

abbrev pub bytes_eq : List ℕ → List ℕ → Bool
bytes_eq [] [] = true
bytes_eq (c ∷ cs) (d ∷ ds) = c == d && bytes_eq cs ds
bytes_eq _ _ = false

abbrev pub bool_eq : Bool → Bool → Bool
bool_eq true b = b
bool_eq false b = not b

-- `Option::is_some`
abbrev pub is_some : {A : Type 0} → Option A → Bool
is_some none = false
is_some (some a) = true

-- The functions of BoringSSL on a connection `N` of its own, with sessions `X` and addresses `A`.
pub record Native (N X A : Type 0) : Type 0 where
  pub parse_ip : List ℕ → Option A
  pub set_hostname : List ℕ → N → Fallible (Unit {0}) × N
  pub set_hostflags : N → N
  pub set_ip : A → N → Fallible (Unit {0}) × N
  pub set_host : List ℕ → N → Fallible (Unit {0}) × N
  pub set_session : X → N → Fallible (Unit {0}) × N
  -- `SSL_get_verify_mode`, and whether its `PEER` bit is set
  pub verify_mode : N → ℤ
  pub has_peer_bit : ℤ → Bool
  pub session_id_context : N → Option (List ℕ)
  pub id_context : X → List ℕ
  -- `SSL_get_peer_full_cert_chain`: for each certificate what `ASN1_TIME_to_posix` gives.
  pub has_x509_support : N → Bool
  pub peer_full_cert_chain : N → Option (List (Option ℤ))

-- `SslContext`: the ex data at `CLIENT_SESSION_INDEX`, of which only the issuer is read.
pub record Context : Type 0 where
  pub client_session : Option ℕ
  pub caches_client : Bool
  pub new_session_cb : Bool

-- `SessionPeer`
pub record SessionPeer : Type 0 where
  pub domain : List ℕ
  pub sni : Bool
  pub verify_hostname : Bool

-- `ClientSession`
pub record ClientSession (X : Type 0) : Type 0 where
  pub session : X
  pub peer : SessionPeer
  pub verify_peer : Bool
  pub not_after : Option ℤ
  pub issuer : Option ℕ

-- `Ssl`: BoringSSL's part, the context, the ex data at `SESSION_CTX_INDEX` and `SESSION_PEER_INDEX`, and
-- a ghost: the session that `SSL_set_session` accepted last.
pub record Ssl (N X : Type 0) : Type 0 where
  pub native : N
  pub ssl_context : Context
  pub session_ctx : Option Context
  pub session_peer : Option SessionPeer
  pub resumed : Option X

-- `ConnectConfiguration`
pub record ConnectConfiguration (N X : Type 0) : Type 0 where
  pub ssl : Ssl N X
  pub sni : Bool
  pub verify_hostname : Bool
  pub session : Option (ClientSession X)

-- `SslConnector::configure` on what `Ssl::new` gives
unfoldable pub configure : {N X : Type 0} → Fallible (Ssl N X) → Fallible (ConnectConfiguration N X)
configure (wrong e) = wrong e
configure (fine ssl) =
    fine (record { ssl = ssl; sni = true; verify_hostname = true; session = none })

module _ {N X : Type 0} where
  unfoldable pub set_use_server_name_indication :
      Bool → ConnectConfiguration N X → ConnectConfiguration N X
  set_use_server_name_indication use_sni c = record c { sni = use_sni }

  unfoldable pub set_verify_hostname : Bool → ConnectConfiguration N X → ConnectConfiguration N X
  set_verify_hostname verify c = record c { verify_hostname = verify }

  unfoldable pub set_client_session :
      ClientSession X → ConnectConfiguration N X → ConnectConfiguration N X
  set_client_session session c = record c { session = some session }

-- `SslConnectorBuilder::set_client_session_callback`, with the counter `NEXT_ISSUER`
unfoldable pub set_client_session_callback : ℕ → Context → ℕ × Context
set_client_session_callback next_issuer c = (
  (next_issuer + 1) % 2 ^ 64,
  record { client_session = some next_issuer; caches_client = true; new_session_cb = true },
)

-- `Iterator::min` of the times that could be read, in `earliest_not_after`
abbrev pub earlier : ℤ → ℤ → Bool
earlier (pos a) (pos b) = ltb a b
earlier (pos a) (negsuc b) = false
earlier (negsuc a) (pos b) = true
earlier (negsuc a) (negsuc b) = ltb b a

abbrev pub least : ℤ → Option ℤ → ℤ
least t none = t
least t (some u) = if earlier u t then u else t

unfoldable pub earliest_not_after : List (Option ℤ) → Option ℤ
earliest_not_after [] = none
earliest_not_after (none ∷ ts) = earliest_not_after ts
earliest_not_after (some t ∷ ts) = some (least t (earliest_not_after ts))

-- The clock: the whole seconds since the epoch, unless it stands before the epoch.
abbrev pub i64_seconds : Option ℕ → Option ℕ
i64_seconds none = none
i64_seconds (some s) = if ltb s (2 ^ 63) then some s else none

abbrev pub reached : ℤ → ℕ → Bool
reached (pos t) now = leb t now
reached (negsuc t) now = true

abbrev pub expired : Option ℤ → Option ℕ → Bool
expired none now = false
expired (some t) none = false
expired (some t) (some now) = reached t now

-- `ClientSession::chain_expired`
unfoldable pub chain_expired : {X : Type 0} → ClientSession X → Option ℕ → Bool
chain_expired s clock = expired s.not_after (i64_seconds clock)

abbrev pub same_scope : Option (List ℕ) → List ℕ → Bool
same_scope none scope = false
same_scope (some c) scope = bytes_eq c scope

abbrev pub is_empty : List ℕ → Bool
is_empty [] = true
is_empty (c ∷ cs) = false

-- `self.issuer.is_some() && self.issuer == issuer(..)`
abbrev pub same_issuer : Option ℕ → Option ℕ → Bool
same_issuer none b = false
same_issuer (some a) none = false
same_issuer (some a) (some b) = a == b

module _ {N X A : Type 0} (v : Native N X A) where
  abbrev pub nonnegative : ℤ → Bool
  nonnegative (pos n) = true
  nonnegative (negsuc n) = false

  -- `verifies_peer`
  unfoldable pub verifies_peer : N → Bool
  verifies_peer n = nonnegative (v.verify_mode n) && v.has_peer_bit (v.verify_mode n)

  chain_dates : Option (List (Option ℤ)) → Option ℤ
  chain_dates none = none
  chain_dates (some ts) = earliest_not_after ts

  -- `chain_not_after`
  unfoldable pub chain_not_after : N → Option ℤ
  unfolding chain_dates
  chain_not_after n = if v.has_x509_support n then chain_dates (v.peer_full_cert_chain n) else none

  -- `ClientSession::new`
  unfoldable pub new_session : X → SessionPeer → Ssl N X → ClientSession X
  new_session x peer ssl = record {
    session = x;
    peer = peer;
    verify_peer = verifies_peer ssl.native;
    not_after = chain_not_after ssl.native;
    issuer = ssl.ssl_context.client_session;
  }

  reported : X → Option SessionPeer → Option Context → Ssl N X → Option (ClientSession X)
  unfolding new_session
  reported x none c ssl = none
  reported x (some peer) none ssl = none
  reported x (some peer) (some c) ssl =
      if is_some c.client_session then some (new_session x peer ssl) else none

  -- `raw_client_session` of callbacks.rs: the session that the callback is given, if any.
  unfoldable pub raw_client_session : X → Ssl N X → Option (ClientSession X)
  unfolding reported
  raw_client_session x ssl = reported x ssl.session_peer ssl.session_ctx ssl

  -- `ClientSession::resumes`
  unfoldable pub resumes : ClientSession X → Ssl N X → List ℕ → Bool → Bool → Option ℕ → Bool
  unfolding verifies_peer chain_expired
  resumes s ssl domain sni verify_hostname clock =
      let scope = v.id_context s.session in
      let verify_peer = verifies_peer ssl.native in
      same_scope (v.session_id_context ssl.native) scope
      && (not (is_empty scope) || same_issuer s.issuer ssl.ssl_context.client_session)
      && eq_ignore_ascii_case s.peer.domain domain
      && bool_eq s.peer.sni sni
      && (s.peer.verify_hostname || not verify_hostname)
      && (s.verify_peer || not verify_peer)
      && not (verify_peer && chain_expired s clock)
