-- ===== src/Tests/Connections.antt =====
-- Runs of the connector: a session is reported by one connection and taken up by the next.
use btls.Prelude.{ℕ, pos, negsuc, ◌≡◌, refl, true, false, none, some, List, [], ◌∷◌, ◌==◌}
use btls.Io.{fine}
use btls.Ssl.Connector.{
  Native, Context, SessionPeer, ClientSession, Ssl, ConnectConfiguration, raw_client_session,
  resumes, verifies_peer, chain_not_after, earliest_not_after,
}
use btls.Ssl.Connector.IntoSsl.{into_ssl}
use btls.Ssl.Connector.Agrees.{Agrees}
use btls.Ssl.Connector.Resume.{IsNative, into_ssl-Agrees}
use btls.Ssl.Connector.Chain.{Succeeds, resumed-Succeeds}

-- A connection is its verification mode; no name is an address; every call succeeds.
abbrev simple : Native ℕ ℕ ℕ
simple = record {
  parse_ip = λ d. none;
  set_hostname = λ d n. (fine tt, n);
  set_hostflags = λ n. n;
  set_ip = λ a n. (fine tt, n);
  set_host = λ d n. (fine tt, n);
  set_session = λ x n. (fine tt, n);
  verify_mode = λ n. pos n;
  has_peer_bit = λ m. elim m [ pos k ↦ k == 1 | negsuc k ↦ false ];
  session_id_context = λ n. some (8 ∷ []);
  id_context = λ x. 8 ∷ [];
  has_x509_support = λ n. true;
  peer_full_cert_chain = λ n. some (some (pos 200) ∷ none ∷ some (pos 100) ∷ []);
}

simple-IsNative : IsNative simple
simple-IsNative = record {
  hostname_mode = λ d n. refl;
  flags_mode = λ n. refl;
  ip_mode = λ a n. refl;
  host_mode = λ d n. refl;
  hostname_scope = λ d n. refl;
  flags_scope = λ n. refl;
  ip_scope = λ a n. refl;
  host_scope = λ d n. refl;
}

abbrev reporting : Context
reporting = record { client_session = some 5; caches_client = true; new_session_cb = true }

abbrev fresh : Ssl ℕ ℕ
fresh = record {
  native = 1;
  ssl_context = reporting;
  session_ctx = some reporting;
  session_peer = none;
  resumed = none;
}

abbrev plain : ConnectConfiguration ℕ ℕ
plain = record { ssl = fresh; sni = true; verify_hostname = true; session = none }

-- "aB" and "Ab"
abbrev name_one : List ℕ
name_one = 97 ∷ 66 ∷ []

abbrev name_two : List ℕ
name_two = 65 ∷ 98 ∷ []

abbrev peer_one : SessionPeer
peer_one = record { domain = name_one; sni = true; verify_hostname = true }

abbrev peer_two : SessionPeer
peer_two = record { domain = name_two; sni = true; verify_hostname = true }

abbrev first : Ssl ℕ ℕ
first = record fresh { session_peer = some peer_one }

first_made : into_ssl simple plain name_one (some 50) ≡ fine first
unfolding into_ssl
first_made = refl

abbrev taken : ClientSession ℕ
taken = record {
  session = 42;
  peer = peer_one;
  verify_peer = true;
  not_after = some (pos 100);
  issuer = some 5;
}

taken_reported : raw_client_session simple 42 first ≡ some taken
unfolding raw_client_session verifies_peer chain_not_after earliest_not_after
taken_reported = refl

abbrev resuming : ConnectConfiguration ℕ ℕ
resuming = record plain { session = some taken }

abbrev second : Ssl ℕ ℕ
second = record fresh { session_peer = some peer_two; resumed = some 42 }

second_made : into_ssl simple resuming name_two (some 60) ≡ fine second
unfolding into_ssl resumes
second_made = refl

-- After its chain has expired the session is not offered.
expired_left :
    into_ssl simple resuming name_two (some 100) ≡ fine (record second { resumed = none })
unfolding into_ssl resumes
expired_left = refl

resumed_example :
    ◌≡◌ {A = ℕ} 42 42 × Succeeds simple plain resuming name_one name_two first (some 60)
resumed_example =
    resumed-Succeeds simple simple-IsNative plain resuming name_one name_two (some 50) (some 60)
      first first second 42 42 taken first_made refl refl taken_reported refl refl second_made refl

offered_example :
    (s : ClientSession ℕ) × (some taken ≡ some s)
    × (s.session ≡ 42)
    × Agrees simple resuming name_two (some 60) s
offered_example =
    into_ssl-Agrees simple simple-IsNative resuming name_two (some 60) second 42 refl second_made
      refl
