-- ===== src/Ssl/Connector/Agrees.antt =====
-- What `ClientSession::resumes` of btls/src/ssl/connector.rs asks of a session, read as a statement
-- about the connection that it came from.
use btls.Prelude.{
  ℕ, ℤ, pos, negsuc, ◌≡◌, refl, sym, ap, ap₂, ◌<◌, ◌≤◌, ◌^◌, ◌≢◌, Bool, true, false, ◌&&◌, ◌||◌,
  not, Option, none, some, List, [], ◌∷◌, map, ltb, ◌==◌, arith, ==→eq, leb→gt, ltb→ge, Bool-cases,
  ◌⊎◌, inl, inr,
}
use btls.Ssl.Connector.{
  Native, ClientSession, ConnectConfiguration, verifies_peer, lower, eq_ignore_ascii_case, bytes_eq,
  bool_eq, expired, i64_seconds, chain_expired, same_scope, is_empty, same_issuer,
}
use btls.Ssl.Connector.IntoSsl.{use_sni}

pub eq_ignore-lower :
    (xs ys : List ℕ) → eq_ignore_ascii_case xs ys ≡ true → map lower xs ≡ map lower ys
eq_ignore-lower [] [] h = refl
eq_ignore-lower [] (y ∷ ys) h = cc
eq_ignore-lower (x ∷ xs) [] h = cc
eq_ignore-lower (x ∷ xs) (y ∷ ys) h = elim (Bool-cases (lower x == lower y)) [
  | inl e ↦ ap₂ ◌∷◌ (==→eq (lower x) (lower y) e) (eq_ignore-lower xs ys (rw e at h))
  | inr e ↦ absurd (let f : false ≡ true = rw e at h in cc)
]

bytes_eq→eq : (xs ys : List ℕ) → bytes_eq xs ys ≡ true → xs ≡ ys
bytes_eq→eq [] [] h = refl
bytes_eq→eq [] (y ∷ ys) h = cc
bytes_eq→eq (x ∷ xs) [] h = cc
bytes_eq→eq (x ∷ xs) (y ∷ ys) h = elim (Bool-cases (x == y)) [
  | inl e ↦ ap₂ ◌∷◌ (==→eq x y e) (bytes_eq→eq xs ys (rw e at h))
  | inr e ↦ absurd (let f : false ≡ true = rw e at h in cc)
]

pub same_scope→eq :
    (o : Option (List ℕ)) (scope : List ℕ) → same_scope o scope ≡ true → o ≡ some scope
same_scope→eq none scope h = cc
same_scope→eq (some c) scope h = ap some (bytes_eq→eq c scope h)

pub same_issuer→eq :
    (a b : Option ℕ) → same_issuer a b ≡ true → (i : ℕ) × (a ≡ some i) × (b ≡ some i)
same_issuer→eq none b h = absurd (let f : false ≡ true = h in cc)
same_issuer→eq (some a) none h = absurd (let f : false ≡ true = h in cc)
same_issuer→eq (some a) (some b) h = (b, ap some (==→eq a b h), refl)

pub bool_eq→eq : (a b : Bool) → bool_eq a b ≡ true → a ≡ b
bool_eq→eq true b h = sym h
bool_eq→eq false true h = cc
bool_eq→eq false false h = refl

pub all_true :
    (a b c d e f g : Bool)
    → (a && b && c && d && e && f && g) ≡ true
    → (a ≡ true) × (b ≡ true) × (c ≡ true) × (d ≡ true) × (e ≡ true) × (f ≡ true) × (g ≡ true)
all_true a b c d e f g h = ground arith

pub or_not : (a b : Bool) → (a || not b) ≡ true → (a ≡ true) ⊎ (b ≡ false)
or_not true b h = inl refl
or_not false true h = cc
or_not false false h = inr refl

pub nil-or :
    (scope : List ℕ) (b : Bool) → (not (is_empty scope) || b) ≡ true → (scope ≢ []) ⊎ (b ≡ true)
nil-or [] b h = inr h
nil-or (x ∷ xs) b h = inl (λ e. cc)

-- The chain has not come to its end; a clock past the 64-bit seconds is not read.
abbrev pub Fresh : Option ℤ → Option ℕ → Type 0
Fresh none now = Unit
Fresh (some t) none = Unit
Fresh (some (pos t)) (some now) = (now < t) ⊎ (2 ^ 63 ≤ now)
Fresh (some (negsuc t)) (some now) = 2 ^ 63 ≤ now

expired-Fresh :
    (t : Option ℤ) (clock : Option ℕ) → expired t (i64_seconds clock) ≡ false → Fresh t clock
expired-Fresh none clock h = tt
expired-Fresh (some t) none h = tt
expired-Fresh (some (pos t)) (some now) h = elim (Bool-cases (ltb now (2 ^ 63))) [
  | inl small ↦ inl (leb→gt t now (rw small at h))
  | inr large ↦ inr (ltb→ge now (2 ^ 63) large)
]
expired-Fresh (some (negsuc t)) (some now) h = elim (Bool-cases (ltb now (2 ^ 63))) [
  | inl small ↦ absurd (let f : true ≡ false = rw small at h in cc)
  | inr large ↦ ltb→ge now (2 ^ 63) large
]

pub not_and-Fresh :
    {X : Type 0} (s : ClientSession X) (clock : Option ℕ) (verify : Bool)
    → not (verify && chain_expired s clock) ≡ true
    → Fresh s.not_after clock ⊎ (verify ≡ false)
unfolding chain_expired
not_and-Fresh s clock false h = inr refl
not_and-Fresh s clock true h = elim (Bool-cases (expired s.not_after (i64_seconds clock))) [
  | inl e ↦ absurd (let f : false ≡ true = rw e at h in cc)
  | inr e ↦ inl (expired-Fresh s.not_after clock e)
]

module _ {N X A : Type 0} (v : Native N X A) where
  -- A session may be taken up by a configuration for a host: the connection that it came from had
  -- the same name and was no laxer, and is of the same scope.
  pub record Agrees (c : ConnectConfiguration N X) (domain : List ℕ) (clock : Option ℕ)
      (s : ClientSession X) : Type 0 where
    pub same_name : map lower s.peer.domain ≡ map lower domain
    pub same_sni : s.peer.sni ≡ use_sni v c domain
    pub name_checked : (s.peer.verify_hostname ≡ true) ⊎ (c.verify_hostname ≡ false)
    pub peer_verified : (s.verify_peer ≡ true) ⊎ (verifies_peer v c.ssl.native ≡ false)
    pub unexpired : Fresh s.not_after clock ⊎ (verifies_peer v c.ssl.native ≡ false)
    pub scope : v.session_id_context c.ssl.native ≡ some (v.id_context s.session)
    pub same_issuer_unscoped :
        (v.id_context s.session ≢ [])
        ⊎ ((i : ℕ) × (s.issuer ≡ some i) × (c.ssl.ssl_context.client_session ≡ some i))
