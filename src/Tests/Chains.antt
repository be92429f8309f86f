-- ===== src/Tests/Chains.antt =====
-- A verifier that accepts every chain, on contexts and connections that are the stores they have.
use btls.Prelude.{
  ℕ, pos, ◌≡◌, refl, true, false, Option, none, some, List, [], ◌∷◌, ◌==◌, if◌then◌else◌, eq→==,
  ne→==,
}
use btls.Io.{fine}
use btls.Ssl.Verify.{Verifier, Ssl, new, verify_store, verify_peer_cert_chain}
use btls.Ssl.Verify.Built.{IsVerifier, or_cert_store, Plan, built}
use btls.Ssl.Verify.Stores.{Change, own_store, move_to, change_all, verify_store-builtin}
use btls.Ssl.Verify.Accepted.{IsStoreCtx, Given, Accepts, verify_peer_cert_chain-Accepts}

abbrev moved : ℕ → ℕ → Option ℕ → Option ℕ → Option ℕ
moved a b k n = if a == b then n else k

abbrev yes_verifier : Verifier (Option ℕ) (Option ℕ) (Given ℕ ℕ) ℕ ℕ
yes_verifier = record {
  has_x509_support = λ k. true;
  cert_store = λ k. 1;
  ctx_set1_verify_cert_store = λ s k. (fine tt, some s);
  ssl_new = λ k. fine k;
  set1_verify_cert_store = λ s n. (fine tt, some s);
  set_ssl_ctx = λ a b k n. (fine tt, moved a b k n);
  peer_full_cert_chain = λ n. some (11 ∷ 12 ∷ []);
  is_server = λ n. false;
  ech_name_override = λ n. some (97 ∷ []);
  store_ctx_new = fine (record { store = 0; leaf = 0; chain = []; host = none });
  store_ctx_init =
      λ s leaf chain x. fine (record { store = s; leaf = leaf; chain = chain; host = none });
  store_ctx_set_ssl = λ n x. fine x;
  store_ctx_set_default = λ p x. fine x;
  param_set1 = λ n x. fine (record x { host = some (98 ∷ []) });
  param_set1_host = λ name x. fine (record x { host = some name });
  set_verify_callback = λ n x. x;
  verify_cert = λ x. (pos 1, x);
  verify_result = λ x. none;
}

yes-IsVerifier : IsVerifier yes_verifier
yes-IsVerifier = record {
  ctx_store = λ k. k;
  ssl_store = λ n. n;
  ctx_sets = λ s k h. refl;
  ctx_keeps = λ s k h. absurd (h refl);
  starts = λ k n h. cc;
  ssl_sets = λ s n h. refl;
  ssl_keeps = λ s n h. absurd (h refl);
  moves = λ a b k n h d. rw (ne→== a b d) refl;
  stays = λ a k n. rw (eq→== a a refl) refl;
  remains = λ a b k n h. absurd (h refl);
}

abbrev plan : ℕ → List ℕ → Plan (Option ℕ) (Given ℕ ℕ) ℕ
plan a stores = record { address = a; native = none; cert_verify = none; stores = stores }

abbrev changes : List (Change (Option ℕ) (Given ℕ ℕ) ℕ)
changes = own_store 5 ∷ move_to (plan 20 (6 ∷ [])) ∷ move_to (plan 30 []) ∷ own_store 8 ∷ []

abbrev connection : Ssl (Option ℕ) (Option ℕ) (Given ℕ ℕ) ℕ
connection = record {
  native = none;
  ssl_context = built yes_verifier (plan 10 []);
  verify_store = none;
}

stores_example :
    verify_store yes_verifier (change_all yes_verifier changes connection)
    ≡ or_cert_store (change_all yes_verifier changes connection).native 1
unfolding new built yes-IsVerifier
stores_example =
    verify_store-builtin yes-IsVerifier (plan 10 []) connection changes refl
      (tt, (refl, (refl, (tt, tt)))) refl

yes-IsStoreCtx : IsStoreCtx yes_verifier
yes-IsStoreCtx = record {
  given = λ x. x;
  ssl_host = λ n. some (98 ∷ []);
  inits = λ s leaf chain x y h. cc;
  sets_ssl = λ n x y h. cc;
  sets_default = λ p x y h. cc;
  sets_param = λ n x y h. cc;
  sets_host = λ name x y h. cc;
  sets_callback = λ n x. refl;
}

accepted_example : (true ≡ true) × Accepts yes-IsStoreCtx connection
unfolding verify_peer_cert_chain built
accepted_example = verify_peer_cert_chain-Accepts yes-IsStoreCtx connection refl
