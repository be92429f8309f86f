-- ===== src/Tests/Aeads.antt =====
-- Runs of AEAD contexts that leave a message as it is, with the tag 7.
use btls.Prelude.{
  ℕ, ◌+◌, ◌≤◌, ◌≡◌, refl, Bool, List, [], ◌∷◌, ◌++◌, take, drop, length, leb, leb→le, Bool-cases,
  inl, inr, if◌then◌else◌,
}
use btls.Io.{Fallible, fine, wrong}
use btls.Ssl.Connector.{bytes_eq}
use btls.Aead.{Algorithm, EvpAead, Sealed}
use btls.Aead.Contract.{IsAead}
use btls.Aead.Sharing.{Use, sealing, opening}

abbrev when : Bool → Fallible (Unit {0})
when b = if b then fine tt else wrong []

abbrev seal_clear : Algorithm → List ℕ → List ℕ → ℕ → Sealed Algorithm
seal_clear c message extra room =
    let written = drop (length message) (message ++ extra) ++ (7 ∷ []) in
    record {
      status = when (leb (length written) room);
      in_out = take (length message) (message ++ extra);
      written = written;
      ctx = c;
    }

abbrev clear_aead : EvpAead Algorithm
clear_aead = record {
  key_length = λ a. 2;
  default_tag_length = 0;
  ctx_new = λ a key n. fine a;
  tag_length = λ c n m. fine (m + 1);
  seal_scatter = λ c nonce message extra ad room. seal_clear c message extra room;
  open_gather = λ c nonce message t ad. record {
    status = when (bytes_eq t (7 ∷ []));
    in_out = message;
    ctx = c;
  };
}

when-leb : (a b : ℕ) → when (leb a b) ≡ fine tt → a ≤ b
when-leb a b h = elim (Bool-cases (leb a b)) [
  | inl e ↦ leb→le a b e
  | inr e ↦ absurd (let k : wrong [] ≡ fine tt = rw e at h in cc)
]

clear-IsAead : IsAead clear_aead
clear-IsAead = record {
  algorithm_of = λ c. c;
  ciphertext = λ c nonce ad message. message;
  tag = λ c nonce ad message. 7 ∷ [];
  ciphertext_len = λ c nonce ad message. refl;
  creates = λ a key n. refl;
  seal_pure = λ c nonce message extra ad room g. refl;
  open_pure = λ c nonce message t ad g. refl;
  seals = λ c nonce message extra ad room h.
      (refl, refl, when-leb (length (drop (length message) (message ++ extra) ++ (7 ∷ []))) room h);
  opens = λ c nonce ad message g. (refl, refl);
}

abbrev two_uses : List Use
two_uses = sealing (1 ∷ []) (5 ∷ []) (0 ∷ []) [] ∷ opening (1 ∷ []) (5 ∷ []) (9 ∷ []) [] ∷ []
