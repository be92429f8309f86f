-- ===== src/Tests/Hashes.antt =====
-- Runs of `Hasher` on a digest that is the list of the bytes itself.
use btls.Prelude.{ℕ, refl, true, List, [], ◌∷◌, ◌++◌, flatten, take}
use btls.Hash.{Evp, Hasher, updated, hash_chunks}
use btls.Hash.Chunks.{IsEvp, Excused, Digests, hash_chunks-Digests}

abbrev echo : Evp (List ℕ)
echo = record {
  digest_init = λ c. (true, []);
  digest_update = λ c b. (true, c ++ b);
  digest_final = λ c. (true, c, []);
  digest_final_xof = λ c n. (true, take n c, []);
  err_get = λ c. ([], c);
  absorbed = λ c. c;
}

echo-IsEvp : IsEvp echo (λ b. b)
echo-IsEvp = record { inits = λ c e. refl; updates = λ c b e. refl; finals = λ c e. refl }

echo-Excused : Excused echo ⊥
echo-Excused = record {
  init_failed = λ c e. cc;
  update_failed = λ c b e. cc;
  final_failed = λ c e. cc;
}

abbrev half : Hasher (List ℕ)
half = record { ctx = 1 ∷ 2 ∷ []; state = updated }

chunks_example :
    Digests echo-IsEvp echo-Excused
      (flatten ((1 ∷ []) ∷ (2 ∷ 3 ∷ []) ∷ []))
      (hash_chunks echo (9 ∷ []) ((1 ∷ []) ∷ (2 ∷ 3 ∷ []) ∷ []))
chunks_example = hash_chunks-Digests echo-IsEvp echo-Excused (9 ∷ []) ((1 ∷ []) ∷ (2 ∷ 3 ∷ []) ∷ [])
