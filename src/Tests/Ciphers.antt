-- ===== src/Tests/Ciphers.antt =====
-- Runs of `Crypter` on a cipher that gives the message back, and of a stack that is a list.
use btls.Prelude.{
  ℕ, zero, suc, ◌<◌, ◌≡◌, refl, ap, ◌∙◌, Option, none, some, List, [], ◌∷◌, ◌++◌, length, get_or,
  append-nil, arith,
}
use btls.Io.{fine}
use btls.Symm.{Mode, encrypt_mode, Evp, ◌>>=◌}
use btls.Symm.Message.{cipher, encrypt, decrypt}
use btls.Symm.Message.Contract.{IsEvp, Returns}
use btls.Symm.Message.Whole.{cipher-Returns, decrypt-encrypt}
use btls.Stack.{Sk, iter, drop_iter, drop_stack}
use btls.Stack.Owned.{IsSk, Side, front, back, take_sides, drop_iter-Owned}
use btls.Stack.Dropped.{drop_stack-reverse}
use mathlib.Core.List.{reverse}

-- The cipher and mode of a context, and the bytes that went through it.
abbrev Through : Type 0
Through = (ℕ × Mode) × List ℕ

abbrev echo_evp : Evp ℕ Through
echo_evp = record {
  key_length = λ t. 2;
  iv_length = λ t. 0;
  block_length = λ t. 1;
  ctx_new = fine ((0, encrypt_mode), []);
  cipher_init = λ t m c. fine ((t, m), []);
  set_key_length = λ n c. fine c;
  set_iv_length = λ n c. fine c;
  key_init = λ key iv m c. fine (c.0, []);
  aad_update = λ aad c. fine c;
  data_len_update = λ n c. fine c;
  cipher_update = λ input c. fine (input, (c.0, c.1 ++ input));
  cipher_final = λ c. fine ([], c);
  set_padding = λ b c. c;
  set_tag = λ t n c. fine c;
  get_tag = λ n c. fine [];
}

echo-IsEvp : IsEvp echo_evp (λ t m key iv d. d) ⊥
echo-IsEvp = record {
  cipher_of = λ c. c.0;
  keyed_for = λ c d. d;
  taken = λ c. c.1;
  given = λ c. c.1;
  creates = tt;
  inits = λ t m c. refl;
  sets_key = λ n c. refl;
  sets_iv = λ n c. refl;
  keys = λ t m key iv c e. (refl, refl, refl, e);
  updates = λ input c. (refl, refl, refl, omega arith, refl);
  finals = λ c. (append-nil c.1, omega arith);
}

cipher_example :
    Returns ⊥
      (λ out. out ≡ 5 ∷ 6 ∷ 7 ∷ [])
      (cipher echo_evp 3 encrypt_mode (1 ∷ 2 ∷ []) none (5 ∷ 6 ∷ 7 ∷ []))
cipher_example =
    cipher-Returns echo-IsEvp 3 encrypt_mode (1 ∷ 2 ∷ []) none (5 ∷ 6 ∷ 7 ∷ []) (omega arith) refl
      (omega arith)

decrypt_example :
    Returns ⊥
      (λ out. out ≡ 5 ∷ 6 ∷ 7 ∷ [])
      (encrypt echo_evp 3 (1 ∷ 2 ∷ []) none (5 ∷ 6 ∷ 7 ∷ [])
        >>= decrypt echo_evp 3 (1 ∷ 2 ∷ []) none)
decrypt_example =
    decrypt-encrypt echo-IsEvp (λ t key iv m. refl) 3 (1 ∷ 2 ∷ []) none (5 ∷ 6 ∷ 7 ∷ [])
      (omega arith) refl (omega arith) (omega arith)

-- A stack that is a list, its top at the end.
abbrev behind : ℕ → Option ℕ × List ℕ → Option ℕ × List ℕ
behind x (none, xs) = (some x, [])
behind x (some y, xs) = (some y, x ∷ xs)

abbrev unsnoc : List ℕ → Option ℕ × List ℕ
unsnoc [] = (none, [])
unsnoc (x ∷ xs) = behind x (unsnoc xs)

unsnoc-append : (xs : List ℕ) (x : ℕ) → unsnoc (xs ++ (x ∷ [])) ≡ (some x, xs)
unsnoc-append [] x = refl
unsnoc-append (y ∷ xs) x = ap (behind y) (unsnoc-append xs x)

abbrev listed : Sk (List ℕ) ℕ
listed = record {
  sk_new_null = fine [];
  sk_num = λ s. length s;
  sk_value = λ s i. get_or s i 0;
  sk_push = λ s x. (fine tt, s ++ (x ∷ []));
  sk_pop = unsnoc;
}

get_or-default : (xs : List ℕ) (i d : ℕ) → i < length xs → get_or xs i 0 ≡ get_or xs i d
get_or-default [] i d h = absurd (omega arith)
get_or-default (x ∷ xs) zero d h = refl
get_or-default (x ∷ xs) (suc i) d h = get_or-default xs i d (omega arith)

listed-IsSk : IsSk listed (λ s. s)
listed-IsSk = record {
  num = λ s. refl;
  value = λ s i d h. get_or-default s i d h;
  pop_none = λ s e. ap (λ q. (unsnoc q).0) e;
  pop_some =
      λ s xs x e. let k = ap unsnoc e ∙ unsnoc-append xs x in (ap (λ q. q.0) k, ap (λ q. q.1) k);
}

abbrev four : List ℕ
four = 4 ∷ 5 ∷ 6 ∷ 7 ∷ []

abbrev mixed : List Side
mixed = front ∷ back ∷ front ∷ []

owned_example :
    (freed : List ℕ) × (drop_iter listed 5 (take_sides listed mixed ([], [], iter listed four)).2
      ≡ some (record { elements = freed; stacks = 1 }))
    × ((take_sides listed mixed ([], [], iter listed four)).0
          ++ (freed ++ (take_sides listed mixed ([], [], iter listed four)).1)
        ≡ four)
owned_example = drop_iter-Owned listed-IsSk four mixed 5 (omega arith)

dropped_example : drop_stack listed 5 four ≡ some (record { elements = reverse four; stacks = 1 })
dropped_example = drop_stack-reverse listed-IsSk 5 four (omega arith)
