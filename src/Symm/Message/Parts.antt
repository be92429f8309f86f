-- ===== src/Symm/Message/Parts.antt =====
-- The calls of btls/src/symm.rs that a message goes through: a context, `update` and `finalize`.
use btls.Prelude.{
  ℕ, ◌+◌, ◌≤◌, ◌≡◌, refl, sym, ap, ◌∙◌, true, Option, none, some, List, [], ◌++◌, leb, ◌==◌,
  if◌then◌else◌, length, take, drop, c_int_max, arith, inl, inr, le→leb, eq→==, length-append,
  take-append_left, take-length, Bool-cases,
}
use btls.Io.{Fallible, fine, wrong}
use btls.Symm.{
  Mode, finished, ◌>>=◌, Evp, Crypter, try_int, lift, iv_len, choose_iv, new, write_out, extra,
  update, finalize,
}
use btls.Symm.Message.Contract.{Gives, IsEvp, Returns, >>=-Returns, try_int-Gives, extra-le}

module _ {T C : Type 0} {v : Evp T C}
    {transform : T → Mode → List ℕ → Option (List ℕ) → List ℕ → List ℕ} {Excuse : Type 0}
    (l : IsEvp v transform Excuse) where
  -- The IV that the cipher gets: none if it takes none.
  abbrev pub used_iv : T → Option (List ℕ) → Option (List ℕ)
  used_iv t iv = if v.iv_length t == 0 then none else iv

  -- An IV is there if the cipher wants one, and its length fits a c_int.
  abbrev pub HasIv : T → Option (List ℕ) → Type 0
  HasIv t none = v.iv_length t ≡ 0
  HasIv t (some iv) = length iv ≤ c_int_max

  pub choose_iv-Returns :
      (t : T) (iv : Option (List ℕ)) (c : C)
      → HasIv t iv
      → Returns Excuse
          (λ r. (r.0 ≡ used_iv t iv) × (l.cipher_of r.1 ≡ l.cipher_of c))
          (choose_iv v iv (iv_len v t) c)
  unfolding choose_iv iv_len
  choose_iv-Returns t none c h = rw (eq→== (v.iv_length t) 0 h) (refl, refl)
  choose_iv-Returns t (some iv) c h = elim (Bool-cases (v.iv_length t == 0)) [
    | inl e ↦ rw e (refl, refl)
    | inr e ↦ rw e (sized (v.iv_length t))
  ]
    where
      set_length :
          (r : Fallible C)
          → Gives Excuse (λ c'. l.cipher_of c' ≡ l.cipher_of c) r
          → Returns Excuse
              (λ (q : Option (List ℕ) × C). (q.0 ≡ some iv) × (l.cipher_of q.1 ≡ l.cipher_of c))
              (lift r >>= λ c'. finished (fine (some iv, c')))
      set_length (fine c') e = (refl, e)
      set_length (wrong e) x = x

      sized :
          (len : ℕ)
          → Returns Excuse
              (λ (q : Option (List ℕ) × C). (q.0 ≡ some iv) × (l.cipher_of q.1 ≡ l.cipher_of c))
              (choose_iv v (some iv) (some len) c)
      sized len = elim (Bool-cases (length iv == len)) [
        | inl e ↦ rw e (refl, refl)
        | inr e ↦
            rw (e, try_int, le→leb (length iv) c_int_max h)
              (set_length (v.set_iv_length (length iv) c) (l.sets_iv (length iv) c))
      ]

  -- A context for a message: which function it applies, with nothing read.
  abbrev pub Ready : T → Mode → List ℕ → Option (List ℕ) → Crypter C → Type 0
  Ready t m key iv k =
      (l.keyed_for k.ctx ≡ transform t m key (used_iv t iv))
      × (l.taken k.ctx ≡ [])
      × (l.given k.ctx ≡ [])
      × (l.cipher_of k.ctx ≡ (t, m))
      × (k.block_size ≡ v.block_length t)

  pub new-Returns :
      (t : T) (m : Mode) (key : List ℕ) (iv : Option (List ℕ))
      → length key ≤ c_int_max
      → HasIv t iv
      → Returns Excuse (Ready t m key iv) (new v t m key iv)
  unfolding new
  new-Returns t m key iv hk hi =
      >>=-Returns Excuse (λ c. Unit {0}) (Ready t m key iv) (lift v.ctx_new) _ l.creates
        λ c0 u.
          >>=-Returns Excuse (λ c. l.cipher_of c ≡ (t, m)) (Ready t m key iv)
            (lift (v.cipher_init t m c0)) _ (l.inits t m c0)
            λ c1 e1.
              >>=-Returns Excuse (λ n. n ≡ length key) (Ready t m key iv)
                (lift (try_int (length key))) _ (try_int-Gives Excuse (length key) hk)
                λ n en.
                  >>=-Returns Excuse (λ c. l.cipher_of c ≡ l.cipher_of c1) (Ready t m key iv)
                    (lift (v.set_key_length n c1)) _ (l.sets_key n c1)
                    λ c2 e2.
                      >>=-Returns Excuse
                        (λ r. (r.0 ≡ used_iv t iv) × (l.cipher_of r.1 ≡ l.cipher_of c2))
                        (Ready t m key iv) (choose_iv v iv (iv_len v t) c2) _
                        (choose_iv-Returns t iv c2 hi)
                        λ r er.
                          >>=-Returns Excuse
                            (λ c.
                              (l.keyed_for c ≡ transform t m key r.0)
                              × (l.taken c ≡ [])
                              × (l.given c ≡ [])
                              × (l.cipher_of c ≡ (t, m)))
                            (Ready t m key iv) (lift (v.key_init key r.0 m r.1)) _
                            (l.keys t m key r.0 r.1 (er.1 ∙ e2 ∙ e1))
                            λ c3 e3. (e3.0 ∙ ap (transform t m key) er.0, e3.1, e3.2, e3.3, refl)

  -- After the one `update` of a message into `output`.
  abbrev pub Updated :
      T → Mode → List ℕ → Option (List ℕ) → List ℕ → List ℕ → ℕ × List ℕ × Crypter C → Type 0
  Updated t m key iv message output r =
      (l.keyed_for r.2.ctx ≡ transform t m key (used_iv t iv))
      × (l.taken r.2.ctx ≡ message)
      × (r.0 ≡ length (l.given r.2.ctx))
      × (r.1 ≡ l.given r.2.ctx ++ drop (length (l.given r.2.ctx)) output)
      × (length (l.given r.2.ctx) ≤ length message)
      × (l.cipher_of r.2.ctx ≡ (t, m))
      × (r.2.block_size ≡ v.block_length t)

  write-Updated :
      (t : T) (m : Mode) (key : List ℕ) (iv : Option (List ℕ)) (message output : List ℕ)
      → (k : Crypter C) (r : List ℕ × C) → Ready t m key iv k
      → length message ≤ length output
      → (l.keyed_for r.1 ≡ l.keyed_for k.ctx)
        × (l.taken r.1 ≡ l.taken k.ctx ++ message)
        × (l.given r.1 ≡ l.given k.ctx ++ r.0)
        × (length (l.given r.1) ≤ length (l.taken r.1))
        × (l.cipher_of r.1 ≡ l.cipher_of k.ctx)
      → Returns Excuse (Updated t m key iv message output) (write_out v k output r)
  unfolding write_out
  write-Updated t m key iv message output k (bytes, c) ready fits (e0, e1, e2, e3, e4) =
      let taken : l.taken c ≡ message = e1 ∙ ap (λ x. x ++ message) ready.1 in
      let given : l.given c ≡ bytes = e2 ∙ ap (λ x. x ++ bytes) ready.2 in
      let small : length bytes ≤ length message =
        omega (arith, e3, ap length taken, ap length given) in
      rw (le→leb (length bytes) (length output) (omega arith)) (
        e0 ∙ ready.0,
        taken,
        ap length (sym given),
        ap (λ x. x ++ drop (length x) output) (sym given),
        omega (arith, ap length given),
        e4 ∙ ready.3,
        ready.4,
      )

  pub update-Returns :
      (t : T) (m : Mode) (key : List ℕ) (iv : Option (List ℕ)) (message output : List ℕ)
      → (k : Crypter C) → Ready t m key iv k
      → length output ≡ length message + v.block_length t
      → length output ≤ c_int_max
      → Returns Excuse (Updated t m key iv message output) (update v message output k)
  unfolding update
  update-Returns t m key iv message output k ready size fits =
      let room : leb (length message + extra k.block_size) (length output) ≡ true =
        le→leb _ _ (omega (arith, extra-le k.block_size, ready.4)) in
      rw room (
        >>=-Returns Excuse (λ n. n ≡ length output) (Updated t m key iv message output)
          (lift (try_int (length output))) _ (try_int-Gives Excuse (length output) fits)
          λ outl eo.
            >>=-Returns Excuse (λ n. n ≡ length message) (Updated t m key iv message output)
              (lift (try_int (length message))) _
              (try_int-Gives Excuse (length message) (omega arith))
              λ inl_ ei.
                >>=-Returns Excuse _ (Updated t m key iv message output)
                  (lift (v.cipher_update message k.ctx)) _ (l.updates message k.ctx)
                  λ r er. write-Updated t m key iv message output k r ready (omega arith) er)

  -- The bytes that `finalize` adds to what `update` wrote.
  abbrev pub Ended :
      T
      → Mode
      → List ℕ
      → Option (List ℕ)
      → List ℕ
      → List ℕ
      → List ℕ
      → ℕ × List ℕ × Crypter C
      → Type 0
  Ended t m key iv message before tail r =
      (r.0 ≤ length r.1) × (before ++ take r.0 r.1 ≡ transform t m key (used_iv t iv) message)

  pub finalize-Returns :
      (t : T) (m : Mode) (key : List ℕ) (iv : Option (List ℕ)) (message output tail : List ℕ)
      → (u : ℕ × List ℕ × Crypter C) → Updated t m key iv message output u
      → v.block_length t ≤ length tail
      → Returns Excuse (Ended t m key iv message (l.given u.2.ctx) tail) (finalize v tail u.2)
  unfolding finalize
  finalize-Returns t m key iv message output tail u e room =
      rw (le→leb (extra u.2.block_size) (length tail) (omega (arith, extra-le u.2.block_size, e.6)))
        (>>=-Returns Excuse _ (Ended t m key iv message (l.given u.2.ctx) tail)
          (lift (v.cipher_final u.2.ctx)) _ (l.finals u.2.ctx) λ r er. written r er)
    where
      written :
          (r : List ℕ × C)
          → (l.given u.2.ctx ++ r.0 ≡ l.keyed_for u.2.ctx (l.taken u.2.ctx))
            × (length r.0 ≤ extra (v.block_length (l.cipher_of u.2.ctx).0))
          → Returns Excuse
              (Ended t m key iv message (l.given u.2.ctx) tail)
              (write_out v u.2 tail r)
      written (bytes, c) er =
          let small : length bytes ≤ length tail = omega (
            arith,
            er.1,
            extra-le (v.block_length (l.cipher_of u.2.ctx).0),
            ap (λ (x : T × Mode). v.block_length x.0) e.5,
            room,
          ) in
          rw (le→leb (length bytes) (length tail) small) (
            omega (arith, length-append bytes (drop (length bytes) tail)),
            ap (◌++◌ (l.given u.2.ctx)) (
                  take-append_left (length bytes) bytes (drop (length bytes) tail) (omega arith)
                  ∙ take-length bytes)
                ∙ er.0
                ∙ ap (λ f. f (l.taken u.2.ctx)) e.0
                ∙ ap (transform t m key (used_iv t iv)) e.1,
          )
