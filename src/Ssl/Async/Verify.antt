-- ===== src/Ssl/Async/Verify.antt =====
-- An asynchronous verification from BoringSSL's side: `raw_custom_verify` of
-- btls/src/ssl/callbacks.rs over `async_custom_verify_callback` of btls/src/ssl/async_callbacks.rs.
use btls.Prelude.{
  ℕ, ◌≡◌, refl, ap, ◌∙◌, subst, Bool, true, false, Option, none, some, List, ◌∷◌, [],
}
use btls.Ssl.Async.{
  Result, ok, err, Poll, ready, pending, Call, returned, panicked, Ssl, output, waits, Poller,
  Finisher, with_ex_data_future, verified, finish_verify, async_custom_verify,
}
use btls.Ssl.Async.Drive.{
  is_pending, idle, arrive, next, drive, await, awaited, Follows, drive-Follows,
}
use btls.Ssl.Callbacks.{VerifyResult, verify_ok, verify_invalid, verify_again, as_u8}
use btls.Ssl.Callbacks.Handshake.{raw_custom_verify, raw_custom_verify_callback}

-- A callback that only puts another form on what its future comes to is driven as that one is.
module _ {W F G V : Type 0} (again : V → Bool) where
  abbrev pub Stops : Call V × Ssl W F G → Type 0
  Stops (returned v, s) = again v ≡ false
  Stops (panicked, s) = Unit {0}

  abbrev pub Repeats : Call V × Ssl W F G → Ssl W F G → Type 0
  Repeats (returned v, s) s' = (again v ≡ true) × (s ≡ s')
  Repeats (panicked, s) s' = ⊥

  abbrev posted : Call V × Ssl W F G → Option (Call V) × Ssl W F G
  posted (r, s) = (some r, s)

  stopped :
      (k : Ssl W F G → Option (Call V) × Ssl W F G) (q : Call V × Ssl W F G)
      → Stops q
      → next again k q ≡ posted q
  stopped k (returned v, s) h = rw h refl
  stopped k (panicked, s) h = refl

  repeated :
      (k : Ssl W F G → Option (Call V) × Ssl W F G) (q : Call V × Ssl W F G) (s : Ssl W F G)
      → Repeats q s
      → next again k q ≡ k s
  repeated k (returned v, s') s (h, e) = rw h (ap k e)
  repeated k (panicked, s') s h = absurd h

module _ {W F G X V : Type 0} (again : V → Bool) (inner : Ssl W F G → Call (Poll X) × Ssl W F G)
    (post : Call (Poll X) × Ssl W F G → Call V × Ssl W F G) where
  abbrev post_end : Option (Call (Poll X)) × Ssl W F G → Option (Call V) × Ssl W F G
  post_end (none, s) = (none, s)
  post_end (some r, s) = posted again (post (r, s))

  module _ (on_pending : (s : Ssl W F G) → Repeats again (post (returned pending, s)) s)
      (on_ready : (x : X) (s : Ssl W F G) → Stops again (post (returned (ready x), s)))
      (on_panic : (s : Ssl W F G) → post (panicked, s) ≡ (panicked, s)) where
    one-post :
        (k : Ssl W F G → Option (Call V) × Ssl W F G)
        → (k' : Ssl W F G → Option (Call (Poll X)) × Ssl W F G)
        → ((s : Ssl W F G) → k s ≡ post_end (k' s))
        → (r : Call (Poll X) × Ssl W F G) → next again k (post r) ≡ post_end (next is_pending k' r)
    one-post k k' e (returned pending, s) = repeated again k _ s (on_pending s) ∙ e s
    one-post k k' e (returned (ready x), s) = stopped again k _ (on_ready x s)
    one-post k k' e (panicked, s) = stopped again k _ (rw (on_panic s) tt)

    pub drive-post :
        (rounds : List (W × G)) (s : Ssl W F G)
        → drive again (λ s. post (inner s)) rounds s ≡ post_end (drive is_pending inner rounds s)
    unfolding drive
    drive-post [] s = refl
    drive-post ((w, g) ∷ rounds) s = one-post _ _ (drive-post rounds) (inner (arrive w g s))

abbrev pub must_retry : VerifyResult × ℕ → Bool
must_retry (verify_again, alert) = true
must_retry (verify_ok, alert) = false
must_retry (verify_invalid, alert) = false

-- The rounds poll the future until its output is there.
pub data Resolves {W F G R : Type 0} (poll : Poller W F G R) (r : R)
    : List (W × G) → F → Type 0 where
  now :
      {w : W} {g : G} {rounds : List (W × G)} {f : F}
      → (poll w f g).0 ≡ output r
      → Resolves poll r ((w, g) ∷ rounds) f
  later :
      {w : W} {g : G} {rounds : List (W × G)} {f f' : F}
      → (poll w f g).0 ≡ waits f'
      → Resolves poll r rounds f'
      → Resolves poll r ((w, g) ∷ rounds) f

await-Resolves :
    {W F G R T E : Type 0} (poll : Poller W F G R) (into_result : R → Result T E) {r : R}
    → {rounds : List (W × G)} {f : F} → Resolves poll r rounds f
    → await poll into_result rounds f ≡ (some (into_result r), none)
unfolding await
await-Resolves poll into_result (now e) = rw e refl
await-Resolves poll into_result (later {rounds = rounds} e m) =
    rw e (await-Resolves poll into_result m)

module _ {W F G C : Type 0} (poll : Poller W F G (Result C ℕ))
    (call : Finisher C (Ssl W F G) (Result (Unit {0}) ℕ))
    (create : Ssl W F G → Result F ℕ × Ssl W F G) (out_alert : ℕ) where
  -- The callback that BoringSSL has.
  abbrev pub verify_callback : Ssl W F G → Call (VerifyResult × ℕ) × Ssl W F G
  verify_callback = raw_custom_verify (some (async_custom_verify poll call create)) out_alert

  abbrev pub judged : Result (Unit {0}) ℕ × Ssl W F G → Option (Call (VerifyResult × ℕ)) × Ssl W F G
  judged (ok u, s) = (some (returned (verify_ok, out_alert)), s)
  judged (err alert, s) = (some (returned (verify_invalid, as_u8 alert)), s)

  -- What the output of the future means for the handshake.
  abbrev pub concluded : Result C ℕ → Ssl W F G → Option (Call (VerifyResult × ℕ)) × Ssl W F G
  concluded (err alert) s = judged (err alert, s)
  concluded (ok finish) s = judged (call finish s)

  abbrev post : Call (Poll (Result C ℕ)) × Ssl W F G → Call (VerifyResult × ℕ) × Ssl W F G
  post r = raw_custom_verify_callback (finish_verify poll call r) out_alert

  judged-lem :
      (q : Result (Unit {0}) ℕ × Ssl W F G) (p : Call (VerifyResult × ℕ) × Ssl W F G)
      → p
        ≡ raw_custom_verify_callback
            (returned (verified poll call q).0, (verified poll call q).1)
            out_alert
      → Stops must_retry p × ((some p.0, p.1) ≡ judged q)
  unfolding verified raw_custom_verify_callback
  judged-lem (ok u, s) p e = rw e (refl, refl)
  judged-lem (err alert, s) p e = rw e (refl, refl)

  post-lem :
      (x : Result C ℕ) (s : Ssl W F G)
      → Stops must_retry (post (returned (ready x), s))
        × ((some (post (returned (ready x), s)).0, (post (returned (ready x), s)).1)
            ≡ concluded x s)
  unfolding finish_verify raw_custom_verify_callback
  post-lem (err alert) s = (refl, refl)
  post-lem (ok finish) s = judged-lem (call finish s) _ refl

  ended :
      (x : Result C ℕ) (left : Option F)
      → (run : Option (Call (Poll (Result C ℕ))) × Ssl W F G) → Follows (some x, left) run
      → post_end must_retry (λ s. (panicked, s)) post run ≡ concluded x run.1
  ended x left (got, s) (e, h) = rw e (post-lem x s).1

  -- For a callback that leaves the slot of the future idle, and an idle slot: if the future that it
  -- makes comes to an output within the rounds in which BoringSSL calls raw_custom_verify, the calls
  -- that return ssl_verify_retry come to an end, and the verdict is that of the output: an alert
  -- fails the verification with that alert, and a closure is run, from a connection whose slot is
  -- idle again, and its verdict taken.
  pub drive_verify-ends :
      (w : W) (g : G) (rounds : List (W × G)) (ssl made : Ssl W F G) (f : F) (x : Result C ℕ)
      → idle ssl.future ≡ true
      → ((s : Ssl W F G) → idle s.future ≡ true → idle (create s).1.future ≡ true)
      → create (arrive w g ssl) ≡ (ok f, made)
      → Resolves poll x ((w, made.world) ∷ rounds) f
      → (last : Ssl W F G) × (idle last.future ≡ true)
        × (drive must_retry verify_callback ((w, g) ∷ rounds) ssl ≡ concluded x last)
  unfolding raw_custom_verify async_custom_verify
  drive_verify-ends w g rounds ssl made f x e keeps m resolves =
      let run = drive is_pending (with_ex_data_future poll create (λ r. r)) ((w, g) ∷ rounds) ssl in
      let follows : Follows (some x, none) run =
        subst (λ a. Follows a run)
          (ap (awaited poll (λ r. r) w rounds) m ∙ await-Resolves poll (λ r. r) resolves)
          (drive-Follows poll create (λ r. r) w g rounds ssl e keeps) in
      (
        run.1,
        follows.1,
        drive-post must_retry (with_ex_data_future poll create (λ r. r)) post (λ s. (refl, refl))
              (λ y s. (post-lem y s).0) (λ s. refl) ((w, g) ∷ rounds) ssl
            ∙ ended x none run follows,
      )
