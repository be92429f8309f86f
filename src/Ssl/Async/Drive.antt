-- ===== src/Ssl/Async/Drive.antt =====
-- What `with_ex_data_future` of btls/src/ssl/async_callbacks.rs comes to when BoringSSL calls a
-- callback again and again.
use btls.Prelude.{◌≡◌, refl, Bool, true, false, Option, none, some, List, [], ◌∷◌, if◌then◌else◌}
use btls.Ssl.Async.{
  Result, ok, err, Poll, ready, pending, Call, returned, panicked, Ssl, Step, output, waits, Poller,
  set_task_waker, resume, first_poll, start, with_waker, with_ex_data_waker, with_ex_data_future,
}

abbrev pub is_pending : {T : Type 0} → Poll T → Bool
is_pending pending = true
is_pending (ready t) = false

-- No future waits in the slot.
abbrev pub idle : {F : Type 0} → Option (Option F) → Bool
idle none = true
idle (some none) = true
idle (some (some f)) = false

-- The handshake is driven once for each waker: the caller sets it, and the world has moved on.
module _ {W F G : Type 0} where
  abbrev pub arrive : W → G → Ssl W F G → Ssl W F G
  arrive w g ssl = record ssl { task_waker = some (some w); world = g }

  -- `arrive` is `set_task_waker` and a new world.
  arrive-set_task_waker :
      (w : W) (g : G) (ssl : Ssl W F G)
      → arrive w g ssl ≡ record (set_task_waker (some w) ssl) { world = g }
  unfolding set_task_waker
  arrive-set_task_waker w g ssl = refl

module _ {W F G V : Type 0} (again : V → Bool) where
  abbrev pub next :
      (Ssl W F G → Option (Call V) × Ssl W F G) → Call V × Ssl W F G → Option (Call V) × Ssl W F G
  next k (returned v, ssl) = if again v then k ssl else (some (returned v), ssl)
  next k (panicked, ssl) = (some panicked, ssl)

module _ {W F G V : Type 0} (again : V → Bool) (callback : Ssl W F G → Call V × Ssl W F G) where
  -- The calls of a callback until it does not ask to be called again; `none` if it still does.
  unfoldable pub drive : List (W × G) → Ssl W F G → Option (Call V) × Ssl W F G
  drive [] ssl = (none, ssl)
  drive ((w, g) ∷ rounds) ssl = next again (drive rounds) (callback (arrive w g ssl))

module _ {W F G R T E : Type 0} (poll : Poller W F G R) (into_result : R → Result T E) where
  abbrev pub await_step :
      (F → Option (Result T E) × Option F) → Step F R → Option (Result T E) × Option F
  await_step k (output r) = (some (into_result r), none)
  await_step k (waits f) = k f

  -- A future polled once in each round until its output is there: the result, and the future that
  -- is left.
  unfoldable pub await : List (W × G) → F → Option (Result T E) × Option F
  await [] f = (none, some f)
  await ((w, g) ∷ rounds) f = await_step (await rounds) (poll w f g).0

  -- What a callback whose future has yet to be made is meant to return.
  abbrev pub awaited : W → List (W × G) → Result F E × Ssl W F G → Option (Result T E) × Option F
  awaited w rounds (ok f, ssl) = await ((w, ssl.world) ∷ rounds) f
  awaited w rounds (err e, ssl) = (some (err e), none)

-- The slot holds the future that waits, or none.
abbrev pub Holds : {F : Type 0} → Option F → Option (Option F) → Type 0
Holds none slot = idle slot ≡ true
Holds (some f) slot = slot ≡ some (some f)

abbrev pub finished : {X : Type 0} → Option X → Option (Call (Poll X))
finished none = none
finished (some r) = some (returned (ready r))

-- A run of the callback does what the future does.
abbrev pub Follows :
    {W F G T E : Type 0}
    → Option (Result T E) × Option F
    → Option (Call (Poll (Result T E))) × Ssl W F G
    → Type 0
Follows (r, left) (got, ssl) = (got ≡ finished r) × Holds left ssl.future

module _ {W F G R T E : Type 0} (poll : Poller W F G R)
    (create_fut : Ssl W F G → Result F E × Ssl W F G) (into_result : R → Result T E) where
  abbrev driven : List (W × G) → Ssl W F G → Option (Call (Poll (Result T E))) × Ssl W F G
  driven = drive is_pending (with_ex_data_future poll create_fut into_result)

  resume-Follows :
      (rounds : List (W × G)) (k : Option (Option W)) (o : Option (Option F)) (g : G)
      → (s : Step F R × G)
      → ((f : F) (g' : G)
          → Follows
              (await poll into_result rounds f)
              (driven rounds (record { task_waker = k; future = some (some f); world = g' })))
      → Follows (await_step poll into_result (await poll into_result rounds) s.0) (
          next is_pending (driven rounds) (
            returned
                (resume poll create_fut into_result
                  (record { task_waker = k; future = o; world = g })
                  s).0,
            (resume poll create_fut into_result
                (record { task_waker = k; future = o; world = g })
                s).1,
          ))
  unfolding resume
  resume-Follows rounds k o g (output r, g') more = (refl, refl)
  resume-Follows rounds k o g (waits f, g') more = more f g'

  -- With a future in the slot the next rounds poll that one.
  waiting-Follows :
      (rounds : List (W × G)) (f : F) (k : Option (Option W)) (g : G)
      → Follows
          (await poll into_result rounds f)
          (driven rounds (record { task_waker = k; future = some (some f); world = g }))
  unfolding drive await with_ex_data_future resume
  waiting-Follows [] f k g = (refl, refl)
  waiting-Follows ((w, g') ∷ rounds) f k g =
      resume-Follows rounds (some (some w)) (some (some f)) g' (poll w f g')
        (λ f' h. waiting-Follows rounds f' (some (some w)) h)

  first-Follows :
      (rounds : List (W × G)) (ssl : Ssl W F G) (s : Step F R × G)
      → idle ssl.future ≡ true
      → Follows (await_step poll into_result (await poll into_result rounds) s.0) (
          next is_pending (driven rounds) (
            returned (first_poll poll create_fut into_result ssl s).0,
            (first_poll poll create_fut into_result ssl s).1,
          ))
  unfolding first_poll
  first-Follows rounds ssl (output r, g') e = (refl, e)
  first-Follows rounds ssl (waits f, g') e = waiting-Follows rounds f ssl.task_waker g'

  start-Follows :
      (w : W) (rounds : List (W × G)) (made : Result F E × Ssl W F G)
      → idle made.1.future ≡ true
      → Follows (awaited poll into_result w rounds made) (
          next is_pending (driven rounds) (
            returned (start poll create_fut into_result w made).0,
            (start poll create_fut into_result w made).1,
          ))
  unfolding start await
  start-Follows w rounds (ok f, ssl) e = first-Follows rounds ssl (poll w f ssl.world) e
  start-Follows w rounds (err x, ssl) e = (refl, e)

  with_waker-Follows :
      (w : W) (rounds : List (W × G)) (slot : Option (Option F)) (ssl : Ssl W F G)
      → idle slot ≡ true
      → idle (create_fut ssl).1.future ≡ true
      → Follows (awaited poll into_result w rounds (create_fut ssl)) (
          next is_pending (driven rounds) (
            returned (with_waker poll create_fut into_result w slot ssl).0,
            (with_waker poll create_fut into_result w slot ssl).1,
          ))
  unfolding with_waker
  with_waker-Follows w rounds none ssl e m = start-Follows w rounds (create_fut ssl) m
  with_waker-Follows w rounds (some none) ssl e m = start-Follows w rounds (create_fut ssl) m
  with_waker-Follows w rounds (some (some f)) ssl e m = cc

  -- For a create_fut that leaves the slot of the future idle, and a connection whose slot is idle:
  -- however often BoringSSL repeats the callback, each time with a waker set and a world of its
  -- own, with_ex_data_future never panics, makes one future and polls that one in each call with
  -- the waker of that call, until its output is there. It then returns the output and the slot is
  -- idle; till then it returns Pending and the slot holds the future as the last poll left it.
  pub drive-Follows :
      (w : W) (g : G) (rounds : List (W × G)) (ssl : Ssl W F G)
      → idle ssl.future ≡ true
      → ((s : Ssl W F G) → idle s.future ≡ true → idle (create_fut s).1.future ≡ true)
      → Follows
          (awaited poll into_result w rounds (create_fut (arrive w g ssl)))
          (driven ((w, g) ∷ rounds) ssl)
  unfolding drive with_ex_data_future with_ex_data_waker
  drive-Follows w g rounds ssl e m =
      with_waker-Follows w rounds ssl.future (arrive w g ssl) e (m (arrive w g ssl) e)
