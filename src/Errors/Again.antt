-- ===== src/Errors/Again.antt =====
-- Errors of btls/src/error.rs that are put back on the queue and got again.
use btls.Prelude.{
  ℕ, zero, suc, ◌+◌, ◌≤◌, ◌<◌, ◌≡◌, refl, sym, ap, ap₂, ◌∙◌, true, false, some, List, [], ◌∷◌, ◌++◌,
  map, length, length-append, append-nil, append_assoc, arith, if◌then◌else◌,
}
use btls.Errors.{
  ErrorQueue, Entry, Error, Data, no_data, c_string, string, static_text, has_zero, data_cstr,
  get_step, get_loop, get_all, put, put_all, data_of, to_str, reason, library, is_internal, from_c,
  reason_text, fmt_rest, fmt,
}
use btls.Errors.Queue.{
  IsErrorQueue, IsCode, as_data, carried, entry_of, put-contents, get-entry, get-none,
}

-- Each error of a list has a property.
abbrev pub Each : (Error → Type 0) → List Error → Type 0
Each P [] = Unit {0}
Each P (e ∷ es) = P e × Each P es

abbrev pub Coded : Error → Type 0
Coded e = IsCode e.code

abbrev entry : Error → Entry
entry e = entry_of e (data_cstr e.text)

module _ {Q : Type 0} {v : ErrorQueue Q} {capacity : ℕ} (l : IsErrorQueue v capacity) where
  put_all-contents :
      (es : List Error) (q : Q)
      → Each Coded es
      → length (l.contents q) + length es ≤ capacity
      → l.contents (put_all v es q) ≡ l.contents q ++ map entry es
  unfolding put_all
  put_all-contents [] q c room = sym (append-nil (l.contents q))
  put_all-contents (e ∷ es) q (c, cs) room =
      let p = put-contents l e q c (omega (arith, room)) in
      put_all-contents es (put v e q) cs
        (omega (arith, room, ap length p, length-append (l.contents q) (entry e ∷ [])))
      ∙ ap (λ r. r ++ map entry es) p
      ∙ append_assoc (l.contents q) (entry e ∷ []) (map entry es)

  get_loop-carried :
      (fuel : ℕ) (es : List Error) (q : Q) (vec : List Error)
      → Each Coded es
      → l.contents q ≡ map entry es
      → length es < fuel
      → (q' : Q) × (get_loop v fuel q vec ≡ some (vec ++ map carried es, q')) × (l.contents q' ≡ [])
  unfolding get_loop get_step
  get_loop-carried zero es q vec c h room = absurd (omega (arith, room))
  get_loop-carried (suc fuel) [] q vec c h room =
      let g = get-none l q h in
      (
        (v.get_error q).1,
        ap (get_step v (get_loop v fuel) vec) g.0
            ∙ ap (λ r. some (r, (v.get_error q).1)) (sym (append-nil vec)),
        g.1,
      )
  get_loop-carried (suc fuel) (e ∷ es) q vec (c, cs) h room =
      let g = get-entry l e (data_cstr e.text) q (map entry es) c.nonzero h in
      let rest =
        get_loop-carried fuel es (v.get_error q).1 (vec ++ (carried e ∷ [])) cs g.1
          (omega (arith, room)) in
      (
        rest.0,
        ap (get_step v (get_loop v fuel) vec) g.0
            ∙ rest.1
            ∙ ap (λ r. some (r, rest.0)) (append_assoc vec (carried e ∷ []) (map carried es)),
        rest.2,
      )

-- The data of an error can be a C string, and is read as text again.
abbrev pub Plain : {Q : Type 0} → ErrorQueue Q → Data → Type 0
Plain v no_data = Unit {0}
Plain v (c_string s) = Unit {0}
Plain v (string s) = (has_zero s ≡ false) × (v.is_utf8 s ≡ true)
Plain v (static_text s) = (has_zero s ≡ false) × (v.is_utf8 s ≡ true)

module _ {Q : Type 0} (v : ErrorQueue Q) (unknown_error unknown_reason : List ℕ) where
  data_of-carried : (d : Data) → Plain v d → data_of v (as_data (data_cstr d)) ≡ data_of v d
  unfolding data_of data_cstr to_str
  data_of-carried no_data p = refl
  data_of-carried (c_string s) p = refl
  data_of-carried (string s) (z, u) = rw (z, u) refl
  data_of-carried (static_text s) (z, u) = rw (z, u) refl

  reason-carried : (e : Error) → Plain v e.text → reason v (carried e) ≡ reason v e
  unfolding reason is_internal
  reason-carried e p =
      ap (λ d. if is_internal v e then d else from_c v (v.reason_error_string e.code))
        (data_of-carried e.text p)

  fmt_rest-carried :
      (es : List Error)
      → Each (λ e. Plain v e.text) es
      → fmt_rest v unknown_error unknown_reason (map carried es)
        ≡ fmt_rest v unknown_error unknown_reason es
  unfolding fmt_rest library is_internal
  fmt_rest-carried [] p = refl
  fmt_rest-carried (e ∷ es) (p, ps) =
      ap₂ (λ r t. 32 ∷ (91 ∷ (reason_text unknown_reason r (library v e) ++ (93 ∷ [])) ++ t))
        (reason-carried e p) (fmt_rest-carried es ps)

  fmt-carried :
      (es : List Error)
      → Each (λ e. Plain v e.text) es
      → fmt v unknown_error unknown_reason (map carried es) ≡ fmt v unknown_error unknown_reason es
  unfolding fmt library is_internal
  fmt-carried [] p = refl
  fmt-carried (e ∷ es) (p, ps) =
      ap₂ (λ r t. 91 ∷ (reason_text unknown_reason r (library v e) ++ (93 ∷ [])) ++ t)
        (reason-carried e p) (fmt_rest-carried es ps)

  -- For a queue of BoringSSL that keeps its contract and is empty, with room for the errors, whose
  -- codes it can hold and whose texts are UTF-8 without a 0 byte: after ErrorStack::put,
  -- ErrorStack::get comes to an end and returns the same errors in order, their data as C strings;
  -- the queue is empty again, and the errors are displayed as before. The fuel is more than their
  -- number.
  pub get_all-put_all :
      {capacity : ℕ} (l : IsErrorQueue v capacity) (es : List Error) (q : Q) (fuel : ℕ)
      → l.contents q ≡ []
      → length es ≤ capacity
      → Each Coded es
      → Each (λ e. Plain v e.text) es
      → length es < fuel
      → (got : List Error) × (q' : Q) × (get_all v fuel (put_all v es q) ≡ some (got, q'))
        × (l.contents q' ≡ [])
        × (got ≡ map carried es)
        × (fmt v unknown_error unknown_reason got ≡ fmt v unknown_error unknown_reason es)
  unfolding get_all
  get_all-put_all l es q fuel e room codes texts h =
      let put_ = put_all-contents l es q codes (omega (arith, room, ap length e)) in
      let r =
        get_loop-carried l fuel es (put_all v es q) [] codes (put_ ∙ ap (λ y. y ++ map entry es) e)
          h in
      (map carried es, r.0, r.1, r.2, refl, fmt-carried es texts)
