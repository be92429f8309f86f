-- ===== src/Errors/Queue.antt =====
-- The documented behaviour of BoringSSL's error queue, and one error that goes through it.
use btls.Prelude.{
  ℕ, ◌<◌, ◌≡◌, ◌≢◌, refl, ap, ◌∙◌, true, false, Option, none, some, List, [], ◌∷◌, ◌++◌, length,
  ne→==,
}
use btls.Errors.{
  ErrorQueue, Entry, Error, Data, no_data, c_string, data_cstr, err_pack, err_get_lib, err_get_func,
  err_get_reason, get, popped, popped_data, put, with_data,
}

-- A queue is a list of entries, the oldest first, of less than `capacity`.
pub record IsErrorQueue {Q : Type 0} (v : ErrorQueue Q) (capacity : ℕ) : Type 0 where
  pub contents : Q → List Entry
  pub gets_none :
      (q : Q) → contents q ≡ [] → ((v.get_error q).0.code ≡ 0) × (contents (v.get_error q).1 ≡ [])
  pub gets :
      (q : Q) (e : Entry) (es : List Entry)
      → contents q ≡ e ∷ es
      → ((v.get_error q).0 ≡ e) × (contents (v.get_error q).1 ≡ es)
  -- The code of the function is dropped, and a reason of 0 is replaced for `ERR_LIB_SYS`, which is 2.
  pub puts :
      (lib func why file line : ℕ) (q : Q)
      → length (contents q) < capacity
      → ((lib ≡ 2) → why ≢ 0)
      → contents (v.put_error lib func why file line q)
        ≡ contents q
          ++ (record {
            code = err_pack lib 0 why;
            file = file;
            line = line;
            bytes = [];
            is_string = false;
          }
              ∷ [])
  pub adds :
      (s : List ℕ) (q : Q) (es : List Entry) (e : Entry)
      → contents q ≡ es ++ (e ∷ [])
      → contents (v.add_error_data s q) ≡ es ++ (record e { bytes = s; is_string = true } ∷ [])

-- A code that the queue keeps: not 0, without a function, and with a reason where it is of `ERR_LIB_SYS`.
pub record IsCode (code : ℕ) : Type 0 where
  pub packed : err_pack (err_get_lib code) 0 (err_get_reason code) ≡ code
  pub nonzero : code ≢ 0
  pub reasoned : err_get_lib code ≡ 2 → err_get_reason code ≢ 0

-- The data of an error as a C string, if there is one.
abbrev pub as_data : Option (List ℕ) → Data
as_data none = no_data
as_data (some s) = c_string s

-- What an error is after it went through the queue.
abbrev pub carried : Error → Error
carried e = record e { text = as_data (data_cstr e.text) }

abbrev pub entry_of : Error → Option (List ℕ) → Entry
entry_of e none = record {
  code = e.code;
  file = e.file;
  line = e.line;
  bytes = [];
  is_string = false;
}
entry_of e (some s) = record {
  code = e.code;
  file = e.file;
  line = e.line;
  bytes = s;
  is_string = true;
}

module _ {Q : Type 0} {v : ErrorQueue Q} {capacity : ℕ} (l : IsErrorQueue v capacity) where
  with_data-contents :
      (e : Error) (o : Option (List ℕ)) (q : Q) (es : List Entry)
      → l.contents q ≡ es ++ (entry_of e none ∷ [])
      → l.contents (with_data v o q) ≡ es ++ (entry_of e o ∷ [])
  unfolding with_data
  with_data-contents e none q es h = h
  with_data-contents e (some s) q es h = l.adds s q es (entry_of e none) h

  pub put-contents :
      (e : Error) (q : Q)
      → IsCode e.code
      → length (l.contents q) < capacity
      → l.contents (put v e q) ≡ l.contents q ++ (entry_of e (data_cstr e.text) ∷ [])
  unfolding put
  put-contents e q c room = with_data-contents e (data_cstr e.text) _ (l.contents q) (
      l.puts (err_get_lib e.code) (err_get_func e.code) (err_get_reason e.code) e.file e.line q room
        c.reasoned
      ∙ ap
          (λ n.
            l.contents q
            ++ (record { code = n; file = e.file; line = e.line; bytes = []; is_string = false }
                ∷ []))
          c.packed)

  popped-entry :
      (e : Error) (o : Option (List ℕ)) (q : Q)
      → e.code ≢ 0
      → popped v (entry_of e o, q) ≡ (some (record e { text = as_data o }), q)
  unfolding popped popped_data
  popped-entry e none q n = rw (ne→== e.code 0 n) refl
  popped-entry e (some s) q n = rw (ne→== e.code 0 n) refl

  pub get-entry :
      (e : Error) (o : Option (List ℕ)) (q : Q) (es : List Entry)
      → e.code ≢ 0
      → l.contents q ≡ entry_of e o ∷ es
      → (get v q ≡ (some (record e { text = as_data o }), (v.get_error q).1))
        × (l.contents (v.get_error q).1 ≡ es)
  unfolding get
  get-entry e o q es n h =
      let g = l.gets q (entry_of e o) es h in
      (ap (λ r. popped v (r, (v.get_error q).1)) g.0 ∙ popped-entry e o (v.get_error q).1 n, g.1)

  pub get-none :
      (q : Q)
      → l.contents q ≡ []
      → (get v q ≡ (none, (v.get_error q).1)) × (l.contents (v.get_error q).1 ≡ [])
  unfolding get popped
  get-none q h = let g = l.gets_none q h in (stopped (v.get_error q) g.0, g.1)
    where
      stopped : (r : Entry × Q) → r.0.code ≡ 0 → popped v r ≡ (none, r.1)
      stopped (r, q') e = rw e refl
