-- ===== src/Tests/Errors.antt =====
-- A run of the error stack on a queue that is a list.
use btls.Prelude.{ℕ, ◌≡◌, refl, ap, ◌∙◌, true, false, none, some, List, [], ◌∷◌, ◌++◌, map, arith}
use btls.Errors.{ErrorQueue, Entry, Error, static_text, no_data, err_pack, get_all, put_all, fmt}
use btls.Errors.Queue.{IsErrorQueue, carried}
use btls.Errors.Again.{get_all-put_all}

abbrev no_entry : Entry
no_entry = record { code = 0; file = 0; line = 0; bytes = []; is_string = false }

abbrev first : List Entry → Entry × List Entry
first [] = (no_entry, [])
first (e ∷ es) = (e, es)

abbrev set_last : List ℕ → List Entry → List Entry
set_last s [] = []
set_last s (e ∷ []) = record e { bytes = s; is_string = true } ∷ []
set_last s (e ∷ f ∷ es) = e ∷ set_last s (f ∷ es)

abbrev list_queue : ErrorQueue (List Entry)
list_queue = record {
  get_error = first;
  put_error = λ lib func why file line q.
      q
      ++ (record {
        code = err_pack lib 0 why;
        file = file;
        line = line;
        bytes = [];
        is_string = false;
      }
          ∷ []);
  add_error_data = set_last;
  clear_error = λ q. [];
  boring_internal = 900;
  lib_error_string = λ code. none;
  reason_error_string = λ code. some (114 ∷ []);
  is_utf8 = λ s. true;
  is_unknown_library = λ s. false;
}

set_last-append :
    (s : List ℕ) (es : List Entry) (e : Entry)
    → set_last s (es ++ (e ∷ [])) ≡ es ++ (record e { bytes = s; is_string = true } ∷ [])
set_last-append s [] e = refl
set_last-append s (x ∷ []) e = refl
set_last-append s (x ∷ y ∷ es) e = ap (◌∷◌ x) (set_last-append s (y ∷ es) e)

first-none : (q : List Entry) → q ≡ [] → ((first q).0.code ≡ 0) × ((first q).1 ≡ [])
first-none [] h = (refl, refl)
first-none (e ∷ es) h = cc

first-some :
    (q : List Entry) (e : Entry) (es : List Entry)
    → q ≡ e ∷ es
    → ((first q).0 ≡ e) × ((first q).1 ≡ es)
first-some q e es h = (ap (λ p. (first p).0) h, ap (λ p. (first p).1) h)

list-IsErrorQueue : IsErrorQueue list_queue 15
list-IsErrorQueue = record {
  contents = λ q. q;
  gets_none = first-none;
  gets = first-some;
  puts = λ lib func why file line q room reasoned. refl;
  adds = λ s q es e h. ap (set_last s) h ∙ set_last-append s es e;
}

-- An error of this library, and one of `ERR_LIB_SSL`, which is 16, with reason 200.
abbrev two_errors : List Error
two_errors =
    record { code = err_pack 1 0 0; file = 900; line = 0; text = static_text (104 ∷ 105 ∷ []) }
    ∷ record { code = err_pack 16 0 200; file = 7; line = 12; text = no_data }
    ∷ []

errors_example :
    (got : List Error) × (q : List Entry) × (get_all list_queue 3 (put_all list_queue two_errors [])
      ≡ some (got, q))
    × (q ≡ [])
    × (got ≡ map carried two_errors)
    × (fmt list_queue (63 ∷ []) (63 ∷ []) got ≡ fmt list_queue (63 ∷ []) (63 ∷ []) two_errors)
unfolding list-IsErrorQueue
errors_example =
    get_all-put_all list_queue (63 ∷ []) (63 ∷ []) list-IsErrorQueue two_errors [] 3 refl
      (omega arith)
      (
        record { packed = refl; nonzero = λ h. omega (arith, h); reasoned = λ h. omega (arith, h) },
        (
          record {
            packed = refl;
            nonzero = λ h. omega (arith, h);
            reasoned = λ h. omega (arith, h);
          },
          tt,
        ),
      )
      ((refl, refl), (tt, tt)) (omega arith)
