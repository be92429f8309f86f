-- ===== src/Extension/Native.antt =====
-- What the builders call outside of their file, as parameters, and the loop that fills a stack.
use btls.Prelude.{◌≡◌, refl, sym, ap, ◌∙◌, Bool, List, [], ◌∷◌, ◌++◌, append_assoc, append-nil}
use btls.Io.{ErrorStack, Fallible, fine, wrong}
pub use btls.Io.{◌>>=◌}
use Prim.Native.String.{String}

-- `Nid::BASIC_CONSTRAINTS` and the others
pub data Nid : Type 0 where
  basic_constraints key_usage ext_key_usage : Nid
  subject_key_identifier authority_key_identifier subject_alt_name : Nid

-- `E` are extensions, `O` objects (`Asn1Object`), `N` names (`GeneralName`) and `A` addresses. The flag
-- of `new_nid` says whether there is a context.
pub record X509 (E O N A : Type 0) : Type 0 where
  pub new_nid : Bool → Nid → String → Fallible E
  pub new_objects : Nid → Bool → List O → Fallible E
  pub new_names : Nid → Bool → List N → Fallible E
  pub stack_new : Fallible (Unit {0})
  pub object_from_str : String → Fallible O
  pub parse_ip : String → Fallible A
  pub new_dns : String → Fallible N
  pub new_email : String → Fallible N
  pub new_uri : String → Fallible N
  pub new_ip : A → Fallible N
  pub new_rid : O → Fallible N

-- The loop of the two `build` methods that fill a `Stack`; `?` returns at the first error.
unfoldable pub push_all : {A B : Type 0} → (A → Fallible B) → List A → List B → Fallible (List B)
push_all f [] stack = fine stack
push_all f (x ∷ xs) stack = do y ← f x; push_all f xs (stack ++ (y ∷ []))

-- `f` turns each element of the first list into that of the second.
abbrev pub Turns : {A B : Type 0} → (A → Fallible B) → List A → List B → Type 0
Turns f [] [] = Unit
Turns f (x ∷ xs) (y ∷ ys) = (f x ≡ fine y) × Turns f xs ys
Turns f _ _ = ⊥

pub push_all-fine :
    {A B : Type 0} (f : A → Fallible B) (xs : List A) (ys stack : List B)
    → Turns f xs ys
    → push_all f xs stack ≡ fine (stack ++ ys)
unfolding push_all
push_all-fine f [] [] stack t = ap fine (sym (append-nil stack))
push_all-fine f [] (y ∷ ys) stack t = absurd t
push_all-fine f (x ∷ xs) [] stack t = absurd t
push_all-fine f (x ∷ xs) (y ∷ ys) stack (e, t) =
    rw e (push_all-fine f xs ys (stack ++ (y ∷ [])) t ∙ ap fine (append_assoc stack (y ∷ []) ys))

pub push_all-wrong :
    {A B : Type 0} (f : A → Fallible B) (before : List A) (ys : List B) (x : A) (after : List A)
    → (e : ErrorStack) (stack : List B) → Turns f before ys
    → f x ≡ wrong e
    → push_all f (before ++ x ∷ after) stack ≡ wrong e
unfolding push_all
push_all-wrong f [] [] x after e stack t h = rw h refl
push_all-wrong f [] (y ∷ ys) x after e stack t h = absurd t
push_all-wrong f (b ∷ bs) [] x after e stack t h = absurd t
push_all-wrong f (b ∷ bs) (y ∷ ys) x after e stack (k, t) h =
    rw k (push_all-wrong f bs ys x after e (stack ++ (y ∷ [])) t h)
