-- ===== src/Ota/Publish/Order.antt =====
-- What the parts of `publish` add to the log: a transfer at most a creation, a passed verification the
-- file's reading back, a passed listing its name.
use bxi_car_v.Base.{
  ℕ, Bool, true, false, Option, none, some, List, [], ◌∷◌, ◌≡◌, ◌⊎◌, inl, inr, refl, subst, arith,
  length, String,
}
use bxi_car_v.Base.Gate.{After, After-bind, After-map, Ends, ◌>>=◌, ◌>>◌}
use bxi_car_v.Base.Value.{Value, Items, nil, cons}
use bxi_car_v.Base.Numeric.{Numeric}
use bxi_car_v.Ota.Readback.{accepted, Verdict, verify_public_file, verified_content, Gave}
use bxi_car_v.Ota.Task.{Turn, Wait}
use bxi_car_v.Ota.Api.{Try, Called, fs_get, api, list_files}
use bxi_car_v.Ota.Paths.{Text}
use bxi_car_v.Ota.Publish.{
  Event, creating, read_back, listed, Act, Transfer, Check, tasks_of, require, note, of_called,
  of_option, of_verdict, of_wait, contains_name, upload, await_tasks, poll, pull, check, see,
  transfer,
}

abbrev pub Has : Event → List Event → Type 0
Has e [] = ⊥
Has e (x ∷ l) = (x ≡ e) ⊎ Has e l

-- The second event has happened, and before it the first.
abbrev pub HasAfter : Event → Event → List Event → Type 0
HasAfter first second [] = ⊥
HasAfter first second (x ∷ l) = (x ≡ second) × Has first l ⊎ HasAfter first second l

-- Only the archive and the checksum are created, and the checksum only after the archive was read back
-- with its digest and then listed, and where `E` holds.
abbrev pub IsOrdered : String → String → String → Type 0 → List Event → Type 0
IsOrdered archive checksum digest E [] = Unit
IsOrdered archive checksum digest E (creating x ∷ l) =
    ((x ≡ archive) ⊎ (x ≡ checksum) × HasAfter (read_back archive digest) (listed archive) l × E)
    × IsOrdered archive checksum digest E l
IsOrdered archive checksum digest E (_ ∷ l) = IsOrdered archive checksum digest E l

-- An action that leaves the log as it is.
abbrev Still : {A : Type 0} → Act A → Type 0
Still m = (log : List Event) → After (λ l. l ≡ log) (m log)

Still-bind :
    {A B : Type 0} (m : Act A) (f : A → Act B) → Still m → ((a : A) → Still (f a)) → Still (m >>= f)
Still-bind m f h k log =
    After-bind (λ l. l ≡ log) (λ l. l ≡ log) (m log) f (h log) (λ l e. e)
      (λ a l e. subst (λ z. After (λ x. x ≡ z) (f a l)) e (k a l))

require-Still : (b : Bool) → Still (require b)
unfolding require
require-Still true log = refl
require-Still false log = refl

of_called-Still : {A : Type 0} (c : Called A) → Still (of_called c)
unfolding of_called
of_called-Still c log = ground arith

of_option-Still : {A : Type 0} (o : Option A) → Still (of_option o)
unfolding of_option
of_option-Still none log = refl
of_option-Still (some a) log = refl

of_wait-Still : (w : Wait) → Still (of_wait w)
unfolding of_wait
of_wait-Still w log = ground arith

-- An action that adds at most the creation of a file to the log.
abbrev pub Creates : String → Act (Unit {0}) → Type 0
Creates name m = (log : List Event) → After (λ l. (l ≡ log) ⊎ (l ≡ creating name ∷ log)) (m log)

Still-Creates : (name : String) (m : Act (Unit {0})) → Still m → Creates name m
Still-Creates name m h log = After-map (λ l. l ≡ log) _ (m log) (h log) (λ l e. inl e)

Creates-noted :
    (name : String) (m : Act (Unit {0})) → Still m → Creates name (note (creating name) >> m)
unfolding note
Creates-noted name m h log =
    After-map (λ l. l ≡ creating name ∷ log) _ (m (creating name ∷ log)) (h (creating name ∷ log))
      (λ l e. inr e)

Creates-bind :
    {A : Type 0} (name : String) (m : Act A) (f : A → Act (Unit {0}))
    → Still m
    → ((a : A) → Creates name (f a))
    → Creates name (m >>= f)
Creates-bind name m f h k log =
    After-bind (λ l. l ≡ log) (λ l. (l ≡ log) ⊎ (l ≡ creating name ∷ log)) (m log) f (h log)
      (λ l e. inl e)
      (λ a l e. subst (λ z. After (λ x. (x ≡ z) ⊎ (x ≡ creating name ∷ z)) (f a l)) e (k a l))

module _ (n : Numeric) (digest_of : List ℕ → String) (allowed : Value n.F → Bool)
    (token : String) where
  open n use {F}

  await_tasks-Still :
      (vs : Items F) (ws : List (List (Turn F))) (log : List Event)
      → After (λ l. l ≡ log) (await_tasks n digest_of allowed token vs ws log)
  unfolding await_tasks require of_wait
  await_tasks-Still nil ws log = refl
  await_tasks-Still (cons v vs) [] log = ground arith
  await_tasks-Still (cons v vs) (w ∷ ws) log = ground (arith, await_tasks-Still vs ws log)

  poll-Still :
      (name : String) (size : ℕ) (ps : List (List (Try F) × Bool)) (log : List Event)
      → After (λ l. l ≡ log) (poll n digest_of allowed token name size ps log)
  unfolding poll of_called require
  poll-Still name size [] log = refl
  poll-Still name size ((tries, remaining) ∷ more) log =
      ground (arith, poll-Still name size more log)

  upload-Creates :
      (name : String) (t : Transfer F) → Creates name (upload n digest_of allowed token name t)
  unfolding upload note of_called require of_wait
  upload-Creates name t log = ground arith

  pull-Creates :
      (name : String) (size : ℕ) (t : Transfer F)
      → Creates name (pull n digest_of allowed token name size t)
  unfolding pull note of_called of_option require tasks_of
  pull-Creates name size t log = grind (arith, await_tasks-Still, poll-Still)

  pub transfer-Creates :
      (url : Option Text) (name : String) (size : ℕ) (t : Transfer F)
      → Creates name (transfer n digest_of allowed token url name size t)
  unfolding transfer
  transfer-Creates none name size t = upload-Creates name t
  transfer-Creates (some url) name size t = pull-Creates name size t

  -- A listing that passes this test, asked for without a token.
  abbrev pub Listing : (List String → Bool) → List (Try F) → Type 0
  Listing test tries =
      (files : List String) × (list_files n "" false tries ≡ Called.returned files)
      × (test files ≡ true)

  pub require-Ends :
      {X : Type 0}
      → (b : Bool) (log : List Event) → (b ≡ true → X)
      → Ends (λ l. l ≡ log) (λ _ l. (l ≡ log) × X) (require b log)
  unfolding require
  require-Ends true log k = (refl, k refl)
  require-Ends false log k = refl

  pub Listing-Ends :
      (test : List String → Bool) (tries : List (Try F)) (c : Called (List String))
      (log : List Event)
      → list_files n "" false tries ≡ c
      → Ends
          (λ l. l ≡ log)
          (λ _ l. (l ≡ log) × Listing test tries)
          ((of_called c >>= λ files. require (test files)) log)
  unfolding of_called
  Listing-Ends test tries (Called.returned files) log e =
      require-Ends (test files) log (λ k. (files, e, k))
  Listing-Ends test tries Called.failed log e = refl
  Listing-Ends test tries Called.unfinished log e = refl

  noted-Ends :
      {X : Type 0}
      → (name : String) (b : Bool) (log : List Event) → (b ≡ true → X)
      → Ends
          (λ l. l ≡ log)
          (λ _ l. (l ≡ listed name ∷ log) × X)
          ((require b >> note (listed name)) log)
  unfolding require note
  noted-Ends name true log k = (refl, k refl)
  noted-Ends name false log k = refl

  seen-Ends :
      (name : String) (tries : List (Try F)) (c : Called (List String)) (log : List Event)
      → list_files n "" false tries ≡ c
      → Ends
          (λ l. l ≡ log)
          (λ _ l. (l ≡ listed name ∷ log) × Listing (contains_name name) tries)
          ((of_called c >>= λ files. require (contains_name name files) >> note (listed name)) log)
  unfolding of_called
  seen-Ends name tries (Called.returned files) log e =
      noted-Ends name (contains_name name files) log (λ k. (files, e, k))
  seen-Ends name tries Called.failed log e = refl
  seen-Ends name tries Called.unfinished log e = refl

  pub see-Ends :
      (name : String) (tries : List (Try F)) (log : List Event)
      → Ends
          (λ l. l ≡ log)
          (λ _ l. (l ≡ listed name ∷ log) × Listing (contains_name name) tries)
          (see n digest_of allowed token name tries log)
  unfolding see
  see-Ends name tries log = seen-Ends name tries (list_files n "" false tries) log refl

  -- One of the downloads of a check was whole, of this size and digest.
  abbrev pub Delivered : ℕ → String → Check F → Type 0
  Delivered size digest c =
      (bytes : List ℕ) × (length bytes ≡ size)
      × (digest_of bytes ≡ digest)
      × Gave digest_of size digest bytes c.downloads

  -- The same of a check whose metadata were given to a request without a token.
  abbrev pub Verified : ℕ → String → Check F → Type 0
  Verified size digest c =
      ((metadata : Value F) × (api n "" false fs_get c.metadata ≡ Called.returned metadata))
      × Delivered size digest c

  verdict-Ends :
      {X : Type 0}
      → (name digest : String) (v : Verdict) (log : List Event) → (v ≡ accepted → X)
      → Ends
          (λ l. l ≡ log)
          (λ _ l. (l ≡ read_back name digest ∷ log) × X)
          ((of_verdict v >> note (read_back name digest)) log)
  unfolding of_verdict note
  verdict-Ends name digest Verdict.accepted log k = (refl, k refl)
  verdict-Ends name digest Verdict.refused log k = refl
  verdict-Ends name digest Verdict.unfinished log k = refl

  checked-Ends :
      (name : String) (size : ℕ) (digest : String) (c : Check F) (m : Called (Value F))
      (log : List Event)
      → api n "" false fs_get c.metadata ≡ m
      → Ends
          (λ l. l ≡ log)
          (λ _ l. (l ≡ read_back name digest ∷ log) × Verified size digest c)
          ((of_called m >>= λ metadata.
              of_verdict
                (verify_public_file n digest_of allowed size digest (some metadata) c.downloads)
              >> note (read_back name digest))
            log)
  unfolding of_called
  checked-Ends name size digest c (Called.returned m) log e =
      verdict-Ends name digest
        (verify_public_file n digest_of allowed size digest (some m) c.downloads) log
        (λ k. ((m, e), verified_content n digest_of allowed size digest (some m) c.downloads k))
  checked-Ends name size digest c Called.failed log e = refl
  checked-Ends name size digest c Called.unfinished log e = refl

  pub check-Ends :
      (name : String) (size : ℕ) (digest : String) (c : Check F) (log : List Event)
      → Ends
          (λ l. l ≡ log)
          (λ _ l. (l ≡ read_back name digest ∷ log) × Verified size digest c)
          (check n digest_of allowed token name size digest c log)
  unfolding check
  check-Ends name size digest c log = checked-Ends name size digest c _ log refl
