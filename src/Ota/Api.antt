-- ===== src/Ota/Api.antt =====
-- The requests of class `OpenList` in publish_ota.py: `api` with its retries, `login`,
-- `list_file_info` and `list_files`. What the server answers to each attempt is an argument.
pub mod Attempts
use text.Mathlib.Text.{◌==◌ as str_eq}
use bxi_car_v.Base.{
  ℕ, suc, Bool, true, false, ◌&&◌, ◌||◌, not, Option, none, some, List, [], ◌∷◌, ltb, ◌==◌, String,
  if◌then◌else◌,
}
use bxi_car_v.Base.Int.{ℤ, pos}
use bxi_car_v.Base.Value.{
  Value, int, null, list, dict, str, Items, nil, cons, Fields, get, get_or, as_list, as_dict,
}
use bxi_car_v.Base.Numeric.{Numeric}
use bxi_car_v.Ota.Readback.{Broken, retry_transport_error, truthy, equals}

-- What an attempt gets: a body with its length and its JSON value (`none` being the ValueError of the
-- parser), or a break.
pub data Answer (F : Type 0) : Type 0 where
  body : ℕ → Option (Value F) → Answer F
  broke : Broken → Answer F

-- An attempt: whether time remains before it (as always without a deadline), its answer, and whether
-- time remains for a retry.
pub record Try (F : Type 0) : Type 0 where
  pub before : Bool
  pub answer : Answer F
  pub after : Bool

-- How a call ends; `unfinished` where the attempts given do not decide it.
pub data Called (A : Type 0) : Type 0 where
  returned : A → Called A
  failed unfinished : Called A

infixl 5 ◌>>=◌
abbrev pub ◌>>=◌ : {A B : Type 0} → Called A → (A → Called B) → Called B
c >>= f = elim c [ returned a ↦ f a | failed ↦ failed | unfinished ↦ unfinished ]

-- `2 * 1024 * 1024`
abbrev pub size_limit : ℕ
size_limit = 2097152

-- `RETRYABLE_API_REQUESTS`, by method and path.
pub data Endpoint : Type 0 where
  auth_login me fs_mkdir fs_list fs_get upload_info offline_info fs_put add_offline_download :
      Endpoint

unfoldable pub retryable : Endpoint → Bool
retryable fs_put = false
retryable add_offline_download = false
retryable _ = true

module _ (n : Numeric) where
  open n use {F}

  -- The result's `data`, for a dict with the code 200.
  result_of : Value F → Called (Value F)
  unfolding equals
  result_of (dict d) = if equals n (get "code" d) 200 then returned (get "data" d) else failed
  result_of _ = failed

  read : ℕ → Option (Value F) → Called (Value F)
  unfolding result_of
  read size none = failed
  read size (some v) = if ltb size_limit size then failed else result_of v

  -- One attempt, given how the call goes on after a retry.
  attempted : Bool → ℕ → Try F → Called (Value F) → Called (Value F)
  unfolding read
  attempted again k t rest = elim t.answer [
    | body size v ↦ read size v
    | broke exc ↦ if again && (retry_transport_error exc k && t.after) then rest else failed
  ]

  -- The loop of `api`, from an attempt on. A loop that runs out of its range has no result.
  unfoldable pub attempts : Bool → ℕ → List (Try F) → Called (Value F)
  unfolding attempted
  attempts again k [] = if ltb k 4 then unfinished else failed
  attempts again k (t ∷ ts) =
      let rest = attempts again (suc k) ts in
      if ltb k 4 then (if t.before then attempted again k t rest else failed) else failed

  -- `api`; an authenticated request needs a token.
  unfoldable pub api : String → Bool → Endpoint → List (Try F) → Called (Value F)
  api token authenticated endpoint tries =
      if authenticated && str_eq token "" then failed else attempts (retryable endpoint) 0 tries

  token_of : Value F → Called String
  token_of (str t) = if str_eq t "" then failed else returned t
  token_of _ = failed

  -- `login`; the answer is the token.
  unfoldable pub login : String → String → List (Try F) → Called String
  unfolding token_of
  login username password tries =
      if str_eq username "" || str_eq password ""
      then failed
      else api "" false auth_login tries >>= λ got. elim (as_dict got) [
        | none ↦ failed
        | some d ↦ token_of (get "token" d)
      ]

  -- An entry of the listing counts where it is a dict with a text as its name, and no directory.
  entry : Value F → List (String × Fields F) → List (String × Fields F)
  unfolding truthy
  entry (dict d) more = elim (get "name" d) [
    | str name ↦ if truthy n (get "is_dir" d) then more else (name, d) ∷ more
    | _ ↦ more
  ]
  entry _ more = more

  entries : Items F → List (String × Fields F)
  unfolding entry
  entries nil = []
  entries (cons v vs) = entry v (entries vs)

  count : Items F → ℕ
  count nil = 0
  count (cons v vs) = suc (count vs)

  -- `data.get('content') or []`
  content : Fields F → Value F
  unfolding truthy
  content d = if truthy n (get "content" d) then get "content" d else list nil

  listing : Fields F → Value F → Called (List (String × Fields F))
  unfolding entries count equals
  listing d (list vs) =
      if equals n (get_or "total" (int (pos (count vs))) d) (count vs)
      then returned (entries vs)
      else failed
  listing d _ = failed

  -- `list_file_info`; a later entry replaces an earlier one of its name.
  unfoldable pub list_file_info : String → Bool → List (Try F) → Called (List (String × Fields F))
  unfolding listing content
  list_file_info token authenticated tries = api token authenticated fs_list tries >>= λ got.
      elim (as_dict got) [ none ↦ failed | some d ↦ listing d (content d) ]

  names : {A : Type 0} → List (String × A) → List String
  names [] = []
  names ((name, v) ∷ more) = name ∷ names more

  -- `list_files`
  unfoldable pub list_files : String → Bool → List (Try F) → Called (List String)
  unfolding names
  list_files token authenticated tries =
      list_file_info token authenticated tries >>= λ files. returned (names files)
