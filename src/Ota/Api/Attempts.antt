-- ===== src/Ota/Api/Attempts.antt =====
-- A call of `api` makes a bounded number of attempts.
use bxi_car_v.Base.{
  ℕ, zero, suc, ◌+◌, ◌≤◌, Option, Bool, true, false, List, [], ◌∷◌, ◌≡◌, ◌≢◌, refl, arith, length,
  take, if◌then◌else◌, String,
}
use bxi_car_v.Base.Numeric.{Numeric}
use bxi_car_v.Base.Value.{Value}
use bxi_car_v.Ota.Api.{
  Try, Called, unfinished, Endpoint, fs_put, add_offline_download, retryable, read, result_of,
  attempted, attempts, api,
}

-- How many attempts a request may take: one to upload a file or to start a download, else four.
abbrev pub bound : Endpoint → ℕ
bound fs_put = 1
bound add_offline_download = 1
bound _ = 4

bound-retryable : (e : Endpoint) → bound e ≡ (if retryable e then 4 else 1)
unfolding retryable
bound-retryable fs_put = refl
bound-retryable add_offline_download = refl
bound-retryable _ = refl

module _ (n : Numeric) where
  open n use {F}

  read_decides : (size : ℕ) (v : Option (Value F)) → read n size v ≢ unfinished
  unfolding read result_of
  read_decides size v = ground arith

  attempted_decides :
      (again : Bool) (k : ℕ) (t : Try F) (rest : Called (Value F))
      → rest ≢ unfinished
      → attempted n again k t rest ≢ unfinished
  unfolding attempted
  attempted_decides again k t rest h = grind (arith, read_decides)

  -- With `room` attempts left in the range.
  attempts_bounded :
      (again : Bool) (room k : ℕ) (ts : List (Try F))
      → k + room ≡ 4
      → room ≤ length ts
      → (attempts n again k ts ≢ unfinished)
        × (attempts n again k ts ≡ attempts n again k (take room ts))
  unfolding attempts
  attempts_bounded again zero k [] h l = ground arith
  attempts_bounded again zero k (t ∷ ts) h l = ground arith
  attempts_bounded again (suc room) k [] h l = absurd (omega arith)
  attempts_bounded again (suc room) k (t ∷ ts) h l =
      let (decided, same) = attempts_bounded again room (suc k) ts (omega arith) (omega arith) in
      ground (arith, attempted_decides again k t (attempts n again (suc k) ts))

  attempted_once :
      (k : ℕ) (t : Try F) (rest other : Called (Value F))
      → (attempted n false k t rest ≢ unfinished)
        × (attempted n false k t rest ≡ attempted n false k t other)
  unfolding attempted
  attempted_once k t rest other = grind (arith, read_decides)

  attempts_once :
      (t : Try F) (ts : List (Try F))
      → (attempts n false 0 (t ∷ ts) ≢ unfinished)
        × (attempts n false 0 (t ∷ ts) ≡ attempts n false 0 (t ∷ []))
  unfolding attempts
  attempts_once t ts = ground (arith, attempted_once 0 t (attempts n false 1 ts) unfinished)

  attempts_by :
      (again : Bool) (ts : List (Try F))
      → (if again then 4 else 1) ≤ length ts
      → (attempts n again 0 ts ≢ unfinished)
        × (attempts n again 0 ts ≡ attempts n again 0 (take (if again then 4 else 1) ts))
  attempts_by true ts h = attempts_bounded true 4 0 ts refl h
  attempts_by false [] h = absurd (omega arith)
  attempts_by false (t ∷ ts) h = attempts_once t ts

  -- A call ends after at most four attempts, and one that uploads or starts a download after one: with
  -- that many answers given it has returned or failed, and no further attempt would change that.
  pub api_ends :
      (token : String) (authenticated : Bool) (e : Endpoint) (ts : List (Try F))
      → bound e ≤ length ts
      → (api n token authenticated e ts ≢ unfinished)
        × (api n token authenticated e ts ≡ api n token authenticated e (take (bound e) ts))
  unfolding api
  api_ends token authenticated e ts h =
      ground (arith, bound-retryable e, attempts_by (retryable e) ts)
