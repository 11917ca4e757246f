-- ===== src/Ota/Readback.antt =====
-- `retry_transport_error` and `verify_public_file` of publish_ota.py. What the server answers and each
-- download delivers are arguments, and so is the digest of bytes. A byte is a number.
use mathlib.Core.List.{flatten, append-nil, append_assoc}
use text.Mathlib.Text.{◌==◌ as str_eq}
use bxi_car_v.Base.{
  ℕ, suc, Bool, true, false, ◌&&◌, ◌||◌, not, Option, none, some, List, [], ◌∷◌, ◌++◌, ◌≡◌, ◌∙◌,
  ◌⊎◌, inl, inr, refl, sym, arith, ltb, leb, ◌==◌, ==_iff, eq_iff, length, String, if◌then◌else◌,
  Bool-cases,
}
use bxi_car_v.Base.Int.{pos, eq_ℤ}
use bxi_car_v.Base.Value.{
  Value, bool, int, float, str, list, null, dict, nil, cons, end, field, get,
}
use bxi_car_v.Base.Numeric.{Numeric}

-- An HTTP error with its code, or another failure of the transport.
pub data Broken : Type 0 where
  http : ℕ → Broken
  transport : Broken

-- One download: the blocks that came, and what broke it off, if anything did.
pub record Download : Type 0 where
  pub blocks : List (List ℕ)
  pub broken : Option Broken

-- How the check ends; `unfinished` where the downloads given do not decide it.
pub data Verdict : Type 0 where
  accepted refused unfinished : Verdict

-- `exc.code != 429 and not 500 <= exc.code < 600` refuses a retry.
may_pass : Broken → Bool
may_pass (http code) = code == 429 || (leb 500 code && ltb code 600)
may_pass transport = true

-- `retry_transport_error(exc, attempt)`, without a deadline.
unfoldable pub retry_transport_error : Broken → ℕ → Bool
unfolding may_pass
retry_transport_error exc attempt = may_pass exc && ltb attempt 3

-- The blocks of a response up to the expected size, `none` being an excess.
unfoldable pub receive : ℕ → List ℕ → List (List ℕ) → Option (List ℕ)
receive size got [] = some got
receive size got (b ∷ bs) =
    let rest = receive size (got ++ b) bs in if ltb size (length (got ++ b)) then none else rest

module _ (digest_of : List ℕ → String) (size : ℕ) (digest : String) where
  -- The comparison of a response that ended.
  compare : List ℕ → Verdict
  compare bytes =
      if not (length bytes == size) || not (str_eq (digest_of bytes) digest)
      then refused
      else accepted

  -- What an attempt leads to, given the verdict of the attempts after it.
  after_download : ℕ → Option (List ℕ) → Option Broken → Verdict → Verdict
  unfolding compare
  after_download attempt none broken rest = refused
  after_download attempt (some bytes) none rest = compare bytes
  after_download attempt (some bytes) (some exc) rest =
      if retry_transport_error exc attempt then rest else refused

  -- The loop over the attempts. Its range is the four attempts; a loop that runs out of them would
  -- return as if all were well.
  unfoldable pub read_back : ℕ → List Download → Verdict
  unfolding after_download receive
  read_back attempt [] = if ltb attempt 4 then unfinished else accepted
  read_back attempt (d ∷ ds) =
      let rest = read_back (suc attempt) ds in
      if ltb attempt 4
      then after_download attempt (receive size [] d.blocks) d.broken rest
      else accepted

  -- A download that was complete gave these bytes.
  abbrev pub Gave : List ℕ → List Download → Type 0
  Gave bytes [] = ⊥
  Gave bytes (d ∷ ds) = (flatten d.blocks ≡ bytes) × (d.broken ≡ none) ⊎ Gave bytes ds

  receive-flatten :
      (got : List ℕ) (bs : List (List ℕ)) {bytes : List ℕ}
      → receive size got bs ≡ some bytes
      → got ++ flatten bs ≡ bytes
  unfolding receive flatten
  receive-flatten got [] h = append-nil got ∙ ground arith
  receive-flatten got (b ∷ bs) h = elim (Bool-cases (ltb size (length (got ++ b)))) [
    | inl e ↦ absurd (cc (rw e at h))
    | inr e ↦ sym (append_assoc got b (flatten bs)) ∙ receive-flatten (got ++ b) bs (rw e at h)
  ]

  compare-accepted :
      (bytes : List ℕ)
      → compare bytes ≡ accepted
      → (length bytes ≡ size) × (digest_of bytes ≡ digest)
  unfolding compare
  compare-accepted bytes h =
      ground (arith, ==_iff (length bytes) size, eq_iff (digest_of bytes) digest)

  after_download-accepted :
      (attempt : ℕ) (got : Option (List ℕ)) (broken : Option Broken) (rest : Verdict)
      → after_download attempt got broken rest ≡ accepted
      → (ltb attempt 3 ≡ true) × (rest ≡ accepted)
        ⊎ (bytes : List ℕ) × (got ≡ some bytes) × (broken ≡ none) × (compare bytes ≡ accepted)
  unfolding after_download retry_transport_error
  after_download-accepted attempt none broken rest h = absurd (cc h)
  after_download-accepted attempt (some bytes) none rest h = inr (bytes, refl, refl, h)
  after_download-accepted attempt (some bytes) (some exc) rest h = inl (ground arith)

  read_back-accepted :
      (attempt : ℕ) (ds : List Download)
      → ltb attempt 4 ≡ true
      → read_back attempt ds ≡ accepted
      → (bytes : List ℕ) × (length bytes ≡ size) × (digest_of bytes ≡ digest) × Gave bytes ds
  unfolding read_back
  read_back-accepted attempt [] low h = absurd (cc (rw low at h))
  read_back-accepted attempt (d ∷ ds) low h =
      elim (after_download-accepted attempt (receive size [] d.blocks) d.broken
        (read_back (suc attempt) ds) (rw low at h)) [
          | inl (more, e) ↦
              let (bytes, a, b, c) = read_back-accepted (suc attempt) ds (ground arith) e in
              (bytes, a, b, inr c)
          | inr (bytes, got, ended, same) ↦
              let (a, b) = compare-accepted bytes same in
              (bytes, a, b, inl (receive-flatten [] d.blocks got, ended))
        ]

-- `bool(value)` of a JSON value.
unfoldable pub truthy : (n : Numeric) → Value n.F → Bool
truthy n null = false
truthy n (bool b) = b
truthy n (int z) = not (eq_ℤ z (pos 0))
truthy n (float f) = not (n.eq_int f (pos 0))
truthy n (str t) = not (str_eq t "")
truthy n (list nil) = false
truthy n (list (cons v vs)) = true
truthy n (dict end) = false
truthy n (dict (field k v d)) = true

-- `value == number`
unfoldable pub equals : (n : Numeric) → Value n.F → ℕ → Bool
equals n (int z) k = eq_ℤ z (pos k)
equals n (bool true) k = k == 1
equals n (bool false) k = k == 0
equals n (float f) k = n.eq_int f (pos k)
equals n _ k = false

module _ (n : Numeric) (digest_of : List ℕ → String) (allowed : Value n.F → Bool) (size : ℕ)
    (digest : String) where
  open n use {F}

  -- `verify_public_file`, where `allowed` is the answer of `validate_url`; the metadata is `none`
  -- where the request for it fails.
  unfoldable pub verify_public_file : Option (Value F) → List Download → Verdict
  unfolding truthy equals read_back
  verify_public_file (some (dict d)) downloads =
      let rest = read_back digest_of size digest 0 downloads in
      if truthy n (get "is_dir" d) || not (equals n (get "size" d) size)
      then refused
      else if allowed (get "raw_url" d)
      then rest
      else refused
  verify_public_file _ downloads = refused

  metadata_passed :
      (a b : Bool) (rest : Verdict)
      → (if a then refused else if b then rest else refused) ≡ accepted
      → rest ≡ accepted
  metadata_passed a b rest h = ground arith

  -- A published file is accepted only if one download ended unbroken with exactly the expected number
  -- of bytes and the expected digest; running out of the four attempts never passes for success.
  pub verified_content :
      (metadata : Option (Value F)) (downloads : List Download)
      → verify_public_file metadata downloads ≡ accepted
      → (bytes : List ℕ) × (length bytes ≡ size)
        × (digest_of bytes ≡ digest)
        × Gave digest_of size digest bytes downloads
  unfolding verify_public_file
  verified_content (some (dict d)) downloads h =
      read_back-accepted digest_of size digest 0 downloads refl (
        metadata_passed (truthy n (get "is_dir" d) || not (equals n (get "size" d) size))
          (allowed (get "raw_url" d)) (read_back digest_of size digest 0 downloads) h)
  verified_content _ downloads h = absurd (cc h)
