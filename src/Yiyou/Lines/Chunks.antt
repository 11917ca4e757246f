-- ===== src/Yiyou/Lines/Chunks.antt =====
-- The polls of yiyou_control.py give the same events however the backend's bytes are cut.
use Prim.Native.String.{String}
use mathlib.Core.List.{append_assoc, append-nil}
use bxi_car_v.Base.{
  ℕ, true, false, Option, none, some, List, [], ◌∷◌, ◌++◌, ◌≡◌, ◌⊎◌, inl, inr, refl, ap, sym, ◌∙◌,
  ◌==◌, Bool-cases, subst,
}
use bxi_car_v.Base.Gate.{reject, pass}
use bxi_car_v.Base.Value.{Value, Fields}
use bxi_car_v.Yiyou.Lines.{
  Trouble, Reads, blocked, at_end, chunk, Polled, joined, continue, after_line, read_line,
  take_lines, poll_events, poll_all,
}

abbrev pub Result : Type 0 → Type 0
Result F = Trouble ⊎ (List (Fields F) × List ℕ)

-- What a poll tells: the exception, or the events and the bytes left for the next poll.
pub outcome : {F : Type 0} → Polled F → Result F
outcome (reject why rest) = inl why
outcome (pass events rest) = inr (events, rest)

-- The bytes that a poll reads, and those that several read.
bytes_of : Reads → List ℕ
bytes_of blocked = []
bytes_of at_end = []
bytes_of (chunk b bs more) = (b ∷ bs) ++ bytes_of more

pub all_bytes : List Reads → List ℕ
unfolding bytes_of
all_bytes [] = []
all_bytes (reads ∷ more) = bytes_of reads ++ all_bytes more

-- Without an end of line.
abbrev IsPartial : List ℕ → Type 0
IsPartial [] = Unit
IsPartial (b ∷ bs) = (b == b'\n' ≡ false) × IsPartial bs

extend-IsPartial : (l : List ℕ) (b : ℕ) → IsPartial l → b == b'\n' ≡ false → IsPartial (l ++ b ∷ [])
extend-IsPartial [] b h e = (e, tt)
extend-IsPartial (a ∷ l) b h e = (h.0, extend-IsPartial l b h.1 e)

module _ {F : Type 0} where
  add : List (Fields F) → Result F → Result F
  add events (inl why) = inl why
  add events (inr (later, rest)) = inr (events ++ later, rest)

  bind : Result F → (List ℕ → Result F) → Result F
  unfolding add
  bind (inl why) k = inl why
  bind (inr (events, rest)) k = add events (k rest)

  outcome-joined :
      (events : List (Fields F)) (g : Polled F) → outcome (joined events g) ≡ add events (outcome g)
  unfolding outcome joined add
  outcome-joined events (reject why rest) = refl
  outcome-joined events (pass later rest) = refl

  outcome-continue :
      (g : Polled F) (k : List ℕ → Polled F)
      → outcome (continue g k) ≡ bind (outcome g) (λ rest. outcome (k rest))
  unfolding outcome continue bind
  outcome-continue (reject why rest) k = refl
  outcome-continue (pass events rest) k = outcome-joined events (k rest)

  add-add :
      (first second : List (Fields F)) (r : Result F)
      → add (first ++ second) r ≡ add first (add second r)
  unfolding add
  add-add first second (inl why) = refl
  add-add first second (inr (later, rest)) =
      ap (λ events. inr (events, rest)) (append_assoc first second later)

  add_nothing : (r : Result F) → add [] r ≡ r
  unfolding add
  add_nothing (inl why) = refl
  add_nothing (inr (later, rest)) = refl

  bind-add :
      (events : List (Fields F)) (r : Result F) (k : List ℕ → Result F)
      → bind (add events r) k ≡ add events (bind r k)
  unfolding bind add
  bind-add events (inl why) k = refl
  bind-add events (inr (later, rest)) k = add-add events later (k rest)

  -- The bytes that are left hold no whole line.
  abbrev Clean : Result F → Type 0
  Clean (inl why) = Unit
  Clean (inr (events, rest)) = IsPartial rest

  add-Clean : (events : List (Fields F)) (r : Result F) → Clean r → Clean (add events r)
  unfolding add
  add-Clean events (inl why) h = tt
  add-Clean events (inr (later, rest)) h = h

  bind_agrees :
      (r : Result F) (j k : List ℕ → Result F)
      → Clean r
      → ((rest : List ℕ) → IsPartial rest → j rest ≡ k rest)
      → bind r j ≡ bind r k
  unfolding bind
  bind_agrees (inl why) j k c h = refl
  bind_agrees (inr (events, rest)) j k c h = ap (add events) (h rest c)

  -- What a line does to the result of the bytes after it.
  told : Trouble ⊎ Option (Fields F) → Result F → Result F
  unfolding add
  told (inl why) r = inl why
  told (inr none) r = r
  told (inr (some event)) r = add (event ∷ []) r

  outcome-after_line :
      (t : Trouble ⊎ Option (Fields F)) (bs : List ℕ) (g : Polled F)
      → outcome (after_line t bs g) ≡ told t (outcome g)
  unfolding outcome after_line told
  outcome-after_line (inl why) bs g = refl
  outcome-after_line (inr none) bs g = refl
  outcome-after_line (inr (some event)) bs g = outcome-joined (event ∷ []) g

  told-bind :
      (t : Trouble ⊎ Option (Fields F)) (r : Result F) (k : List ℕ → Result F)
      → told t (bind r k) ≡ bind (told t r) k
  unfolding told bind
  told-bind (inl why) r k = refl
  told-bind (inr none) r k = refl
  told-bind (inr (some event)) r k = sym (bind-add (event ∷ []) r k)

  told-Clean : (t : Trouble ⊎ Option (Fields F)) (r : Result F) → Clean r → Clean (told t r)
  unfolding told
  told-Clean (inl why) r h = tt
  told-Clean (inr none) r h = h
  told-Clean (inr (some event)) r h = add-Clean (event ∷ []) r h

module _ {F : Type 0} (decode : List ℕ → String) (loads : String → Option (Value F)) where
  taken : List ℕ → List ℕ → Result F
  taken line bs = outcome (take_lines decode loads line bs)

  taken_end :
      (line bs : List ℕ) (b : ℕ)
      → b == b'\n' ≡ true
      → taken line (b ∷ bs) ≡ told (read_line decode loads line) (taken [] bs)
  unfolding taken take_lines
  taken_end line bs b e =
      ap
        (λ t. outcome (elim t [
          | true ↦ after_line (read_line decode loads line) bs (take_lines decode loads [] bs)
          | false ↦ take_lines decode loads (line ++ b ∷ []) bs
        ]))
        e
      ∙ outcome-after_line (read_line decode loads line) bs (take_lines decode loads [] bs)

  taken_inside :
      (line bs : List ℕ) (b : ℕ)
      → b == b'\n' ≡ false
      → taken line (b ∷ bs) ≡ taken (line ++ b ∷ []) bs
  unfolding taken take_lines
  taken_inside line bs b e =
      ap
        (λ t. outcome (elim t [
          | true ↦ after_line (read_line decode loads line) bs (take_lines decode loads [] bs)
          | false ↦ take_lines decode loads (line ++ b ∷ []) bs
        ]))
        e

  -- Bytes that come in two parts.
  taken-append :
      (line xs ys : List ℕ) → taken line (xs ++ ys) ≡ bind (taken line xs) (λ rest. taken rest ys)
  unfolding taken take_lines outcome bind
  taken-append line [] ys = sym (add_nothing (taken line ys))
  taken-append line (b ∷ xs) ys = elim (Bool-cases (b == b'\n')) [
    | inl e ↦
        taken_end line (xs ++ ys) b e
        ∙ ap (told (read_line decode loads line)) (taken-append [] xs ys)
        ∙ told-bind (read_line decode loads line) (taken [] xs) (λ rest. taken rest ys)
        ∙ ap (λ r. bind r (λ rest. taken rest ys)) (sym (taken_end line xs b e))
    | inr e ↦
        taken_inside line (xs ++ ys) b e
        ∙ taken-append (line ++ b ∷ []) xs ys
        ∙ ap (λ r. bind r (λ rest. taken rest ys)) (sym (taken_inside line xs b e))
  ]

  -- The start of a line may as well be read already.
  taken_start :
      (line start ys : List ℕ)
      → IsPartial start
      → taken line (start ++ ys) ≡ taken (line ++ start) ys
  taken_start line [] ys h = ap (λ l. taken l ys) (sym (append-nil line))
  taken_start line (b ∷ start) ys h =
      taken_inside line (start ++ ys) b h.0
      ∙ taken_start (line ++ b ∷ []) start ys h.1
      ∙ ap (λ l. taken l ys) (append_assoc line (b ∷ []) start)

  taken-Clean : (line bs : List ℕ) → IsPartial line → Clean (taken line bs)
  unfolding taken take_lines outcome
  taken-Clean line [] h = h
  taken-Clean line (b ∷ bs) h = elim (Bool-cases (b == b'\n')) [
    | inl e ↦
        subst Clean (sym (taken_end line bs b e))
          (told-Clean (read_line decode loads line) (taken [] bs) (taken-Clean [] bs tt))
    | inr e ↦
        subst Clean (sym (taken_inside line bs b e))
          (taken-Clean (line ++ b ∷ []) bs (extend-IsPartial line b h e))
  ]

  poll_events-taken :
      (reads : Reads) (buffer : List ℕ)
      → IsPartial buffer
      → outcome (poll_events decode loads reads buffer) ≡ taken buffer (bytes_of reads)
  unfolding poll_events bytes_of taken take_lines outcome
  poll_events-taken blocked buffer h = refl
  poll_events-taken at_end buffer h = refl
  poll_events-taken (chunk b bs more) buffer h =
      let now = buffer ++ b ∷ bs in
      outcome-continue (take_lines decode loads [] now) (poll_events decode loads more)
      ∙ bind_agrees (taken [] now) (λ rest. outcome (poll_events decode loads more rest))
          (λ rest. taken rest (bytes_of more)) (taken-Clean [] now tt) (poll_events-taken more)
      ∙ sym (taken-append [] now (bytes_of more))
      ∙ ap (taken []) (append_assoc buffer (b ∷ bs) (bytes_of more))
      ∙ taken_start [] buffer ((b ∷ bs) ++ bytes_of more) h

  poll_all-taken :
      (polls : List Reads) (buffer : List ℕ)
      → IsPartial buffer
      → outcome (poll_all decode loads polls buffer) ≡ taken buffer (all_bytes polls)
  unfolding poll_all all_bytes taken take_lines outcome
  poll_all-taken [] buffer h = refl
  poll_all-taken (reads ∷ more) buffer h =
      outcome-continue (poll_events decode loads reads buffer) (poll_all decode loads more)
      ∙ ap (λ r. bind r (λ rest. outcome (poll_all decode loads more rest)))
          (poll_events-taken reads buffer h)
      ∙ bind_agrees (taken buffer (bytes_of reads))
          (λ rest. outcome (poll_all decode loads more rest)) (λ rest. taken rest (all_bytes more))
          (taken-Clean buffer (bytes_of reads) h) (poll_all-taken more)
      ∙ sym (taken-append buffer (bytes_of reads) (all_bytes more))

  -- Polls that start with an empty buffer, however many there are and however the bytes that they
  -- read are cut into chunks, tell what the loop over the lines tells of all these bytes at once: the
  -- same events in the same order and the same bytes left, or the same exception.
  pub poll_all_lem :
      (polls : List Reads)
      → outcome (poll_all decode loads polls [])
        ≡ outcome (take_lines decode loads [] (all_bytes polls))
  unfolding taken
  poll_all_lem polls = poll_all-taken polls [] tt
