-- ===== src/Yiyou/Keys.antt =====
-- `class KeyReader` of yiyou_control.py. A byte is a number below 256. `_parse_complete` becomes a
-- recursion on the bytes from the index on; what it returns beside the keys is the new buffer.
use bxi_car_v.Base.{
  ℕ, ◌≤◌, Bool, true, false, ◌||◌, List, [], ◌∷◌, ◌++◌, ◌≡◌, refl, sym, arith, Bool-cases, inl, inr,
  ◌==◌, length, if◌then◌else◌,
}
use mathlib.Core.List.{flatten, append-nil, append_assoc}

pub data Key : Type 0 where
  ctrl_c quit zero_key up down right left : Key

abbrev with_key : Key → List Key × List ℕ → List Key × List ℕ
with_key k (keys, rest) = (k ∷ keys, rest)

abbrev is_arrow : ℕ → Bool
is_arrow c = c == 65 || (c == 66 || (c == 67 || c == 68))

-- {65: "up", 66: "down", 67: "right", 68: "left"}[code]
abbrev arrow : ℕ → Key
arrow c = if c == 65 then up else if c == 66 then down else if c == 67 then right else left

-- The key of one byte, and what an escape byte does, given the results further on.
abbrev plain : ℕ → List Key × List ℕ → List Key × List ℕ
plain b r =
    if b == 3
    then with_key ctrl_c r
    else if b == b'q' || b == b'Q'
    then with_key quit r
    else if b == b'z' || b == b'Z'
    then with_key zero_key r
    else r

unfoldable pub parse : List ℕ → List Key × List ℕ
parse [] = ([], [])
parse (b ∷ []) = if b == 27 then ([], b ∷ []) else plain b ([], [])
parse (b ∷ c ∷ []) =
    let r = parse (c ∷ []) in
    if b == 27 then (if c == b'[' then ([], b ∷ c ∷ []) else r) else plain b r
parse (b ∷ c ∷ d ∷ bs) =
    let r = parse (c ∷ d ∷ bs) in
    let arrowed = parse bs in
    if b == 27
    then (if c == b'[' then (if is_arrow d then with_key (arrow d) arrowed else r) else r)
    else plain b r

-- `read` with the bytes that were there, and `discard_pending`; the state is the buffer.
unfoldable pub read : List ℕ → List ℕ → List Key × List ℕ
unfolding parse
read bytes buffer = parse (buffer ++ bytes)

-- A sequence of reads, with all their keys.
unfoldable pub read_all : List (List ℕ) → List ℕ → List Key × List ℕ
read_all [] buffer = ([], buffer)
read_all (bytes ∷ more) buffer =
    let (keys, rest) = read bytes buffer in
    let (later, last) = read_all more rest in (keys ++ later, last)

-- What is kept between reads is the start of an escape sequence, so at most two bytes.
rest_bounded : (bs : List ℕ) → length (parse bs).1 ≤ 2
unfolding parse
rest_bounded [] = omega arith
rest_bounded (b ∷ []) = ground arith
rest_bounded (b ∷ c ∷ []) = ground (arith, rest_bounded (c ∷ []))
rest_bounded (b ∷ c ∷ d ∷ bs) = ground (arith, rest_bounded (c ∷ d ∷ bs), rest_bounded bs)

plain_extend :
    (b : ℕ) (r : List Key × List ℕ) (keys : List Key) (rest : List ℕ)
    → plain b (r.0 ++ keys, rest) ≡ ((plain b r).0 ++ keys, rest)
plain_extend b r keys rest = ground arith

plain_rest : (b : ℕ) (r : List Key × List ℕ) → (plain b r).1 ≡ r.1
plain_rest b r = ground arith

-- A byte that is no escape is taken by itself.
parse_other : (b : ℕ) (bs : List ℕ) → (b == 27) ≡ false → parse (b ∷ bs) ≡ plain b (parse bs)
unfolding parse
parse_other b [] h = rw h
parse_other b (c ∷ []) h = rw h
parse_other b (c ∷ d ∷ bs) h = rw h

parse-append_other :
    (b : ℕ) (bs more : List ℕ)
    → (b == 27) ≡ false
    → parse (bs ++ more)
      ≡ ((parse bs).0 ++ (parse ((parse bs).1 ++ more)).0, (parse ((parse bs).1 ++ more)).1)
    → parse (b ∷ bs ++ more) ≡ (
      (parse (b ∷ bs)).0 ++ (parse ((parse (b ∷ bs)).1 ++ more)).0,
      (parse ((parse (b ∷ bs)).1 ++ more)).1,
    )
parse-append_other b bs more h ih =
    rw (parse_other b (bs ++ more) h, parse_other b bs h)
      (rw (plain_rest b (parse bs)) (rw ih (plain_extend b (parse bs) _ _)))

-- An escape byte that no `[` follows is skipped.
parse_skip :
    (b c : ℕ) (bs : List ℕ)
    → (b == 27) ≡ true
    → (c == b'[') ≡ false
    → parse (b ∷ c ∷ bs) ≡ parse (c ∷ bs)
unfolding parse
parse_skip b c [] e h = rw (e, h)
parse_skip b c (d ∷ bs) e h = rw (e, h)

parse_escape :
    (b c : ℕ) (bs more : List ℕ)
    → (b == 27) ≡ true
    → (c == b'[') ≡ false
    → parse (c ∷ bs ++ more) ≡ (
      (parse (c ∷ bs)).0 ++ (parse ((parse (c ∷ bs)).1 ++ more)).0,
      (parse ((parse (c ∷ bs)).1 ++ more)).1,
    )
    → parse (b ∷ c ∷ bs ++ more) ≡ (
      (parse (b ∷ c ∷ bs)).0 ++ (parse ((parse (b ∷ c ∷ bs)).1 ++ more)).0,
      (parse ((parse (b ∷ c ∷ bs)).1 ++ more)).1,
    )
parse_escape b c bs more e h ih = rw (parse_skip b c (bs ++ more) e h, parse_skip b c bs e h) ih

-- Bytes that were kept and more bytes parse as if they had come at once.
parse-append :
    (bs more : List ℕ)
    → parse (bs ++ more)
      ≡ ((parse bs).0 ++ (parse ((parse bs).1 ++ more)).0, (parse ((parse bs).1 ++ more)).1)
unfolding parse
parse-append [] more = refl
parse-append (b ∷ []) more = elim (Bool-cases (b == 27)) [
  | inl escape ↦ rw escape
  | inr other ↦ parse-append_other b [] more other refl
]
parse-append (b ∷ c ∷ []) more = elim (Bool-cases (b == 27)) [
  | inr other ↦ parse-append_other b (c ∷ []) more other (parse-append (c ∷ []) more)
  | inl escape ↦ elim (Bool-cases (c == b'[')) [
    | inl bracket ↦ rw (escape, bracket)
    | inr other ↦ parse_escape b c [] more escape other (parse-append (c ∷ []) more)
  ]
]
parse-append (b ∷ c ∷ d ∷ bs) more = elim (Bool-cases (b == 27)) [
  | inr other ↦ parse-append_other b (c ∷ d ∷ bs) more other (parse-append (c ∷ d ∷ bs) more)
  | inl escape ↦ elim (Bool-cases (c == b'[')) [
    | inr other ↦ parse_escape b c (d ∷ bs) more escape other (parse-append (c ∷ d ∷ bs) more)
    | inl bracket ↦ elim (Bool-cases (is_arrow d)) [
      | inl arrowed ↦ rw (escape, bracket, arrowed) (rw (parse-append bs more))
      | inr other ↦ rw (escape, bracket, other) (parse-append (c ∷ d ∷ bs) more)
    ]
  ]
]

-- What is kept parses to no key and is kept again.
parse_kept : (bs : List ℕ) → parse (parse bs).1 ≡ ([], (parse bs).1)
unfolding parse
parse_kept [] = refl
parse_kept (b ∷ []) = ground arith
parse_kept (b ∷ c ∷ []) = ground (arith, parse_kept (c ∷ []))
parse_kept (b ∷ c ∷ d ∷ bs) = ground (arith, parse_kept (c ∷ d ∷ bs), parse_kept bs)

read_all_from :
    (chunks : List (List ℕ)) (buffer : List ℕ)
    → parse buffer ≡ ([], buffer)
    → read_all chunks buffer ≡ parse (buffer ++ flatten chunks)
unfolding read_all read flatten
read_all_from [] buffer h = rw append-nil (sym h)
read_all_from (bytes ∷ more) buffer h =
    rw (← append_assoc, parse-append (buffer ++ bytes) (flatten more))
      (rw (read_all_from more (parse (buffer ++ bytes)).1 (parse_kept (buffer ++ bytes))))

-- However the bytes of the terminal are cut into reads, the keys are those of all the bytes at once,
-- and so is what is kept at the end: an escape sequence split between reads is not lost.
pub read_all_lem : (chunks : List (List ℕ)) → read_all chunks [] ≡ parse (flatten chunks)
read_all_lem chunks = read_all_from chunks [] (unfold parse in refl)
