-- ===== src/Yiyou/Slaves.antt =====
-- `parse_slaves` and `parse_bus` of yiyou_control.py, and the Python text operations that they use.
-- A text is the list of its code points. The digits are the ASCII ones: Python's `int` reads the
-- other decimal digits of Unicode too, which no caller of these tools writes.
pub mod RoundTrip
use bxi_car_v.Base.{
  ℕ, suc, zero, ◌+◌, ◌-◌, ◌*◌, ◌≤◌, Bool, false, ◌&&◌, not, Option, none, some, List, [], ◌∷◌, ◌≡◌,
  refl, arith, leb, ◌==◌, contains, length, Nil-cases, ◌⊎◌, inl, inr, if◌then◌else◌,
}
use bxi_car_v.Base.Text.{is_space}
use bxi_car_v.Base.Int.{ℤ, pos, negsuc}

pub data SlaveError : Type 0 where
  none_listed empty_entry not_integer out_of_range not_unique : SlaveError

pub data Parsed (A : Type 0) : Type 0 where
  ok : A → Parsed A
  err : SlaveError → Parsed A

unfoldable pub lstrip : List ℕ → List ℕ
lstrip [] = []
lstrip (c ∷ cs) = if is_space c then lstrip cs else c ∷ cs

unfoldable pub rstrip : List ℕ → List ℕ
rstrip [] = []
rstrip (c ∷ cs) = elim (rstrip cs) [ [] ↦ if is_space c then [] else c ∷ [] | d ∷ ds ↦ c ∷ d ∷ ds ]

unfoldable pub strip : List ℕ → List ℕ
unfolding lstrip rstrip is_space
strip cs = rstrip (lstrip cs)

prepend : ℕ → List (List ℕ) → List (List ℕ)
prepend c [] = (c ∷ []) ∷ []
prepend c (w ∷ ws) = (c ∷ w) ∷ ws

-- `text.split(",")`
unfoldable pub split : List ℕ → List (List ℕ)
unfolding prepend
split [] = [] ∷ []
split (c ∷ cs) = if c == b',' then [] ∷ split cs else prepend c (split cs)

is_digit : ℕ → Bool
is_digit c = leb b'0' c && leb c b'9'

-- The digits after the first, where one underscore may stand between two.
digits : ℕ → List ℕ → Option ℕ
unfolding is_digit
digits acc [] = some acc
digits acc (c ∷ []) = if is_digit c then some (acc * 10 + (c - b'0')) else none
digits acc (c ∷ d ∷ cs) =
    let taken = digits (acc * 10 + (c - b'0')) (d ∷ cs) in
    let skipped = digits (acc * 10 + (d - b'0')) cs in
    if is_digit c then taken else if c == b'_' && is_digit d then skipped else none

magnitude : List ℕ → Option ℕ
unfolding digits
magnitude [] = none
magnitude (c ∷ cs) = if is_digit c then digits (c - b'0') cs else none

abbrev negated : ℕ → ℤ
negated zero = pos zero
negated (suc n) = negsuc n

signed : List ℕ → Option ℤ
unfolding magnitude
signed [] = none
signed (c ∷ cs) =
    if c == b'-'
    then elim (magnitude cs) [ none ↦ none | some n ↦ some (negated n) ]
    else if c == b'+'
    then elim (magnitude cs) [ none ↦ none | some n ↦ some (pos n) ]
    else elim (magnitude (c ∷ cs)) [ none ↦ none | some n ↦ some (pos n) ]

-- `int(text, 10)`, `none` being the ValueError.
unfoldable pub int_of : List ℕ → Option ℤ
unfolding signed strip
int_of cs = signed (strip cs)

abbrev pub in_range : ℤ → Bool
in_range (pos n) = leb 1 n && leb n 199
in_range (negsuc n) = false

abbrev pub natural : ℤ → ℕ
natural (pos n) = n
natural (negsuc n) = 0

abbrev push : ℕ → Parsed (List ℕ) → Parsed (List ℕ)
push n (ok ns) = ok (n ∷ ns)
push n (err e) = err e

-- The tests on an entry that is an integer.
admit : List ℕ → Option ℤ → Parsed ℕ
admit seen none = err not_integer
admit seen (some z) =
    if not (in_range z)
    then err out_of_range
    else if contains (natural z) seen
    then err not_unique
    else ok (natural z)

-- One round of the loop, before the entry is appended; `seen` are the entries so far.
unfoldable pub parse_part : List ℕ → List ℕ → Parsed ℕ
unfolding admit
parse_part part seen = elim (strip part) [
  | [] ↦ err empty_entry
  | c ∷ cs ↦ admit seen (int_of (c ∷ cs))
]

-- The loop over the parts; the result is what it appends to `seen`.
unfoldable pub parse_parts : List (List ℕ) → List ℕ → Parsed (List ℕ)
parse_parts [] seen = ok []
parse_parts (part ∷ parts) seen = elim (parse_part part seen) [
  | err e ↦ err e
  | ok n ↦ push n (parse_parts parts (n ∷ seen))
]

unfoldable pub parse_slaves : List ℕ → Parsed (List ℕ)
parse_slaves value = elim (strip value) [
  | [] ↦ err none_listed
  | c ∷ cs ↦ parse_parts (split value) []
]

-- `parse_bus`: `none` is its ArgumentTypeError.
unfoldable pub parse_bus : List ℕ → Option ℕ
unfolding int_of
parse_bus value = elim (int_of value) [
  | none ↦ none
  | some (pos n) ↦ if leb n 6 then some n else none
  | some (negsuc n) ↦ none
]

-- The positions of a result: each in range, and none twice nor among `seen`.
abbrev pub IsFreshList : List ℕ → List ℕ → Type 0
IsFreshList seen [] = Unit
IsFreshList seen (n ∷ ns) =
    (1 ≤ n) × (n ≤ 199) × (contains n seen ≡ false) × IsFreshList (n ∷ seen) ns

parse_part_sound :
    (part seen : List ℕ) {n : ℕ}
    → parse_part part seen ≡ ok n
    → (1 ≤ n) × (n ≤ 199) × (contains n seen ≡ false)
unfolding parse_part
parse_part_sound part seen h = ground arith

Parsed-cases :
    {A : Type 0} (p : Parsed A) → ((a : A) × (p ≡ ok a)) ⊎ ((e : SlaveError) × (p ≡ err e))
Parsed-cases (ok a) = inl (a, refl)
Parsed-cases (err e) = inr (e, refl)

push_inv :
    (n : ℕ) (p : Parsed (List ℕ)) {ns : List ℕ}
    → push n p ≡ ok ns
    → (rest : List ℕ) × (p ≡ ok rest) × (ns ≡ n ∷ rest)
push_inv n (ok rest) h = (rest, refl, ground arith)
push_inv n (err e) h = absurd (cc h)

-- What the entries of a successful loop satisfy, and how many there are.
parse_parts_sound :
    (parts : List (List ℕ)) (seen : List ℕ) {ns : List ℕ}
    → parse_parts parts seen ≡ ok ns
    → IsFreshList seen ns × (length ns ≡ length parts)
unfolding parse_parts
parse_parts_sound [] seen h = ground arith
parse_parts_sound (part ∷ parts) seen h = elim (Parsed-cases (parse_part part seen)) [
  | inr (e, failed) ↦ absurd (cc (rw (failed, parse_parts) at h))
  | inl (n, found) ↦
      let (rest, e1, e2) =
        push_inv n (parse_parts parts (n ∷ seen)) (rw (found, parse_parts) at h) in
      let (a, b, c) = parse_part_sound part seen found in
      let (fresh, count) = parse_parts_sound parts (n ∷ seen) e1 in
      rw e2 ((a, b, c, fresh), omega (arith, count))
]

length-split : (cs : List ℕ) → 1 ≤ length (split cs)
unfolding split
length-split [] = omega arith
length-split (c ∷ cs) = ground arith

-- A list of slaves that is accepted is not empty, every position is in 1..199, and none is repeated.
pub parse_slaves_sound :
    (value : List ℕ) {ns : List ℕ}
    → parse_slaves value ≡ ok ns
    → IsFreshList [] ns × (1 ≤ length ns)
unfolding parse_slaves
parse_slaves_sound value h = elim (Nil-cases (strip value)) [
  | inl blank ↦ absurd (cc (rw (blank, parse_slaves) at h))
  | inr (c, cs, text) ↦
      let (fresh, count) = parse_parts_sound (split value) [] (rw (text, parse_slaves) at h) in
      (fresh, omega (arith, count, length-split value))
]
