-- ===== src/Yiyou/Slaves/RoundTrip.antt =====
-- The list of slaves that `BackendProcess` of yiyou_control.py writes for the backend.
use bxi_car_v.Base.Text.{is_space}
use bxi_car_v.Base.{
  ℕ, suc, zero, ◌+◌, ◌/◌, ◌%◌, ◌≤◌, Bool, true, false, ◌&&◌, not, Option, none, some, List, [], ◌∷◌,
  ◌++◌, ◌≡◌, ◌≢◌, refl, sym, ◌∙◌, ap, arith, ltb, ◌==◌, ==_iff, contains, if◌then◌else◌,
}
use bxi_car_v.Base.Int.{ℤ, pos, negsuc}
use bxi_car_v.Yiyou.Slaves.{
  Parsed, ok, err, empty_entry, IsFreshList, split, strip, lstrip, rstrip, int_of, admit,
  parse_part, parse_parts, parse_slaves, prepend,
}

-- `str(n)`, on fuel: a number below its fuel has all its digits.
show_digits : ℕ → ℕ → List ℕ → List ℕ
show_digits zero n ds = ds
show_digits (suc fuel) n ds =
    let rest = show_digits fuel (n / 10) ((b'0' + n % 10) ∷ ds) in
    if ltb n 10 then (b'0' + n) ∷ ds else rest

unfoldable pub show : ℕ → List ℕ
unfolding show_digits
show n = show_digits (suc n) n []

-- `",".join(map(str, slaves))`
unfoldable pub join : List ℕ → List ℕ
join [] = []
join (n ∷ []) = show n
join (n ∷ m ∷ ns) = show n ++ (b',' ∷ join (m ∷ ns))

-- A test of a position and of those before it, down to 0.
passes_down : (ℕ → Bool) → ℕ → Bool
passes_down test zero = test zero
passes_down test (suc last) = test (suc last) && passes_down test last

passed : (test : ℕ → Bool) (last n : ℕ) → n ≤ last → passes_down test last ≡ true → test n ≡ true
unfolding passes_down
passed test zero n near h = ap test (omega arith) ∙ h
passed test (suc last) n near h = ground (arith, at_last, passed test last n)
  where
    at_last : n ≡ suc last → test n ≡ test (suc last)
    at_last e = ap test e

no_comma : List ℕ → Bool
no_comma [] = true
no_comma (c ∷ cs) = not (c == b',') && no_comma cs

starts : List ℕ → Bool
starts [] = false
starts (c ∷ cs) = not (is_space c)

is_number : ℕ → Option ℤ → Bool
is_number n (some (pos m)) = m == n
is_number n _ = false

reads : ℕ → List ℕ → Bool
reads n [] = false
reads n (c ∷ cs) = is_number n (int_of (c ∷ cs))

good : ℕ → Bool
good n = no_comma (show n) && (starts (show n) && reads n (strip (show n)))

good_table : passes_down good 199 ≡ true
unfolding passes_down good no_comma starts reads is_number show strip int_of is_space
good_table = refl

good_at : (n : ℕ) → n ≤ 199 → good n ≡ true
good_at n h = passed good 199 n h good_table

split-plain : (cs : List ℕ) → no_comma cs ≡ true → split cs ≡ cs ∷ []
unfolding split prepend no_comma
split-plain [] h = refl
split-plain (c ∷ cs) h = ground (arith, split-plain cs)

split-comma :
    (cs rest : List ℕ) → no_comma cs ≡ true → split (cs ++ (b',' ∷ rest)) ≡ cs ∷ split rest
unfolding split prepend no_comma
split-comma [] rest h = refl
split-comma (c ∷ cs) rest h = ground (arith, split-comma cs rest)

strip_lem : (cs : List ℕ) → strip cs ≡ rstrip (lstrip cs)
unfolding strip
strip_lem cs = refl

kept_first :
    (c : ℕ) (r : List ℕ)
    → is_space c ≡ false
    → elim r [ [] ↦ if is_space c then [] else c ∷ [] | d ∷ ds ↦ c ∷ d ∷ ds ] ≢ []
kept_first c [] h = ground arith
kept_first c (d ∷ ds) h = ground arith

stripped : (cs : List ℕ) → starts cs ≡ true → rstrip (lstrip cs) ≢ []
unfolding starts lstrip rstrip
stripped [] h = absurd (cc h)
stripped (c ∷ cs) h = ground (arith, kept_first c (rstrip cs))

nonempty_strip : (cs : List ℕ) → starts cs ≡ true → strip cs ≢ []
nonempty_strip cs h e = stripped cs h (sym (strip_lem cs) ∙ e)

is_number_sound : (n : ℕ) (o : Option ℤ) → is_number n o ≡ true → o ≡ some (pos n)
unfolding is_number
is_number_sound n (some (pos m)) h = ground (arith, ==_iff m n)
is_number_sound n (some (negsuc m)) h = absurd (cc h)
is_number_sound n none h = absurd (cc h)

admitted :
    (n : ℕ) (text seen : List ℕ)
    → reads n text ≡ true
    → 1 ≤ n
    → n ≤ 199
    → contains n seen ≡ false
    → elim text [ [] ↦ err empty_entry | c ∷ cs ↦ admit seen (int_of (c ∷ cs)) ] ≡ ok n
unfolding admit reads
admitted n [] seen r low high fresh = absurd (cc r)
admitted n (c ∷ cs) seen r low high fresh = ground (arith, is_number_sound n (int_of (c ∷ cs)))

part_read :
    (n : ℕ) (part seen : List ℕ)
    → reads n (strip part) ≡ true
    → 1 ≤ n
    → n ≤ 199
    → contains n seen ≡ false
    → parse_part part seen ≡ ok n
unfolding parse_part
part_read n part seen r low high fresh = admitted n (strip part) seen r low high fresh

-- What the table says of a position.
good_parts :
    (n : ℕ)
    → n ≤ 199
    → (no_comma (show n) ≡ true) × (starts (show n) ≡ true) × (reads n (strip (show n)) ≡ true)
unfolding good
good_parts n h = ground (arith, good_at n h)

part_then :
    (n : ℕ) (part : List ℕ) (parts : List (List ℕ)) (seen ns : List ℕ)
    → parse_part part seen ≡ ok n
    → parse_parts parts (n ∷ seen) ≡ ok ns
    → parse_parts (part ∷ parts) seen ≡ ok (n ∷ ns)
unfolding parse_parts
part_then n part parts seen ns h k = ground arith

none_left : (seen : List ℕ) → parse_parts [] seen ≡ ok []
unfolding parse_parts
none_left seen = refl

parts_read :
    (n : ℕ) (ns seen : List ℕ)
    → IsFreshList seen (n ∷ ns)
    → parse_parts (split (join (n ∷ ns))) seen ≡ ok (n ∷ ns)
unfolding join
parts_read n [] seen (low, high, fresh, rest) =
    let (plain, digit, number) = good_parts n high in
    ap (λ parts. parse_parts parts seen) (split-plain (show n) plain)
    ∙ part_then n (show n) [] seen [] (part_read n (show n) seen number low high fresh)
        (none_left (n ∷ seen))
parts_read n (m ∷ ns) seen (low, high, fresh, rest) =
    let (plain, digit, number) = good_parts n high in
    ap (λ parts. parse_parts parts seen) (split-comma (show n) (join (m ∷ ns)) plain)
    ∙ part_then n (show n) (split (join (m ∷ ns))) seen (m ∷ ns)
        (part_read n (show n) seen number low high fresh) (parts_read m ns (n ∷ seen) rest)

starts-append : (cs ds : List ℕ) → starts cs ≡ true → starts (cs ++ ds) ≡ true
unfolding starts
starts-append [] ds h = absurd (cc h)
starts-append (c ∷ cs) ds h = h

starts-join : (n : ℕ) (ns : List ℕ) → n ≤ 199 → starts (join (n ∷ ns)) ≡ true
unfolding join
starts-join n [] h = (good_parts n h).1
starts-join n (m ∷ ns) h = starts-append (show n) (b',' ∷ join (m ∷ ns)) (good_parts n h).1

listed_lem :
    (value : List ℕ) {p : Parsed (List ℕ)}
    → strip value ≢ []
    → parse_parts (split value) [] ≡ p
    → parse_slaves value ≡ p
unfolding parse_slaves
listed_lem value h e = ground arith

-- The text that `BackendProcess` writes for the backend's `--slaves` is read by `parse_slaves`, which
-- reads the tool's own `--slaves`, as the same list, for any list of one or more positions in 1..199
-- without a repetition.
pub slaves_round_trip :
    (n : ℕ) (ns : List ℕ) → IsFreshList [] (n ∷ ns) → parse_slaves (join (n ∷ ns)) ≡ ok (n ∷ ns)
slaves_round_trip n ns h =
    listed_lem (join (n ∷ ns)) (nonempty_strip (join (n ∷ ns)) (starts-join n ns h.1))
      (parts_read n ns [] h)
