-- ===== src/Ota/Paths.antt =====
-- The checks of names, directories and URLs in publish_ota.py: the archive's name, `absolute_directory`,
-- the directory within the account of `account_directory`, `source_directory` and `validate_url`. A
-- text is the list of its code points; what `urlsplit` makes of a URL is an argument.
use bxi_car_v.Base.Text.{codes}
use bxi_car_v.Base.{
  ℕ, zero, suc, Bool, true, false, ◌&&◌, ◌||◌, not, Option, none, some, List, [], ◌∷◌, ◌++◌, ltb,
  leb, ◌==◌, if◌then◌else◌,
}

abbrev pub Text : Type 0
Text = List ℕ

unfoldable pub text_eq : Text → Text → Bool
text_eq [] [] = true
text_eq (a ∷ s) (b ∷ t) = a == b && text_eq s t
text_eq _ _ = false

pub is_empty : Text → Bool
is_empty [] = true
is_empty _ = false

-- The rest after a beginning.
after : Text → Text → Option Text
after [] s = some s
after (a ∷ p) [] = none
after (a ∷ p) (b ∷ s) = let rest = after p s in if a == b then rest else none

-- `text.split('/')`: the first part and the others.
split : Text → Text × List Text
split [] = ([], [])
split (c ∷ s) =
    let (first, more) = split s in if c == 47 then ([], first ∷ more) else (c ∷ first, more)

unfoldable pub parts : Text → List Text
unfolding split
parts s = let (first, more) = split s in first ∷ more

unfoldable pub has_dots : List Text → Bool
has_dots [] = false
has_dots (p ∷ ps) = text_eq p (codes "..") || has_dots ps

has_control : Text → Bool
has_control [] = false
has_control (c ∷ s) = ltb c 32 || has_control s

-- A `PurePosixPath` with a root: whether the root is "//", and the parts after it.
pub record PosixPath : Type 0 where
  pub double : Bool
  pub names : List Text

-- The parts that count: an empty one and "." are dropped.
kept : List Text → List Text
kept [] = []
kept (p ∷ ps) = let rest = kept ps in if is_empty p || text_eq p (codes ".") then rest else p ∷ rest

-- Whether the text begins with two slashes and no third.
double_slash : Text → Bool
double_slash s = elim (after (47 ∷ 47 ∷ []) s) [
  | none ↦ false
  | some rest ↦ elim (after (47 ∷ []) rest) [ none ↦ true | some more ↦ false ]
]

-- `absolute_directory(value)` of a text.
unfoldable pub absolute_directory : Text → Option PosixPath
unfolding after has_control kept double_slash
absolute_directory value = elim (after (47 ∷ []) value) [
  | none ↦ none
  | some rest ↦
      if has_dots (parts value) || has_control value
      then none
      else some (record { double = double_slash value; names = kept (parts value) })
]

unfoldable pub after_names : List Text → List Text → Option (List Text)
after_names [] ps = some ps
after_names (b ∷ bs) [] = none
after_names (b ∷ bs) (p ∷ ps) = let rest = after_names bs ps in if text_eq b p then rest else none

same_root : Bool → Bool → Bool
same_root true b = b
same_root false b = not b

-- `public.relative_to(base)`
unfoldable pub relative_to : PosixPath → PosixPath → Option (List Text)
unfolding same_root
relative_to public base =
    if same_root public.double base.double then after_names base.names public.names else none

unfoldable pub joined : List Text → Text
joined [] = []
joined (p ∷ ps) = (47 ∷ []) ++ (p ++ joined ps)

-- `'/' if str(relative) == '.' else '/' + str(relative)`
unfoldable pub in_account : List Text → Text
in_account [] = 47 ∷ []
in_account (p ∷ ps) = joined (p ∷ ps)

-- `\d` for a test of decimal digits, `[1-9]` and the end of the archive's name.
module _ (decimal : ℕ → Bool) where
  digits_then_end : Text → Bool
  digits_then_end [] = false
  digits_then_end (c ∷ s) =
      let rest = digits_then_end s in if decimal c then rest else text_eq (c ∷ s) (codes ".tar.gz")

  numbered : Text → Bool
  unfolding digits_then_end
  numbered [] = false
  numbered (c ∷ s) = leb 49 c && leb c 57 && digits_then_end s

  ending : Text → Bool
  unfolding after numbered
  ending s =
      text_eq s (codes ".tar.gz")
      || elim (after (45 ∷ []) s) [ none ↦ false | some rest ↦ numbered rest ]

  six : ℕ → Text → Bool
  unfolding ending
  six zero s = ending s
  six (suc k) [] = false
  six (suc k) (c ∷ s) = decimal c && six k s

  -- `re.fullmatch(r'car2_v\d{6}(?:-[1-9]\d*)?\.tar\.gz', name)`, the full stop being no decimal digit.
  unfoldable pub is_archive_name : Text → Bool
  unfolding after six
  is_archive_name name = elim (after (codes "car2_v") name) [
    | none ↦ false
    | some rest ↦ six 6 rest
  ]

-- What `urlsplit` makes of a URL, where it raises no ValueError: the port may raise one yet (`none`),
-- and may be absent; the user's name, the password, the query and the fragment count by whether they
-- are there and not empty.
pub record Url : Type 0 where
  pub scheme : Text
  pub hostname : Option Text
  pub port : Option (Option ℕ)
  pub has_credentials : Bool
  pub has_query_or_fragment : Bool
  pub path : Text

is_host : Option Text → Text → Bool
is_host none name = false
is_host (some h) name = text_eq h name

good_port : Option (Option ℕ) → Bool
good_port none = false
good_port (some none) = true
good_port (some (some p)) = p == 443

-- `re.fullmatch(r'/[^/]+/[^/]+/releases/download/[^/]+/?', path)`, by the parts of the path.
release_parts : List Text → Bool
unfolding is_empty
release_parts (root ∷ owner ∷ repository ∷ releases ∷ download ∷ tag ∷ more) =
    is_empty root
    && not (is_empty owner)
    && not (is_empty repository)
    && text_eq releases (codes "releases")
    && text_eq download (codes "download")
    && not (is_empty tag)
    && elim more [
      | [] ↦ true
      | last ∷ others ↦ is_empty last && elim others [ [] ↦ true | o ∷ os ↦ false ]
    ]
release_parts _ = false

-- `value.rstrip('/')`
rstrip_slash : Text → Text
rstrip_slash [] = []
rstrip_slash (c ∷ s) = elim (rstrip_slash s) [
  | [] ↦ if c == 47 then [] else c ∷ []
  | d ∷ ds ↦ c ∷ d ∷ ds
]

-- `source_directory(value)`, for what `urlsplit(value)` gives.
unfoldable pub source_directory : Option Url → Text → Option Text
unfolding is_host good_port release_parts rstrip_slash
source_directory none value = none
source_directory (some u) value =
    if text_eq u.scheme (codes "https")
      && is_host u.hostname (codes "github.com")
      && good_port u.port
      && not u.has_credentials
      && not u.has_query_or_fragment
      && release_parts (parts u.path)
    then some (rstrip_slash value)
    else none

has_host : Option Text → Bool
has_host none = false
has_host (some h) = not (is_empty h)

has_port : Option (Option ℕ) → Bool
has_port none = false
has_port (some p) = true

is_local : Option Text → Bool
unfolding is_host
is_local h =
    is_host h (codes "127.0.0.1") || is_host h (codes "::1") || is_host h (codes "localhost")

-- `validate_url(url)`, whether it passes.
unfoldable pub validate_url : Bool → Option Url → Bool
unfolding is_host has_host has_port is_local
validate_url allow_local_http none = false
validate_url allow_local_http (some u) =
    (text_eq u.scheme (codes "https")
      || allow_local_http && text_eq u.scheme (codes "http") && is_local u.hostname)
    && has_host u.hostname
    && not u.has_credentials
    && has_port u.port
