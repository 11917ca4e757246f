-- ===== src/Ota/Publish.antt =====
-- `account_directory`, `upload`, `pull` and `publish` of publish_ota.py. What the server answers is an
-- argument. The log has the requests that change the server, the latest first, and what was checked
-- between them. A PublishError is `refused`; `undecided` is where the answers given do not reach an end.
pub mod Order
pub mod Runs
pub mod Last
use text.Mathlib.Text.{◌==◌ as str_eq}
use bxi_car_v.Base.{
  ℕ, Bool, true, false, ◌&&◌, ◌||◌, not, Option, none, some, List, [], ◌∷◌, ◌++◌, length, ltb, ◌==◌,
  String, if◌then◌else◌,
}
use bxi_car_v.Base.Gate.{Gate, reject, pass, ◌>>=◌, ◌>>◌}
use bxi_car_v.Base.Text.{codes}
use bxi_car_v.Base.Value.{Value, null, str, Items, nil, cons, Fields, dict, list, get, has, as_dict}
use bxi_car_v.Base.Numeric.{Numeric}
use bxi_car_v.Ota.Readback as Readback
use bxi_car_v.Ota.Readback.{Download, Verdict, verify_public_file, equals}
use bxi_car_v.Ota.Task.{Turn, Wait, done, failed, waiting, wait_for_upload}
use bxi_car_v.Ota.Api as Api
use bxi_car_v.Ota.Api.{
  Try, Called, returned, unfinished, Endpoint, me, fs_mkdir, fs_get, fs_put, add_offline_download,
  api, list_files, list_file_info,
}
use bxi_car_v.Ota.Paths.{
  Text, text_eq, PosixPath, absolute_directory, relative_to, in_account, is_archive_name, Url,
  source_directory,
}

pub data Stop : Type 0 where
  refused undecided : Stop

pub data Event : Type 0 where
  made_directory : Event
  -- a request to create the file, with its digest or from the release's URL
  creating : String → Event
  -- the file passed `verify_public_file` with this digest
  read_back : String → String → Event
  -- the file is in the anonymous listing
  listed : String → Event

abbrev pub Act : Type 0 → Type 0
Act A = List Event → Gate Stop (List Event) A

-- What the server does with `upload` or with `pull`, whichever is called.
pub record Transfer (F : Type 0) : Type 0 where
  pub listing : List (Try F)
  pub request : List (Try F)
  -- the turns of waiting, by task
  pub waits : List (List (Turn F))
  -- the listings until the file is there, with whether time remains after each
  pub polls : List (List (Try F) × Bool)

-- What the server answers to a file's verification.
pub record Check (F : Type 0) : Type 0 where
  pub metadata : List (Try F)
  pub downloads : List Download

pub record Server (F : Type 0) : Type 0 where
  pub account : List (Try F)
  pub mkdir : List (Try F)
  pub existing : List (Try F)
  pub catalog : List (Try F)
  pub archive_transfer : Transfer F
  pub archive_check : Check F
  pub archive_listing : List (Try F)
  pub checksum_transfer : Transfer F
  pub checksum_check : Check F
  pub final_listing : List (Try F)

-- The arguments: the two files, the public directory, and the release's URL with what `urlsplit` makes
-- of it, if one is given.
pub record Release : Type 0 where
  pub archive : String
  pub checksum : String
  pub are_regular : Bool
  pub archive_bytes : List ℕ
  pub checksum_bytes : List ℕ
  pub directory : String
  pub source : Option (Option Url × Text)

unfoldable pub contains_name : String → List String → Bool
contains_name x [] = false
contains_name x (y ∷ ys) = str_eq x y || contains_name x ys

ascii : Text → Bool
ascii [] = true
ascii (c ∷ s) = ltb c 128 && ascii s

pub require : Bool → Act (Unit {0})
require true log = pass tt log
require false log = reject refused log

note : Event → Act (Unit {0})
note e log = pass tt (e ∷ log)

pub of_called : {A : Type 0} → Called A → Act A
of_called (returned a) log = pass a log
of_called Called.failed log = reject refused log
of_called unfinished log = reject undecided log

pub of_option : {A : Type 0} → Option A → Act A
of_option none log = reject refused log
of_option (some a) log = pass a log

of_verdict : Verdict → Act (Unit {0})
of_verdict Verdict.accepted log = pass tt log
of_verdict Verdict.refused log = reject refused log
of_verdict Verdict.unfinished log = reject undecided log

of_wait : Wait → Act (Unit {0})
of_wait done log = pass tt log
of_wait failed log = reject refused log
of_wait waiting log = reject undecided log

module _ (n : Numeric) (digest_of : List ℕ → String) (allowed : Value n.F → Bool)
    (token : String) where
  open n use {F}

  text_of : Value F → Option Text
  text_of (str s) = some (codes s)
  text_of _ = none

  -- The id of a task: a text that is not empty.
  is_id : Value F → Bool
  is_id (str s) = not (str_eq s "")
  is_id _ = false

  id_of : Value F → Bool
  unfolding is_id
  id_of (dict d) = is_id (get "id" d)
  id_of _ = false

  -- `account_directory`
  unfoldable pub account_directory : Text → List (Try F) → Act Text
  unfolding of_called of_option text_of
  account_directory public tries = do
    user ← of_called (api n token true me tries)
    d ← of_option (as_dict user)
    base_text ← of_option (text_of (get "base_path" d))
    base ← of_option (absolute_directory base_text)
    p ← of_option (absolute_directory public)
    relative ← of_option (relative_to p base)
    pass (in_account relative)

  nth_wait : List (List (Turn F)) → List (Turn F)
  nth_wait [] = []
  nth_wait (w ∷ ws) = w

  task_field : Value F → Bool
  unfolding id_of
  task_field (dict d) = id_of (get "task" d)
  task_field _ = false

  -- `upload`
  unfoldable pub upload : String → Transfer F → Act (Unit {0})
  unfolding note of_called require of_wait task_field nth_wait
  upload name t = do
    note (creating name)
    answer ← of_called (api n token true fs_put t.request)
    require (task_field answer)
    of_wait (wait_for_upload (nth_wait t.waits))

  -- The loop over the tasks of an offline download.
  await_tasks : Items F → List (List (Turn F)) → Act (Unit {0})
  unfolding require of_wait id_of
  await_tasks nil waits = pass tt
  await_tasks (cons task more) [] = do require (id_of task); reject undecided
  await_tasks (cons task more) (w ∷ ws) = do
    require (id_of task)
    of_wait (wait_for_upload w)
    await_tasks more ws

  -- `tasks = data['tasks']`, `none` where it is no list.
  tasks_of : Value F → Option (Items F)
  tasks_of null = some nil
  tasks_of (list vs) = some vs
  tasks_of _ = none

  -- `files.get(name, {})`: the last of the entries.
  file_entry : String → List (String × Fields F) → Option (Fields F)
  file_entry name [] = none
  file_entry name ((k, d) ∷ more) = elim (file_entry name more) [
    | none ↦ if str_eq k name then some d else none
    | some e ↦ some e
  ]

  has_size : ℕ → Option (Fields F) → Bool
  unfolding equals
  has_size size none = false
  has_size size (some d) = equals n (get "size" d) size

  -- The loop until the file has its size.
  unfoldable pub poll : String → ℕ → List (List (Try F) × Bool) → Act (Unit {0})
  unfolding of_called require file_entry has_size
  poll name size [] = reject undecided
  poll name size ((tries, remaining) ∷ more) = do
    files ← of_called (list_file_info n token true tries)
    require remaining
    if has_size size (file_entry name files) then pass tt else poll name size more

  -- `pull`
  unfoldable pub pull : String → ℕ → Transfer F → Act (Unit {0})
  unfolding of_called of_option require note await_tasks tasks_of poll
  pull name size t = do
    files ← of_called (list_files n token true t.listing)
    if contains_name name files then pass tt else (do
      note (creating name)
      answer ← of_called (api n token true add_offline_download t.request)
      d ← of_option (as_dict answer)
      require (has "tasks" d)
      tasks ← of_option (tasks_of (get "tasks" d))
      await_tasks tasks t.waits
      poll name size t.polls)

  -- `verify_public_file(file, public_directory, digest)`; a failing request for the metadata ends it.
  unfoldable pub check : String → ℕ → String → Check F → Act (Unit {0})
  unfolding of_called of_verdict note
  check name size digest c = do
    metadata ← of_called (api n "" false fs_get c.metadata)
    of_verdict (verify_public_file n digest_of allowed size digest (some metadata) c.downloads)
    note (read_back name digest)

  -- `if name not in client.list_files(public_directory, authenticated=False): raise`
  unfoldable pub see : String → List (Try F) → Act (Unit {0})
  unfolding of_called require note
  see name tries = do
    files ← of_called (list_files n "" false tries)
    require (contains_name name files)
    note (listed name)

  unfoldable pub transfer : Option Text → String → ℕ → Transfer F → Act (Unit {0})
  transfer none name size t = upload name t
  transfer (some url) name size t = pull name size t

  source_of : Option (Option Url × Text) → Act (Option Text)
  unfolding of_option
  source_of none = pass none
  source_of (some (url, value)) = do base ← of_option (source_directory url value); pass (some base)

  -- `f'{digest}  {archive.name}\n'`
  pub expected : Release → Text
  expected r = codes (digest_of r.archive_bytes) ++ (32 ∷ 32 ∷ []) ++ codes r.archive ++ (10 ∷ [])

  -- The checks of the two local files.
  local_checks : (ℕ → Bool) → Release → Act (Unit {0})
  unfolding require ascii expected
  local_checks decimal r = do
    require (is_archive_name decimal (codes r.archive))
    require (text_eq (codes r.checksum) (codes r.archive ++ codes ".sha256"))
    require r.are_regular
    require (ascii (expected r))
    require (text_eq r.checksum_bytes (expected r))

  make_directory : Text → List (Try F) → Act (Unit {0})
  unfolding note of_called
  make_directory directory tries =
      if text_eq directory (47 ∷ [])
      then pass tt
      else (do note made_directory; answer ← of_called (api n token true fs_mkdir tries); pass tt)

  unless : Bool → Act (Unit {0}) → Act (Unit {0})
  unless true act = pass tt
  unless false act = act

  -- The archive: its transfer unless it is there, its verification, and the anonymous listing.
  unfoldable pub put_archive : Release → Option Text → Server F → List String → Act (Unit {0})
  unfolding unless
  put_archive r url s existing = do
    unless (contains_name r.archive existing)
        (transfer url r.archive (length r.archive_bytes) s.archive_transfer)
    check r.archive (length r.archive_bytes) (digest_of r.archive_bytes) s.archive_check
    see r.archive s.archive_listing

  both_listed : Release → List (Try F) → Act (Unit {0})
  unfolding of_called require
  both_listed r tries = do
    files ← of_called (list_files n "" false tries)
    require (contains_name r.archive files && contains_name r.checksum files)

  -- The checksum, and the last listing.
  unfoldable pub put_checksum : Release → Option Text → Server F → List String → Act (Unit {0})
  unfolding unless expected both_listed
  put_checksum r url s existing = do
    unless (contains_name r.checksum existing)
        (transfer url r.checksum (length (expected r)) s.checksum_transfer)
    check r.checksum (length (expected r)) (digest_of (expected r)) s.checksum_check
    both_listed r s.final_listing

  -- The part of `publish` from the listing on.
  unfoldable pub exchange : Release → Option Text → Server F → List String → Act (Unit {0})
  unfolding require
  exchange r url s existing = do
    require (not (contains_name r.checksum existing && not (contains_name r.archive existing)))
    put_archive r url s existing
    put_checksum r url s existing

  -- The directory within the account, which is made unless it is the account's base. Normalising the
  -- public directory first, as the source does, leaves its parts as they are.
  directory_ready : Release → Server F → Act (Unit {0})
  unfolding of_option make_directory
  directory_ready r s = do
    public ← of_option (absolute_directory (codes r.directory))
    directory ← account_directory (codes r.directory) s.account
    make_directory directory s.mkdir

  -- `publish`
  unfoldable pub publish : (ℕ → Bool) → Release → Server F → Act (Unit {0})
  unfolding local_checks source_of of_called directory_ready
  publish decimal r s = do
    local_checks decimal r
    url ← source_of r.source
    directory_ready r s
    existing ← of_called (list_files n token true s.existing)
    catalog ← of_called (list_files n "" false s.catalog)
    exchange r url s existing
