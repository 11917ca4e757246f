-- ===== src/Examples/Ota.antt =====
-- A published file whose first download breaks off.
use bxi_car_v.Base.{◌++◌, ◌&&◌, leb, take, ◌≢◌, Bool, arith}
use bxi_car_v.Base.Text.{codes}
use bxi_car_v.Base.Value.{null, list, Items, nil, cons}
use bxi_car_v.Ota.Api.{Try, body, broke, unfinished, fs_list, api, retryable}
use bxi_car_v.Ota.Api.Attempts.{bound, api_ends}
use bxi_car_v.Ota.Publish.{Transfer, Release, Server}
use bxi_car_v.Base.{
  ℕ, true, none, some, List, [], ◌∷◌, ◌≡◌, refl, length, String, ◌==◌, if◌then◌else◌,
}
use bxi_car_v.Base.Int.{ℤ, pos}
use bxi_car_v.Base.Value.{Value, int, str, dict, end, field, get, item}
use bxi_car_v.Ota.Readback.{
  Download, http, accepted, verify_public_file, verified_content, Gave, retry_transport_error,
}
use bxi_car_v.Ota.Task.{Turn, wait_for_upload, state_of, done, Succeeds, upload_succeeded}
use bxi_car_v.Examples.Micro.{numbers}

-- A digest by the number of bytes.
abbrev by_length : List ℕ → String
by_length bytes = if length bytes == 3 then "three" else "other"

abbrev downloads : List Download
downloads =
    record { blocks = (1 ∷ 2 ∷ []) ∷ []; broken = some (http 503) }
    ∷ record { blocks = (1 ∷ 2 ∷ []) ∷ (3 ∷ []) ∷ []; broken = none }
    ∷ []

abbrev metadata : Value ℤ
metadata = dict (field "size" (int (pos 3)) (field "raw_url" (str "https://host/file") end))

passes :
    verify_public_file numbers by_length (λ v. true) 3 "three" (some metadata) downloads ≡ accepted
unfolding verify_public_file get item retry_transport_error
passes = refl

verified_content_example :
    (bytes : List ℕ) × (length bytes ≡ 3)
    × (by_length bytes ≡ "three")
    × Gave by_length 3 "three" bytes downloads
verified_content_example =
    verified_content numbers by_length (λ v. true) 3 "three" (some metadata) downloads passes

abbrev turn : ℕ → Turn ℤ
turn k = record {
  before = true;
  task = some (dict (field "state" (int (pos k)) end));
  after = true;
}

finishes : wait_for_upload (turn 1 ∷ turn 8 ∷ turn 2 ∷ []) ≡ done
unfolding wait_for_upload state_of get item
finishes = refl

upload_succeeded_example : Succeeds (turn 1 ∷ turn 8 ∷ turn 2 ∷ [])
upload_succeeded_example = upload_succeeded (turn 1 ∷ turn 8 ∷ turn 2 ∷ []) finishes

-- A server's answer to one attempt.
abbrev says : Value ℤ → List (Try ℤ)
says v =
    record {
      before = true;
      answer = body 100 (some (dict (field "code" (int (pos 200)) (field "data" v end))));
      after = true;
    }
    ∷ []

abbrev lists : Items ℤ → List (Try ℤ)
lists vs = says (dict (field "content" (list vs) end))

abbrev named : String → Value ℤ
named name = dict (field "name" (str name) end)

abbrev a_task : Value ℤ
a_task = dict (field "task" (dict (field "id" (str "1") end)) end)

abbrev moves : Transfer ℤ
moves = record {
  listing = lists nil;
  request = says a_task;
  waits = (turn 1 ∷ turn 2 ∷ []) ∷ [];
  polls = [];
}

abbrev a_release : Release
a_release = record {
  archive = "car2_v250101.tar.gz";
  checksum = "car2_v250101.tar.gz.sha256";
  are_regular = true;
  archive_bytes = 1 ∷ 2 ∷ 3 ∷ [];
  checksum_bytes = codes "three  car2_v250101.tar.gz" ++ (10 ∷ []);
  directory = "/ELF3/car2";
  source = none;
}

abbrev a_server : Server ℤ
a_server = record {
  account = says (dict (field "base_path" (str "/ELF3") end));
  mkdir = says null;
  existing = lists nil;
  catalog = lists nil;
  archive_transfer = moves;
  archive_check = record { metadata = says metadata; downloads = downloads };
  archive_listing = lists (cons (named "car2_v250101.tar.gz") nil);
  checksum_transfer = moves;
  checksum_check = record {
    metadata =
        says (dict (field "size" (int (pos 27)) (field "raw_url" (str "https://host/sum") end)));
    downloads = record { blocks = a_release.checksum_bytes ∷ []; broken = none } ∷ [];
  };
  final_listing =
      lists (cons (named "car2_v250101.tar.gz") (cons (named "car2_v250101.tar.gz.sha256") nil));
}

abbrev ascii_digit : ℕ → Bool
ascii_digit c = leb 48 c && leb c 57

abbrev allow_all : Value ℤ → Bool
allow_all v = true

abbrev broken_tries : List (Try ℤ)
broken_tries =
    record { before = true; answer = broke (http 503); after = true }
    ∷ record { before = true; answer = broke (http 429); after = true }
    ∷ record { before = true; answer = broke (http 500); after = true }
    ∷ record { before = true; answer = broke (http 503); after = true }
    ∷ []

api_ends_example :
    (api numbers "token" true fs_list broken_tries ≢ unfinished)
    × (api numbers "token" true fs_list broken_tries
        ≡ api numbers "token" true fs_list (take (bound fs_list) broken_tries))
unfolding retryable
api_ends_example = api_ends numbers "token" true fs_list broken_tries (omega arith)
