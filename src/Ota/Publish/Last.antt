-- ===== src/Ota/Publish/Last.antt =====
-- The order of the requests of `publish`: the checksum is created last, after the archive was read
-- back and seen by an anonymous client.
use bxi_car_v.Base.{ℕ, Bool, List, ◌&&◌, length, String}
use bxi_car_v.Base.Value.{Value}
use bxi_car_v.Base.Numeric.{Numeric}
use bxi_car_v.Ota.Paths.{Text}
use bxi_car_v.Ota.Publish.{Event, read_back, listed, Server, Release, contains_name, expected}
use bxi_car_v.Ota.Publish.Runs.{Runs}
use bxi_car_v.Ota.Publish.Order.{Has, HasAfter, IsOrdered, Listing, Verified}

module _ (n : Numeric) (digest_of : List ℕ → String) (allowed : Value n.F → Bool)
    (token : String) where
  open n use {F}

  -- The log of a publication so far.
  module _ (r : Release) (s : Server F) where
    abbrev archive_digest : String
    archive_digest = digest_of r.archive_bytes

    abbrev ArchiveDelivered : Type 0
    ArchiveDelivered =
        Verified n digest_of allowed token (length r.archive_bytes) archive_digest s.archive_check

    -- The archive's verification and listing, both anonymous.
    abbrev pub Evidence : Type 0
    Evidence =
        ArchiveDelivered
        × Listing n digest_of allowed token (contains_name r.archive) s.archive_listing

    abbrev Fine : List Event → Type 0
    Fine l = IsOrdered r.archive r.checksum archive_digest Evidence l

    abbrev Back : List Event → Type 0
    Back l = Fine l × Has (read_back r.archive archive_digest) l

    abbrev Seen : List Event → Type 0
    Seen l = Fine l × HasAfter (read_back r.archive archive_digest) (listed r.archive) l × Evidence

    abbrev checksum_digest : String
    checksum_digest = digest_of (expected n digest_of allowed token r)

    abbrev Done : List Event → Type 0
    Done l = Seen l × Has (read_back r.checksum checksum_digest) l

    abbrev ChecksumDelivered : Type 0
    ChecksumDelivered =
        Verified n digest_of allowed token (length (expected n digest_of allowed token r))
          checksum_digest s.checksum_check

    -- The last listing, anonymous too, has both files.
    abbrev BothListed : Type 0
    BothListed =
        Listing n digest_of allowed token
          (λ files. contains_name r.archive files && contains_name r.checksum files) s.final_listing

    abbrev Final : List Event → Type 0
    Final l = Done l × ChecksumDelivered × BothListed

    -- What `publish` leaves where it passes.
    abbrev pub Published : List Event → Type 0
    Published l = Done l × ArchiveDelivered × ChecksumDelivered × BothListed
