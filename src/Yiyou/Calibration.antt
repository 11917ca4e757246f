-- ===== src/Yiyou/Calibration.antt =====
-- The zero records of yiyou_control.py: `load_calibration`, `validate_calibration_document`,
-- `atomic_write_json`, `remove_record_before_zero`, `persist_record`, `require_home_records` and
-- `verify_home_records`. The state is the calibration file; how far the operating system takes a
-- write is an argument. A document stands for the text that `json.dumps` writes and `json.loads`
-- reads back, up to the order of its keys.
pub mod Home
use Prim.Native.String.{◌++◌}
use bxi_car_v.Base.{
  ℕ, suc, zero, ◌/◌, ◌%◌, Bool, true, false, ◌&&◌, ◌||◌, not, Option, none, some, List, [], ◌∷◌,
  ◌⊎◌, inl, inr, ◌≡◌, refl, sym, subst, arith, ltb, ◌==◌, contains, String, eq_iff, ==_iff,
  if◌then◌else◌,
}
use bxi_car_v.Base.Int.{ℤ, pos, negsuc, eq_ℤ}
use bxi_car_v.Base.Value.{
  Value, null, bool, int, float, str, list, dict, Items, nil, cons, Fields, end, field, as_dict,
  is_str, is_int, item, get, has, set, pop, count_items, all_items, item-set, item-pop,
}
use bxi_car_v.Base.Numeric.{Numeric}
use bxi_car_v.Base.Gate.{Gate, reject, pass, ◌>>=◌, ◌>>◌, pass_of_bind}

-- The exceptions: `UserError`, one of Python's own on a value of a wrong form, `OSError`, `EOFError`
-- and `KeyboardInterrupt`.
pub data Failure : Type 0 where
  user_error bad_value os_error end_of_input interrupted : Failure

-- What stands at the path.
pub data Stored (F : Type 0) : Type 0 where
  absent malformed : Stored F
  document : Value F → Stored F

-- How a write ends: complete; an OSError before `os.replace` or in it; or one after it.
pub data Disk : Type 0 where
  written not_replaced not_synced : Disk

-- `Axis`, without the text of `position_error`. In `identity` the bools stand as the ints that
-- Python takes them for.
pub record Axis (F : Type 0) : Type 0 where
  pub slave : ℤ
  pub identity : List ℤ
  pub scale : F
  pub position : ℤ
  pub current_permille : Option ℤ
  pub rated_current_ma : ℤ
  pub position_valid : Bool

digit_text : ℕ → String
digit_text d =
    if d == 0
    then "0"
    else if d == 1
    then "1"
    else if d == 2
    then "2"
    else if d == 3
    then "3"
    else if d == 4
    then "4"
    else if d == 5
    then "5"
    else if d == 6
    then "6"
    else if d == 7
    then "7"
    else if d == 8
    then "8"
    else "9"

-- `str(n)`, on fuel: a number below its fuel has all its digits.
number_text : ℕ → ℕ → String
unfolding digit_text
number_text zero n = ""
number_text (suc fuel) n =
    let front = number_text fuel (n / 10) in
    if ltb n 10 then digit_text n else front ++ digit_text (n % 10)

unfoldable pub record_key : String → ℕ → String
unfolding number_text
record_key interface slave = (interface ++ ":") ++ number_text (suc slave) slave

pub data Verdict : Type 0 where
  fine refused overflow : Verdict

module _ (n : Numeric) where
  open n use {F, le, eq, is_finite, of_int, eq_int, lit}

  abbrev pub FileAct : Type 0 → Type 0
  FileAct A = Stored F → Gate Failure (Stored F) A

  -- `value == CALIBRATION_VERSION`
  is_version : Value F → Bool
  is_version (int z) = eq_ℤ z (pos 2)
  is_version (float f) = eq_int f (pos 2)
  is_version _ = false

  judge : Option F → Verdict
  judge none = overflow
  judge (some f) = if is_finite f && not (le f (lit 0 0)) then fine else refused

  check_scale : Value F → Verdict
  unfolding judge
  check_scale (int z) = judge (of_int z)
  check_scale (float f) = judge (some f)
  check_scale _ = refused

  four_ints : Value F → Bool
  four_ints (list xs) = count_items xs == 4 && all_items is_int xs
  four_ints _ = false

  check_record : Value F → Verdict
  unfolding check_scale four_ints
  check_record (dict d) =
      if four_ints (get "identity" d) then check_scale (get "scale" d) else refused
  check_record _ = refused

  -- The loop over the records.
  check_records : Fields F → Verdict
  unfolding check_record
  check_records end = fine
  check_records (field k v d) = elim (check_record v) [
    | fine ↦ check_records d
    | refused ↦ refused
    | overflow ↦ overflow
  ]

  check_records_of : Value F → Verdict
  unfolding check_records
  check_records_of (dict r) = check_records r
  check_records_of _ = refused

  unfoldable pub validate_calibration_document : Value F → Verdict
  unfolding check_records_of is_version
  validate_calibration_document (dict d) =
      if is_version (get "version" d) && is_str "yiyou-ethercat-zero" (get "protocol" d)
      then check_records_of (get "records" d)
      else refused
  validate_calibration_document _ = refused

  unfoldable pub calibration_document : Fields F → Value F
  calibration_document records = dict (
      field "version" (int (pos 2))
        (field "protocol" (str "yiyou-ethercat-zero") (field "records" (dict records) end)))

  stop_at : Verdict → FileAct (Unit {0})
  stop_at fine s = pass tt s
  stop_at refused s = reject user_error s
  stop_at overflow s = reject bad_value s

  unfoldable pub load_calibration : Bool → FileAct (Value F)
  unfolding stop_at validate_calibration_document calibration_document
  load_calibration allow_missing absent =
      if allow_missing then pass (calibration_document end) absent else reject user_error absent
  load_calibration allow_missing malformed = reject user_error malformed
  load_calibration allow_missing (document v) =
      (stop_at (validate_calibration_document v) >>= λ _ s. pass v s) (document v)

  -- `data["records"]`, used as a dict.
  records_in : Option (Value F) → FileAct (Fields F)
  records_in (some (dict r)) s = pass r s
  records_in _ s = reject bad_value s

  unfoldable pub records_of : Value F → FileAct (Fields F)
  unfolding records_in
  records_of (dict d) s = records_in (item "records" d) s
  records_of _ s = reject bad_value s

  replace : Disk → Value F → FileAct (Unit {0})
  replace written v s = pass tt (document v)
  replace not_replaced v s = reject os_error s
  replace not_synced v s = reject os_error (document v)

  unfoldable pub atomic_write_json : Disk → Value F → FileAct (Unit {0})
  unfolding stop_at replace validate_calibration_document
  atomic_write_json disk v = stop_at (validate_calibration_document v) >> replace disk v

  -- The rest of `remove_record_before_zero` once the file is loaded.
  without_record : Disk → String → ℕ → Fields F → FileAct (Unit {0})
  unfolding atomic_write_json
  without_record disk interface slave records =
      atomic_write_json disk (calibration_document (pop (record_key interface slave) records))

  unfoldable pub remove_record_before_zero : Disk → String → ℕ → FileAct (Unit {0})
  unfolding load_calibration records_of without_record
  remove_record_before_zero disk interface slave =
      (load_calibration true >>= records_of) >>= without_record disk interface slave

  items_of : List ℤ → Items F
  items_of [] = nil
  items_of (z ∷ zs) = cons (int z) (items_of zs)

  -- The record that is kept of an axis.
  unfoldable pub axis_record : Axis F → Value F
  unfolding items_of
  axis_record axis =
      dict (field "identity" (list (items_of axis.identity)) (field "scale" (float axis.scale) end))

  unfoldable pub persist_record : Disk → String → ℕ → Axis F → FileAct (Unit {0})
  unfolding load_calibration records_of atomic_write_json
  persist_record disk interface slave axis = do
    found ← load_calibration true
    records ← records_of found
    atomic_write_json disk
        (calibration_document (set (record_key interface slave) (axis_record axis) records))

  all_present : String → List ℕ → Fields F → Bool
  all_present interface [] r = true
  all_present interface (slave ∷ slaves) r =
      has (record_key interface slave) r && all_present interface slaves r

  require_all : Bool → Value F → FileAct (Value F)
  require_all true v s = pass v s
  require_all false v s = reject user_error s

  unfoldable pub require_home_records : String → List ℕ → FileAct (Value F)
  unfolding load_calibration records_of all_present require_all
  require_home_records interface slaves = do
    found ← load_calibration false
    records ← records_of found
    require_all (all_present interface slaves records) found

  -- The axis of a slave among those that the backend reported.
  unfoldable pub axis_at : ℤ → List (Axis F) → Option (Axis F)
  axis_at slave [] = none
  axis_at slave (axis ∷ axes) = if eq_ℤ axis.slave slave then some axis else axis_at slave axes

  -- `record["identity"] != axis.identity`, negated, for a record that passed validation.
  same_items : Items F → List ℤ → Bool
  same_items nil [] = true
  same_items (cons (int a) xs) (b ∷ bs) = eq_ℤ a b && same_items xs bs
  same_items (cons (bool true) xs) (b ∷ bs) = eq_ℤ (pos 1) b && same_items xs bs
  same_items (cons (bool false) xs) (b ∷ bs) = eq_ℤ (pos 0) b && same_items xs bs
  same_items _ _ = false

  pub same_identity : Option (Value F) → List ℤ → Bool
  unfolding same_items
  same_identity (some (list xs)) identity = same_items xs identity
  same_identity _ identity = false

  -- `float(record["scale"]) == axis.scale`, for a record that passed validation.
  pub same_scale : Option (Value F) → F → Bool
  same_scale (some (float f)) scale = eq f scale
  same_scale (some (int z)) scale = elim (of_int z) [ none ↦ false | some f ↦ eq f scale ]
  same_scale _ scale = false

  matches : Option (Value F) → Option (Axis F) → Bool
  unfolding same_identity same_scale
  matches (some (dict d)) (some axis) =
      same_identity (item "identity" d) axis.identity && same_scale (item "scale" d) axis.scale
  matches _ _ = false

  -- The loop over the slaves; a mismatch and a missing key both end the program.
  all_match : String → List ℕ → List (Axis F) → Fields F → Bool
  unfolding matches axis_at
  all_match interface [] axes r = true
  all_match interface (slave ∷ slaves) axes r =
      matches (item (record_key interface slave) r) (axis_at (pos slave) axes)
      && all_match interface slaves axes r

  unfoldable pub verify_home_records : String → List ℕ → List (Axis F) → Fields F → Bool
  unfolding all_match
  verify_home_records interface slaves axes records =
      not (contains 4 slaves) && all_match interface slaves axes records

  -- The file holds a document without a record of the slave.
  abbrev pub Lacks : String → ℕ → Stored F → Type 0
  Lacks interface slave s =
      (r : Fields F) × (s ≡ document (calibration_document r))
      × (item (record_key interface slave) r ≡ none)

  written_lem :
      (verdict : Verdict) (disk : Disk) (v : Value F) (s : Stored F) {t : Stored F} {x : Unit {0}}
      → (stop_at verdict >> replace disk v) s ≡ pass x t
      → t ≡ document v
  unfolding stop_at replace
  written_lem fine written v s h = ground arith
  written_lem fine not_replaced v s h = ground arith
  written_lem fine not_synced v s h = ground arith
  written_lem refused disk v s h = ground arith
  written_lem overflow disk v s h = ground arith

  pop_gone : (key : String) (r : Fields F) → item key (pop key r) ≡ none
  pop_gone key r = ground (arith, item-pop key key r, eq_iff key key)

  -- When `remove_record_before_zero` returns, the file holds no record of the slave.
  pub remove-Lacks :
      (disk : Disk) (interface : String) (slave : ℕ) (s : Stored F) {t : Stored F} {x : Unit {0}}
      → remove_record_before_zero disk interface slave s ≡ pass x t
      → Lacks interface slave t
  unfolding remove_record_before_zero without_record atomic_write_json
  remove-Lacks disk interface slave s h =
      let (records, u, e, rest) =
        pass_of_bind ((load_calibration true >>= records_of) s)
          (without_record disk interface slave) h in
      (
        pop (record_key interface slave) records,
        written_lem
            (validate_calibration_document
              (calibration_document (pop (record_key interface slave) records)))
            disk (calibration_document (pop (record_key interface slave) records)) u rest,
        pop_gone (record_key interface slave) records,
      )

  all_present-false :
      (interface : String) (slave : ℕ) (slaves : List ℕ) (r : Fields F)
      → contains slave slaves ≡ true
      → item (record_key interface slave) r ≡ none
      → all_present interface slaves r ≡ false
  unfolding all_present has
  all_present-false interface slave [] r h e = ground arith
  all_present-false interface slave (x ∷ xs) r h e =
      ground (arith, ==_iff slave x, all_present-false interface slave xs r)

  refusal :
      (verdict : Verdict) (interface : String) (slave : ℕ) (slaves : List ℕ) (r : Fields F)
      → contains slave slaves ≡ true
      → item (record_key interface slave) r ≡ none
      → (why : Failure) × ((((stop_at verdict >>= λ _ s. pass (calibration_document r) s)
              >>= λ found. records_of found >>= λ records.
                  require_all (all_present interface slaves records) found)
            (document (calibration_document r)))
          ≡ reject why (document (calibration_document r)))
  unfolding stop_at records_of records_in require_all calibration_document item
  refusal fine interface slave slaves r h gone =
      (user_error, rw (all_present-false interface slave slaves r h gone))
  refusal refused interface slave slaves r h gone = (user_error, refl)
  refusal overflow interface slave slaves r h gone = (bad_value, refl)

  -- Without a record of one of its slaves, homing is refused.
  pub Lacks-refused :
      (interface : String) (slave : ℕ) (slaves : List ℕ) (s : Stored F)
      → contains slave slaves ≡ true
      → Lacks interface slave s
      → (why : Failure) × (require_home_records interface slaves s ≡ reject why s)
  unfolding require_home_records load_calibration
  Lacks-refused interface slave slaves s h (r, e, gone) =
      subst (λ t. (why : Failure) × (require_home_records interface slaves t ≡ reject why t))
        (sym e)
        (refusal (validate_calibration_document (calibration_document r)) interface slave slaves r h
          gone)
