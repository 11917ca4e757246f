-- ===== src/Examples/Torque.antt =====
-- A recording of three rows, and its summary and plot.
use bxi_car_v.Base.Value.{Value}
use bxi_car_v.Torque.Reports.{generate_report}
use bxi_car_v.Torque.Reports.Targets.{Writes, report_spares}
use bxi_car_v.Base.{true}
use bxi_car_v.Base.{◌&&◌, leb, drop, ℕ, none, Bool}
use bxi_car_v.Base.Gate.{After, Ends}
use bxi_car_v.Base.Value.{dict, str, end, field}
use bxi_car_v.Torque.Files.{
  Name, Directory, regular, symlink, owned_completed_csvs, cleanup_old_reports, is_owned_csv,
  before, same,
}
use bxi_car_v.Torque.Files.Cleanup.{AllGone, cleanup_outcome}
use bxi_car_v.Torque.Files.Removal.{Spared}
use bxi_car_v.Base.{some, List, [], ◌∷◌, All, length, ◌≤◌, ◌≡◌, inl, inr, refl, String}
use bxi_car_v.Base.Int.{ℤ}
use bxi_car_v.Torque.Rows.{
  Motor, m1, Units, nm, Row, Table, iter_rows, choose_motor_units, motor_value, has_column,
  parse_float, cell, column, calculated_nm,
}
use bxi_car_v.Base.Text.{strip_text, codes}
use bxi_car_v.Torque.Rows.Feedback.{Kept, units_keep_feedback}
use bxi_car_v.Torque.Summary.{summarize}
use bxi_car_v.Torque.Summary.Peaks.{IsBest, values_of, summary_peaks}
use bxi_car_v.Torque.Plot.{plot_series}
use bxi_car_v.Torque.Plot.Extremes.{Shows, HasValue, plot_keeps_extremes}
use bxi_car_v.Torque.Plot.Size.{plot_bounded}
use bxi_car_v.Examples.Micro.{numbers, numbers-OrderLaws, numbers-EqLaws}
use bxi_car_v.Examples.Tracking.{m}

abbrev row : String → String → Row
row elapsed torque =
    ("elapsed_s", elapsed) ∷ ("motor1_permille", torque) ∷ ("motor1_rated_mnm", " 2000 ") ∷ []

abbrev table : Table
table = record {
  fieldnames = some ("elapsed_s" ∷ "motor1_permille" ∷ "motor1_rated_mnm" ∷ []);
  rows = row "1" "30" ∷ row "" "99" ∷ row "2" "" ∷ row "3" "50" ∷ [];
}

abbrev nm_only : Motor → Units
nm_only motor = nm

abbrev rows : List (ℤ × Row)
rows = iter_rows numbers table

units_keep_feedback_example :
    All
      (Kept numbers numbers-OrderLaws m1 (choose_motor_units numbers table m1))
      (iter_rows numbers table)
units_keep_feedback_example = units_keep_feedback numbers numbers-OrderLaws refl table m1

summary_peaks_example :
    let e = (summarize numbers nm_only table).motors m1 in
    let vs = values_of numbers m1 nm (iter_rows numbers table) in
    (e.valid_samples ≡ length vs)
    × IsBest numbers.lt e.peak_positive vs
    × IsBest (λ a b. numbers.lt b a) e.peak_negative vs
    × IsBest (λ a b. numbers.lt (numbers.abs a) (numbers.abs b)) e.peak_abs vs
summary_peaks_example = summary_peaks numbers numbers-OrderLaws nm_only table m1

values : values_of numbers m1 nm (iter_rows numbers table) ≡ m 60000 ∷ m 100000 ∷ []
unfolding values_of motor_value iter_rows has_column parse_float cell strip_text codes column
    calculated_nm
values = refl

has_peak :
    HasValue numbers numbers-OrderLaws numbers-EqLaws m1 nm (m 100000) (iter_rows numbers table)
unfolding motor_value iter_rows has_column parse_float cell strip_text codes column calculated_nm
has_peak = inr (inr (inl refl))

plot_keeps_extremes_example :
    Shows numbers numbers-OrderLaws numbers-EqLaws
      (m 100000)
      (plot_series numbers 3 nm_only table m1)
plot_keeps_extremes_example =
    plot_keeps_extremes numbers numbers-OrderLaws numbers-EqLaws 3 nm_only table m1 (m 100000)
      has_peak

plot_bounded_example : length (plot_series numbers 3 nm_only table m1) ≤ 18000
plot_bounded_example = plot_bounded numbers 3 nm_only table m1

abbrev ascii_digit : ℕ → Bool
ascii_digit c = leb 48 c && leb c 57

abbrev old_csv : Name
old_csv = codes "arm-torque-20250101-120000-000001-7.csv"

abbrev new_csv : Name
new_csv = codes "arm-torque-20250102-120000-000001-7.csv"

-- The older recording has a marked summary, whose image is a symbolic link.
abbrev recordings : Directory ℤ
recordings =
    (old_csv, regular none)
    ∷ (
      codes "arm-torque-20250101-120000-000001-7.json",
      regular (some (dict (field "generated_by" (str "arm_torque_report.py") end))),
    )
    ∷ (codes "arm-torque-20250101-120000-000001-7.png", symlink true)
    ∷ (new_csv, regular none)
    ∷ (codes "notes.csv", regular none)
    ∷ []

oldest_goes : drop 1 (owned_completed_csvs ascii_digit recordings) ≡ old_csv ∷ []
unfolding owned_completed_csvs is_owned_csv codes same before
oldest_goes = refl

cleanup_outcome_example :
    After
      (Spared (drop 1 (owned_completed_csvs ascii_digit recordings)) recordings)
      (cleanup_old_reports ascii_digit 1 recordings)
    × Ends
        (λ e. Unit {0})
        (λ _. AllGone (drop 1 (owned_completed_csvs ascii_digit recordings)))
        (cleanup_old_reports ascii_digit 1 recordings)
cleanup_outcome_example = cleanup_outcome ascii_digit 1 recordings

abbrev document : Bool → Value ℤ
document with_image = dict (field "generated_by" (str "arm_torque_report.py") end)

report_spares_example :
    After (Writes old_csv recordings) (generate_report old_csv 3 document true true recordings)
report_spares_example = report_spares old_csv 3 document true true recordings
