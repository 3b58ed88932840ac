-- ===== src/Installations.antt =====
-- app/services/installations.py: where a device is installed, and when. Ids and times come parsed:
-- a form field that is empty is `none`, and a text that is no ISO time is `unreadable`.
pub mod Invariant
use sim_mdms_auto.Prelude.{
  ℕ, Bool, true, false, not, ◌&&◌, ◌||◌, Option, none, some, List, [], ◌∷◌, ◌++◌, Text, codes, ltb,
  ◌==◌, if◌then◌else◌, is_none, is_some, text_eq, strip, lower, non_empty, or_empty, scalar, get,
  modify, next_id, HasId,
}

pub data InstallationError : Type 0 where
  device_not_found service_point_not_found missing_status : InstallationError
  invalid_installation_status overlapping_open_installation : InstallationError
  removed_at_before_installed_at active_installation_cannot_have_removed_at : InstallationError
  missing_removed_at missing_device_id missing_service_point_id : InstallationError
  missing_installed_at invalid_installed_at invalid_removed_at : InstallationError

pub data Result {ℓ} (A : Type ℓ) : Type ℓ where
  ok : A → Result A
  err : InstallationError → Result A

infixl 5 ◌>>=◌
abbrev pub ◌>>=◌ {ℓ κ} : {A : Type ℓ} {B : Type κ} → Result A → (A → Result B) → Result B
ok a >>= f = f a
err e >>= f = err e

abbrev pub guard : Bool → InstallationError → Result (Unit {0})
guard true e = ok tt
guard false e = err e

pub data InstallationStatus : Type 0 where
  installed removed : InstallationStatus

pub record Device : Type 0 where
  pub id : ℕ

pub record ServicePoint : Type 0 where
  pub id : ℕ

pub record InstallationHistory : Type 0 where
  pub id : ℕ
  pub device_id : ℕ
  pub service_point_id : ℕ
  pub installed_at : ℕ
  pub removed_at : Option ℕ
  pub status : InstallationStatus
  pub created_by_user_account_id : Option ℕ
  pub updated_by_user_account_id : Option ℕ

instance abbrev pub device_row_id : HasId Device
device_row_id = record { row_id = λ r. r.id }

instance abbrev pub service_point_row_id : HasId ServicePoint
service_point_row_id = record { row_id = λ r. r.id }

instance abbrev pub installation_row_id : HasId InstallationHistory
installation_row_id = record { row_id = λ r. r.id }

pub record Tables : Type 0 where
  pub devices : List Device
  pub service_points : List ServicePoint
  pub installations : List InstallationHistory

-- a time field of the form, after `datetime.fromisoformat` and the conversion to UTC
pub data TimeField : Type 0 where
  empty unreadable : TimeField
  time : ℕ → TimeField

pub record Form : Type 0 where
  pub device_id : Option ℕ
  pub service_point_id : Option ℕ
  pub installed_at : TimeField
  pub removed_at : TimeField
  pub status : Option Text
  pub user_account_id : Option ℕ

unfoldable pub parse_datetime :
    TimeField → InstallationError → InstallationError → Bool → Result (Option ℕ)
parse_datetime empty missing invalid true = err missing
parse_datetime empty missing invalid false = ok none
parse_datetime unreadable missing invalid required = err invalid
parse_datetime (time t) missing invalid required = ok (some t)

abbrev found {ℓ} : {A : Type ℓ} → Option A → InstallationError → Result A
found none e = err e
found (some a) e = ok a

unfoldable pub load_device : ℕ → Tables → Result Device
load_device n t = found (get n t.devices) device_not_found

unfoldable pub load_service_point : ℕ → Tables → Result ServicePoint
load_service_point n t = found (get n t.service_points) service_point_not_found

status_of : Text → Result InstallationStatus
status_of t =
    if not (non_empty t)
    then err missing_status
    else if text_eq t (codes "installed")
    then ok installed
    else if text_eq t (codes "removed")
    then ok removed
    else err invalid_installation_status

unfoldable pub validate_status : Option Text → Result InstallationStatus
unfolding status_of
validate_status value = status_of (lower (strip (or_empty value)))

abbrev pub is_installed : InstallationStatus → Bool
is_installed installed = true
is_installed removed = false

-- an installed row of the device that has no removal time
abbrev pub is_open_for : ℕ → InstallationHistory → Bool
is_open_for device r = r.device_id == device && is_installed r.status && is_none r.removed_at

-- `if exclude_id is not None: statement.where(id != exclude_id)`
abbrev pub not_excluded : Option ℕ → InstallationHistory → Bool
not_excluded none r = true
not_excluded (some n) r = not (r.id == n)

unfoldable pub validate_no_overlapping_open_installation : ℕ → Option ℕ → Tables → Result (Unit {0})
validate_no_overlapping_open_installation device exclude t =
    guard
      (is_none (
        scalar (λ _ _. false) (λ r. is_open_for device r && not_excluded exclude r)
          t.installations))
      overlapping_open_installation

abbrev ends_before : Option ℕ → ℕ → Bool
ends_before none t = false
ends_before (some r) t = ltb r t

validate_for_status : InstallationStatus → Option ℕ → ℕ → Option ℕ → Tables → Result (Unit {0})
unfolding validate_no_overlapping_open_installation
validate_for_status installed removed_at device exclude t = do
  _ ← guard (is_none removed_at) active_installation_cannot_have_removed_at
  validate_no_overlapping_open_installation device exclude t
validate_for_status removed removed_at device exclude t =
    guard (is_some removed_at) missing_removed_at

unfoldable pub validate_installation_window :
    ℕ → Option ℕ → InstallationStatus → ℕ → Option ℕ → Tables → Result (Unit {0})
unfolding validate_for_status
validate_installation_window installed_at removed_at status device exclude t = do
  _ ← guard (not (ends_before removed_at installed_at)) removed_at_before_installed_at
  validate_for_status status removed_at device exclude t

-- the checked fields of a form
pub record Checked : Type 0 where
  pub device_id : ℕ
  pub service_point_id : ℕ
  pub installed_at : ℕ
  pub removed_at : Option ℕ
  pub status : InstallationStatus

-- the validation that `create_…` and `update_…` share, text for text but for `exclude_id`;
-- the installed time is required, so `missing_installed_at` also stands for the failing assertion
unfoldable pub check_form : Form → Option ℕ → Tables → Result Checked
check_form form exclude t = do
  device_number ← found form.device_id missing_device_id
  point_number ← found form.service_point_id missing_service_point_id
  device ← load_device device_number t
  point ← load_service_point point_number t
  status ← validate_status form.status
  parsed ← parse_datetime form.installed_at missing_installed_at invalid_installed_at true
  removed_at ← parse_datetime form.removed_at missing_removed_at invalid_removed_at false
  installed_at ← found parsed missing_installed_at
  _ ← validate_installation_window installed_at removed_at status device.id exclude t
  ok (record {
    device_id = device.id;
    service_point_id = point.id;
    installed_at = installed_at;
    removed_at = removed_at;
    status = status;
  })

abbrev pub new_installation : ℕ → Option ℕ → Checked → InstallationHistory
new_installation new_id user c = record {
  id = new_id;
  device_id = c.device_id;
  service_point_id = c.service_point_id;
  installed_at = c.installed_at;
  removed_at = c.removed_at;
  status = c.status;
  created_by_user_account_id = user;
  updated_by_user_account_id = user;
}

unfoldable pub create_installation_history : Form → Tables → Result Tables
create_installation_history form t = do
  c ← check_form form none t
  ok (record t {
    installations =
        t.installations ++ new_installation (next_id t.installations) form.user_account_id c ∷ [];
  })

abbrev pub updated_row : Checked → Option ℕ → InstallationHistory → InstallationHistory
updated_row c user r = record r {
  device_id = c.device_id;
  service_point_id = c.service_point_id;
  installed_at = c.installed_at;
  removed_at = c.removed_at;
  status = c.status;
  updated_by_user_account_id = user;
}

-- `n` is the id of the row that the caller has loaded
unfoldable pub update_installation_history : ℕ → Form → Tables → Result Tables
update_installation_history n form t = do
  c ← check_form form (some n) t
  ok (record t { installations = modify n (updated_row c form.user_account_id) t.installations })
