-- ===== src/Installations/Invariant.antt =====
-- Properties of app/services/installations.py, the creation and the update of a history.
use sim_mdms_auto.Prelude.{
  ℕ, ◌≤◌, false, ◌&&◌, Option, none, some, List, [], ◌∷◌, ◌++◌, ◌≡◌, refl, subst, ◌==◌, arith, All,
  All-append, count, count-append, any-count, scalar-none, modify, All-update_where,
  count-update_where-le, count-update_where_fail, Bool-cases, inl, inr, next_id, HasUniqueIds,
  HasUniqueIds-insert, HasUniqueIds-modify, is_none,
}
use sim_mdms_auto.Installations.{
  InstallationHistory, InstallationStatus, installed, removed, Tables, Form, ok, Checked, guard,
  InstallationError, validate_no_overlapping_open_installation, is_open_for, not_excluded,
  check_form, validate_installation_window, create_installation_history,
  update_installation_history, updated_row, new_installation, installation_row_id,
}

-- the removal time of a removed row is there and not before the installation
abbrev pub HasWindow : InstallationStatus → ℕ → Option ℕ → Type 0
HasWindow installed start none = Unit
HasWindow installed start (some end) = ⊥
HasWindow removed start none = ⊥
HasWindow removed start (some end) = start ≤ end

pub record IsConsistent (t : Tables) : Type 0 where
  pub ids : HasUniqueIds t.installations
  pub open_once : (device : ℕ) → count (is_open_for device) t.installations ≤ 1
  pub windows : All (λ r. HasWindow r.status r.installed_at r.removed_at) t.installations

guard-none {ℓ} :
    {A : Type ℓ} (o : Option A) (e : InstallationError) → guard (is_none o) e ≡ ok tt → o ≡ none
guard-none none e h = refl
guard-none (some a) e h = absurd (cc)

-- what the validation of a form has established
record IsChecked (exclude : Option ℕ) (t : Tables) (c : Checked) : Type 0 where
  window : HasWindow c.status c.installed_at c.removed_at
  alone :
      c.status ≡ installed
      → count (λ r. is_open_for c.device_id r && not_excluded exclude r) t.installations ≡ 0

alone_sound :
    (device : ℕ) (exclude : Option ℕ) (t : Tables)
    → validate_no_overlapping_open_installation device exclude t ≡ ok tt
    → count (λ r. is_open_for device r && not_excluded exclude r) t.installations ≡ 0
unfolding validate_no_overlapping_open_installation
alone_sound device exclude t h =
    any-count _ _ (scalar-none (λ _ _. false) _ t.installations (guard-none _ _ h))

window_sound :
    (start : ℕ) (end : Option ℕ) (s : InstallationStatus) (device : ℕ) (exclude : Option ℕ)
    (t : Tables)
    → validate_installation_window start end s device exclude t ≡ ok tt
    → HasWindow s start end
      × (s ≡ installed
          → count (λ r. is_open_for device r && not_excluded exclude r) t.installations ≡ 0)
unfolding validate_installation_window
window_sound start none installed device exclude t h = (tt, λ _. alone_sound device exclude t h)
window_sound start none removed device exclude t h = absurd (ground arith)
window_sound start (some end) installed device exclude t h = absurd (ground arith)
window_sound start (some end) removed device exclude t h =
    (ground arith, λ e. absurd (ground arith))

check_form-valid :
    (form : Form) (exclude : Option ℕ) (t : Tables) (c : Checked)
    → check_form form exclude t ≡ ok c
    → validate_installation_window c.installed_at c.removed_at c.status c.device_id exclude t
      ≡ ok tt
unfolding check_form
check_form-valid form exclude t c h = ground arith

check_form_sound :
    (form : Form) (exclude : Option ℕ) (t : Tables) (c : Checked)
    → check_form form exclude t ≡ ok c
    → IsChecked exclude t c
check_form_sound form exclude t c h =
    let w =
      window_sound c.installed_at c.removed_at c.status c.device_id exclude t
        (check_form-valid form exclude t c h) in
    record { window = w.0; alone = w.1 }

abbrev created_row : Form → Checked → Tables → InstallationHistory
created_row form c t = new_installation (next_id t.installations) form.user_account_id c

abbrev updated : ℕ → Form → Checked → Tables → List InstallationHistory
updated n form c t = modify n (updated_row c form.user_account_id) t.installations

module _ (form : Form) (c : Checked) (t : Tables) (v : IsConsistent t)
    (k : IsChecked none t c) where
  created_open :
      (device : ℕ) → count (is_open_for device) (t.installations ++ created_row form c t ∷ []) ≤ 1
  created_open device = ground (
    arith,
    count-append (is_open_for device) t.installations (created_row form c t ∷ []),
    v.open_once device,
    v.open_once c.device_id,
  )

  created-IsConsistent :
      IsConsistent (record t { installations = t.installations ++ created_row form c t ∷ [] })
  created-IsConsistent = record {
    ids = HasUniqueIds-insert t.installations _ refl v.ids;
    open_once = created_open;
    windows =
        All-append (λ r. HasWindow r.status r.installed_at r.removed_at) t.installations _ v.windows
          (k.window, tt);
  }

module _ (n : ℕ) (form : Form) (c : Checked) (t : Tables) (v : IsConsistent t)
    (k : IsChecked (some n) t c) where
  updated_open : (device : ℕ) → count (is_open_for device) (updated n form c t) ≤ 1
  unfolding modify
  updated_open device = ground (
    arith,
    count-update_where-le (is_open_for device) (λ r. r.id == n) (updated_row c form.user_account_id)
        t.installations,
    count-update_where_fail (is_open_for device) (λ r. r.id == n)
        (updated_row c form.user_account_id) t.installations,
    v.ids n,
    v.open_once device,
    k.alone,
  )

  updated_windows : All (λ r. HasWindow r.status r.installed_at r.removed_at) (updated n form c t)
  unfolding modify
  updated_windows =
      All-update_where (λ r. HasWindow r.status r.installed_at r.removed_at)
        (λ r. HasWindow r.status r.installed_at r.removed_at) (λ r. r.id == n)
        (updated_row c form.user_account_id) t.installations
        (λ x h. elim (Bool-cases (x.id == n)) [ inl e ↦ rw e k.window | inr e ↦ rw e h ]) v.windows

  updated-IsConsistent : IsConsistent (record t { installations = updated n form c t })
  updated-IsConsistent = record {
    ids = HasUniqueIds-modify n _ t.installations (λ x. refl) v.ids;
    open_once = updated_open;
    windows = updated_windows;
  }

created_from :
    (form : Form) (t t' : Tables)
    → create_installation_history form t ≡ ok t'
    → (c : Checked) × (check_form form none t ≡ ok c)
      × (record t { installations = t.installations ++ created_row form c t ∷ [] } ≡ t')
unfolding create_installation_history
created_from form t t' h = ground arith

updated_from :
    (n : ℕ) (form : Form) (t t' : Tables)
    → update_installation_history n form t ≡ ok t'
    → (c : Checked) × (check_form form (some n) t ≡ ok c)
      × (record t { installations = updated n form c t } ≡ t')
unfolding update_installation_history
updated_from n form t t' h = ground arith

-- If a history has distinct ids, at most one open installation for each device, and a removal time
-- exactly on its removed rows and never before the installed time, then so has the history after
-- any creation that is accepted.
pub create_installation_history-IsConsistent :
    (form : Form) (t t' : Tables)
    → IsConsistent t
    → create_installation_history form t ≡ ok t'
    → IsConsistent t'
create_installation_history-IsConsistent form t t' v h =
    let (c, checked, e) = created_from form t t' h in
    subst IsConsistent e (created-IsConsistent form c t v (check_form_sound form none t c checked))

-- If a history has distinct ids, at most one open installation for each device, and a removal time
-- exactly on its removed rows and never before the installed time, then so has the history after
-- any update that is accepted.
pub update_installation_history-IsConsistent :
    (n : ℕ) (form : Form) (t t' : Tables)
    → IsConsistent t
    → update_installation_history n form t ≡ ok t'
    → IsConsistent t'
update_installation_history-IsConsistent n form t t' v h =
    let (c, checked, e) = updated_from n form t t' h in
    subst IsConsistent e
      (updated-IsConsistent n form c t v (check_form_sound form (some n) t c checked))
