-- ===== src/Portainer/Datatable/Selected.antt =====
-- What stands in `selectedItems`: the checked rows, each once.
use ui_for_docker.Prelude.{
  ℕ, ◌+◌, ◌≡◌, refl, Bool, true, false, ◌&&◌, ◌||◌, not, Option, none, some, List, [], ◌∷◌, ◌++◌,
  arith, nat_eq_iff, includes, includes-append, includes-keep, keep-IsUnique, IsUnique, eq_nat,
  Bool-cases, inl, inr,
}
use ui_for_docker.Portainer.Datatable.{
  Table, set_checked, set_allowed, items_in_range, uniq_from, checked_items, Click, plain, shift,
  click_one, click_range, click, refresh, clear_select_all, select_item, select_all_step,
  select_all_from, select_all, differs,
}

includes-uniq_from :
    (xs seen : List ℕ) (i : ℕ)
    → includes (uniq_from seen xs) i ≡ (includes xs i && not (includes seen i))
unfolding uniq_from includes
includes-uniq_from [] seen i = refl
includes-uniq_from (x ∷ xs) seen i =
    ground (arith, includes-uniq_from xs seen i, includes-uniq_from xs (x ∷ seen) i, nat_eq_iff x i)

uniq_from-IsUnique : (xs seen : List ℕ) → IsUnique (uniq_from seen xs)
unfolding uniq_from includes
uniq_from-IsUnique [] seen = tt
uniq_from-IsUnique (x ∷ xs) seen = elim (Bool-cases (includes seen x)) [
  | inl e ↦ rw e (uniq_from-IsUnique xs seen)
  | inr e ↦
      rw e (ground (arith, includes-uniq_from xs (x ∷ seen) x), uniq_from-IsUnique xs (x ∷ seen))
]

-- The flags show what is selected: among all rows of the table, filtered or not, exactly the
-- checked ones stand in `selectedItems`, each once. The filter shows rows of the table.
pub record IsConsistent (rows : List ℕ) (t : Table) : Type 0 where
  pub within : (i : ℕ) → includes t.filtered_data_set i ≡ true → includes rows i ≡ true
  pub sound :
      (i : ℕ) → includes t.selected_items i ≡ true → (includes rows i ≡ true) × (t.checked i ≡ true)
  pub complete :
      (i : ℕ) → includes rows i ≡ true → t.checked i ≡ true → includes t.selected_items i ≡ true
  pub unique : IsUnique t.selected_items

includes-checked_items :
    (t : Table) (i : ℕ)
    → includes (checked_items t) i
      ≡ (t.checked i && (includes t.selected_items i || includes t.filtered_data_set i))
unfolding checked_items includes
includes-checked_items t i = ground (
  arith,
  includes-keep t.checked (uniq_from [] (t.selected_items ++ t.filtered_data_set)) i,
  includes-uniq_from (t.selected_items ++ t.filtered_data_set) [] i,
  includes-append t.selected_items t.filtered_data_set i,
)

-- Flags that changed only at rows that are shown.
ChangesShown : Table → Table → Type 0
ChangesShown t t' =
    (t'.filtered_data_set ≡ t.filtered_data_set)
    × (t'.selected_items ≡ t.selected_items)
    × ((i : ℕ) → includes t.filtered_data_set i ≡ false → t'.checked i ≡ t.checked i)

refresh-IsConsistent :
    (rows : List ℕ) (t t' : Table)
    → IsConsistent rows t
    → ChangesShown t t'
    → IsConsistent rows (refresh t')
unfolding refresh ChangesShown
refresh-IsConsistent rows t t' c (filtered, selected, unchanged) = record {
  within = λ i h. c.within i (rw filtered at h);
  sound = λ i h. ground (arith, includes-checked_items t' i, c.sound i, c.within i);
  complete = λ i h k. ground (arith, includes-checked_items t' i, c.complete i, unchanged i);
  unique = unfold checked_items in keep-IsUnique t'.checked _ (uniq_from-IsUnique _ []);
}

set_allowed-other :
    (allow : ℕ → Bool) (value : Bool) (items : List ℕ) (checked : ℕ → Bool) (i : ℕ)
    → includes items i ≡ false
    → set_allowed allow value items checked i ≡ checked i
unfolding set_allowed set_checked includes
set_allowed-other allow value [] checked i h = refl
set_allowed-other allow value (item ∷ items) checked i h = elim (Bool-cases (allow item)) [
  | inl e ↦
      rw e (ground (arith, set_allowed-other allow value items (set_checked item value checked) i))
  | inr e ↦ rw e (set_allowed-other allow value items checked i (ground arith))
]

-- What stands in a range stands in the list.
pub items_in_range-shown :
    (a b p : ℕ) (items : List ℕ) (i : ℕ)
    → includes items i ≡ false
    → includes (items_in_range a b p items) i ≡ false
unfolding items_in_range includes
items_in_range-shown a b p [] i h = refl
items_in_range-shown a b p (item ∷ items) i h =
    ground (arith, items_in_range-shown a b (p + 1) items i)

click_range-ChangesShown :
    (allow : ℕ → Bool) (first item : ℕ) (t : Table)
    → ChangesShown t (click_range allow first item t)
unfolding click_range ChangesShown
click_range-ChangesShown allow first item t = (
  refl,
  refl,
  λ i h.
      set_allowed-other allow (t.checked first) _ t.checked i
        (items_in_range-shown _ _ 1 t.filtered_data_set i h),
)

click_one-ChangesShown :
    (item : ℕ) (t : Table)
    → includes t.filtered_data_set item ≡ true
    → ChangesShown t (click_one item t)
unfolding click_one ChangesShown set_checked
click_one-ChangesShown item t shown = (refl, refl, λ i h. ground (arith, nat_eq_iff i item))

click-ChangesShown :
    (allow : ℕ → Bool) (item : ℕ) (c : Click) (first : Option ℕ) (t : Table)
    → includes t.filtered_data_set item ≡ true
    → ChangesShown t (click allow item c first t)
unfolding click
click-ChangesShown allow item plain first t shown = click_one-ChangesShown item t shown
click-ChangesShown allow item shift none t shown = click_one-ChangesShown item t shown
click-ChangesShown allow item shift (some first) t shown =
    click_range-ChangesShown allow first item t

clear_select_all-IsConsistent :
    (rows : List ℕ) (t : Table) → IsConsistent rows t → IsConsistent rows (clear_select_all t)
unfolding clear_select_all
clear_select_all-IsConsistent rows t c = record {
  within = c.within;
  sound = c.sound;
  complete = c.complete;
  unique = c.unique;
}

select_item-IsConsistent :
    (allow : ℕ → Bool) (rows : List ℕ) (item : ℕ) (c : Click) (t : Table)
    → IsConsistent rows t
    → includes t.filtered_data_set item ≡ true
    → IsConsistent rows (select_item allow item (some c) t)
unfolding select_item
select_item-IsConsistent allow rows item c t consistent shown =
    clear_select_all-IsConsistent rows (refresh (click allow item c t.first_clicked_item t)) (
      refresh-IsConsistent rows t (click allow item c t.first_clicked_item t) consistent
        (click-ChangesShown allow item c t.first_clicked_item t shown))

select_all_step-IsConsistent :
    (allow : ℕ → Bool) (rows : List ℕ) (item : ℕ) (t : Table)
    → IsConsistent rows t
    → includes t.filtered_data_set item ≡ true
    → IsConsistent rows (select_all_step allow item t)
unfolding select_all_step select_item ChangesShown set_checked
select_all_step-IsConsistent allow rows item t c shown =
    elim (Bool-cases (allow item && differs (t.checked item) t.select_all)) [
      | inl e ↦ rw e (
          refresh-IsConsistent rows t
            (record t { checked = set_checked item t.select_all t.checked }) c
            (refl, refl, λ i h. ground (arith, nat_eq_iff i item)))
      | inr e ↦ rw e c
    ]

filtered-select_all_step :
    (allow : ℕ → Bool) (item : ℕ) (t : Table)
    → (select_all_step allow item t).filtered_data_set ≡ t.filtered_data_set
unfolding select_all_step select_item refresh
filtered-select_all_step allow item t = ground arith

select_all_from-IsConsistent :
    (allow : ℕ → Bool) (rows items : List ℕ) (t : Table)
    → IsConsistent rows t
    → ((i : ℕ) → includes items i ≡ true → includes t.filtered_data_set i ≡ true)
    → IsConsistent rows (select_all_from allow items t)
unfolding select_all_from includes
select_all_from-IsConsistent allow rows [] t c shown = c
select_all_from-IsConsistent allow rows (item ∷ items) t c shown =
    select_all_from-IsConsistent allow rows items (select_all_step allow item t)
      (select_all_step-IsConsistent allow rows item t c
        (shown item (ground (arith, nat_eq_iff item item))))
      (λ i h. rw filtered-select_all_step (shown i (ground arith)))

select_all-IsConsistent :
    (allow : ℕ → Bool) (rows : List ℕ) (value : Bool) (t : Table)
    → IsConsistent rows t
    → IsConsistent rows (select_all allow value t)
unfolding select_all
select_all-IsConsistent allow rows value t c =
    select_all_from-IsConsistent allow rows t.filtered_data_set _
      (record { within = c.within; sound = c.sound; complete = c.complete; unique = c.unique })
      (λ i h. h)

-- What a user does with the table: click a row that is shown, with or without shift, use the
-- checkbox of the header, or change the filter.
pub data Step (allow : ℕ → Bool) (rows : List ℕ) (t : Table) : Table → Type 0 where
  row_click :
      (item : ℕ) (c : Click)
      → includes t.filtered_data_set item ≡ true
      → Step allow rows t (select_item allow item (some c) t)
  header_click : (value : Bool) → Step allow rows t (select_all allow value t)
  filter_change :
      (shown : List ℕ)
      → ((i : ℕ) → includes shown i ≡ true → includes rows i ≡ true)
      → Step allow rows t (record t { filtered_data_set = shown })

pub data Reach (allow : ℕ → Bool) (rows : List ℕ) (s : Table) : Table → Type 0 where
  here : Reach allow rows s s
  next : {t u : Table} → Reach allow rows s t → Step allow rows t u → Reach allow rows s u

Step-IsConsistent :
    (allow : ℕ → Bool) (rows : List ℕ) {t u : Table}
    → Step allow rows t u
    → IsConsistent rows t
    → IsConsistent rows u
Step-IsConsistent allow rows (row_click item c shown) h =
    select_item-IsConsistent allow rows item c _ h shown
Step-IsConsistent allow rows (header_click value) h = select_all-IsConsistent allow rows value _ h
Step-IsConsistent allow rows (filter_change shown inside) h = record {
  within = inside;
  sound = h.sound;
  complete = h.complete;
  unique = h.unique;
}

-- Whatever the user does, the selection shows the flags: from a table in which the rows that are
-- selected are exactly the checked ones, each once, every sequence of clicks on rows that are
-- shown, of uses of the header's checkbox and of changes of the filter leads to such a table.
pub Reach-IsConsistent :
    (allow : ℕ → Bool) (rows : List ℕ) {s t : Table}
    → IsConsistent rows s
    → Reach allow rows s t
    → IsConsistent rows t
Reach-IsConsistent allow rows h here = h
Reach-IsConsistent allow rows h (next r st) =
    Step-IsConsistent allow rows st (Reach-IsConsistent allow rows h r)
