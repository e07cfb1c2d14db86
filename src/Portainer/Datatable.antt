-- ===== src/Portainer/Datatable.antt =====
-- The selection of rows in app/portainer/components/datatables/genericDatatableController.js.
-- A row is an object with a flag `Checked`; rows are told apart by a number, their identity, and
-- the flags of all rows are one function. `allow` is the method `allowSelection`, which tables
-- override. `onSelectionChanged` does nothing here.
pub mod Selected
pub mod Ranges
pub mod All
use ui_for_docker.Prelude.{
  ℕ, zero, suc, ◌+◌, ◌≡◌, Bool, true, false, ◌&&◌, ◌||◌, not, Option, none, some, List, [], ◌∷◌,
  ◌++◌, leb, nat_eq, if◌then◌else◌, includes, keep, eq_nat, length,
}

pub record Table : Type 0 where
  pub checked : ℕ → Bool
  pub filtered_data_set : List ℕ
  pub selected_items : List ℕ
  pub select_all : Bool
  pub first_clicked_item : Option ℕ

-- `item.Checked = value`
unfoldable pub set_checked : ℕ → Bool → (ℕ → Bool) → ℕ → Bool
set_checked item value checked i = if nat_eq i item then value else checked i

-- `item.Checked = value` for the items of a list that may be selected.
unfoldable pub set_allowed : (ℕ → Bool) → Bool → List ℕ → (ℕ → Bool) → ℕ → Bool
set_allowed allow value [] checked = checked
set_allowed allow value (item ∷ items) checked =
    set_allowed allow value items (if allow item then set_checked item value checked else checked)

-- `indexOf`, plus one, so that 0 stands for -1.
unfoldable pub position : ℕ → List ℕ → ℕ
position item [] = 0
position item (x ∷ xs) =
    let p = position item xs in if nat_eq x item then 1 else if nat_eq p 0 then 0 else p + 1

unfoldable pub is_between : ℕ → ℕ → ℕ → Bool
is_between value a b = leb a value && leb value b || leb b value && leb value a

-- `itemsInRange`, with the position of the next row.
unfoldable pub items_in_range : ℕ → ℕ → ℕ → List ℕ → List ℕ
items_in_range a b p [] = []
items_in_range a b p (item ∷ items) =
    let rest = items_in_range a b (p + 1) items in if is_between p a b then item ∷ rest else rest

-- `_.uniq`, with the items that were seen.
unfoldable pub uniq_from : List ℕ → List ℕ → List ℕ
uniq_from seen [] = []
uniq_from seen (x ∷ xs) =
    let new = uniq_from (x ∷ seen) xs in
    let rest = uniq_from seen xs in if includes seen x then rest else x ∷ new

-- `_.uniq(_.concat(selectedItems, filteredDataSet)).filter((i) => i.Checked)`
unfoldable pub checked_items : Table → List ℕ
checked_items t = keep t.checked (uniq_from [] (t.selected_items ++ t.filtered_data_set))

-- What a click carries: whether shift was held down.
pub data Click : Type 0 where
  plain shift : Click

unfoldable pub click_one : ℕ → Table → Table
click_one item t = record t {
  checked = set_checked item (not (t.checked item)) t.checked;
  first_clicked_item = some item;
}

unfoldable pub click_range : (ℕ → Bool) → ℕ → ℕ → Table → Table
click_range allow first item t = record t {
  checked =
      set_allowed allow (t.checked first)
        (items_in_range (position first t.filtered_data_set) (position item t.filtered_data_set) 1
          t.filtered_data_set)
        t.checked;
  first_clicked_item = some item;
}

-- The flags after a click.
unfoldable pub click : (ℕ → Bool) → ℕ → Click → Option ℕ → Table → Table
click allow item plain first t = click_one item t
click allow item shift none t = click_one item t
click allow item shift (some first) t = click_range allow first item t

unfoldable pub refresh : Table → Table
refresh t = record t { selected_items = checked_items t }

-- `if (event && this.state.selectAll && …) this.state.selectAll = false`
unfoldable pub clear_select_all : Table → Table
clear_select_all t = record t {
  select_all = t.select_all && nat_eq (length t.selected_items) (length t.filtered_data_set);
}

-- `selectItem(item)`, without an event, and `selectItem(item, event)`.
unfoldable pub select_item : (ℕ → Bool) → ℕ → Option Click → Table → Table
unfolding refresh clear_select_all
select_item allow item none t = refresh t
select_item allow item (some c) t =
    clear_select_all (refresh (click allow item c t.first_clicked_item t))

unfoldable pub differs : Bool → Bool → Bool
differs true b = not b
differs false b = b

-- One round of the loop of `selectAll`.
unfoldable pub select_all_step : (ℕ → Bool) → ℕ → Table → Table
unfolding differs
select_all_step allow item t =
    if allow item && differs (t.checked item) t.select_all
    then select_item allow item none
        (record t { checked = set_checked item t.select_all t.checked })
    else t

unfoldable pub select_all_from : (ℕ → Bool) → List ℕ → Table → Table
select_all_from allow [] t = t
select_all_from allow (item ∷ items) t = select_all_from allow items (select_all_step allow item t)

-- The checkbox of the header sets the flag and calls `selectAll`.
unfoldable pub select_all : (ℕ → Bool) → Bool → Table → Table
select_all allow value t =
    select_all_from allow t.filtered_data_set
      (record t { select_all = value; first_clicked_item = none })

unfoldable pub everywhere : ℕ → Bool
everywhere item = true

unfoldable pub reset_selection_state : Table → Table
unfolding everywhere
reset_selection_state t = record t {
  select_all = false;
  selected_items = [];
  checked = set_allowed everywhere false t.filtered_data_set t.checked;
}
