-- ===== src/Tests/Datatable.antt =====
-- The selection of a table of three rows at concrete inputs.
use ui_for_docker.Prelude.{
  ℕ, ◌≡◌, refl, none, some, List, [], ◌∷◌, Bool, true, false, ◌&&◌, includes, eq_nat, IsUnique,
  if◌then◌else◌,
}
use ui_for_docker.Portainer.Datatable.{
  Table, plain, shift, position, is_between, click, click_one, select_item, select_all,
}
use ui_for_docker.Portainer.Datatable.Selected.{
  IsConsistent, row_click, header_click, here, next, Reach-IsConsistent,
}
use ui_for_docker.Portainer.Datatable.Ranges.{select_item-shift}

abbrev three_rows : List ℕ
three_rows = 1 ∷ 2 ∷ 3 ∷ []

abbrev allow : ℕ → Bool
allow item = true

abbrev nothing_checked : ℕ → Bool
nothing_checked item = false

abbrev nothing_selected : Table
nothing_selected = record {
  checked = nothing_checked;
  filtered_data_set = three_rows;
  selected_items = [];
  select_all = false;
  first_clicked_item = none;
}

abbrev first_clicked : Table
first_clicked = select_item allow 1 (some plain) nothing_selected

nothing_selected-IsConsistent : IsConsistent three_rows nothing_selected
unfolding includes
nothing_selected-IsConsistent = record {
  within = λ i h. h;
  sound = λ i h. cc h;
  complete = λ i h k. cc k;
  unique = tt;
}

shown : (includes three_rows 1 ≡ true) × (includes three_rows 3 ≡ true)
unfolding includes
shown = (refl, refl)

Reach-IsConsistent_example :
    IsConsistent three_rows (select_all allow true (select_item allow 3 (some shift) first_clicked))
unfolding select_item click click_one
Reach-IsConsistent_example = Reach-IsConsistent allow three_rows nothing_selected-IsConsistent (
    next (next (next here (row_click 1 plain shown.0)) (row_click 3 shift shown.1))
      (header_click true))

abbrev after_first : Table
after_first = record nothing_selected { first_clicked_item = some 1 }

three_rows-IsUnique : IsUnique three_rows
unfolding includes
three_rows-IsUnique = (refl, (refl, (refl, tt)))

select_item-shift_example : (select_item allow 3 (some shift) after_first).checked 2 ≡ (
    if includes three_rows 2
      && (is_between (position 2 three_rows) (position 1 three_rows) (position 3 three_rows)
          && allow 2)
    then nothing_checked 1
    else nothing_checked 2)
select_item-shift_example = select_item-shift allow 3 1 after_first 2 refl three_rows-IsUnique
