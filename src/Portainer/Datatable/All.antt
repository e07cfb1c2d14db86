-- ===== src/Portainer/Datatable/All.antt =====
-- What the checkbox of the header sets.
use ui_for_docker.Prelude.{
  ℕ, ◌≡◌, refl, Bool, ◌&&◌, none, List, [], ◌∷◌, arith, nat_eq, nat_eq_iff, if◌then◌else◌, includes,
  eq_nat,
}
use ui_for_docker.Portainer.Datatable.{
  Table, set_checked, refresh, select_item, differs, select_all_step, select_all_from, select_all,
}

checked-select_all_step :
    (allow : ℕ → Bool) (item : ℕ) (t : Table) (i : ℕ)
    → (select_all_step allow item t).checked i
      ≡ (if nat_eq item i && allow i then t.select_all else t.checked i)
unfolding select_all_step select_item refresh set_checked differs
checked-select_all_step allow item t i = ground (arith, nat_eq_iff i item, nat_eq_iff item i)

flag-select_all_step :
    (allow : ℕ → Bool) (item : ℕ) (t : Table)
    → (select_all_step allow item t).select_all ≡ t.select_all
unfolding select_all_step select_item refresh
flag-select_all_step allow item t = ground arith

select_all_from-lookup :
    (allow : ℕ → Bool) (items : List ℕ) (t : Table) (i : ℕ)
    → ((select_all_from allow items t).checked i
        ≡ (if includes items i && allow i then t.select_all else t.checked i))
      × ((select_all_from allow items t).select_all ≡ t.select_all)
unfolding select_all_from includes
select_all_from-lookup allow [] t i = (refl, refl)
select_all_from-lookup allow (item ∷ items) t i = ground (
  arith,
  select_all_from-lookup allow items (select_all_step allow item t) i,
  checked-select_all_step allow item t i,
  flag-select_all_step allow item t,
)

-- The checkbox of the header sets the flag of every row that is shown and may be selected to its
-- own value, changes no other flag, and keeps its value.
pub select_all-lookup :
    (allow : ℕ → Bool) (value : Bool) (t : Table) (i : ℕ)
    → ((select_all allow value t).checked i
        ≡ (if includes t.filtered_data_set i && allow i then value else t.checked i))
      × ((select_all allow value t).select_all ≡ value)
unfolding select_all
select_all-lookup allow value t i =
    select_all_from-lookup allow t.filtered_data_set
      (record t { select_all = value; first_clicked_item = none }) i
