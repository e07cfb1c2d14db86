-- ===== src/Portainer/Datatable/Ranges.antt =====
-- What a click with shift sets.
use native.Mathlib.Decide.{ℕ_discrete}
use ui_for_docker.Prelude.{
  ◌≢◌, ℕ, ◌+◌, ◌-◌, ◌≡◌, refl, Bool, true, ◌&&◌, some, List, [], ◌∷◌, arith, nat_eq_iff,
  if◌then◌else◌, includes, IsUnique, eq_nat, Bool-cases, inl, inr,
}
use ui_for_docker.Portainer.Datatable.Selected.{items_in_range-shown}
use ui_for_docker.Portainer.Datatable.{
  Table, set_checked, set_allowed, items_in_range, is_between, shift, click_range, click,
  clear_select_all, refresh, select_item, position,
}

pub set_allowed-lookup :
    (allow : ℕ → Bool) (value : Bool) (items : List ℕ) (checked : ℕ → Bool) (i : ℕ)
    → set_allowed allow value items checked i
      ≡ (if includes items i && allow i then value else checked i)
unfolding set_allowed set_checked includes
set_allowed-lookup allow value [] checked i = refl
set_allowed-lookup allow value (item ∷ items) checked i = elim (Bool-cases (allow item)) [
  | inl e ↦ rw e (
      ground (
        arith,
        set_allowed-lookup allow value items (set_checked item value checked) i,
        nat_eq_iff i item,
        nat_eq_iff item i,
      ))
  | inr e ↦ rw e (ground (arith, set_allowed-lookup allow value items checked i, nat_eq_iff item i))
]

shift_one : (p : ℕ) → 1 + p - 1 ≡ p
shift_one p = omega arith

shift_many : (p q : ℕ) → q + 1 + p - 1 ≡ q + (p + 1) - 1
shift_many p q = omega arith

cancel_one : (q : ℕ) → q + 1 - 1 ≡ q
cancel_one q = omega arith

position-zero : (i : ℕ) (xs : List ℕ) → includes xs i ≡ true → position i xs ≢ 0
unfolding position includes
position-zero i [] h = cc
position-zero i (x ∷ xs) h = ground (arith, position-zero i xs)

-- A row of a list without repetitions is in a range exactly if its position is.
includes-items_in_range :
    (a b p : ℕ) (xs : List ℕ) (i : ℕ)
    → IsUnique xs
    → includes xs i ≡ true
    → includes (items_in_range a b p xs) i ≡ is_between (position i xs + p - 1) a b
unfolding items_in_range position includes
includes-items_in_range a b p [] i u h = cc
includes-items_in_range a b p (x ∷ xs) i (fresh, u) h = elim (ℕ_discrete x i) [
  | yes same ↦
      ground (arith, items_in_range-shown a b (p + 1) xs x fresh, shift_one p, nat_eq_iff x i)
  | no other ↦ ground (
    arith,
    includes-items_in_range a b (p + 1) xs i u,
    position-zero i xs,
    shift_many p (position i xs),
    nat_eq_iff x i,
  )
]

-- A click with shift on a row that is shown, after a click on another row that is shown, sets
-- the flag of every row that stands between the two and may be selected to the flag of the first,
-- and changes no other flag. (The rows that are shown are distinct.)
pub select_item-shift :
    (allow : ℕ → Bool) (item first : ℕ) (t : Table) (i : ℕ)
    → t.first_clicked_item ≡ some first
    → IsUnique t.filtered_data_set
    → (select_item allow item (some shift) t).checked i ≡ (
        if includes t.filtered_data_set i
          && (is_between
                (position i t.filtered_data_set)
                (position first t.filtered_data_set)
                (position item t.filtered_data_set)
              && allow i)
        then t.checked first
        else t.checked i)
unfolding select_item click click_range refresh clear_select_all
select_item-shift allow item first t i e u =
    let rows = t.filtered_data_set in
    let range = items_in_range (position first rows) (position item rows) 1 rows in
    ground (
      arith,
      e,
      set_allowed-lookup allow (t.checked first) range t.checked i,
      includes-items_in_range (position first rows) (position item rows) 1 rows i u,
      items_in_range-shown (position first rows) (position item rows) 1 rows i,
      cancel_one (position i rows),
    )
