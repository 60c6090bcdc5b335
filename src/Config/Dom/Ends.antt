-- ===== src/Config/Dom/Ends.antt =====
-- The loops that delete and adopt elements end.
use recording_agent_continuo.Prelude.{ℕ, zero, suc, ◌≤◌, ◌<◌, ◌≡◌, refl, Option, none, some, arith}
use recording_agent_continuo.Prelude.Text.{Text, codes}
use recording_agent_continuo.Config.Dom.{Mxml, delete_found, du_del_children_by_tag, adopt_found}

-- The number of elements with a tag.
pub record Counts {D N : Type 0} (m : Mxml D N) (tag : Text) (count : D → ℕ) : Type 0 where
  pub delete-count :
      (d : D) (n : N) → m.find d (m.root d) tag ≡ some n → count (m.delete n d) < count d
  pub adopt-count :
      (to n : N) (to_doc d : D)
      → m.find d (m.root d) tag ≡ some n
      → count (m.adopt to n to_doc d).1 < count d

module _ {D N : Type 0} (m : Mxml D N) (tag : Text) (count : D → ℕ)
    (counts : Counts m tag count) where
  delete_found-none :
      (fuel : ℕ) (o : Option N) (d : D)
      → m.find d (m.root d) tag ≡ o
      → count d ≤ fuel
      → let left = delete_found m fuel tag o d in m.find left (m.root left) tag ≡ none
  unfolding delete_found
  delete_found-none fuel none d found enough = found
  delete_found-none zero (some n) d found enough =
      absurd (let fewer = counts.delete-count d n found in omega arith)
  delete_found-none (suc fuel) (some n) d found enough =
      let left = m.delete n d in
      let fewer = counts.delete-count d n found in
      delete_found-none fuel (m.find left (m.root left) tag) left refl (omega arith)

  -- If each deletion of an element of a tag leaves fewer of them, then with fuel for all of them none
  -- is left.
  pub du_del_children_by_tag-none :
      (fuel : ℕ) (d : D)
      → count d ≤ fuel
      → let left = du_del_children_by_tag m fuel tag d in m.find left (m.root left) tag ≡ none
  unfolding du_del_children_by_tag
  du_del_children_by_tag-none fuel d enough =
      delete_found-none fuel (m.find d (m.root d) tag) d refl enough

module _ {D N : Type 0} (m : Mxml D N) (count : D → ℕ)
    (counts : Counts m (codes "camera") count) where
  -- If each adoption of a camera leaves fewer of them behind, all fuels for all of them give the same
  -- document.
  pub adopt_found-same :
      (fuel more : ℕ) (to : N) (o : Option N) (to_doc d : D)
      → m.find d (m.root d) (codes "camera") ≡ o
      → count d ≤ fuel
      → count d ≤ more
      → adopt_found m fuel to o to_doc d ≡ adopt_found m more to o to_doc d
  unfolding adopt_found
  adopt_found-same fuel more to none to_doc d found enough too = refl
  adopt_found-same zero more to (some n) to_doc d found enough too =
      absurd (let fewer = counts.adopt-count to n to_doc d found in omega arith)
  adopt_found-same (suc fuel) zero to (some n) to_doc d found enough too =
      absurd (let fewer = counts.adopt-count to n to_doc d found in omega arith)
  adopt_found-same (suc fuel) (suc more) to (some n) to_doc d found enough too =
      let fewer = counts.adopt-count to n to_doc d found in
      let to_left = (m.adopt to n to_doc d).0 in
      let left = (m.adopt to n to_doc d).1 in
      adopt_found-same fuel more to (m.find left (m.root left) (codes "camera")) to_left left refl
        (omega arith) (omega arith)
